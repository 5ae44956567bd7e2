-- ===== src/Discovery/Codec.antt =====
-- firmware/link.c: `encode_msg` and `handle_entry`.
pub mod Fields
pub mod Message
use colorlight_i9_abletonlin.Base.{
  ℕ, Bool, true, false, List, [], ◌∷◌, ◌++◌, ◌==◌, if◌then◌else◌, take, drop,
}
use colorlight_i9_abletonlin.Config.{discovery_ttl_sec, discovery_port}
use colorlight_i9_abletonlin.Types.{Peer}
use colorlight_i9_abletonlin.Device.{Device, Env}
use colorlight_i9_abletonlin.Wire.{
  Callback, byte_at, be16, be32, be64, put_be16, put_be32, put_be64, tlv_emit_header,
  tlv_emit_bytes, key_tmln, key_sess, key_stst, key_mep4, key_mep6, key_aep4, key_aep6,
}

-- "_asdp_v" and the version byte.
abbrev pub proto_hdr : List ℕ
proto_hdr = b'_' ∷ b'a' ∷ b's' ∷ b'd' ∷ b'p' ∷ b'_' ∷ b'v' ∷ 1 ∷ []

-- The protocol header and the message header.
unfoldable pub encode_header : Device → ℕ → ℕ → List ℕ
encode_header d mtype ttl = proto_hdr ++ (mtype ∷ ttl ∷ 0 ∷ 0 ∷ take 8 d.self_id)

-- The size returned is the length of the list.
unfoldable pub encode_msg : Env → Device → ℕ → Bool → List ℕ
unfolding encode_header
encode_msg env d mtype with_state =
    let start = encode_header d mtype discovery_ttl_sec in
    let tmln =
      tlv_emit_header start key_tmln 24
      ++ put_be64 d.self_timeline.tempo_us_per_beat
      ++ put_be64 d.self_timeline.beat_origin_microbeats
      ++ put_be64 d.self_timeline.time_origin_us_ghost in
    let sess = tlv_emit_bytes tmln key_sess d.self_session 8 in
    let playing : ℕ = if d.self_startstop.is_playing == 0 then 0 else 1 in
    let stst =
      tlv_emit_header sess key_stst 17
      ++ (playing ∷ [])
      ++ put_be64 d.self_startstop.beats_microbeats
      ++ put_be64 d.self_startstop.timestamp_us_ghost in
    let mep4 =
      tlv_emit_header stst key_mep4 6 ++ put_be32 env.local_ipv4 ++ put_be16 discovery_port in
    let mep6 =
      tlv_emit_header mep4 key_mep6 18 ++ take 16 env.local_ipv6 ++ put_be16 discovery_port in
    let aep4 =
      tlv_emit_header mep6 key_aep4 6 ++ put_be32 env.local_ipv4 ++ put_be16 discovery_port in
    let aep6 =
      tlv_emit_header aep4 key_aep6 18 ++ take 16 env.local_ipv6 ++ put_be16 discovery_port in
    if with_state then aep6 else start

-- The `switch` on the key; the context is the peer that the entry is written into.
abbrev accept : Bool → Peer → Peer → Bool × Peer
accept fits updated p = if fits then (true, updated) else (false, p)

unfoldable pub handle_entry : Callback Peer
handle_entry key v n p =
    if key == key_tmln
    then accept (n == 24)
        (record p {
          timeline = record {
            tempo_us_per_beat = be64 v;
            beat_origin_microbeats = be64 (drop 8 v);
            time_origin_us_ghost = be64 (drop 16 v);
          };
        })
        p
    else if key == key_sess
    then accept (n == 8) (record p { session_id = take 8 v }) p
    else if key == key_stst
    then accept (n == 17)
        (record p {
          startstop = record {
            is_playing = if byte_at v 0 == 0 then 0 else 1;
            beats_microbeats = be64 (drop 1 v);
            timestamp_us_ghost = be64 (drop 9 v);
          };
        })
        p
    else if key == key_mep4
    then accept (n == 6) (record p { mep4_addr = be32 v; mep4_port = be16 (drop 4 v) }) p
    else if key == key_aep4
    then accept (n == 6) (record p { aep4_addr = be32 v; aep4_port = be16 (drop 4 v) }) p
    else if key == key_mep6
    then accept (n == 18)
        (record p { mep6_addr = take 16 v; mep6_port = be16 (drop 16 v); have_mep6 = true }) p
    else if key == key_aep6
    then accept (n == 18)
        (record p { aep6_addr = take 16 v; aep6_port = be16 (drop 16 v); have_aep6 = true }) p
    else (true, p)
