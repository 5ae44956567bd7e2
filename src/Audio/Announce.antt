-- ===== src/Audio/Announce.antt =====
-- firmware/link_audio.c: the start, and the announcements that go to every peer with an audio endpoint.
pub mod Bounds
use Prim.Native.Nat.{bit_xor}
use colorlight_i9_abletonlin.Base.{
  ℕ, zero, suc, ◌+◌, ◌-◌, ◌*◌, ◌/◌, ◌%◌, ◌^◌, Bool, true, false, not, ◌||◌, ◌&&◌, List, [], ◌∷◌,
  ◌++◌, ltb, ◌==◌, if◌then◌else◌, length, take, replicate,
}
use colorlight_i9_abletonlin.Config.{
  num_tdm_ports, tdm_channels_per_port, max_channels, discovery_ttl_sec, discovery_bcast_ms,
  discovery_port,
}
use colorlight_i9_abletonlin.Types.{LinkId, Peer, zero_id}
use colorlight_i9_abletonlin.Device.{
  Device, Env, M, ◌>>=◌, ◌>>◌, get, pure, send, v4_unicast, host_time_us,
}
use colorlight_i9_abletonlin.Wire.{
  put_be32, tlv_emit_header, tlv_emit_bytes, tlv_emit_u64be, key_sess, key_pi, key_auca, key_ht,
}
use colorlight_i9_abletonlin.Audio.{
  Local, Remote, Sub, Audio, Capture, zero_sub, zero_remote, max_remote, frames_per_pkt,
}
use colorlight_i9_abletonlin.Audio.Catalog.{encode_audio_header}

-- Byte `i` of an id from the time.
abbrev pub id_byte : ℕ → ℕ → ℕ
id_byte t i = bit_xor (t / 2 ^ (i * 8) % 256) ((0xa5 + i * 7) % 256)

unfoldable pub id_of : ℕ → LinkId
id_of t =
    id_byte t 0
    ∷ id_byte t 1
    ∷ id_byte t 2
    ∷ id_byte t 3
    ∷ id_byte t 4
    ∷ id_byte t 5
    ∷ id_byte t 6
    ∷ id_byte t 7
    ∷ []

-- What `snprintf` writes for "tdm%d-ch%02d" with a port of one digit and a channel of two.
abbrev pub channel_name : ℕ → ℕ → List ℕ
channel_name port ch =
    b't'
    ∷ b'd'
    ∷ b'm'
    ∷ (b'0' + port)
    ∷ b'-'
    ∷ b'c'
    ∷ b'h'
    ∷ (b'0' + ch / 10)
    ∷ (b'0' + ch % 10)
    ∷ []

abbrev pub new_local : LinkId → ℕ → ℕ → Local
new_local id port ch = record {
  in_use = true;
  channel_id = id;
  name = channel_name port ch;
  tdm_port = port;
  tdm_channel = ch;
  next_send_count = 0;
  num_subscribers = 0;
  sub_addr = replicate 8 0;
  sub_port = replicate 8 0;
  sub_peer = replicate 8 zero_id;
}

-- `s_peer_name` of this file, which nothing writes.
abbrev pub peer_name : List ℕ
peer_name = b'l' ∷ b'i' ∷ b'n' ∷ b'k' ∷ b'f' ∷ b'p' ∷ b'g' ∷ b'a' ∷ []

-- One announced channel.
abbrev pub put_channel : Local → List ℕ
put_channel c = put_be32 (length c.name) ++ (c.name ++ take 8 c.channel_id)

-- The two loops over the channels in use.
unfoldable pub channels_size : List Local → ℕ
channels_size [] = 0
channels_size (c ∷ cs) = (if c.in_use then 4 + length c.name + 8 else 0) + channels_size cs

unfoldable pub channels_count : List Local → ℕ
channels_count [] = 0
channels_count (c ∷ cs) = (if c.in_use then 1 else 0) + channels_count cs

unfoldable pub put_channels : List Local → List ℕ
put_channels [] = []
put_channels (c ∷ cs) = (if c.in_use then put_channel c else []) ++ put_channels cs

-- The message without its ping.
unfoldable pub encode_channels : Device → List Local → List ℕ
encode_channels d locals =
    let start = encode_audio_header d 1 discovery_ttl_sec in
    let sess = tlv_emit_bytes start key_sess d.self_session 8 in
    let name =
      tlv_emit_header sess key_pi (4 + length peer_name)
      ++ (put_be32 (length peer_name) ++ peer_name) in
    tlv_emit_header name key_auca (4 + channels_size locals)
    ++ (put_be32 (channels_count locals) ++ put_channels locals)

unfoldable pub send_pong : ℕ → ℕ → ℕ → M (Unit {0})
send_pong addr port echoed_ht = do
  d ← get
  send (v4_unicast addr port) discovery_port
      (tlv_emit_u64be (encode_audio_header d 3 discovery_ttl_sec) key_ht echoed_ht)

abbrev pub has_endpoint : Peer → Bool
has_endpoint p = p.in_use && not (p.aep4_addr == 0)

module _ (env : Env) where
  unfoldable pub random_id : M LinkId
  random_id = do t ← host_time_us env; pure (id_of t)

  -- The loops over the ports and channels, from channel `ch` of port `port` on, `left` more.
  unfoldable pub init_locals : ℕ → ℕ → ℕ → M (List Local)
  init_locals zero port ch = pure []
  init_locals (suc left) port ch = do
    id ← random_id
    let last = ch + 1 == tdm_channels_per_port
    rest ← init_locals left (if last then port + 1 else port) (if last then 0 else ch + 1)
    pure (new_local id port ch ∷ rest)

  -- The packets under way are not touched.
  unfoldable pub link_audio_init : Audio → M Audio
  link_audio_init a = do
    locals ← init_locals max_channels 0 0
    pure (record a {
      locals = locals;
      remotes = replicate max_remote zero_remote;
      subs = replicate max_remote zero_sub;
      s_last_announce_us = 0;
    })

  unfoldable pub encode_peer_announcement : List Local → Bool → M (List ℕ)
  encode_peer_announcement locals with_ping = do
    d ← get
    if with_ping
        then (do t ← host_time_us env; pure (tlv_emit_u64be (encode_channels d locals) key_ht t))
        else pure (encode_channels d locals)

  abbrev pub announce_to : List Local → Bool → Peer → M (Unit {0})
  announce_to locals first p = do
    buf ← encode_peer_announcement locals first
    send (v4_unicast p.aep4_addr p.aep4_port) discovery_port buf

  -- The loop over the peers; the first message sent has the ping.
  unfoldable pub announce_peers : List Local → List Peer → Bool → M (Unit {0})
  announce_peers locals [] first = pure tt
  announce_peers locals (p ∷ ps) first = do
    if has_endpoint p then announce_to locals first p else pure tt
    announce_peers locals ps (if has_endpoint p then false else first)

  unfoldable pub send_announcements : Audio → M Audio
  send_announcements a = do
    d ← get
    announce_peers a.locals d.peers true
    now ← host_time_us env
    pure (record a { s_last_announce_us = now })
