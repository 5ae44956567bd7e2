-- ===== src/Discovery/Codec/Message.antt =====
-- `encode_msg` of firmware/link.c as a header and a list of entries, and what a peer decodes.
use colorlight_i9_abletonlin.Base.{
  ℕ, ◌+◌, ◌^◌, ◌<◌, ◌≡◌, refl, true, List, [], ◌∷◌, ◌++◌, append_assoc, append-nil, ◌==◌,
  if◌then◌else◌, drop, take, length, length-append, arith, take-append, take_exact, drop-append,
}
use colorlight_i9_abletonlin.Config.{discovery_port}
use colorlight_i9_abletonlin.Types.{Peer, Timeline, StartStop}
use colorlight_i9_abletonlin.Device.{Device, Env}
use colorlight_i9_abletonlin.Wire.{
  ret, tlv_walk, byte_at, be16, tlv_emit_bytes, put_be16, put_be32, put_be64, key_tmln, key_sess,
  key_stst, key_mep4, key_mep6, key_aep4, key_aep6,
}
use colorlight_i9_abletonlin.Wire.Bytes.{length-put_be16, length-put_be32, length-put_be64}
use colorlight_i9_abletonlin.Wire.Entries.{Entry, emit_all, deliver, deliver-cons}
use colorlight_i9_abletonlin.Wire.Laws.{tlv_emit_header-append, tlv_walk-emit_all}
use colorlight_i9_abletonlin.Discovery.Codec.{proto_hdr, encode_header, encode_msg, handle_entry}
use colorlight_i9_abletonlin.Discovery.Codec.Fields.{
  handle_entry-tmln, handle_entry-sess, handle_entry-stst, handle_entry-mep4, handle_entry-mep6,
  handle_entry-aep4, handle_entry-aep6,
}

-- The sizes of the arrays and words of a device.
pub record IsSized (env : Env) (d : Device) : Type 0 where
  pub id : length d.self_id ≡ 8
  pub session : length d.self_session ≡ 8
  pub v6 : length env.local_ipv6 ≡ 16
  pub v4 : env.local_ipv4 < 2 ^ 32
  pub tempo : d.self_timeline.tempo_us_per_beat < 2 ^ 64
  pub beats : d.self_timeline.beat_origin_microbeats < 2 ^ 64
  pub origin : d.self_timeline.time_origin_us_ghost < 2 ^ 64
  pub start_beats : d.self_startstop.beats_microbeats < 2 ^ 64
  pub start_time : d.self_startstop.timestamp_us_ghost < 2 ^ 64

abbrev pub flag : ℕ → ℕ
flag n = if n == 0 then 0 else 1

flag-flag : (n : ℕ) → flag (flag n) ≡ flag n
flag-flag n = ground arith

-- The values of the seven entries.
abbrev tmln_value : Timeline → List ℕ
tmln_value t =
    put_be64 t.tempo_us_per_beat
    ++ (put_be64 t.beat_origin_microbeats ++ put_be64 t.time_origin_us_ghost)

abbrev stst_value : StartStop → List ℕ
stst_value s = flag s.is_playing ∷ (put_be64 s.beats_microbeats ++ put_be64 s.timestamp_us_ghost)

abbrev v4_value : Env → List ℕ
v4_value env = put_be32 env.local_ipv4 ++ put_be16 discovery_port

abbrev v6_value : Env → List ℕ
v6_value env = env.local_ipv6 ++ put_be16 discovery_port

abbrev pub state_entries : Env → Device → List Entry
state_entries env d =
    record { key = key_tmln; value = tmln_value d.self_timeline }
    ∷ record { key = key_sess; value = d.self_session }
    ∷ record { key = key_stst; value = stst_value d.self_startstop }
    ∷ record { key = key_mep4; value = v4_value env }
    ∷ record { key = key_mep6; value = v6_value env }
    ∷ record { key = key_aep4; value = v4_value env }
    ∷ record { key = key_aep6; value = v6_value env }
    ∷ []

-- The entry of a peer table that a message of `d` has been decoded into.
abbrev pub announced : Env → Device → Peer → Peer
announced env d p = record p {
  timeline = d.self_timeline;
  session_id = d.self_session;
  startstop = record d.self_startstop { is_playing = flag d.self_startstop.is_playing };
  mep4_addr = env.local_ipv4;
  mep4_port = discovery_port;
  mep6_addr = env.local_ipv6;
  mep6_port = discovery_port;
  have_mep6 = true;
  aep4_addr = env.local_ipv4;
  aep4_port = discovery_port;
  aep6_addr = env.local_ipv6;
  aep6_port = discovery_port;
  have_aep6 = true;
}

module _ (env : Env) (d : Device) (w : IsSized env d) where
  length-tmln : length (tmln_value d.self_timeline) ≡ 24
  length-tmln = simp (length-append, length-put_be64)

  length-stst : length (stst_value d.self_startstop) ≡ 17
  length-stst = simp (length-append, length-put_be64)

  length-v4 : length (v4_value env) ≡ 6
  length-v4 = simp (length-append, length-put_be32, length-put_be16)

  length-v6 : length (v6_value env) ≡ 18
  length-v6 = simp (length-append, w.v6, length-put_be16)

  pub encode_msg-entries :
      (mtype : ℕ)
      → encode_msg env d mtype true ≡ encode_header d mtype 5 ++ emit_all (state_entries env d)
  unfolding encode_msg tlv_emit_bytes
  encode_msg-entries mtype = simp (
    length-append,
    length-put_be64,
    length-put_be32,
    length-put_be16,
    w.session,
    w.v6,
    take_exact 8 d.self_session w.session,
    take_exact 16 env.local_ipv6 w.v6,
    tlv_emit_header-append,
    append-nil,
    append_assoc,
  )

  session_entry :
      (p : Peer)
      → handle_entry key_sess d.self_session 8 p ≡ (true, record p { session_id = d.self_session })
  session_entry p =
      rw (take_exact 8 d.self_session w.session) at (handle_entry-sess p d.self_session w.session)

  startstop_entry :
      (p : Peer)
      → handle_entry key_stst (stst_value d.self_startstop) 17 p ≡ (
        true,
        record p {
          startstop = record d.self_startstop { is_playing = flag d.self_startstop.is_playing };
        },
      )
  startstop_entry p =
      rw (flag-flag d.self_startstop.is_playing) at
        (handle_entry-stst p (flag d.self_startstop.is_playing) _ _ w.start_beats w.start_time)

  deliver_state :
      (p : Peer) → deliver handle_entry (state_entries env d) p ≡ (true, announced env d p)
  deliver_state p =
      let p1 = record p { timeline = d.self_timeline } in
      let p2 = record p1 { session_id = d.self_session } in
      let p3 = record p2 {
        startstop = record d.self_startstop { is_playing = flag d.self_startstop.is_playing };
      } in
      let p4 = record p3 { mep4_addr = env.local_ipv4; mep4_port = discovery_port } in
      let p5 = record p4 {
        mep6_addr = env.local_ipv6;
        mep6_port = discovery_port;
        have_mep6 = true;
      } in
      let p6 = record p5 { aep4_addr = env.local_ipv4; aep4_port = discovery_port } in
      let e6 : Entry = record { key = key_aep6; value = v6_value env } in
      let es6 : List Entry = [] in
      let e5 : Entry = record { key = key_aep4; value = v4_value env } in
      let es5 : List Entry = e6 ∷ es6 in
      let e4 : Entry = record { key = key_mep6; value = v6_value env } in
      let es4 : List Entry = e5 ∷ es5 in
      let e3 : Entry = record { key = key_mep4; value = v4_value env } in
      let es3 : List Entry = e4 ∷ es4 in
      let e2 : Entry = record { key = key_stst; value = stst_value d.self_startstop } in
      let es2 : List Entry = e3 ∷ es3 in
      let e1 : Entry = record { key = key_sess; value = d.self_session } in
      let es1 : List Entry = e2 ∷ es2 in
      let e0 : Entry = record { key = key_tmln; value = tmln_value d.self_timeline } in
      let es0 : List Entry = e1 ∷ es1 in
      deliver-cons handle_entry e0 es0 p p1
        (rw length-tmln (handle_entry-tmln p _ _ _ w.tempo w.beats w.origin))
        (deliver-cons handle_entry e1 es1 p1 p2 (rw w.session (session_entry p1)) (
          deliver-cons handle_entry e2 es2 p2 p3 (rw length-stst (startstop_entry p2)) (
            deliver-cons handle_entry e3 es3 p3 p4
              (rw length-v4 (handle_entry-mep4 p3 _ _ w.v4 (omega arith)))
              (deliver-cons handle_entry e4 es4 p4 p5
                (rw length-v6 (handle_entry-mep6 p4 _ _ w.v6 (omega arith)))
                (deliver-cons handle_entry e5 es5 p5 p6
                  (rw length-v4 (handle_entry-aep4 p5 _ _ w.v4 (omega arith)))
                  (deliver-cons handle_entry e6 es6 p6 (announced env d p)
                    (rw length-v6 (handle_entry-aep6 p6 _ _ w.v6 (omega arith))) refl))))))

  length-state_entries : length (emit_all (state_entries env d)) ≡ 153
  length-state_entries =
      simp (length-append, length-put_be64, length-put_be32, length-put_be16, w.session, w.v6)

  pub length-encode_msg : (mtype : ℕ) → length (encode_msg env d mtype true) ≡ 173
  unfolding encode_header
  length-encode_msg mtype =
      let front : length (encode_header d mtype 5) ≡ 20 =
        simp (take_exact 8 d.self_id w.id, w.id) in
      rw (encode_msg-entries mtype) (
        omega (
          arith,
          length-append (encode_header d mtype 5) (emit_all (state_entries env d)),
          front,
          length-state_entries,
        ))

  -- What `link_handle_rx` reads of the message's header.
  pub encode_msg_header :
      (mtype : ℕ)
      → (take 8 (encode_msg env d mtype true) ≡ proto_hdr)
        × (byte_at (encode_msg env d mtype true) 8 ≡ mtype)
        × (be16 (drop 10 (encode_msg env d mtype true)) ≡ 0)
        × (take 8 (drop 12 (encode_msg env d mtype true)) ≡ d.self_id)
        × (drop 20 (encode_msg env d mtype true) ≡ emit_all (state_entries env d))
  unfolding encode_header be16
  encode_msg_header mtype =
      let es : List ℕ = emit_all (state_entries env d) in
      let front : take 8 (d.self_id ++ es) ≡ d.self_id = rw w.id at (take-append d.self_id es) in
      let behind : drop 8 (d.self_id ++ es) ≡ es = rw w.id at (drop-append d.self_id es) in
      rw (encode_msg-entries mtype, take_exact 8 d.self_id w.id) (refl, refl, refl, front, behind)

  -- The entries of the message of a device whose arrays and words have their sizes, below the last
  -- 181 addresses, are decoded into the peer, and the walk returns 0.
  pub walk-encode_msg :
      (base mtype : ℕ) (p : Peer)
      → base + 173 + 8 < 2 ^ 32
      → tlv_walk (base + 20) (drop 20 (encode_msg env d mtype true)) handle_entry p
        ≡ ret true (announced env d p)
  walk-encode_msg base mtype p h =
      let es : List Entry = state_entries env d in
      let size : length (emit_all es) ≡ 153 = length-state_entries in
      rw (encode_msg_header mtype).4 (
        rw
          (
            tlv_walk-emit_all (base + 20) handle_entry p es (omega arith) (omega arith),
            deliver_state p,
          )
          refl)
