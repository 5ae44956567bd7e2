-- ===== src/Measure/Reply.antt =====
-- A ping of firmware/measurement.c, the answer of firmware/measurement_responder.c, and what the
-- sender of the ping decodes.
use colorlight_i9_abletonlin.Base.{
  ℕ, ◌+◌, ◌-◌, ◌^◌, ◌≤◌, ◌<◌, ◌≡◌, refl, Bool, true, false, List, [], ◌∷◌, ◌++◌, append_assoc,
  append-nil, arith, if◌then◌else◌, ltb, le→ltb, same_refl, length, length-append, take, drop,
  take-append,
}
use colorlight_i9_abletonlin.Config.{discovery_port, max_msg_link}
use colorlight_i9_abletonlin.Types.{LinkId}
use colorlight_i9_abletonlin.Clock.Laws.{ghost_counter-lt}
use colorlight_i9_abletonlin.Device.{Device, Env, v4_unicast, ghost_time_us}
use colorlight_i9_abletonlin.Wire.{
  ret, byte_at, be64, put_be64, tlv_emit_u64be, tlv_emit_bytes, tlv_walk, key_ht, key_gt, key_pgt,
  key_sess,
}
use colorlight_i9_abletonlin.Wire.Bytes.{length-put_be64, length-put_be32, be64-put_be64}
use colorlight_i9_abletonlin.Wire.Entries.{Entry, IsKeyed, emit_all, deliver}
use colorlight_i9_abletonlin.Wire.Laws.{
  tlv_emit_u64be-append, tlv_emit_bytes-append, tlv_walk-emit_all,
}
use colorlight_i9_abletonlin.Measure.{
  proto_link, encode_ping, Pong, zero_pong, pong_handler, measurement_responder_handle_rx,
}

abbrev word : ℕ → ℕ → Entry
word k v = record { key = k; value = put_be64 v }

-- The entries of a ping.
abbrev ping_entries : ℕ → ℕ → Bool → List Entry
ping_entries ht pg has_prev = word key_ht ht ∷ (if has_prev then word key_pgt pg ∷ [] else [])

-- What an answer to the ping carries.
abbrev pub answer : LinkId → ℕ → ℕ → ℕ → Bool → Pong
answer session gt ht pg has_prev = record {
  ht = ht;
  gt = gt;
  pgt = if has_prev then pg else 0;
  have_ht = true;
  have_gt = true;
  have_pgt = has_prev;
  sess = session;
  have_sess = true;
}

encode_ping-entries :
    (ht pg : ℕ) (has_prev : Bool)
    → encode_ping ht pg has_prev
      ≡ (proto_link ++ (1 ∷ [])) ++ emit_all (ping_entries ht pg has_prev)
unfolding encode_ping
encode_ping-entries ht pg true = simp (tlv_emit_u64be-append, append_assoc, append-nil)
encode_ping-entries ht pg false = simp (tlv_emit_u64be-append, append_assoc, append-nil)

be64_word : (v : ℕ) → v < 2 ^ 64 → be64 (put_be64 v) ≡ v
be64_word v h = rw append-nil at (be64-put_be64 v [] h)

accepts :
    (v : ℕ) (c : Pong)
    → v < 2 ^ 64
    → (pong_handler key_ht (put_be64 v) (length (put_be64 v)) c
        ≡ (true, record c { ht = v; have_ht = true }))
      × (pong_handler key_gt (put_be64 v) (length (put_be64 v)) c
          ≡ (true, record c { gt = v; have_gt = true }))
      × (pong_handler key_pgt (put_be64 v) (length (put_be64 v)) c
          ≡ (true, record c { pgt = v; have_pgt = true }))
unfolding pong_handler
accepts v c h = rw (length-put_be64, be64_word v h) (refl, refl, refl)

abbrev reply_entries : LinkId → ℕ → ℕ → ℕ → Bool → List Entry
reply_entries s gt ht pg has_prev =
    record { key = key_sess; value = s } ∷ word key_gt gt ∷ ping_entries ht pg has_prev

-- The session id of a device, of its size.
module _ (s : LinkId) (size : length s ≡ 8) where
  whole : take 8 s ≡ s
  whole = rw (← size) (rw append-nil at (take-append s []))

  accepts_session :
      (c : Pong)
      → pong_handler key_sess s (length s) c ≡ (true, record c { sess = s; have_sess = true })
  unfolding pong_handler
  accepts_session c = rw (size, whole) refl

  deliver_reply :
      (gt ht pg : ℕ) (has_prev : Bool)
      → gt < 2 ^ 64
      → ht < 2 ^ 64
      → pg < 2 ^ 64
      → deliver pong_handler (reply_entries s gt ht pg has_prev) zero_pong
        ≡ (true, answer s gt ht pg has_prev)
  deliver_reply gt ht pg true hg hh hp =
      rw (accepts_session _, (accepts gt _ hg).1, (accepts ht _ hh).0, (accepts pg _ hp).2) refl
  deliver_reply gt ht pg false hg hh hp =
      rw (accepts_session _, (accepts gt _ hg).1, (accepts ht _ hh).0) refl

  length-reply :
      (gt ht pg : ℕ) (has_prev : Bool)
      → length (emit_all (reply_entries s gt ht pg has_prev)) ≡ (if has_prev then 64 else 48)
  length-reply gt ht pg true = simp (length-append, length-put_be64, length-put_be32, size)
  length-reply gt ht pg false = simp (length-append, length-put_be64, length-put_be32, size)

  reply_small :
      (gt ht pg : ℕ) (has_prev : Bool) → length (emit_all (reply_entries s gt ht pg has_prev)) ≤ 64
  reply_small gt ht pg true = omega (arith, length-reply gt ht pg true)
  reply_small gt ht pg false = omega (arith, length-reply gt ht pg false)

  reply_IsKeyed : (gt ht pg : ℕ) (has_prev : Bool) → IsKeyed (reply_entries s gt ht pg has_prev)
  reply_IsKeyed gt ht pg true = omega arith
  reply_IsKeyed gt ht pg false = omega arith

ghost_time_us-lt : (env : Env) (d : Device) → (ghost_time_us env d).0 < 2 ^ 64
unfolding ghost_time_us
ghost_time_us-lt env d = ghost_counter-lt env.counter d.clock

-- The part that the responder writes in front of the entries of the ping.
front : LinkId → ℕ → List ℕ
front s gt = tlv_emit_u64be (tlv_emit_bytes (proto_link ++ (2 ∷ [])) key_sess s 8) key_gt gt

-- The datagram that a device answers with.
unfoldable pub reply : Env → Device → ℕ → ℕ → Bool → List ℕ
reply env d ht pg has_prev =
    (proto_link ++ (2 ∷ []))
    ++ emit_all (reply_entries d.self_session (ghost_time_us env d).0 ht pg has_prev)

module _ (ht pg : ℕ) (has_prev : Bool) where
  ping_checks :
      (ltb (length (encode_ping ht pg has_prev)) 9 ≡ false)
      × (take 8 (encode_ping ht pg has_prev) ≡ proto_link)
      × (byte_at (encode_ping ht pg has_prev) 8 ≡ 1)
      × (drop 9 (encode_ping ht pg has_prev) ≡ emit_all (ping_entries ht pg has_prev))
  ping_checks = rw encode_ping-entries (ground arith, refl, refl, refl)

  module _ (s : LinkId) (gt : ℕ) (size : length s ≡ 8) where
    front_entries :
        front s gt ++ emit_all (ping_entries ht pg has_prev)
        ≡ (proto_link ++ (2 ∷ [])) ++ emit_all (reply_entries s gt ht pg has_prev)
    unfolding front
    front_entries =
        rw (rw size at (tlv_emit_bytes-append (proto_link ++ (2 ∷ [])) key_sess s))
          (simp (tlv_emit_u64be-append, append_assoc, size))

    fits :
        ltb (max_msg_link - length (front s gt)) (length (encode_ping ht pg has_prev) - 9) ≡ false
    fits =
        let tail : List ℕ = emit_all (ping_entries ht pg has_prev) in
        let ping : length (encode_ping ht pg has_prev) ≡ 9 + length tail =
          rw encode_ping-entries (omega arith) in
        let whole_reply : length (front s gt ++ tail)
            ≡ 9 + length (emit_all (reply_entries s gt ht pg has_prev)) =
          rw front_entries (omega arith) in
        le→ltb _ _ (
          omega (
            arith,
            length-append (front s gt) tail,
            whole_reply,
            ping,
            reply_small s size gt ht pg has_prev,
          ))

  answered :
      (env : Env) (d : Device) (a p : ℕ)
      → length d.self_session ≡ 8
      → (measurement_responder_handle_rx env (encode_ping ht pg has_prev) a p d).1.sent
        ≡ d.sent
          ++ (record {
            destination = v4_unicast a p;
            src_port = discovery_port;
            payload = reply env d ht pg has_prev;
          }
              ∷ [])
  unfolding measurement_responder_handle_rx front reply ghost_time_us
  answered env d a p size =
      let gt : ℕ = (ghost_time_us env d).0 in
      let c = ping_checks in
      rw
        (
          c.0,
          c.1,
          c.2,
          same_refl proto_link,
          fits d.self_session gt size,
          c.3,
          front_entries d.self_session gt size,
        )
        refl

-- A device with a session id of eight bytes answers a ping, whose two times fit 64 bits, with one
-- datagram to its sender, and the sender of the ping, wherever below the last 100 addresses the
-- datagram lies in its memory, decodes from it the device's session and ghost time and the two
-- times that it put into the ping.
pub responder_lem :
    (env : Env) (d : Device) (ht pg a p base : ℕ) (has_prev : Bool)
    → length d.self_session ≡ 8
    → ht < 2 ^ 64
    → pg < 2 ^ 64
    → base + 100 < 2 ^ 32
    → let out = reply env d ht pg has_prev in
      ((measurement_responder_handle_rx env (encode_ping ht pg has_prev) a p d).1.sent
        ≡ d.sent
          ++ (record { destination = v4_unicast a p; src_port = discovery_port; payload = out }
              ∷ []))
      × (take 8 out ≡ proto_link)
      × (byte_at out 8 ≡ 2)
      × (tlv_walk (base + 9) (drop 9 out) pong_handler zero_pong
          ≡ ret true (answer d.self_session (ghost_time_us env d).0 ht pg has_prev))
unfolding measurement_responder_handle_rx reply
responder_lem env d ht pg a p base has_prev size hh hp room =
    let gt : ℕ = (ghost_time_us env d).0 in
    let g = ghost_time_us-lt env d in
    let small = reply_small d.self_session size gt ht pg has_prev in
    (
      answered ht pg has_prev env d a p size,
      refl,
      refl,
      rw
          (
            tlv_walk-emit_all (base + 9) pong_handler zero_pong
                (reply_entries d.self_session gt ht pg has_prev)
                (reply_IsKeyed d.self_session size gt ht pg has_prev) (omega arith),
            deliver_reply d.self_session size gt ht pg has_prev g hh hp,
          )
          refl,
    )
