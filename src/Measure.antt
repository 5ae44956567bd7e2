-- ===== src/Measure.antt =====
-- firmware/measurement.c and firmware/measurement_responder.c. A function that may call the
-- completion returns the call, success and intercept, and Session makes it: it is the last thing
-- that each of them does.
pub mod Reply
use colorlight_i9_abletonlin.Base.{
  ℕ, ◌+◌, ◌-◌, ◌*◌, ◌%◌, ◌^◌, Bool, true, false, ◌&&◌, ◌||◌, not, List, [], ◌∷◌, ◌++◌, Option, none,
  some, ltb, leb, ◌==◌, if◌then◌else◌, same, length, take, drop, set, replicate,
}
use colorlight_i9_abletonlin.Base.Int64.{add64, sub64, sdiv64}
use colorlight_i9_abletonlin.Config.{
  discovery_port, ping_interval_ms, max_pings, sample_threshold, max_msg_link,
}
use colorlight_i9_abletonlin.Types.{LinkId, zero_id}
use colorlight_i9_abletonlin.Median.{median_i64}
use colorlight_i9_abletonlin.Device.{
  Device, Measurement, Env, M, ◌>>=◌, ◌>>◌, get, modify, pure, when, send, host_time_us,
  ghost_time_us, v4_unicast,
}
use colorlight_i9_abletonlin.Wire.{
  Walk, ret, fault, running, Callback, byte_at, be64, tlv_walk, tlv_emit_u64be, tlv_emit_bytes,
  key_ht, key_gt, key_pgt, key_sess,
}

abbrev pub proto_link : List ℕ
proto_link = b'_' ∷ b'l' ∷ b'i' ∷ b'n' ∷ b'k' ∷ b'_' ∷ b'v' ∷ 1 ∷ []

abbrev pub max_samples : ℕ
max_samples = 200

-- `memset(&S, 0, sizeof(S))`.
abbrev pub zero_measurement : Measurement
zero_measurement = record {
  active = false;
  target_addr = 0;
  target_port = 0;
  target_session = zero_id;
  pings_sent = 0;
  next_send_us = 0;
  prev_ghost_time = 0;
  prev_host_time = 0;
  samples = replicate max_samples 0;
  n_samples = 0;
}

-- What `measurement_start` writes before the first ping.
abbrev pub started : ℕ → ℕ → LinkId → Measurement
started addr port session_id = record zero_measurement {
  active = true;
  target_addr = addr;
  target_port = port;
  target_session = session_id;
}

-- The call of the completion, if there is one.
abbrev pub Completion : Type 0
Completion = Option (Bool × ℕ)

unfoldable pub encode_ping : ℕ → ℕ → Bool → List ℕ
encode_ping host_time prev_ghost_time has_prev =
    let p = tlv_emit_u64be (proto_link ++ (1 ∷ [])) key_ht host_time in
    if has_prev then tlv_emit_u64be p key_pgt prev_ghost_time else p

abbrev set_meas : (Measurement → Measurement) → M (Unit {0})
set_meas f = modify λ d. record d { meas = f d.meas }

pub record Pong : Type 0 where
  pub ht : ℕ
  pub gt : ℕ
  pub pgt : ℕ
  pub have_ht : Bool
  pub have_gt : Bool
  pub have_pgt : Bool
  pub sess : LinkId
  pub have_sess : Bool

abbrev pub zero_pong : Pong
zero_pong = record {
  ht = 0;
  gt = 0;
  pgt = 0;
  have_ht = false;
  have_gt = false;
  have_pgt = false;
  sess = zero_id;
  have_sess = false;
}

abbrev accept : Bool → Pong → Pong → Bool × Pong
accept fits updated p = if fits then (true, updated) else (false, p)

unfoldable pub pong_handler : Callback Pong
pong_handler key v n ctx =
    if key == key_ht
    then accept (n == 8) (record ctx { ht = be64 v; have_ht = true }) ctx
    else if key == key_gt
    then accept (n == 8) (record ctx { gt = be64 v; have_gt = true }) ctx
    else if key == key_pgt
    then accept (n == 8) (record ctx { pgt = be64 v; have_pgt = true }) ctx
    else if key == key_sess
    then accept (n == 8) (record ctx { sess = take 8 v; have_sess = true }) ctx
    else (true, ctx)

-- `S.samples[S.n_samples++] = x`, under its bound.
unfoldable pub add_sample : Bool → ℕ → Measurement → Measurement
add_sample wanted x s =
    if wanted && ltb s.n_samples max_samples
    then record s { samples = set s.samples s.n_samples x; n_samples = s.n_samples + 1 }
    else s

-- The two samples of a pong, and the ghost time kept for the next ping.
unfoldable pub take_samples : Pong → ℕ → Measurement → Measurement
take_samples ctx now_host s =
    let first = add_sample true (sub64 ctx.gt (sdiv64 (add64 now_host ctx.ht) 2)) s in
    let second =
      add_sample (ctx.have_pgt && not (s.prev_host_time == 0))
        (sub64 (sdiv64 (add64 ctx.gt ctx.pgt) 2) ctx.ht) first in
    record second { prev_ghost_time = ctx.gt }

module _ (env : Env) where
  unfoldable pub send_ping : M (Unit {0})
  send_ping = do
    now ← host_time_us env
    d ← get
    let s = d.meas
    send (v4_unicast s.target_addr s.target_port) discovery_port
        (encode_ping now s.prev_ghost_time (ltb 0 s.pings_sent))
    set_meas (λ s. record s { prev_host_time = now; pings_sent = s.pings_sent + 1 })
    later ← host_time_us env
    set_meas (λ s. record s { next_send_us = (later + ping_interval_ms * 1000) % 2 ^ 64 })

  abbrev pub begin : ℕ → ℕ → LinkId → M (Unit {0})
  begin addr port session_id = do set_meas (λ s. started addr port session_id); send_ping

  unfoldable pub measurement_start : ℕ → ℕ → LinkId → M (Unit {0})
  measurement_start addr port session_id = do
    d ← get
    when (not d.meas.active) (begin addr port session_id)

  abbrev stop : M (Unit {0})
  stop = set_meas (λ s. record s { active = false })

  abbrev pub give_up : M Completion
  give_up = do stop; pure (some (false, 0))

  unfoldable pub measurement_tick : M Completion
  measurement_tick = do
    d ← get
    if not d.meas.active then pure none else do
      now ← host_time_us env
      if not (leb d.meas.next_send_us now)
          then pure none
          else if leb max_pings d.meas.pings_sent
          then give_up
          else (do send_ping; pure none)

  -- Behind the median: `none` is one that did not end.
  abbrev pub finish : Device → Option (ℕ × List ℕ) → Option (Completion × Device)
  finish d none = none
  finish d (some (m, left)) =
      some (some (true, m), record d { meas = record d.meas { samples = left; active = false } })

  -- Behind the two samples: the median, or another ping.
  unfoldable pub conclude : Device → Option (Completion × Device)
  conclude d =
      if ltb sample_threshold d.meas.n_samples
      then finish d (median_i64 d.meas.samples d.meas.n_samples)
      else some ((do send_ping; pure none) d)

  -- Behind the walk over the pong's entries.
  unfoldable pub handle_pong : Pong → Device → Option (Completion × Device)
  handle_pong ctx d =
      if not (ctx.have_ht && ctx.have_gt && ctx.have_sess)
      then some (none, d)
      else if not (same ctx.sess d.meas.target_session)
      then some (give_up d)
      else let read = host_time_us env d in
        conclude (record read.1 { meas = take_samples ctx read.0 read.1.meas })

  -- Behind the walk: a refused entry, or a length that does not fit, ends the handler.
  abbrev pub walked : Device → Walk Pong → Option (Completion × Device)
  walked d (ret true ctx) = handle_pong ctx d
  walked d (ret false ctx) = some (none, d)
  walked d fault = none
  walked d running = none

  -- `none`: the walk left the buffer or did not end. `base` is the address of `buf`.
  unfoldable pub measurement_handle_rx : ℕ → List ℕ → ℕ → ℕ → Device → Option (Completion × Device)
  measurement_handle_rx base buf src_addr src_port d =
      let ignored = some (none, d) in
      let s = d.meas in
      if not s.active
      then ignored
      else if not (src_addr == s.target_addr) || not (src_port == s.target_port)
      then ignored
      else if ltb (length buf) (8 + 1)
      then ignored
      else if not (same (take 8 buf) proto_link)
      then ignored
      else if not (byte_at buf 8 == 2)
      then ignored
      else walked d (tlv_walk (base + 9) (drop 9 buf) pong_handler zero_pong)

  -- firmware/measurement_responder.c.
  unfoldable pub measurement_responder_handle_rx : List ℕ → ℕ → ℕ → M (Unit {0})
  measurement_responder_handle_rx buf src_addr src_port =
      if ltb (length buf) (8 + 1)
      then pure tt
      else if not (same (take 8 buf) proto_link)
      then pure tt
      else if not (byte_at buf 8 == 1)
      then pure tt
      else do
        d ← get
        ghost ← ghost_time_us env
        let out =
            tlv_emit_u64be (tlv_emit_bytes (proto_link ++ (2 ∷ [])) key_sess d.self_session 8)
              key_gt ghost
        when (not (ltb (max_msg_link - length out) (length buf - 9)))
            (send (v4_unicast src_addr src_port) discovery_port (out ++ drop 9 buf))
