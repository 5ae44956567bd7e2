-- ===== src/Invariant/Buffer.antt =====
-- The operations of firmware/measurement.c and measurement_responder.c keep the invariant.
use colorlight_i9_abletonlin.Base.{
  ℕ, ◌+◌, ◌≤◌, ◌≡◌, refl, ◌∙◌, Bool, true, false, List, Option, none, some, length, length-set,
  arith, ltb, leb, ltb→lt, ltb→le, if◌then◌else◌, ◌&&◌, ◌||◌, Bool-cases, inl, inr, same, ◌==◌, not,
  take, drop,
}
use colorlight_i9_abletonlin.Types.{LinkId}
use colorlight_i9_abletonlin.Config.{sample_threshold}
use colorlight_i9_abletonlin.Device.{Device, Measurement, Env, M, when, host_time_us, ghost_time_us}
use colorlight_i9_abletonlin.Median.Order.{Medians, median_i64_lem}
use colorlight_i9_abletonlin.Wire.{Walk, ret, fault, running, tlv_walk, byte_at}
use colorlight_i9_abletonlin.Wire.Total.{Returns}
use colorlight_i9_abletonlin.Measure.{
  proto_link, started, Completion, Pong, zero_pong, pong_handler, add_sample, take_samples,
  send_ping, measurement_start, measurement_tick, begin, finish, conclude, walked, handle_pong,
  measurement_handle_rx, measurement_responder_handle_rx,
}
use colorlight_i9_abletonlin.Invariant.{IsBuffer, Inv}

-- An operation whose result satisfies the invariant.
abbrev pub Keeps : {A : Type 0} → M A → Type 0
Keeps m = (d : Device) → Inv d → Inv (m d).1

pub set_meas-Inv : (d d' : Device) → d'.peers ≡ d.peers → IsBuffer d'.meas → Inv d → Inv d'
set_meas-Inv d d' e b v = record { slots = rw e v.slots; unique = rw e v.unique; buffer = b }

pub Inv-if :
    {A : Type 0} (b : Bool) (m n : M A) (d : Device)
    → Inv (m d).1
    → Inv (n d).1
    → Inv ((if b then m else n) d).1
Inv-if true m n d h h' = h
Inv-if false m n d h h' = h'

pub Inv-when : (b : Bool) (m : M (Unit {0})) (d : Device) → Inv d → Inv (m d).1 → Inv (when b m d).1
Inv-when true m d h h' = h'
Inv-when false m d h h' = h

add_sample-IsBuffer :
    (b : Bool) (x : ℕ) (s : Measurement) → IsBuffer s → IsBuffer (add_sample b x s)
unfolding add_sample
add_sample-IsBuffer b x s v = ground (arith, length-set s.samples s.n_samples x)

-- A pong adds two samples at most, and none past the end of the buffer.
pub take_samples-IsBuffer :
    (c : Pong) (now : ℕ) (s : Measurement) → IsBuffer s → IsBuffer (take_samples c now s)
unfolding take_samples
take_samples-IsBuffer c now s v =
    let twice = add_sample-IsBuffer _ _ _ (add_sample-IsBuffer true _ s v) in
    record { size = twice.size; filled = twice.filled }

module _ (env : Env) where
  pub send_ping-Inv : Keeps (send_ping env)
  unfolding send_ping host_time_us
  send_ping-Inv d v =
      set_meas-Inv d _ refl (record { size = v.buffer.size; filled = v.buffer.filled }) v

  pub measurement_start-Inv :
      (addr port : ℕ) (id : LinkId) → Keeps (measurement_start env addr port id)
  unfolding measurement_start
  measurement_start-Inv addr port id d v =
      Inv-when (not d.meas.active) (begin env addr port id) d v (
        send_ping-Inv _ (
          set_meas-Inv d (record d { meas = started addr port id }) refl
            (record { size = refl; filled = omega arith }) v))

  pub measurement_tick-Inv : Keeps (measurement_tick env)
  unfolding measurement_tick host_time_us
  measurement_tick-Inv d v =
      let read : Device = (host_time_us env d).1 in
      let v' : Inv read = set_meas-Inv d read refl v.buffer v in
      Inv-if (not d.meas.active) _ _ d v (
        Inv-if (not (leb d.meas.next_send_us _)) _ _ read v' (
          Inv-if (leb 5 d.meas.pings_sent) _ _ read
            (set_meas-Inv d _ refl (record { size = v.buffer.size; filled = v.buffer.filled }) v)
            (send_ping-Inv read v')))

  -- The responder leaves the peers and the measurement as they are.
  pub responder_frame :
      (buf : List ℕ) (src_addr src_port : ℕ) (d : Device)
      → ((measurement_responder_handle_rx env buf src_addr src_port d).1.peers ≡ d.peers)
        × ((measurement_responder_handle_rx env buf src_addr src_port d).1.meas ≡ d.meas)
  unfolding measurement_responder_handle_rx ghost_time_us
  responder_frame buf src_addr src_port d = ground arith

  -- The handler returned, and its state keeps the invariant.
  abbrev pub Handled : Option (Completion × Device) → Type 0
  Handled none = ⊥
  Handled (some (c, d)) = Inv d

  Handled-if :
      (b : Bool) (o o' : Option (Completion × Device))
      → Handled o
      → (b ≡ false → Handled o')
      → Handled (if b then o else o')
  Handled-if true o o' h h' = h
  Handled-if false o o' h h' = h' refl

  finish-Handled :
      (d : Device) (o : Option (ℕ × List ℕ))
      → Inv d
      → Medians d.meas.n_samples d.meas.samples o
      → Handled (finish env d o)
  finish-Handled d none v h = h
  finish-Handled d (some (m, left)) v (_, s) =
      set_meas-Inv d _ refl (record { size = s.size ∙ v.buffer.size; filled = v.buffer.filled }) v

  conclude-Handled : (d : Device) → Inv d → Handled (conclude env d)
  unfolding conclude
  conclude-Handled d v = elim (Bool-cases (ltb sample_threshold d.meas.n_samples)) [
    | inl enough ↦
        let many = ltb→lt sample_threshold d.meas.n_samples enough in
        rw enough (
          finish-Handled d _ v (
            median_i64_lem d.meas.n_samples d.meas.samples (omega arith)
              (omega (arith, v.buffer.size, v.buffer.filled))))
    | inr few ↦ rw few (send_ping-Inv d v)
  ]

  handle_pong-Handled : (c : Pong) (d : Device) → Inv d → Handled (handle_pong env c d)
  unfolding handle_pong host_time_us
  handle_pong-Handled c d v =
      let now = (host_time_us env d).0 in
      Handled-if (not (c.have_ht && c.have_gt && c.have_sess)) _ _ v (λ _.
        Handled-if (not (same c.sess d.meas.target_session)) _ _
          (set_meas-Inv d _ refl (record { size = v.buffer.size; filled = v.buffer.filled }) v)
          (λ _. conclude-Handled _ (
            set_meas-Inv d (record (host_time_us env d).1 { meas = take_samples c now d.meas }) refl
              (take_samples-IsBuffer c now d.meas v.buffer) v)))

  walked-Handled : (d : Device) (w : Walk Pong) → Returns w → Inv d → Handled (walked env d w)
  walked-Handled d (ret true c) r v = handle_pong-Handled c d v
  walked-Handled d (ret false c) r v = v
  walked-Handled d fault r v = r
  walked-Handled d running r v = r

  -- The measurement's handler returns when its walk does, and keeps the invariant.
  pub measurement_handle_rx-Handled :
      (base : ℕ) (buf : List ℕ) (src_addr src_port : ℕ) (d : Device)
      → ((9 ≤ length buf) × ((byte_at buf 8 == 2) ≡ true)
          → Returns (tlv_walk (base + 9) (drop 9 buf) pong_handler zero_pong))
      → Inv d
      → Handled (measurement_handle_rx env base buf src_addr src_port d)
  unfolding measurement_handle_rx
  measurement_handle_rx-Handled base buf src_addr src_port d r v =
      let ignored : Option (Completion × Device) = some (none, d) in
      let other : Bool =
        not (src_addr == d.meas.target_addr) || not (src_port == d.meas.target_port) in
      Handled-if (not d.meas.active) ignored _ v (λ _. Handled-if other ignored _ v (λ _.
        Handled-if (ltb (length buf) 9) ignored _ v (λ long.
          Handled-if (not (same (take 8 buf) proto_link)) ignored _ v (λ _.
            Handled-if (not (byte_at buf 8 == 2)) ignored _ v
              (λ pong. walked-Handled d _ (r (ltb→le (length buf) 9 long, ground arith)) v)))))
