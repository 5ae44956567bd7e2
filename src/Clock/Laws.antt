-- ===== src/Clock/Laws.antt =====
-- What firmware/ghost_time.c returns, against the counter itself.
use colorlight_i9_abletonlin.Base.{ℕ, ◌+◌, ◌*◌, ◌/◌, ◌%◌, ◌^◌, ◌<◌, ◌≡◌, arith}
use colorlight_i9_abletonlin.Clock.{
  GhostTime, host_time_us, ghost_time_us, ghost_time_set_intercept, ghost_time_get_intercept,
}

-- The reading is the counter at the first access when the counter's upper half is the same at both
-- accesses, and 2 ^ 32 ahead for every carry into the upper half that falls between them.
pub host_time_us_lem :
    (counter : ℕ → ℕ) (g : GhostTime) (carries : ℕ)
    → counter (g.cycle + 1) / 2 ^ 32 ≡ counter g.cycle / 2 ^ 32 + carries
    → (host_time_us counter g).0 ≡ counter g.cycle + carries * 2 ^ 32
unfolding host_time_us
host_time_us_lem counter g carries h = omega arith

-- An intercept of 64 bits that was written is read back, and the ghost time is then the counter
-- plus that intercept modulo 2 ^ 64, when its upper half is the same at both accesses.
pub ghost_time_set_intercept_lem :
    (counter : ℕ → ℕ) (g : GhostTime) (v : ℕ)
    → v < 2 ^ 64
    → (counter (g.cycle + 4) + v) % 2 ^ 64 / 2 ^ 32 ≡ (counter (g.cycle + 3) + v) % 2 ^ 64 / 2 ^ 32
    → let g' = ghost_time_set_intercept v g in
      ((ghost_time_get_intercept g').0 ≡ v)
      × ((ghost_time_us counter g').0 ≡ (counter (g.cycle + 3) + v) % 2 ^ 64)
unfolding ghost_time_set_intercept ghost_time_get_intercept ghost_time_us
ghost_time_set_intercept_lem counter g v h e =
    let third : g.cycle + 1 + 1 + 1 ≡ g.cycle + 3 = omega arith in
    let fourth : g.cycle + 1 + 1 + 1 + 1 ≡ g.cycle + 4 = omega arith in
    (omega arith, rw (fourth, third) (ground arith))

pub ghost_counter-lt : (counter : ℕ → ℕ) (g : GhostTime) → (ghost_time_us counter g).0 < 2 ^ 64
unfolding ghost_time_us
ghost_counter-lt counter g = omega arith
