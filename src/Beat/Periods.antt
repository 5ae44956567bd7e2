-- ===== src/Beat/Periods.antt =====
-- The periods that firmware/beat_pulse.c writes.
use colorlight_i9_abletonlin.Base.{ℕ, ◌+◌, ◌*◌, ◌%◌, ◌^◌, ◌≤◌, ◌<◌, ◌≡◌, refl, arith}
use colorlight_i9_abletonlin.Types.{Timeline, StartStop}
use colorlight_i9_abletonlin.Beat.{BeatPulse, usable_tempo, beat_pulse_load_timeline}

-- A period is the `n`-th part of a beat, less than `n` microseconds short in `n` pulses.
abbrev pub Divides : ℕ → ℕ → ℕ → Type 0
Divides n period beat = (period * n ≤ beat) × (beat < period * n + n)

usable_tempo-positive : (v : ℕ) → 0 < usable_tempo v
unfolding usable_tempo
usable_tempo-positive v = ground arith

mod_small : (p : ℕ) → p < 2 ^ 32 → p % 2 ^ 32 ≡ p
mod_small p h = omega arith

-- With a beat and a bar that fit 32 bits, whatever tempo the timeline has: the beat is positive,
-- the faster pulses divide it up to rounding, the bar is a whole number of beats, and the
-- counters are reset once.
pub beat_pulse_load_timeline_lem :
    (tl : Timeline) (ss : StartStop) (b : BeatPulse)
    → usable_tempo tl.tempo_us_per_beat < 2 ^ 32
    → usable_tempo tl.tempo_us_per_beat * b.s_beats_per_bar < 2 ^ 32
    → let b' = beat_pulse_load_timeline tl ss b in
      (0 < b'.period_beat)
      × Divides 24 b'.period_24ppqn b'.period_beat
      × Divides 48 b'.period_48ppqn b'.period_beat
      × Divides 96 b'.period_96ppqn b'.period_beat
      × (b'.period_bar ≡ b'.period_beat * b.s_beats_per_bar)
      × (b'.soft_resets ≡ b.soft_resets + 1)
unfolding beat_pulse_load_timeline
beat_pulse_load_timeline_lem tl ss b fits bar =
    let t : ℕ = usable_tempo tl.tempo_us_per_beat in
    let pos : 0 < t = usable_tempo-positive tl.tempo_us_per_beat in
    let beat : t % 2 ^ 32 ≡ t = mod_small t fits in
    (
      omega arith,
      omega arith,
      omega arith,
      omega arith,
      rw beat (mod_small (t * b.s_beats_per_bar) bar),
      refl,
    )
