-- ===== src/Examples/Samples.antt =====
-- The median of five samples, two of them negative, and the clock.
use colorlight_i9_abletonlin.Base.{◌<◌, ℕ, ◌+◌, ◌*◌, ◌-◌, ◌^◌, ◌≡◌, refl, List, [], ◌∷◌, arith}
use colorlight_i9_abletonlin.Types.{Timeline, zero_timeline, zero_startstop}
use colorlight_i9_abletonlin.Beat.{BeatPulse, usable_tempo, beat_pulse_load_timeline}
use colorlight_i9_abletonlin.Beat.Periods.{Divides, beat_pulse_load_timeline_lem}
use colorlight_i9_abletonlin.Clock.{GhostTime, host_time_us}
use colorlight_i9_abletonlin.Clock.Laws.{host_time_us_lem}
use colorlight_i9_abletonlin.Median.{median_i64}
use colorlight_i9_abletonlin.Median.Order.{Medians, median_i64_lem}
use colorlight_i9_abletonlin.Examples.Data.{memory}

abbrev samples : List ℕ
samples = 5 ∷ (2 ^ 64 - 3) ∷ 9 ∷ (2 ^ 64 - 8) ∷ 1 ∷ 70 ∷ []

median_i64_lem_example : Medians 5 samples (median_i64 samples 5)
median_i64_lem_example = median_i64_lem 5 samples (omega arith) (omega arith)

abbrev still : GhostTime
still = record { cycle = 0; inter_lo = 0; inter_hi = 0 }

-- The counter passes 2 ^ 32 between the two accesses.
abbrev carrying : ℕ → ℕ
carrying n = 2 ^ 32 - 1 + n

host_time_us_lem_example : (host_time_us carrying still).0 ≡ 2 ^ 32 - 1 + 0 + 1 * 2 ^ 32
host_time_us_lem_example = host_time_us_lem carrying still 1 refl

-- A negative tempo.
abbrev backwards : Timeline
backwards = record zero_timeline { tempo_us_per_beat = 2 ^ 64 - 5 }

abbrev pulses : BeatPulse
pulses = beat_pulse_load_timeline backwards zero_startstop memory.beat

beat_pulse_load_timeline_lem_example :
    (0 < pulses.period_beat)
    × Divides 24 pulses.period_24ppqn pulses.period_beat
    × Divides 48 pulses.period_48ppqn pulses.period_beat
    × Divides 96 pulses.period_96ppqn pulses.period_beat
    × (pulses.period_bar ≡ pulses.period_beat * 4)
    × (pulses.soft_resets ≡ 0 + 1)
unfolding usable_tempo
beat_pulse_load_timeline_lem_example =
    beat_pulse_load_timeline_lem backwards zero_startstop memory.beat (omega arith) (omega arith)
