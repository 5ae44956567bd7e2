-- ===== src/Beat.antt =====
-- firmware/beat_pulse.c: the periods and flags written to the beat pulse generator.
pub mod Periods
use Prim.Native.Nat.{bit_and, bit_or}
use colorlight_i9_abletonlin.Base.{ℕ, ◌+◌, ◌*◌, ◌/◌, ◌%◌, ◌^◌, Bool, ◌||◌, ltb, ◌==◌, if◌then◌else◌}
use colorlight_i9_abletonlin.Base.Int64.{is_negative}
use colorlight_i9_abletonlin.Types.{Timeline, StartStop}

-- The statics of the file, and the registers that it writes.
pub record BeatPulse : Type 0 where
  pub s_flags : ℕ
  pub s_beats_per_bar : ℕ
  pub flags : ℕ
  pub pulse_width : ℕ
  pub period_beat : ℕ
  pub period_24ppqn : ℕ
  pub period_48ppqn : ℕ
  pub period_96ppqn : ℕ
  pub period_bar : ℕ
  pub soft_resets : ℕ

abbrev pub fallback_us_per_beat : ℕ
fallback_us_per_beat = 500_000

pub beat_pulse_init : BeatPulse → BeatPulse
beat_pulse_init b = record b { s_flags = 0; flags = 0; pulse_width = 1000 }

-- `if (us_per_beat <= 0) us_per_beat = 500000`.
unfoldable pub usable_tempo : ℕ → ℕ
usable_tempo t = if is_negative t || t == 0 then fallback_us_per_beat else t

unfoldable pub beat_pulse_load_timeline : Timeline → StartStop → BeatPulse → BeatPulse
unfolding usable_tempo
beat_pulse_load_timeline tl ss b =
    let us_per_beat = usable_tempo tl.tempo_us_per_beat in
    let flags = if ss.is_playing == 0 then bit_and b.s_flags 0xfe else bit_or b.s_flags 0x01 in
    record b {
      period_beat = us_per_beat % 2 ^ 32;
      period_24ppqn = us_per_beat / 24 % 2 ^ 32;
      period_48ppqn = us_per_beat / 48 % 2 ^ 32;
      period_96ppqn = us_per_beat / 96 % 2 ^ 32;
      period_bar = us_per_beat * b.s_beats_per_bar % 2 ^ 32;
      soft_resets = b.soft_resets + 1;
      s_flags = flags;
      flags = flags;
    }

abbrev set_flag : ℕ → ℕ → Bool → BeatPulse → BeatPulse
set_flag bit mask on b =
    let flags = if on then bit_or b.s_flags bit else bit_and b.s_flags mask in
    record b { s_flags = flags; flags = flags }

unfoldable pub beat_pulse_set_sync_led : Bool → BeatPulse → BeatPulse
beat_pulse_set_sync_led on b = set_flag 0x08 0xf7 on b

unfoldable pub beat_pulse_set_peer_led : Bool → BeatPulse → BeatPulse
beat_pulse_set_peer_led on b = set_flag 0x10 0xef on b

-- A negative argument is below 1 as well; the model takes it as 0.
pub beat_pulse_set_beats_per_bar : ℕ → BeatPulse → BeatPulse
beat_pulse_set_beats_per_bar bpb b = record b { s_beats_per_bar = if ltb bpb 1 then 1 else bpb }
