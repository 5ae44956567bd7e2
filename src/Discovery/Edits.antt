-- ===== src/Discovery/Edits.antt =====
-- firmware/link.c: `link_set_local_tempo` and `link_set_play`.
use colorlight_i9_abletonlin.Base.{ℕ, Bool, if◌then◌else◌}
use colorlight_i9_abletonlin.Base.Int64.{add64, sub64}
use colorlight_i9_abletonlin.Beat.{beat_pulse_load_timeline}
use colorlight_i9_abletonlin.Device.{Env, M, ◌>>=◌, ◌>>◌, get, modify, with_beat, ghost_time_us}
use colorlight_i9_abletonlin.Discovery.Broadcast.{link_broadcast_alive_now}
use colorlight_i9_abletonlin.Doubles.{Doubles}

module _ (fp : Doubles) where
  open fp use {Double, of_nat, of_int64, to_int64, plus, times, over, half}

  -- `(int64_t)(60.0 * 1e6 / bpm + 0.5)`.
  abbrev pub us_per_beat_of : Double → ℕ
  us_per_beat_of bpm = to_int64 (plus (over (times (of_nat 60) (of_nat 1_000_000)) bpm) half)

  -- `b0 + (int64_t)(((double)(now - t0) * 1e6) / (double)us)`.
  abbrev pub beats_at : ℕ → ℕ → ℕ → ℕ → ℕ
  beats_at b0 t0 us now =
      add64 b0 (to_int64 (over (times (of_int64 (sub64 now t0)) (of_nat 1_000_000)) (of_int64 us)))

  module _ (env : Env) where
    unfoldable pub link_set_local_tempo : Double → M (Unit {0})
    link_set_local_tempo bpm = do
      let us_per_beat = us_per_beat_of bpm
      now_g ← ghost_time_us env
      d ← get
      let old = d.self_timeline
      let cur_beats =
          beats_at old.beat_origin_microbeats old.time_origin_us_ghost old.tempo_us_per_beat now_g
      modify λ d. record d {
        self_timeline = record {
          tempo_us_per_beat = us_per_beat;
          beat_origin_microbeats = cur_beats;
          time_origin_us_ghost = now_g;
        };
      }
      d ← get
      with_beat (beat_pulse_load_timeline d.self_timeline d.self_startstop)
      link_broadcast_alive_now env

    unfoldable pub link_set_play : Bool → M (Unit {0})
    link_set_play play = do
      now_g ← ghost_time_us env
      d ← get
      let tl = d.self_timeline
      let cur_beats =
          beats_at tl.beat_origin_microbeats tl.time_origin_us_ghost tl.tempo_us_per_beat now_g
      modify λ d. record d {
        self_startstop = record {
          is_playing = if play then 1 else 0;
          beats_microbeats = cur_beats;
          timestamp_us_ghost = now_g;
        };
      }
      d ← get
      with_beat (beat_pulse_load_timeline d.self_timeline d.self_startstop)
      link_broadcast_alive_now env
