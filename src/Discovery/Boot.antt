-- ===== src/Discovery/Boot.antt =====
-- firmware/link.c: `prng_byte` and `link_init`.
use colorlight_i9_abletonlin.Base.{
  ℕ, zero, suc, ◌+◌, ◌*◌, ◌/◌, ◌%◌, ◌^◌, true, List, [], ◌∷◌, ◌==◌, if◌then◌else◌, replicate,
}
use colorlight_i9_abletonlin.Config.{default_tempo_us_per_beat, max_peers}
use colorlight_i9_abletonlin.Types.{zero_peer}
use colorlight_i9_abletonlin.Beat.{beat_pulse_load_timeline}
use colorlight_i9_abletonlin.Device.{
  Env, M, ◌>>=◌, ◌>>◌, get, modify, pure, with_beat, host_time_us, ghost_time_us,
}

-- `x | 1` on an unsigned word.
abbrev pub set_low_bit : ℕ → ℕ
set_low_bit x = x / 2 * 2 + 1

module _ (env : Env) where
  -- The seed that the generator starts the call with.
  abbrev seed : M ℕ
  seed = do
    d ← get
    if d.prng == 0
        then (do now ← host_time_us env; pure (set_low_bit (now % 2 ^ 32)))
        else pure d.prng

  unfoldable pub prng_byte : M ℕ
  prng_byte = do
    s ← seed
    let s' = (s * 1664525 + 1013904223) % 2 ^ 32
    modify λ d. record d { prng = s' }
    pure (s' / 2 ^ 24)

  unfoldable pub prng_bytes : ℕ → M (List ℕ)
  prng_bytes zero = pure []
  prng_bytes (suc n) = do b ← prng_byte; bs ← prng_bytes n; pure (b ∷ bs)

  unfoldable pub link_init : M (Unit {0})
  link_init = do
    id ← prng_bytes 8
    modify λ d. record d { self_id = id; self_session = id }
    origin ← ghost_time_us env
    modify λ d. record d {
      self_timeline = record {
        tempo_us_per_beat = default_tempo_us_per_beat;
        beat_origin_microbeats = 0;
        time_origin_us_ghost = origin;
      };
      self_startstop = record { is_playing = 0; beats_microbeats = 0; timestamp_us_ghost = origin };
      peers = replicate max_peers zero_peer;
      last_bcast_us = 0;
    }
    now ← host_time_us env
    modify λ d. record d { next_bcast_us = now; state_dirty = true }
    d ← get
    with_beat (beat_pulse_load_timeline d.self_timeline d.self_startstop)
