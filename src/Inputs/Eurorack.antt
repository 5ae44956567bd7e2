-- ===== src/Inputs/Eurorack.antt =====
-- firmware/eurorack.c: what the main loop makes of the registers of the clock, reset and run inputs,
-- over `double` as a parameter.
pub mod Polling
use colorlight_i9_abletonlin.Base.{
  ℕ, ◌%◌, Bool, true, false, ◌&&◌, ◌||◌, not, ltb, ◌==◌, if◌then◌else◌,
}
use colorlight_i9_abletonlin.Device.{Device, Env, M, ◌>>=◌, ◌>>◌, modify, pure, when, ghost_time_us}
use colorlight_i9_abletonlin.Discovery.Broadcast.{link_broadcast_alive_now}
use colorlight_i9_abletonlin.Discovery.Edits.{link_set_local_tempo, link_set_play}
use colorlight_i9_abletonlin.Doubles.{Doubles}
use colorlight_i9_abletonlin.Inputs.Midi.{SyncMode, observe, is_follower}

-- What the registers hold in one pass of the main loop.
pub record EuroRegs : Type 0 where
  pub clk_count : ℕ
  pub rst_count : ℕ
  pub run_count : ℕ
  pub clk_period : ℕ
  pub status : ℕ

module _ (fp : Doubles) where
  open fp use {Double, of_nat, times, over, less}

  -- The statics of the file. The sync modes are those of the MIDI input, value by value.
  pub record Euro : Type 0 where
    pub s_mode : SyncMode
    pub s_ppqn : ℕ
    pub s_bpm : Double
    pub s_period : ℕ
    pub s_last_clk_count : ℕ
    pub s_last_rst_count : ℕ
    pub s_last_run_count : ℕ
    pub s_run_level : ℕ

  abbrev pub euro_init : EuroRegs → Euro
  euro_init regs = record {
    s_mode = observe;
    s_ppqn = 4;
    s_bpm = of_nat 0;
    s_period = 0;
    s_last_clk_count = regs.clk_count;
    s_last_rst_count = regs.rst_count;
    s_last_run_count = regs.run_count;
    s_run_level = regs.status % 2;
  }

  abbrev pub euro_set_ppqn : ℕ → Euro → Euro
  euro_set_ppqn ppqn s = record s { s_ppqn = if ppqn == 0 then 1 else ppqn }

  -- The period meter.
  unfoldable pub measure_period : EuroRegs → Euro → Euro
  measure_period regs s =
      if ltb 0 regs.clk_period && not (regs.clk_period == s.s_period)
      then record s {
        s_period = regs.clk_period;
        s_bpm = over (of_nat 60_000_000) (times (of_nat regs.clk_period) (of_nat s.s_ppqn));
      }
      else s

  -- What the three edges do to the device, with the statics before their counters are taken over.
  abbrev pub clock_edge : Env → EuroRegs → Euro → M (Unit {0})
  clock_edge env regs s =
      if not (regs.clk_count == s.s_last_clk_count)
        && is_follower s.s_mode
        && less (of_nat 0) s.s_bpm
      then link_set_local_tempo fp env s.s_bpm
      else pure tt

  abbrev snap : Env → M (Unit {0})
  snap env = do
    now_g ← ghost_time_us env
    modify λ d. record d {
      self_timeline = record d.self_timeline {
        beat_origin_microbeats = 0;
        time_origin_us_ghost = now_g;
      };
    }
    link_broadcast_alive_now env

  abbrev pub reset_edge : Env → EuroRegs → Euro → M (Unit {0})
  reset_edge env regs s =
      if not (regs.rst_count == s.s_last_rst_count) && is_follower s.s_mode
      then snap env
      else pure tt

  abbrev pub run_edge : Env → EuroRegs → Euro → M (Unit {0})
  run_edge env regs s =
      if (not (regs.run_count == s.s_last_run_count) || not (regs.status % 2 == s.s_run_level))
        && is_follower s.s_mode
      then link_set_play fp env (not (regs.status % 2 == 0))
      else pure tt

  -- A counter that has not moved is taken over as well, which changes nothing.
  unfoldable pub euro_tick : Env → EuroRegs → Euro → Device → Euro × Device
  unfolding measure_period
  euro_tick env regs s d =
      let s' = measure_period regs s in
      let d1 = (clock_edge env regs s' d).1 in
      let d2 = (reset_edge env regs s' d1).1 in
      let d3 = (run_edge env regs s' d2).1 in
      (
        record s' {
          s_last_clk_count = regs.clk_count;
          s_last_rst_count = regs.rst_count;
          s_last_run_count = regs.run_count;
          s_run_level = regs.status % 2;
        },
        d3,
      )
