-- ===== src/Inputs/Eurorack/Polling.antt =====
-- Polling in firmware/eurorack.c: an edge acts once, and only where the inputs are followed.
use colorlight_i9_abletonlin.Base.{◌%◌, ◌≡◌, arith, false, ◌&&◌, not, ltb, ◌==◌}
use colorlight_i9_abletonlin.Device.{Device, Env}
use colorlight_i9_abletonlin.Doubles.{Doubles}
use colorlight_i9_abletonlin.Inputs.Midi.{is_follower}
use colorlight_i9_abletonlin.Inputs.Eurorack.{EuroRegs, Euro, measure_period, euro_tick}

module _ (fp : Doubles) (env : Env) (regs : EuroRegs) where
  period_taken :
      (s : Euro fp)
      → (ltb 0 regs.clk_period && not (regs.clk_period == (measure_period fp regs s).s_period))
        ≡ false
  unfolding measure_period
  period_taken s = ground arith

  -- With the counters taken over and the period too, a tick does nothing.
  idle :
      (s : Euro fp) (d : Device)
      → (ltb 0 regs.clk_period && not (regs.clk_period == s.s_period)) ≡ false
      → let s' = record s {
        s_last_clk_count = regs.clk_count;
        s_last_rst_count = regs.rst_count;
        s_last_run_count = regs.run_count;
        s_run_level = regs.status % 2;
      } in
        euro_tick fp env regs s' d ≡ (s', d)
  unfolding euro_tick measure_period
  idle s d h = rw h (ground arith)

  -- A second tick with the same contents of the registers does nothing: not to the device, and not
  -- to the statics.
  pub euro_tick_lem :
      (s : Euro fp) (d : Device)
      → let r = euro_tick fp env regs s d in euro_tick fp env regs r.0 r.1 ≡ r
  unfolding euro_tick measure_period
  euro_tick_lem s d = idle (measure_period fp regs s) _ (period_taken s)

  -- Where the inputs are not followed a tick leaves the device as it is.
  pub euro_tick_observes :
      (s : Euro fp) (d : Device) → is_follower s.s_mode ≡ false → (euro_tick fp env regs s d).1 ≡ d
  unfolding euro_tick measure_period
  euro_tick_observes s d h = ground (arith, h)
