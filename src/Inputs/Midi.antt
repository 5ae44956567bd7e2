-- ===== src/Inputs/Midi.antt =====
-- firmware/midi.c: what the main loop makes of the registers of the MIDI core, over `double` as a
-- parameter. The bytes of the two queues are in Queues.
pub mod Modes
pub mod Queues
use colorlight_i9_abletonlin.Base.{
  ℕ, ◌+◌, ◌*◌, ◌^◌, Bool, true, false, ◌&&◌, ◌||◌, not, ltb, ◌==◌, if◌then◌else◌,
}
use colorlight_i9_abletonlin.Device.{Device, Env, M, pure}
use colorlight_i9_abletonlin.Discovery.Edits.{link_set_local_tempo, link_set_play}
use colorlight_i9_abletonlin.Doubles.{Doubles}

pub data SyncMode : Type 0 where
  off : SyncMode
  observe : SyncMode
  follower : SyncMode

abbrev pub is_off : SyncMode → Bool
is_off off = true
is_off observe = false
is_off follower = false

abbrev pub is_follower : SyncMode → Bool
is_follower off = false
is_follower observe = false
is_follower follower = true

-- What the registers hold in one pass of the main loop.
pub record MidiRegs : Type 0 where
  pub clk_period : ℕ
  pub rt_ev_valid : Bool
  pub rt_ev_byte : ℕ
  pub rt_ev_ts_lo : ℕ
  pub rt_ev_ts_hi : ℕ

module _ (fp : Doubles) where
  open fp use {Double, of_nat, times, over, less}

  pub record Midi : Type 0 where
    pub s_sync_mode : SyncMode
    pub s_observed_bpm : Double
    pub s_observed_period_us : ℕ
    pub s_last_clock_ts : ℕ

  abbrev pub midi_init : Midi
  midi_init = record {
    s_sync_mode = observe;
    s_observed_bpm = of_nat 0;
    s_observed_period_us = 0;
    s_last_clock_ts = 0;
  }

  abbrev pub midi_set_sync_mode : SyncMode → Midi → Midi
  midi_set_sync_mode m s = record s { s_sync_mode = m }

  -- The period meter.
  unfoldable pub read_period : MidiRegs → Midi → Midi
  read_period regs s =
      if ltb 0 regs.clk_period && not (regs.clk_period == s.s_observed_period_us)
      then record s {
        s_observed_period_us = regs.clk_period;
        s_observed_bpm = over (of_nat 60_000_000) (times (of_nat regs.clk_period) (of_nat 24));
      }
      else s

  -- What the event does to the device.
  unfoldable pub rt_event : Env → ℕ → Midi → M (Unit {0})
  rt_event env byte s =
      if byte == 0xF8
      then (if is_follower s.s_sync_mode && less (of_nat 0) s.s_observed_bpm
          then link_set_local_tempo fp env s.s_observed_bpm
          else pure tt)
      else if byte == 0xFA || byte == 0xFB
      then (if not (is_off s.s_sync_mode) then link_set_play fp env true else pure tt)
      else if byte == 0xFC
      then (if not (is_off s.s_sync_mode) then link_set_play fp env false else pure tt)
      else pure tt

  abbrev stamp : MidiRegs → Midi → Midi
  stamp regs s =
      if regs.rt_ev_byte == 0xF8
      then record s { s_last_clock_ts = regs.rt_ev_ts_hi * 2 ^ 32 + regs.rt_ev_ts_lo }
      else s

  unfoldable pub midi_tick : Env → MidiRegs → Midi → Device → Midi × Device
  unfolding read_period rt_event
  midi_tick env regs s d =
      let s' = read_period regs s in
      if regs.rt_ev_valid then (stamp regs s', (rt_event env regs.rt_ev_byte s' d).1) else (s', d)
