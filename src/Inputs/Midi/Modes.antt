-- ===== src/Inputs/Midi/Modes.antt =====
-- What the sync modes of firmware/midi.c let through to the device.
use colorlight_i9_abletonlin.Base.{◌≡◌, arith, Bool, true, false, if◌then◌else◌}
use colorlight_i9_abletonlin.Device.{Device, Env, ghost_time_us, host_time_us}
use colorlight_i9_abletonlin.Discovery.Broadcast.{link_broadcast_alive_now}
use colorlight_i9_abletonlin.Discovery.Edits.{link_set_play}
use colorlight_i9_abletonlin.Doubles.{Doubles}
use colorlight_i9_abletonlin.Inputs.Midi.{
  is_off, is_follower, MidiRegs, Midi, read_period, rt_event, midi_tick,
}

module _ (fp : Doubles) (env : Env) (regs : MidiRegs) (s : Midi fp) (d : Device) where
  read_period_mode : (read_period fp regs s).s_sync_mode ≡ s.s_sync_mode
  unfolding read_period
  read_period_mode = ground arith

  -- Where the incoming clock is not followed, no MIDI event changes the timeline.
  pub midi_tick_lem :
      is_follower s.s_sync_mode ≡ false
      → (midi_tick fp env regs s d).1.self_timeline ≡ d.self_timeline
  unfolding midi_tick rt_event link_set_play link_broadcast_alive_now ghost_time_us host_time_us
  midi_tick_lem h =
      let h' : is_follower (read_period fp regs s).s_sync_mode ≡ false = rw read_period_mode h in
      ground (arith, h')

  -- In every mode but off, observing included, a start event plays and a stop event stops.
  pub midi_tick_plays :
      (start : Bool)
      → is_off s.s_sync_mode ≡ false
      → regs.rt_ev_valid ≡ true
      → regs.rt_ev_byte ≡ (if start then 0xFA else 0xFC)
      → (midi_tick fp env regs s d).1.self_startstop.is_playing ≡ (if start then 1 else 0)
  unfolding midi_tick rt_event link_set_play link_broadcast_alive_now ghost_time_us host_time_us
  midi_tick_plays true on valid byte =
      let on' : is_off (read_period fp regs s).s_sync_mode ≡ false = rw read_period_mode on in
      ground (arith, on', valid, byte)
  midi_tick_plays false on valid byte =
      let on' : is_off (read_period fp regs s).s_sync_mode ≡ false = rw read_period_mode on in
      ground (arith, on', valid, byte)
