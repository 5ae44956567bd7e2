-- ===== src/Firmware.antt =====
-- firmware/main.c: `link_app_main`, which starts the parts in order and then runs their ticks for ever.
-- A pass of the loop is a function; what `net_poll` delivers in it, datagrams and requests, are steps
-- of their own (Invariant/Reach).
use colorlight_i9_abletonlin.Base.{ℕ, zero, suc, ◌+◌, List, if◌then◌else◌}
use colorlight_i9_abletonlin.Config.{num_tdm_ports}
use colorlight_i9_abletonlin.Doubles.{Doubles}
use colorlight_i9_abletonlin.Device.{Device, Env}
use colorlight_i9_abletonlin.Beat.{beat_pulse_init}
use colorlight_i9_abletonlin.Discovery.Boot.{link_init}
use colorlight_i9_abletonlin.Discovery.Broadcast.{link_broadcast_alive_now}
use colorlight_i9_abletonlin.Discovery.Tick.{link_tick}
use colorlight_i9_abletonlin.Session.{session_tick}
use colorlight_i9_abletonlin.Tdm.{Tdm, tdm_init, tdm_frame_pending, tdm_clear_frame_pending}
use colorlight_i9_abletonlin.Audio.{Audio}
use colorlight_i9_abletonlin.Audio.Announce.{link_audio_init}
use colorlight_i9_abletonlin.Audio.Frame.{link_audio_on_tdm_frame, link_audio_tick}
use colorlight_i9_abletonlin.Inputs.Midi.{Midi, MidiRegs, midi_init, midi_tick}
use colorlight_i9_abletonlin.Inputs.Eurorack.{Euro, EuroRegs, euro_init, euro_tick}

-- What the registers hold in one pass: the inputs, the received samples by port and channel, and the
-- frame counters at the test and at the clearing.
pub record Registers : Type 0 where
  pub midi_regs : MidiRegs
  pub euro_regs : EuroRegs
  pub rx : ℕ → ℕ → ℕ
  pub frames : ℕ → ℕ
  pub frames_cleared : ℕ → ℕ

module _ (fp : Doubles) where
  -- The state of all files.
  pub record Firmware : Type 0 where
    pub device : Device
    pub audio : Audio
    pub tdm : Tdm
    pub midi : Midi fp
    pub euro : Euro fp
    pub web_name : List ℕ

  -- The loop over the ports, from `port` on, `left` more.
  unfoldable pub serve_ports : Env → Registers → ℕ → ℕ → Firmware → Firmware
  serve_ports env regs zero port f = f
  serve_ports env regs (suc left) port f =
      let r = link_audio_on_tdm_frame fp env regs.rx port f.audio f.tdm f.device in
      let f' = record f {
        audio = r.0.0;
        tdm = tdm_clear_frame_pending regs.frames_cleared port r.0.1;
        device = r.1;
      } in
      serve_ports env regs left (port + 1)
        (if tdm_frame_pending regs.frames port f.tdm then f' else f)

  -- One pass of the endless loop, behind `net_poll`.
  unfoldable pub turn : Env → Registers → Firmware → Firmware
  turn env regs f =
      let d1 = (link_tick env f.device).1 in
      let d2 = (session_tick env d1).1 in
      let a = link_audio_tick env f.audio d2 in
      let m = midi_tick fp env regs.midi_regs f.midi a.1 in
      let e = euro_tick fp env regs.euro_regs f.euro m.1 in
      serve_ports env regs num_tdm_ports 0
        (record f { device = e.1; audio = a.0; midi = m.0; euro = e.0 })

  -- What is done before the loop.
  unfoldable pub link_app_main : Env → Registers → Firmware → Firmware
  link_app_main env regs f =
      let d1 = record f.device { beat = beat_pulse_init f.device.beat } in
      let d2 = (link_init env d1).1 in
      let a = link_audio_init env f.audio d2 in
      record {
        device = (link_broadcast_alive_now env a.1).1;
        audio = a.0;
        tdm = tdm_init f.tdm;
        midi = midi_init fp;
        euro = euro_init fp regs.euro_regs;
        web_name = f.web_name;
      }
