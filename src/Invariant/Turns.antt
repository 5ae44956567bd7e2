-- ===== src/Invariant/Turns.antt =====
-- A pass of the main loop of firmware/main.c keeps the device and the Link-Audio tables in order.
use colorlight_i9_abletonlin.Base.{
  ℕ, zero, suc, ◌+◌, ◌%◌, inl, inr, refl, Bool, true, false, ◌&&◌, ◌||◌, not, Bool-cases, ◌==◌,
  if◌then◌else◌,
}
use colorlight_i9_abletonlin.Config.{num_tdm_ports}
use colorlight_i9_abletonlin.Doubles.{Doubles}
use colorlight_i9_abletonlin.Device.{Device, Env, ghost_time_us, host_time_us}
use colorlight_i9_abletonlin.Tdm.{tdm_frame_pending}
use colorlight_i9_abletonlin.Discovery.Broadcast.{link_broadcast_alive_now}
use colorlight_i9_abletonlin.Inputs.Midi.{
  Midi, MidiRegs, is_off, is_follower, rt_event, read_period, midi_tick,
}
use colorlight_i9_abletonlin.Inputs.Eurorack.{
  Euro, EuroRegs, measure_period, clock_edge, reset_edge, run_edge, euro_tick,
}
use colorlight_i9_abletonlin.Firmware.{Registers, Firmware, serve_ports, turn}
use colorlight_i9_abletonlin.Invariant.{Inv}
use colorlight_i9_abletonlin.Invariant.Buffer.{set_meas-Inv, Inv-if}
use colorlight_i9_abletonlin.Invariant.Election.{session_tick-Inv}
use colorlight_i9_abletonlin.Invariant.Table.{link_tick-Inv}
use colorlight_i9_abletonlin.Invariant.Ticks.{link_audio_tick-Kept}
use colorlight_i9_abletonlin.Invariant.Frames.{link_audio_on_tdm_frame-Kept}
use colorlight_i9_abletonlin.Invariant.Requests.{InOrder, Keeps-Inv, set_tempo-Inv, set_play-Inv}

pub broadcast-Inv : (env : Env) (d : Device) → Inv d → Inv (link_broadcast_alive_now env d).1
unfolding link_broadcast_alive_now host_time_us
broadcast-Inv env d v = set_meas-Inv d _ refl v.buffer v

abbrev pub FirmwareInOrder : (fp : Doubles) → Firmware fp → Type 0
FirmwareInOrder fp f = InOrder f.device f.audio

module _ (fp : Doubles) (env : Env) where
  rt_event-Inv : (byte : ℕ) (s : Midi fp) (d : Device) → Inv d → Inv (rt_event fp env byte s d).1
  unfolding rt_event
  rt_event-Inv byte s d v =
      Inv-if (byte == 0xF8) _ _ d
        (Inv-if (is_follower s.s_sync_mode && fp.less (fp.of_nat 0) s.s_observed_bpm) _ _ d
          (set_tempo-Inv fp env s.s_observed_bpm d v) v)
        (Inv-if (byte == 0xFA || byte == 0xFB) _ _ d
          (Inv-if (not (is_off s.s_sync_mode)) _ _ d (set_play-Inv fp env true d v) v)
          (Inv-if (byte == 0xFC) _ _ d
            (Inv-if (not (is_off s.s_sync_mode)) _ _ d (set_play-Inv fp env false d v) v) v))

  midi_tick-Inv :
      (regs : MidiRegs) (s : Midi fp) (d : Device) → Inv d → Inv (midi_tick fp env regs s d).1
  unfolding midi_tick
  midi_tick-Inv regs s d v = elim (Bool-cases regs.rt_ev_valid) [
    | inl event ↦ rw event (rt_event-Inv regs.rt_ev_byte (read_period fp regs s) d v)
    | inr quiet ↦ rw quiet v
  ]

  clock-Inv :
      (regs : EuroRegs) (s : Euro fp) (d : Device) → Inv d → Inv (clock_edge fp env regs s d).1
  clock-Inv regs s d v =
      elim (Bool-cases (
        not (regs.clk_count == s.s_last_clk_count)
        && is_follower s.s_mode
        && fp.less (fp.of_nat 0) s.s_bpm)) [
          | inl edge ↦ rw edge (set_tempo-Inv fp env s.s_bpm d v)
          | inr quiet ↦ rw quiet v
        ]

  reset-Inv :
      (regs : EuroRegs) (s : Euro fp) (d : Device) → Inv d → Inv (reset_edge fp env regs s d).1
  unfolding ghost_time_us
  reset-Inv regs s d v =
      elim (Bool-cases (not (regs.rst_count == s.s_last_rst_count) && is_follower s.s_mode)) [
        | inl edge ↦ rw edge (broadcast-Inv env _ (set_meas-Inv d _ refl v.buffer v))
        | inr quiet ↦ rw quiet v
      ]

  run-Inv : (regs : EuroRegs) (s : Euro fp) (d : Device) → Inv d → Inv (run_edge fp env regs s d).1
  run-Inv regs s d v =
      elim (Bool-cases (
        (not (regs.run_count == s.s_last_run_count) || not (regs.status % 2 == s.s_run_level))
        && is_follower s.s_mode)) [
          | inl edge ↦ rw edge (set_play-Inv fp env (not (regs.status % 2 == 0)) d v)
          | inr quiet ↦ rw quiet v
        ]

  euro_tick-Inv :
      (regs : EuroRegs) (s : Euro fp) (d : Device) → Inv d → Inv (euro_tick fp env regs s d).1
  unfolding euro_tick
  euro_tick-Inv regs s d v =
      let s' = measure_period fp regs s in
      run-Inv regs s' _ (reset-Inv regs s' _ (clock-Inv regs s' d v))

  InOrder-if :
      (b : Bool) (x y : Firmware fp)
      → FirmwareInOrder fp x
      → FirmwareInOrder fp y
      → FirmwareInOrder fp (if b then x else y)
  InOrder-if true x y hx hy = hx
  InOrder-if false x y hx hy = hy

  serve_ports-InOrder :
      (regs : Registers) (left port : ℕ) (f : Firmware fp)
      → FirmwareInOrder fp f
      → FirmwareInOrder fp (serve_ports fp env regs left port f)
  unfolding serve_ports
  serve_ports-InOrder regs zero port f h = h
  serve_ports-InOrder regs (suc left) port f (v, s) =
      let r = link_audio_on_tdm_frame-Kept fp env regs.rx port f.audio f.tdm f.device s in
      serve_ports-InOrder regs left (port + 1) _ (
        InOrder-if (tdm_frame_pending regs.frames port f.tdm) _ f (Keeps-Inv f.device _ r.1 v, r.0)
          (v, s))

  pub turn-InOrder :
      (regs : Registers) (f : Firmware fp)
      → FirmwareInOrder fp f
      → FirmwareInOrder fp (turn fp env regs f)
  unfolding turn
  turn-InOrder regs f (v, s) =
      let v2 = session_tick-Inv env _ (link_tick-Inv env f.device v) in
      let a = link_audio_tick-Kept env f.audio _ s in
      let v3 = Keeps-Inv _ _ a.1 v2 in
      let v5 = euro_tick-Inv regs.euro_regs f.euro _ (midi_tick-Inv regs.midi_regs f.midi _ v3) in
      serve_ports-InOrder regs num_tdm_ports 0 _ (v5, a.0)
