-- ===== src/Examples/Loop.antt =====
-- A run of the firmware: the start, the farewell of a peer and a pass of the main loop.
use colorlight_i9_abletonlin.Base.{
  true, Bool-cases, if◌then◌else◌, same_refl, ℕ, ◌+◌, ◌≡◌, refl, List, [], ◌∷◌, ◌++◌, some, inl,
  inr, arith, same, memcmp, replicate, All,
}
use colorlight_i9_abletonlin.Device.{Device}
use colorlight_i9_abletonlin.Discovery.Peers.{evict_peer}
use colorlight_i9_abletonlin.Discovery.Receive.{link_handle_rx}
use colorlight_i9_abletonlin.Wire.{be32, be16}
use colorlight_i9_abletonlin.Dispatch.{on_udp_rx}
use colorlight_i9_abletonlin.Discovery.Codec.{proto_hdr}
use colorlight_i9_abletonlin.Audio.{Audio}
use colorlight_i9_abletonlin.Audio.Frame.Queue.{IsCapture}
use colorlight_i9_abletonlin.Inputs.Midi.{midi_init}
use colorlight_i9_abletonlin.Inputs.Eurorack.{euro_init}
use colorlight_i9_abletonlin.Firmware.{Registers, Firmware, turn, link_app_main}
use colorlight_i9_abletonlin.Invariant.{IsBuffer, Inv}
use colorlight_i9_abletonlin.Invariant.Sound.{IsSound}
use colorlight_i9_abletonlin.Invariant.Reach.{
  Arrived, IsSane, receive, pass, Reachable, boot, next, on_udp_rx-Arrived, Reachable-InOrder,
}
use colorlight_i9_abletonlin.Examples.Data.{env, id_a, memory, device_b, integers}

abbrev farewell : List ℕ
farewell = proto_hdr ++ (3 ∷ 0 ∷ 0 ∷ 0 ∷ id_a)

farewell-IsSane : IsSane 4096 farewell
unfolding be32 memcmp same
farewell-IsSane = (λ is kind. ground arith, λ is kind. absurd (omega arith), λ other. ground arith)

buffer : IsBuffer memory.meas
buffer = record { size = refl; filled = omega arith }

-- No channel yet, and one capture buffer.
abbrev silent : Audio
silent = record {
  locals = [];
  remotes = [];
  subs = [];
  s_last_announce_us = 0;
  s_tx_pkt = (record { buf = replicate 64 0; pos = 0 } ∷ []) ∷ [];
}

captures : All (All IsCapture) silent.s_tx_pkt
captures = ((record { size = refl; inside = omega arith }, tt), tt)

silent-IsSound : IsSound silent
silent-IsSound = record { rings = tt; captures = captures; tables = tt }

on_udp_rx-Arrived_example : Arrived (on_udp_rx env 4096 farewell 5 20808 silent device_b)
on_udp_rx-Arrived_example =
    on_udp_rx-Arrived env 4096 farewell 5 20808 silent device_b farewell-IsSane
      (record { slots = refl; unique = λ id. omega arith; buffer = buffer }) silent-IsSound

abbrev regs : Registers
regs = record {
  midi_regs = record {
    clk_period = 20833;
    rt_ev_valid = true;
    rt_ev_byte = 0xFA;
    rt_ev_ts_lo = 0;
    rt_ev_ts_hi = 0;
  };
  euro_regs = record { clk_count = 0; rst_count = 0; run_count = 0; clk_period = 0; status = 0 };
  rx = λ port channel. port + channel;
  frames = λ port. 1;
  frames_cleared = λ port. 1;
}

abbrev blank : Firmware integers
blank = record {
  device = memory;
  audio = silent;
  tdm = record {
    ctrl = replicate 8 0;
    tx = replicate 8 (replicate 16 0);
    s_last_count = replicate 8 0;
  };
  midi = midi_init integers;
  euro = euro_init integers regs.euro_regs;
  web_name = [];
}

abbrev booted : Firmware integers
booted = link_app_main integers env regs blank

-- What the farewell leaves of any device.
abbrev left_by : Device → Device
left_by d = if same id_a d.self_id then d else record d { peers = evict_peer id_a d.peers }

received : (a : Audio) (d : Device) → on_udp_rx env 4096 farewell 5 20808 a d ≡ some (a, left_by d)
unfolding on_udp_rx link_handle_rx be16
received a d =
    let hdr : same proto_hdr proto_hdr ≡ true = same_refl proto_hdr in
    elim (Bool-cases (same id_a d.self_id)) [
      | inl own ↦ rw (hdr, own) refl
      | inr other ↦ rw (hdr, other) refl
    ]

abbrev served : Firmware integers
served = record booted { device = left_by booted.device }

run : Reachable integers (turn integers env regs served)
run =
    next
      (next (boot env regs blank (record { samples = buffer; captures = captures }))
        (receive env 4096 farewell 5 20808 farewell-IsSane (received booted.audio booted.device)))
      (pass env regs served)

Reachable-InOrder_example :
    Inv (turn integers env regs served).device × IsSound (turn integers env regs served).audio
Reachable-InOrder_example = Reachable-InOrder integers run
