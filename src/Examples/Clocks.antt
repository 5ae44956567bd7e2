-- ===== src/Examples/Clocks.antt =====
-- The MIDI and Eurorack inputs at concrete registers.
use colorlight_i9_abletonlin.Base.{◌≡◌, refl, true}
use colorlight_i9_abletonlin.Inputs.Midi.{follower, MidiRegs, midi_init, midi_tick}
use colorlight_i9_abletonlin.Inputs.Midi.Modes.{midi_tick_lem}
use colorlight_i9_abletonlin.Inputs.Eurorack.{EuroRegs, Euro, euro_init, euro_tick}
use colorlight_i9_abletonlin.Inputs.Eurorack.Polling.{euro_tick_lem}
use colorlight_i9_abletonlin.Examples.Data.{env, device_a, integers}

abbrev start_event : MidiRegs
start_event = record {
  clk_period = 20_833;
  rt_ev_valid = true;
  rt_ev_byte = 0xFA;
  rt_ev_ts_lo = 9;
  rt_ev_ts_hi = 0;
}

midi_tick_lem_example :
    (midi_tick integers env start_event (midi_init integers) device_a).1.self_timeline
    ≡ device_a.self_timeline
midi_tick_lem_example = midi_tick_lem integers env start_event (midi_init integers) device_a refl

abbrev quiet : EuroRegs
quiet = record { clk_count = 0; rst_count = 0; run_count = 0; clk_period = 0; status = 0 }

abbrev edges : EuroRegs
edges = record { clk_count = 3; rst_count = 1; run_count = 1; clk_period = 125_000; status = 1 }

abbrev followed : Euro integers
followed = record (euro_init integers quiet) { s_mode = follower }

euro_tick_lem_example :
    euro_tick integers env edges
      (euro_tick integers env edges followed device_a).0
      (euro_tick integers env edges followed device_a).1
    ≡ euro_tick integers env edges followed device_a
euro_tick_lem_example = euro_tick_lem integers env edges followed device_a
