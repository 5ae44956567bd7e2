-- ===== src/Inputs/Midi/Queues.antt =====
-- firmware/midi.c: the bytes that are sent and received through the queues of the MIDI core, which
-- behave as in litex_soc/midi.py. What the core takes from them or adds between two calls is left open.
use colorlight_i9_abletonlin.Base.{
  ℕ, ◌+◌, ◌-◌, ◌%◌, Bool, true, false, List, [], ◌∷◌, ◌++◌, Option, none, some, ◌==◌, if◌then◌else◌,
}

-- The control registers, the places that are free for sending, what was pushed, the newest last, and
-- what waits to be read, the oldest first.
pub record MidiCore : Type 0 where
  pub ctrl : ℕ
  pub auto_tx_ctrl : ℕ
  pub tx_free : ℕ
  pub tx : List ℕ
  pub rx : List ℕ

abbrev pub midi_auto_clock : ℕ
midi_auto_clock = 1

abbrev pub midi_auto_start : ℕ
midi_auto_start = 2

abbrev pub midi_auto_stop : ℕ
midi_auto_stop = 4

-- The registers that `midi_init` writes.
abbrev pub midi_start : MidiCore → MidiCore
midi_start c = record c {
  ctrl = 1;
  auto_tx_ctrl = midi_auto_clock + midi_auto_start + midi_auto_stop;
}

-- True when the byte was sent, where the source returns zero.
unfoldable pub midi_send_byte : ℕ → MidiCore → Bool × MidiCore
midi_send_byte b c =
    if c.tx_free == 0
    then (false, c)
    else (true, record c { tx = c.tx ++ (b ∷ []); tx_free = c.tx_free - 1 })

abbrev pub midi_set_auto_tx : ℕ → MidiCore → MidiCore
midi_set_auto_tx flags c = record c { auto_tx_ctrl = flags % 8 }

abbrev pub midi_get_auto_tx : MidiCore → ℕ
midi_get_auto_tx c = c.auto_tx_ctrl % 8

abbrev pub popped : List ℕ → MidiCore → Option ℕ × MidiCore
popped [] c = (none, c)
popped (b ∷ bs) c = (some b, record c { rx = bs })

unfoldable pub midi_recv_byte : MidiCore → Option ℕ × MidiCore
midi_recv_byte c = popped c.rx c
