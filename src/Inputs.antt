-- ===== src/Inputs.antt =====
-- firmware/midi.c and firmware/eurorack.c: clocks and transports from outside that drive the device.
pub mod Midi
pub mod Eurorack
