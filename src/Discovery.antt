-- ===== src/Discovery.antt =====
-- firmware/link.c: the discovery protocol, its message codec, the peer table, the broadcasts, and
-- the handlers of the main loop.
pub mod Codec
pub mod Peers
pub mod Broadcast
pub mod Boot
pub mod Receive
pub mod Tick
pub mod Edits
