-- ===== src/Session/InFlight.antt =====
-- firmware/session.c, when a peer of a second session is seen while a measurement is running.
use colorlight_i9_abletonlin.Device.{Device}
