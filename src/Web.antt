-- ===== src/Web.antt =====
-- firmware/webui.c: the routes of the on-device web page. The admin page's text is a parameter, and so
-- are `atof`, `sscanf` and the text of a `double`.
pub mod Ids
pub mod Pages
pub mod Controls
use colorlight_i9_abletonlin.Base.{ℕ, List, Option, none, some}
use colorlight_i9_abletonlin.Doubles.{Doubles}
use colorlight_i9_abletonlin.Device.{Device}
use colorlight_i9_abletonlin.Audio.{Audio}
use colorlight_i9_abletonlin.Http.{Response}

-- What the handlers share: the globals of the other files, and `s_peer_name`.
pub record Web : Type 0 where
  pub device : Device
  pub audio : Audio
  pub s_peer_name : List ℕ

-- The calls of the C library that read and write numbers. `scan_byte` is `sscanf(s, "%2x", &v)`, and
-- `scan_request` is `sscanf(s, "%d %d %16s", &port, &slot, hex)` with all three assigned.
pub record Stdio (fp : Doubles) : Type 0 where
  pub scan_byte : List ℕ → Option ℕ
  pub scan_request : List ℕ → Option (ℕ × ℕ × List ℕ)
  pub atof : List ℕ → fp.Double
  pub print_3f : fp.Double → List ℕ

abbrev pub set_device : Device → Web → Web
set_device d w = record w { device = d }
