-- ===== src/Invariant.antt =====
-- What holds of the device of firmware/ whatever it receives, and the steps of its main loop.
pub mod Buffer
pub mod Election
pub mod Table
pub mod Reach
pub mod Ticks
pub mod Frames
pub mod Requests
pub mod Turns
pub mod Sound
pub mod Heard
use colorlight_i9_abletonlin.Base.{ℕ, ◌≤◌, ◌≡◌, length}
use colorlight_i9_abletonlin.Config.{max_peers}
use colorlight_i9_abletonlin.Device.{Device, Measurement}
use colorlight_i9_abletonlin.Measure.{max_samples}
use colorlight_i9_abletonlin.Discovery.Peers.Count.{Unique}

-- The sample buffer has its size, and the index that is written next is inside it or at its end.
pub record IsBuffer (s : Measurement) : Type 0 where
  pub size : length s.samples ≡ max_samples
  pub filled : s.n_samples ≤ max_samples

-- The peer table has its size, and no node twice.
pub record Inv (d : Device) : Type 0 where
  pub slots : length d.peers ≡ max_peers
  pub unique : Unique d.peers
  pub buffer : IsBuffer d.meas
