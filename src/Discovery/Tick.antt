-- ===== src/Discovery/Tick.antt =====
-- firmware/link.c: `link_tick`.
pub mod Throttle
use colorlight_i9_abletonlin.Base.{ℕ, ◌+◌, ◌-◌, ◌*◌, ◌%◌, ◌^◌, ◌||◌, leb, if◌then◌else◌}
use colorlight_i9_abletonlin.Config.{discovery_min_ms}
use colorlight_i9_abletonlin.Device.{Env, M, ◌>>=◌, ◌>>◌, get, modify, when, host_time_us}
use colorlight_i9_abletonlin.Discovery.Peers.{prune_peers}
use colorlight_i9_abletonlin.Discovery.Broadcast.{send_alive}

module _ (env : Env) where
  -- A broadcast is due: it is sent, or put off until the minimal period is over.
  unfoldable pub broadcast_due : ℕ → M (Unit {0})
  broadcast_due now = do
    d ← get
    if leb (discovery_min_ms * 1000) ((now + 2 ^ 64 - d.last_bcast_us) % 2 ^ 64)
        then send_alive env
        else modify
            λ d. record d { next_bcast_us = (d.last_bcast_us + discovery_min_ms * 1000) % 2 ^ 64 }

  unfoldable pub link_tick : M (Unit {0})
  unfolding broadcast_due
  link_tick = do
    now ← host_time_us env
    d ← get
    when (d.state_dirty || leb d.next_bcast_us now) (broadcast_due now)
    modify λ d. record d { peers = prune_peers now d.peers }
