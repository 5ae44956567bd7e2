-- ===== src/Examples/Peers.antt =====
-- The peer table and the election at three peers.
use colorlight_i9_abletonlin.Base.{
  length, ◌+◌, ◌%◌, ◌^◌, ◌≡◌, ◌≤◌, refl, true, false, ◌||◌, none, arith, [], ◌∷◌, ◌++◌, ◌⊎◌, get_or,
  leb,
}
use colorlight_i9_abletonlin.Base.Int64.{neg64, slt}
use colorlight_i9_abletonlin.Types.{Peer, zero_peer}
use colorlight_i9_abletonlin.Device.{Device, host_time_us}
use colorlight_i9_abletonlin.Discovery.Peers.{find_or_alloc_peer, prune_peers}
use colorlight_i9_abletonlin.Discovery.Peers.Alloc.{Allocated, find_or_alloc_peer_lem}
use colorlight_i9_abletonlin.Discovery.Peers.Count.{Pruned, prune_peers_lem}
use colorlight_i9_abletonlin.Discovery.Tick.{link_tick}
use colorlight_i9_abletonlin.Discovery.Tick.Throttle.{alives, since, link_tick_sends}
use colorlight_i9_abletonlin.Session.{find_founder, best_timeline, prefers_new}
use colorlight_i9_abletonlin.Session.Founder.{Founder, find_founder_lem}
use colorlight_i9_abletonlin.Session.Latest.{Adopted, best_timeline_lem}
use colorlight_i9_abletonlin.Session.Switch.{prefers_new_asymm}
use colorlight_i9_abletonlin.Examples.Data.{env, id_a, id_b, device_b, peer_a, table}

find_or_alloc_peer_lem_example : Allocated id_b table (find_or_alloc_peer id_b table)
find_or_alloc_peer_lem_example = find_or_alloc_peer_lem id_b table

find_founder_lem_example : Founder id_a table (find_founder id_a table)
find_founder_lem_example = find_founder_lem id_a table

best_timeline_lem_example : Adopted id_a table (best_timeline id_a none table)
best_timeline_lem_example = best_timeline_lem id_a table

prefers_new_asymm_example : prefers_new (neg64 600_000) id_b id_a ≡ false
unfolding prefers_new slt
prefers_new_asymm_example = prefers_new_asymm 600_000 id_a id_b (omega arith) (omega arith) refl

busy_b : Device
busy_b = record device_b { peers = table; meas = record device_b.meas { active = true } }

expiring : Peer
expiring = record peer_a { expires_at_us = 10 }

prune_peers_lem_example :
    Pruned 2_000_000 expiring (get_or (prune_peers 2_000_000 (expiring ∷ [])) 0 zero_peer)
    × (length (prune_peers 2_000_000 (expiring ∷ [])) ≡ 1)
prune_peers_lem_example = prune_peers_lem 2_000_000 (expiring ∷ []) 0

link_tick_sends_example :
    (((link_tick env device_b).1.sent ≡ [])
      × ((link_tick env device_b).1.last_bcast_us ≡ 0)
      × ((link_tick env device_b).1.state_dirty ≡ true))
    ⊎ (((link_tick env device_b).1.sent ≡ [] ++ alives env (host_time_us env device_b).1)
        × ((true || leb 0 (host_time_us env device_b).0) ≡ true)
        × (50_000 ≤ since (host_time_us env device_b).0 device_b)
        × ((link_tick env device_b).1.state_dirty ≡ false)
        × ((link_tick env device_b).1.last_bcast_us
            ≡ (host_time_us env (host_time_us env device_b).1).0)
        × ((link_tick env device_b).1.next_bcast_us
            ≡ ((link_tick env device_b).1.last_bcast_us + 250_000) % 2 ^ 64))
link_tick_sends_example = link_tick_sends env device_b
