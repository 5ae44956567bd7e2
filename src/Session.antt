-- ===== src/Session.antt =====
-- firmware/session.c: which session to measure, whether to join it, and the periodic schedule.
pub mod Founder
pub mod Latest
pub mod Switch
pub mod InFlight
use colorlight_i9_abletonlin.Base.{
  ℕ, ◌+◌, ◌-◌, ◌*◌, ◌%◌, ◌^◌, Bool, true, false, ◌&&◌, ◌||◌, List, [], ◌∷◌, Option, none, some, ltb,
  ◌==◌, if◌then◌else◌, same, before,
}
use colorlight_i9_abletonlin.Base.Int64.{add64, sub64, slt, abs64}
use colorlight_i9_abletonlin.Config.{session_eps_us, session_remeasure_s}
use colorlight_i9_abletonlin.Types.{LinkId, Peer}
use colorlight_i9_abletonlin.Beat.{
  beat_pulse_load_timeline, beat_pulse_set_sync_led, beat_pulse_set_peer_led,
}
use colorlight_i9_abletonlin.Device.{
  Device, Env, M, ◌>>=◌, ◌>>◌, get, modify, pure, when, with_beat, host_time_us, get_intercept,
  set_intercept,
}
use colorlight_i9_abletonlin.Discovery.Broadcast.{link_broadcast_alive_now}
use colorlight_i9_abletonlin.Measure.{Completion, measurement_start, measurement_tick}

abbrev pub in_session : LinkId → Peer → Bool
in_session session_id p = p.in_use && same p.session_id session_id

abbrev pub is_founder : LinkId → Peer → Bool
is_founder session_id p = in_session session_id p && same p.node_id session_id

-- The first entry of the table that passes a test.
abbrev pub first_peer : (Peer → Bool) → List Peer → Option Peer
first_peer test [] = none
first_peer test (p ∷ ps) = let rest = first_peer test ps in if test p then some p else rest

unfoldable pub find_founder : LinkId → List Peer → Option Peer
find_founder session_id peers = elim (first_peer (is_founder session_id) peers) [
  | some p ↦ some p
  | none ↦ first_peer (in_session session_id) peers
]

abbrev pub any_peer : (Peer → Bool) → List Peer → Bool
any_peer test [] = false
any_peer test (p ∷ ps) = test p || any_peer test ps

unfoldable pub session_known_in_local_view : LinkId → Device → Bool
session_known_in_local_view session_id d =
    same session_id d.self_session || any_peer (λ p. p.measured && in_session session_id p) d.peers

-- `p->measured = 1; p->ghost_offset = intercept` for every peer of the session.
unfoldable pub mark_measured : LinkId → ℕ → List Peer → List Peer
mark_measured session_id offset [] = []
mark_measured session_id offset (p ∷ ps) =
    (if in_session session_id p then record p { measured = true; ghost_offset = offset } else p)
    ∷ mark_measured session_id offset ps

-- `!best || p->timeline.time_origin_us_ghost > best->timeline.time_origin_us_ghost`.
abbrev pub later_origin : Peer → Option Peer → Bool
later_origin p none = true
later_origin p (some best) = slt best.timeline.time_origin_us_ghost p.timeline.time_origin_us_ghost

unfoldable pub best_timeline : LinkId → Option Peer → List Peer → Option Peer
best_timeline session_id best [] = best
best_timeline session_id best (p ∷ ps) =
    best_timeline session_id
      (if in_session session_id p && later_origin p best then some p else best) ps

-- `switch_to_new`, from the difference of the two ghost times and the two session ids.
unfoldable pub prefers_new : ℕ → LinkId → LinkId → Bool
prefers_new diff target current =
    if slt session_eps_us diff
    then true
    else if slt (abs64 diff) session_eps_us
    then before target current
    else false

module _ (env : Env) where
  -- Measure the session against the peer that was picked.
  abbrev pub measure_target_at : LinkId → Peer → M (Unit {0})
  measure_target_at session_id target = do
    modify λ d. record d { active_target_session = session_id }
    measurement_start env target.mep4_addr target.mep4_port session_id

  abbrev pub measure_target : LinkId → Option Peer → M (Unit {0})
  measure_target session_id none = pure tt
  measure_target session_id (some target) =
      if target.mep4_addr == 0 then pure tt else measure_target_at session_id target

  unfoldable pub session_observe_peer : Peer → M (Unit {0})
  session_observe_peer peer = do
    d ← get
    if same peer.session_id d.self_session || session_known_in_local_view peer.session_id d
        then pure tt
        else measure_target peer.session_id (find_founder peer.session_id d.peers)

  abbrev adopt : Option Peer → M (Unit {0})
  adopt none = pure tt
  adopt (some best) = do
    modify λ d. record d { self_timeline = best.timeline; self_startstop = best.startstop }
    with_beat (beat_pulse_load_timeline best.timeline best.startstop)

  unfoldable pub join_session : ℕ → M (Unit {0})
  join_session intercept = do
    modify λ d. record d { self_session = d.active_target_session }
    set_intercept intercept
    d ← get
    adopt (best_timeline d.self_session none d.peers)
    with_beat (beat_pulse_set_sync_led true)
    link_broadcast_alive_now env

  -- The last assignment of `on_measure_done`.
  abbrev stamp : M (Unit {0})
  stamp = do now ← host_time_us env; modify λ d. record d { last_remeasure_us = now }

  -- `on_measure_done` behind the choice: mark the session as measured, and switch to it if chosen.
  unfoldable pub settle : Bool → ℕ → M (Unit {0})
  settle switch intercept = do
    modify λ d. record d { peers = mark_measured d.active_target_session intercept d.peers }
    when switch (join_session intercept)
    stamp

  unfoldable pub on_measure_done : Bool → ℕ → M (Unit {0})
  on_measure_done false intercept = pure tt
  on_measure_done true intercept = do
    cur_intercept ← get_intercept
    now_host ← host_time_us env
    d ← get
    let diff = sub64 (add64 now_host intercept) (add64 now_host cur_intercept)
    settle (prefers_new diff d.active_target_session d.self_session) intercept

  abbrev pub complete : Completion → M (Unit {0})
  complete none = pure tt
  complete (some (success, intercept)) = on_measure_done success intercept

  -- The remeasurement of our own session does not look whether the peer has an address.
  abbrev pub remeasure_target : Option Peer → M (Unit {0})
  remeasure_target none = pure tt
  remeasure_target (some target) = do
    modify λ d. record d { active_target_session = d.self_session }
    d ← get
    measurement_start env target.mep4_addr target.mep4_port d.self_session

  unfoldable pub remeasure : ℕ → M (Unit {0})
  remeasure now = do
    d ← get
    remeasure_target (find_founder d.self_session d.peers)
    modify λ d. record d { last_remeasure_us = now }

  -- `session_tick` behind the test for a session of our own.
  unfoldable pub supervise : M (Unit {0})
  supervise = do
    now ← host_time_us env
    d ← get
    when (ltb (session_remeasure_s * 1_000_000) ((now + 2 ^ 64 - d.last_remeasure_us) % 2 ^ 64))
        (remeasure now)
    d ← get
    with_beat (beat_pulse_set_peer_led (any_peer (λ p. p.in_use) d.peers))

  unfoldable pub session_tick : M (Unit {0})
  unfolding supervise
  session_tick = do
    done ← measurement_tick env
    complete done
    d ← get
    if same d.self_session d.self_id then pure tt else supervise
