-- ===== src/Invariant/Election.antt =====
-- The operations of firmware/session.c keep the invariant.
use colorlight_i9_abletonlin.Base.{
  ℕ, ◌≡◌, refl, ◌∙◌, ◌||◌, Bool, true, false, List, [], ◌∷◌, Option, none, some, arith, ◌==◌,
  length, same,
}
use colorlight_i9_abletonlin.Types.{LinkId, Peer}
use colorlight_i9_abletonlin.Device.{Device, Env, pure, host_time_us, get_intercept, set_intercept}
use colorlight_i9_abletonlin.Measure.{Completion, measurement_tick}
use colorlight_i9_abletonlin.Discovery.Broadcast.{link_broadcast_alive_now}
use colorlight_i9_abletonlin.Discovery.Peers.Count.{count_node}
use colorlight_i9_abletonlin.Session.{
  mark_measured, session_observe_peer, join_session, on_measure_done, remeasure, session_tick,
  complete, find_founder, measure_target, measure_target_at, settle, remeasure_target, supervise,
  session_known_in_local_view,
}
use colorlight_i9_abletonlin.Invariant.{Inv}
use colorlight_i9_abletonlin.Invariant.Buffer.{
  Keeps, Inv-if, Inv-when, set_meas-Inv, measurement_start-Inv, measurement_tick-Inv,
}

count-mark :
    (j s : LinkId) (o : ℕ) (ps : List Peer) → count_node j (mark_measured s o ps) ≡ count_node j ps
unfolding mark_measured
count-mark j s o [] = refl
count-mark j s o (p ∷ ps) = ground (arith, count-mark j s o ps)

pub length-mark : (s : LinkId) (o : ℕ) (ps : List Peer) → length (mark_measured s o ps) ≡ length ps
unfolding mark_measured
length-mark s o [] = refl
length-mark s o (p ∷ ps) = ground (arith, length-mark s o ps)

module _ (env : Env) where
  measure_target-Inv : (id : LinkId) (o : Option Peer) → Keeps (measure_target env id o)
  measure_target-Inv id none d v = v
  measure_target-Inv id (some p) d v =
      Inv-if (p.mep4_addr == 0) (pure tt) (measure_target_at env id p) d v
        (measurement_start-Inv env p.mep4_addr p.mep4_port id _ (set_meas-Inv d _ refl v.buffer v))

  pub session_observe_peer-Inv : (p : Peer) → Keeps (session_observe_peer env p)
  unfolding session_observe_peer
  session_observe_peer-Inv p d v =
      let target = find_founder p.session_id d.peers in
      Inv-if (same p.session_id d.self_session || session_known_in_local_view p.session_id d)
        (pure tt) (measure_target env p.session_id target) d v
        (measure_target-Inv p.session_id target d v)

  -- Joining a session leaves the table and the measurement as they are.
  join_frame :
      (o : ℕ) (d : Device)
      → ((join_session env o d).1.peers ≡ d.peers) × ((join_session env o d).1.meas ≡ d.meas)
  unfolding join_session link_broadcast_alive_now host_time_us set_intercept
  join_frame o d = ground arith

  pub settle_frame :
      (switch : Bool) (o : ℕ) (d : Device)
      → ((settle env switch o d).1.peers ≡ mark_measured d.active_target_session o d.peers)
        × ((settle env switch o d).1.meas ≡ d.meas)
  unfolding settle host_time_us
  settle_frame true o d =
      join_frame o (record d { peers = mark_measured d.active_target_session o d.peers })
  settle_frame false o d = (refl, refl)

  settle-Inv : (switch : Bool) (o : ℕ) → Keeps (settle env switch o)
  settle-Inv switch o d v =
      let f = settle_frame switch o d in
      record {
        slots = rw f.0 (length-mark d.active_target_session o d.peers ∙ v.slots);
        unique = λ id.
            rw f.0 (omega (arith, count-mark id d.active_target_session o d.peers, v.unique id));
        buffer = rw f.1 v.buffer;
      }

  on_measure_done-Inv : (success : Bool) (o : ℕ) → Keeps (on_measure_done env success o)
  unfolding on_measure_done host_time_us get_intercept
  on_measure_done-Inv false o d v = v
  on_measure_done-Inv true o d v = settle-Inv _ o _ (set_meas-Inv d _ refl v.buffer v)

  pub complete-Inv : (c : Completion) → Keeps (complete env c)
  complete-Inv none d v = v
  complete-Inv (some (success, o)) d v = on_measure_done-Inv success o d v

  remeasure_target-Inv : (o : Option Peer) → Keeps (remeasure_target env o)
  remeasure_target-Inv none d v = v
  remeasure_target-Inv (some p) d v =
      measurement_start-Inv env p.mep4_addr p.mep4_port d.self_session _
        (set_meas-Inv d _ refl v.buffer v)

  remeasure-Inv : (now : ℕ) → Keeps (remeasure env now)
  unfolding remeasure
  remeasure-Inv now d v =
      let w = remeasure_target-Inv (find_founder d.self_session d.peers) d v in
      set_meas-Inv _ _ refl w.buffer w

  supervise-Inv : Keeps (supervise env)
  unfolding supervise host_time_us
  supervise-Inv d v =
      let read : Device = (host_time_us env d).1 in
      let v' : Inv read = set_meas-Inv d read refl v.buffer v in
      let now : ℕ = (host_time_us env d).0 in
      let w = Inv-when _ (remeasure env now) read v' (remeasure-Inv now read v') in
      set_meas-Inv _ _ refl w.buffer w

  pub session_tick-Inv : Keeps (session_tick env)
  unfolding session_tick
  session_tick-Inv d v =
      let w = complete-Inv (measurement_tick env d).0 _ (measurement_tick-Inv env d v) in
      Inv-if _ (pure tt) (supervise env) _ w (supervise-Inv _ w)
