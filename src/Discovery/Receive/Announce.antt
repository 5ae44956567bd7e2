-- ===== src/Discovery/Receive/Announce.antt =====
-- Messages of firmware/link.c between two devices.
use colorlight_i9_abletonlin.Base.{
  Bool-cases, inl, inr, ◌||◌, ◌∙◌, ◌%◌, set, set-set, get_or-set_self, Option, none, ℕ, ◌+◌, ◌^◌,
  ◌<◌, ◌≡◌, refl, true, false, not, ◌&&◌, [], some, arith, ltb, ◌==◌, same, same_refl, length, take,
  drop, get_or, take-append, append-nil, ◌⊎◌,
}
use colorlight_i9_abletonlin.Types.{LinkId, Peer, zero_peer}
use colorlight_i9_abletonlin.Device.{Device, Env, when, host_time_us}
use colorlight_i9_abletonlin.Session.{
  session_observe_peer, session_known_in_local_view, find_founder, measure_target,
}
use colorlight_i9_abletonlin.Measure.{send_ping, measurement_start}
use colorlight_i9_abletonlin.Discovery.Broadcast.{send_response}
use colorlight_i9_abletonlin.Discovery.Peers.Alloc.{
  Allocated, Allocated-slot, find_or_alloc_peer_lem,
}
use colorlight_i9_abletonlin.Wire.{be16}
use colorlight_i9_abletonlin.Discovery.Codec.{proto_hdr, encode_header, encode_msg}
use colorlight_i9_abletonlin.Discovery.Codec.Message.{
  IsSized, announced, length-encode_msg, encode_msg_header, walk-encode_msg,
}
use colorlight_i9_abletonlin.Discovery.Peers.{find_or_alloc_peer, evict_peer}
use colorlight_i9_abletonlin.Discovery.Peers.Count.{count_node, Unique, count-evict_self}
use colorlight_i9_abletonlin.Discovery.Receive.{admit_peer, receive_state, link_handle_rx}

module _ (env : Env) where
  measurement_start-peers :
      (addr port : ℕ) (id : LinkId) (d : Device)
      → (measurement_start env addr port id d).1.peers ≡ d.peers
  unfolding measurement_start send_ping host_time_us
  measurement_start-peers addr port id d = elim (Bool-cases d.meas.active) [
    | inl on ↦ rw on refl
    | inr off ↦ rw off refl
  ]

  target-peers :
      (id : LinkId) (o : Option Peer) (d : Device) → (measure_target env id o d).1.peers ≡ d.peers
  target-peers id none d = refl
  target-peers id (some p) d = elim (Bool-cases (p.mep4_addr == 0)) [
    | inl absent ↦ rw absent refl
    | inr known ↦ rw known (
        measurement_start-peers p.mep4_addr p.mep4_port id
          (record d { active_target_session = id }))
  ]

  session_observe_peer-peers :
      (p : Peer) (d : Device) → (session_observe_peer env p d).1.peers ≡ d.peers
  unfolding session_observe_peer
  session_observe_peer-peers p d =
      elim (Bool-cases
        (same p.session_id d.self_session || session_known_in_local_view p.session_id d)) [
          | inl ours ↦ rw ours refl
          | inr other ↦ rw other (target-peers p.session_id (find_founder p.session_id d.peers) d)
        ]

  answered-peers :
      (mtype a p : ℕ) (d : Device) → (when (mtype == 1) (send_response env a p) d).1.peers ≡ d.peers
  unfolding send_response
  answered-peers mtype a p d = elim (Bool-cases (mtype == 1)) [
    | inl alive ↦ rw alive refl
    | inr quiet ↦ rw quiet refl
  ]

module _ (env : Env) (d : Device) (w : IsSized env d) (env' : Env) (r : Device) where
  link_handle_rx-admit_peer :
      (base mtype a p i : ℕ)
      → base + 181 < 2 ^ 32
      → (mtype ≡ 1) ⊎ (mtype ≡ 2)
      → same d.self_id r.self_id ≡ false
      → (find_or_alloc_peer d.self_id r.peers).1 ≡ some i
      → let table = (find_or_alloc_peer d.self_id r.peers).0 in
        link_handle_rx env' base (encode_msg env d mtype true) a p r
        ≡ some
            (admit_peer env' i mtype a p
              (announced env d (get_or table i zero_peer))
              (record r { peers = table })).1
  unfolding link_handle_rx receive_state
  link_handle_rx-admit_peer base mtype a p i room kind other slot =
      let h = encode_msg_header env d w mtype in
      let long : ltb (length (encode_msg env d mtype true)) 20 ≡ false =
        rw (length-encode_msg env d w mtype) refl in
      let group : (be16 (drop 10 (encode_msg env d mtype true)) == 0) ≡ true = rw h.2 refl in
      let state_kind : ((mtype == 3) ≡ false) × ((not (mtype == 1) && not (mtype == 2)) ≡ false) =
        ground arith in
      rw
        (
          long,
          h.0,
          same_refl proto_hdr,
          group,
          h.3,
          other,
          h.1,
          state_kind.0,
          state_kind.1,
          slot,
          walk-encode_msg env d w base mtype
              (get_or (find_or_alloc_peer d.self_id r.peers).0 i zero_peer) (omega arith),
        )
        refl

  admit_peer-stores :
      (i mtype a p : ℕ) (q : Peer) (d0 : Device)
      → (admit_peer env' i mtype a p q d0).1.peers
        ≡ set
            (set d0.peers i q)
            i
            (record q { expires_at_us = ((host_time_us env' d0).0 + 5_000_000) % 2 ^ 64 })
  unfolding admit_peer host_time_us
  admit_peer-stores i mtype a p q d0 =
      answered-peers env' mtype a p _ ∙ session_observe_peer-peers env' _ _

  -- Another device that receives an ALIVE or a RESPONSE and has a slot for its sender returns, and has
  -- then exactly the sender's state, with the sender's addresses and five seconds to live, in that slot,
  -- and the other slots as they were. The sender's arrays and words have their sizes, and the message
  -- lies below the last 181 addresses.
  pub link_handle_rx-encode_msg :
      (base mtype a p i : ℕ)
      → base + 181 < 2 ^ 32
      → (mtype ≡ 1) ⊎ (mtype ≡ 2)
      → same d.self_id r.self_id ≡ false
      → (find_or_alloc_peer d.self_id r.peers).1 ≡ some i
      → let table = (find_or_alloc_peer d.self_id r.peers).0 in
        let state = record (announced env d (get_or table i zero_peer)) {
          expires_at_us = ((host_time_us env' r).0 + 5_000_000) % 2 ^ 64;
        } in
        (r' : Device) × (link_handle_rx env' base (encode_msg env d mtype true) a p r ≡ some r')
        × (get_or r'.peers i zero_peer ≡ state)
        × (r'.peers ≡ set table i state)
  unfolding host_time_us
  link_handle_rx-encode_msg base mtype a p i room kind other slot =
      let table = (find_or_alloc_peer d.self_id r.peers).0 in
      let q : Peer = announced env d (get_or table i zero_peer) in
      let inside : i < length table =
        slot_inside (find_or_alloc_peer d.self_id r.peers).1 slot
          (find_or_alloc_peer_lem d.self_id r.peers) in
      let stores =
        admit_peer-stores i mtype a p q (record r { peers = table }) ∙ set-set table i _ _ in
      (
        (admit_peer env' i mtype a p q (record r { peers = table })).1,
        link_handle_rx-admit_peer base mtype a p i room kind other slot,
        rw stores (get_or-set_self table i _ zero_peer inside),
        stores,
      )
    where
      slot_inside :
          (o : Option ℕ)
          → o ≡ some i
          → Allocated d.self_id r.peers ((find_or_alloc_peer d.self_id r.peers).0, o)
          → i < length (find_or_alloc_peer d.self_id r.peers).0
      slot_inside none e h = absurd (ground arith)
      slot_inside (some j) e h =
          let same_slot : j ≡ i = ground arith in
          let there = (Allocated-slot d.self_id r.peers _ j h).0 in omega arith

  -- A BYEBYE takes its sender out of the table of any other device that has each node once. The
  -- sender's id has eight bytes.
  pub link_handle_rx_byebye :
      (base a p : ℕ)
      → same d.self_id r.self_id ≡ false
      → Unique r.peers
      → (r' : Device) × (link_handle_rx env' base (encode_header d 3 0) a p r ≡ some r')
        × (r'.peers ≡ evict_peer d.self_id r.peers)
        × (count_node d.self_id r'.peers ≡ 0)
  unfolding link_handle_rx encode_header be16
  link_handle_rx_byebye base a p other u =
      let id : take 8 d.self_id ≡ d.self_id =
        rw (← w.id) (rw append-nil at (take-append d.self_id [])) in
      let id2 : take 8 (take 8 d.self_id) ≡ d.self_id = rw (id, id) refl in
      (
        record r { peers = evict_peer d.self_id r.peers },
        rw (id, id, w.id, other, same_refl proto_hdr) refl,
        refl,
        omega (arith, count-evict_self d.self_id r.peers, u d.self_id),
      )
