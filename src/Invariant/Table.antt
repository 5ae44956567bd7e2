-- ===== src/Invariant/Table.antt =====
-- The operations of firmware/link.c keep the invariant.
use colorlight_i9_abletonlin.Base.{
  ℕ, ◌+◌, ◌*◌, ◌%◌, ◌^◌, ◌≤◌, ◌<◌, ◌≡◌, refl, ◌∙◌, Bool, true, false, not, ◌&&◌, List, Option, none,
  some, arith, if◌then◌else◌, ltb, leb, ltb→le, ◌==◌, length, length-set, same, get_or,
  get_or-set_self, ◌||◌, take, drop,
}
use colorlight_i9_abletonlin.Config.{discovery_ttl_sec}
use colorlight_i9_abletonlin.Types.{LinkId, Peer, zero_peer}
use colorlight_i9_abletonlin.Device.{Device, Env, host_time_us}
use colorlight_i9_abletonlin.Wire.{Walk, ret, fault, running, tlv_walk, byte_at, be16}
use colorlight_i9_abletonlin.Wire.Total.{Returns, Leaves, tlv_walk-Leaves}
use colorlight_i9_abletonlin.Session.{session_observe_peer}
use colorlight_i9_abletonlin.Discovery.Codec.{proto_hdr, handle_entry}
use colorlight_i9_abletonlin.Discovery.Broadcast.{send_alive, send_response}
use colorlight_i9_abletonlin.Discovery.Peers.{find_or_alloc_peer, evict_peer}
use colorlight_i9_abletonlin.Discovery.Peers.Count.{
  here, count-set, count-evict_le, length-evict, count-prune_le, length-prune,
}
use colorlight_i9_abletonlin.Discovery.Peers.Alloc.{
  Allocated, Allocated-slot, find_or_alloc_peer_lem, find_or_alloc_peer-Unique,
  length-find_or_alloc_peer,
}
use colorlight_i9_abletonlin.Discovery.Receive.{
  store_peer, admit_peer, parsed, fill_slot, receive_state, link_handle_rx,
}
use colorlight_i9_abletonlin.Discovery.Tick.{broadcast_due, link_tick}
use colorlight_i9_abletonlin.Invariant.{Inv}
use colorlight_i9_abletonlin.Invariant.Buffer.{Keeps, Inv-when, set_meas-Inv}
use colorlight_i9_abletonlin.Invariant.Election.{session_observe_peer-Inv}

-- The entry is in use under the id.
abbrev pub Owned : LinkId → Peer → Type 0
Owned id p = (p.in_use ≡ true) × (p.node_id ≡ id)

-- No entry of a message changes whose the slot is.
pub handle_entry-Owned :
    (id : LinkId) (key : ℕ) (v : List ℕ) (n : ℕ) (p : Peer)
    → Owned id p
    → Owned id (handle_entry key v n p).1
unfolding handle_entry
handle_entry-Owned id key v n p h = ground arith

here-Owned : (id j : LinkId) (p q : Peer) → Owned id p → Owned id q → here j p ≡ here j q
here-Owned id j p q h k = rw (h.0, h.1, k.0, k.1) refl

-- A slot is written with another entry of the same node.
store-Inv :
    (id : LinkId) (i : ℕ) (q : Peer) (d : Device)
    → i < length d.peers
    → Owned id (get_or d.peers i zero_peer)
    → Owned id q
    → Inv d
    → Inv (store_peer i q d).1
store-Inv id i q d lt h k v = record {
  slots = length-set d.peers i q ∙ v.slots;
  unique = λ j. omega (
    arith,
    count-set j d.peers i q lt,
    here-Owned id j (get_or d.peers i zero_peer) q h k,
    v.unique j,
  );
  buffer = v.buffer;
}

send_response_frame :
    (env : Env) (a p : ℕ) (d : Device)
    → ((send_response env a p d).1.peers ≡ d.peers) × ((send_response env a p d).1.meas ≡ d.meas)
unfolding send_response
send_response_frame env a p d = (refl, refl)

-- The handler returned, and its state keeps the invariant.
abbrev pub Received : Option Device → Type 0
Received none = ⊥
Received (some d) = Inv d

pub Received-if :
    (b : Bool) (o o' : Option Device)
    → Received o
    → (b ≡ false → Received o')
    → Received (if b then o else o')
Received-if true o o' h h' = h
Received-if false o o' h h' = h' refl

module _ (env : Env) where
  admit-Inv :
      (id : LinkId) (i mtype a p : ℕ) (q : Peer) (d : Device)
      → i < length d.peers
      → Owned id (get_or d.peers i zero_peer)
      → Owned id q
      → Inv d
      → Inv (admit_peer env i mtype a p q d).1
  unfolding admit_peer host_time_us
  admit-Inv id i mtype a p q d lt h k v =
      let stored : Device = (store_peer i q d).1 in
      let v1 : Inv stored = store-Inv id i q d lt h k v in
      let read : Device = (host_time_us env stored).1 in
      let v2 : Inv read = set_meas-Inv stored read refl v1.buffer v1 in
      let now : ℕ = (host_time_us env stored).0 in
      let fresh : Peer = record q {
        expires_at_us = (now + discovery_ttl_sec * 1_000_000) % 2 ^ 64;
      } in
      let held : Owned id (get_or read.peers i zero_peer) =
        rw (get_or-set_self d.peers i q zero_peer lt) k in
      let v3 : Inv (store_peer i fresh read).1 =
        store-Inv id i fresh read (omega (arith, length-set d.peers i q)) held k v2 in
      let observed : Device = (session_observe_peer env fresh (store_peer i fresh read).1).1 in
      let v4 : Inv observed = session_observe_peer-Inv env fresh _ v3 in
      let f = send_response_frame env a p observed in
      Inv-when (mtype == 1) (send_response env a p) observed v4
        (set_meas-Inv observed _ f.0 (rw f.1 v4.buffer) v4)

  parsed-Received :
      (id : LinkId) (i mtype a p : ℕ) (d : Device) (w : Walk Peer)
      → i < length d.peers
      → Owned id (get_or d.peers i zero_peer)
      → Leaves (Owned id) w
      → Returns w
      → Inv d
      → Received (parsed env i mtype a p d w)
  parsed-Received id i mtype a p d (ret code q) lt h k r v = admit-Inv id i mtype a p q d lt h k v
  parsed-Received id i mtype a p d fault lt h k r v = r
  parsed-Received id i mtype a p d running lt h k r v = r

  module _ (base : ℕ) (buf : List ℕ)
      (walks : (20 ≤ length buf) × ((not (byte_at buf 8 == 1) && not (byte_at buf 8 == 2)) ≡ false)
        → (q : Peer) → Returns (tlv_walk (base + 20) (drop 20 buf) handle_entry q)) where
    fill_slot-Received :
        (id : LinkId) (mtype a p : ℕ) (ps : List Peer) (d : Device) (slot : Option ℕ)
        → (20 ≤ length buf) × ((not (byte_at buf 8 == 1) && not (byte_at buf 8 == 2)) ≡ false)
        → Allocated id ps (d.peers, slot)
        → Inv d
        → Received (fill_slot env base buf mtype a p d slot)
    fill_slot-Received id mtype a p ps d none long h v = v
    fill_slot-Received id mtype a p ps d (some i) long h v =
        let owned = Allocated-slot id ps d.peers i h in
        let own : Owned id (get_or d.peers i zero_peer) = (owned.1, owned.2) in
        parsed-Received id i mtype a p d _ owned.0 own
          (tlv_walk-Leaves (Owned id) (base + 20) (drop 20 buf) handle_entry (handle_entry-Owned id)
            _ own)
          (walks long _) v

    receive_state-Received :
        (id : LinkId) (mtype a p : ℕ) (d : Device)
        → (20 ≤ length buf) × ((not (byte_at buf 8 == 1) && not (byte_at buf 8 == 2)) ≡ false)
        → Inv d
        → Received (receive_state env base buf mtype a p id d)
    unfolding receive_state
    receive_state-Received id mtype a p d long v =
        let ps : List Peer = (find_or_alloc_peer id d.peers).0 in
        let table : Inv (record d { peers = ps }) = record {
          slots = length-find_or_alloc_peer id d.peers ∙ v.slots;
          unique = find_or_alloc_peer-Unique id d.peers v.unique;
          buffer = v.buffer;
        } in
        fill_slot-Received id mtype a p d.peers (record d { peers = ps }) _ long
          (find_or_alloc_peer_lem id d.peers) table

    evict-Inv :
        (id : LinkId) (d : Device) → Inv d → Inv (record d { peers = evict_peer id d.peers })
    evict-Inv id d v = record {
      slots = length-evict id d.peers ∙ v.slots;
      unique = λ j. omega (arith, count-evict_le id j d.peers, v.unique j);
      buffer = v.buffer;
    }

    pub link_handle_rx-Received :
        (src_addr src_port : ℕ) (d : Device)
        → Inv d
        → Received (link_handle_rx env base buf src_addr src_port d)
    unfolding link_handle_rx
    link_handle_rx-Received src_addr src_port d v =
        let ignored : Option Device = some d in
        let mtype : ℕ = byte_at buf 8 in
        let id : LinkId = take 8 (drop 12 buf) in
        Received-if (ltb (length buf) 20) ignored _ v (λ long.
          Received-if (not (same (take 8 buf) proto_hdr)) ignored _ v (λ _.
            Received-if (not (be16 (drop 10 buf) == 0)) ignored _ v (λ _.
              Received-if (same id d.self_id) ignored _ v (λ _.
                Received-if (mtype == 3) (some (record d { peers = evict_peer id d.peers })) _
                  (evict-Inv id d v)
                  (λ _. Received-if (not (mtype == 1) && not (mtype == 2)) ignored _ v (λ known.
                    receive_state-Received id mtype src_addr src_port d
                      (ltb→le (length buf) 20 long, known) v))))))

  broadcast_frame :
      (now : ℕ) (d : Device)
      → ((broadcast_due env now d).1.peers ≡ d.peers) × ((broadcast_due env now d).1.meas ≡ d.meas)
  unfolding broadcast_due send_alive host_time_us
  broadcast_frame now d = ground arith

  pub link_tick-Inv : Keeps (link_tick env)
  unfolding link_tick host_time_us
  link_tick-Inv d v =
      let read : Device = (host_time_us env d).1 in
      let now : ℕ = (host_time_us env d).0 in
      let v' : Inv read = set_meas-Inv d read refl v.buffer v in
      let f = broadcast_frame now read in
      let w =
        Inv-when (d.state_dirty || leb d.next_bcast_us now) (broadcast_due env now) read v'
          (set_meas-Inv read _ f.0 (rw f.1 v'.buffer) v') in
      record {
        slots = length-prune now _ ∙ w.slots;
        unique = λ j. omega (arith, count-prune_le now j _, w.unique j);
        buffer = w.buffer;
      }
