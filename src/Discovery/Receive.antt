-- ===== src/Discovery/Receive.antt =====
-- firmware/link.c: `link_handle_rx`.
pub mod Announce
use colorlight_i9_abletonlin.Base.{
  ℕ, ◌+◌, ◌*◌, ◌%◌, ◌^◌, ◌&&◌, not, List, Option, none, some, ltb, ◌==◌, if◌then◌else◌, same,
  length, get_or, set, take, drop,
}
use colorlight_i9_abletonlin.Config.{discovery_ttl_sec}
use colorlight_i9_abletonlin.Types.{LinkId, Peer, zero_peer}
use colorlight_i9_abletonlin.Device.{Device, Env, M, ◌>>=◌, ◌>>◌, modify, when, host_time_us}
use colorlight_i9_abletonlin.Wire.{Walk, ret, fault, running, byte_at, be16, tlv_walk}
use colorlight_i9_abletonlin.Discovery.Codec.{proto_hdr, handle_entry}
use colorlight_i9_abletonlin.Discovery.Peers.{find_or_alloc_peer, evict_peer}
use colorlight_i9_abletonlin.Discovery.Broadcast.{send_response}
use colorlight_i9_abletonlin.Session.{session_observe_peer}

-- `*peer = p` through the pointer to slot `i`.
abbrev pub store_peer : ℕ → Peer → M (Unit {0})
store_peer i p = modify λ d. record d { peers = set d.peers i p }

module _ (env : Env) where
  -- Behind the walk, which has left `parsed` in slot `i`.
  unfoldable pub admit_peer : ℕ → ℕ → ℕ → ℕ → Peer → M (Unit {0})
  admit_peer i mtype src_addr src_port parsed = do
    store_peer i parsed
    now ← host_time_us env
    let peer = record parsed { expires_at_us = (now + discovery_ttl_sec * 1_000_000) % 2 ^ 64 }
    store_peer i peer
    session_observe_peer env peer
    when (mtype == 1) (send_response env src_addr src_port)

  -- Behind the walk, whose return value is not looked at. `none` is a walk that left the buffer or
  -- did not end.
  abbrev pub parsed : ℕ → ℕ → ℕ → ℕ → Device → Walk Peer → Option Device
  parsed i mtype src_addr src_port d (ret code p) =
      some (admit_peer i mtype src_addr src_port p d).1
  parsed i mtype src_addr src_port d fault = none
  parsed i mtype src_addr src_port d running = none

  -- Behind the search for a slot.
  abbrev pub fill_slot : ℕ → List ℕ → ℕ → ℕ → ℕ → Device → Option ℕ → Option Device
  fill_slot base buf mtype src_addr src_port d none = some d
  fill_slot base buf mtype src_addr src_port d (some i) =
      parsed i mtype src_addr src_port d
        (tlv_walk (base + 20) (drop 20 buf) handle_entry (get_or d.peers i zero_peer))

  -- An ALIVE or a RESPONSE of node `id`.
  unfoldable pub receive_state : ℕ → List ℕ → ℕ → ℕ → ℕ → LinkId → Device → Option Device
  receive_state base buf mtype src_addr src_port id d =
      let table = find_or_alloc_peer id d.peers in
      fill_slot base buf mtype src_addr src_port (record d { peers = table.0 }) table.1

  -- `base` is the address of `buf`.
  unfoldable pub link_handle_rx : ℕ → List ℕ → ℕ → ℕ → Device → Option Device
  link_handle_rx base buf src_addr src_port d =
      let ignored = some d in
      let mtype = byte_at buf 8 in
      let group = be16 (drop 10 buf) in
      let id = take 8 (drop 12 buf) in
      if ltb (length buf) (8 + 12)
      then ignored
      else if not (same (take 8 buf) proto_hdr)
      then ignored
      else if not (group == 0)
      then ignored
      else if same id d.self_id
      then ignored
      else if mtype == 3
      then some (record d { peers = evict_peer id d.peers })
      else if not (mtype == 1) && not (mtype == 2)
      then ignored
      else receive_state base buf mtype src_addr src_port id d
