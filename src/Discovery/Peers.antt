-- ===== src/Discovery/Peers.antt =====
-- firmware/link.c: the peer table. A pointer into the table is an index.
pub mod Count
pub mod Alloc
use colorlight_i9_abletonlin.Base.{
  ℕ, ◌+◌, ◌*◌, ◌%◌, ◌^◌, Bool, true, ◌&&◌, List, [], ◌∷◌, Option, none, some, ltb, if◌then◌else◌,
  same, set,
}
use colorlight_i9_abletonlin.Config.{prune_grace_ms}
use colorlight_i9_abletonlin.Types.{LinkId, Peer, zero_peer}

-- `p->in_use && memcmp(p->node_id.bytes, id->bytes, 8) == 0`.
abbrev pub is_node : LinkId → Peer → Bool
is_node id p = p.in_use && same p.node_id id

pub data Scan : Type 0 where
  found : ℕ → Scan
  missing : Option ℕ → Scan

abbrev first_free : Peer → ℕ → Option ℕ → Option ℕ
first_free p i (some j) = some j
first_free p i none = if p.in_use then none else some i

-- The loop of `find_or_alloc_peer` from index `i` on, with the free slot seen so far.
unfoldable pub scan_peers : LinkId → List Peer → ℕ → Option ℕ → Scan
scan_peers id [] i free = missing free
scan_peers id (p ∷ ps) i free =
    let rest = scan_peers id ps (i + 1) (first_free p i free) in
    if is_node id p then found i else rest

abbrev pub fresh_peer : LinkId → Peer
fresh_peer id = record zero_peer { in_use = true; node_id = id }

-- Behind the loop: the table and the slot that is returned, `none` for the null pointer.
abbrev pub take_slot : LinkId → List Peer → Scan → List Peer × Option ℕ
take_slot id peers (found i) = (peers, some i)
take_slot id peers (missing none) = (peers, none)
take_slot id peers (missing (some i)) = (set peers i (fresh_peer id), some i)

unfoldable pub find_or_alloc_peer : LinkId → List Peer → List Peer × Option ℕ
unfolding scan_peers
find_or_alloc_peer id peers = take_slot id peers (scan_peers id peers 0 none)

unfoldable pub evict_peer : LinkId → List Peer → List Peer
evict_peer id [] = []
evict_peer id (p ∷ ps) =
    let rest = evict_peer id ps in if is_node id p then zero_peer ∷ ps else p ∷ rest

-- The last loop of `link_tick`.
abbrev pub is_expired : ℕ → Peer → Bool
is_expired now p = p.in_use && ltb ((p.expires_at_us + prune_grace_ms * 1000) % 2 ^ 64) now

unfoldable pub prune_peers : ℕ → List Peer → List Peer
prune_peers now [] = []
prune_peers now (p ∷ ps) = (if is_expired now p then zero_peer else p) ∷ prune_peers now ps
