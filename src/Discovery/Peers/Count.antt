-- ===== src/Discovery/Peers/Count.antt =====
-- How often a node stands in the peer table of firmware/link.c, under each operation of the table.
use colorlight_i9_abletonlin.Base.{
  ℕ, zero, suc, ◌%◌, ◌^◌, ◌⊎◌, inl, inr, true, ltb, ltb→lt, ltb→le, Bool-cases, ◌+◌, ◌-◌, ◌≤◌, ◌<◌,
  ◌≡◌, refl, false, List, [], ◌∷◌, arith, if◌then◌else◌, length, get_or, set,
}
use colorlight_i9_abletonlin.Types.{LinkId, Peer, zero_peer}
use colorlight_i9_abletonlin.Discovery.Peers.{is_node, is_expired, evict_peer, prune_peers}

-- 1 for an entry in use under the id.
abbrev pub here : LinkId → Peer → ℕ
here id p = if is_node id p then 1 else 0

abbrev pub count_node : LinkId → List Peer → ℕ
count_node id [] = 0
count_node id (p ∷ ps) = here id p + count_node id ps

-- No node stands twice in the table.
abbrev pub Unique : List Peer → Type 0
Unique ps = (id : LinkId) → count_node id ps ≤ 1

pub count-set :
    (id : LinkId) (ps : List Peer) (i : ℕ) (q : Peer)
    → i < length ps
    → count_node id (set ps i q) + here id (get_or ps i zero_peer) ≡ count_node id ps + here id q
count-set id [] i q h = absurd (omega arith)
count-set id (p ∷ ps) zero q h = omega arith
count-set id (p ∷ ps) (suc i) q h = omega (arith, count-set id ps i q (omega arith))

pub count-evict_le :
    (id j : LinkId) (ps : List Peer) → count_node j (evict_peer id ps) ≤ count_node j ps
unfolding evict_peer
count-evict_le id j [] = omega arith
count-evict_le id j (p ∷ ps) = ground (arith, count-evict_le id j ps)

-- Eviction takes one entry of the node out, if there is any.
pub count-evict_self :
    (id : LinkId) (ps : List Peer) → count_node id (evict_peer id ps) ≡ count_node id ps - 1
unfolding evict_peer
count-evict_self id [] = omega arith
count-evict_self id (p ∷ ps) = ground (arith, count-evict_self id ps)

pub length-evict : (id : LinkId) (ps : List Peer) → length (evict_peer id ps) ≡ length ps
unfolding evict_peer
length-evict id [] = refl
length-evict id (p ∷ ps) = ground (arith, length-evict id ps)

pub count-prune_le :
    (now : ℕ) (j : LinkId) (ps : List Peer) → count_node j (prune_peers now ps) ≤ count_node j ps
unfolding prune_peers
count-prune_le now j [] = omega arith
count-prune_le now j (p ∷ ps) = ground (arith, count-prune_le now j ps)

pub length-prune : (now : ℕ) (ps : List Peer) → length (prune_peers now ps) ≡ length ps
unfolding prune_peers
length-prune now [] = refl
length-prune now (p ∷ ps) = ground (arith, length-prune now ps)

-- What a pruning makes of an entry: one in use that expired more than a second ago is cleared, and any
-- other stays as it is.
abbrev pub Pruned : ℕ → Peer → Peer → Type 0
Pruned now p p' =
    ((p.in_use ≡ true) × ((p.expires_at_us + 1_000_000) % 2 ^ 64 < now) × (p' ≡ zero_peer))
    ⊎ (((p.in_use ≡ false) ⊎ (now ≤ (p.expires_at_us + 1_000_000) % 2 ^ 64)) × (p' ≡ p))

prune-Pruned : (now : ℕ) (p : Peer) → Pruned now p (if is_expired now p then zero_peer else p)
prune-Pruned now p = elim (Bool-cases p.in_use) [
  | inr idle ↦ rw idle (inr (inl refl, refl))
  | inl used ↦ elim (Bool-cases (ltb ((p.expires_at_us + 1_000_000) % 2 ^ 64) now)) [
    | inl late ↦ rw (used, late) (inl (refl, ltb→lt _ _ late, refl))
    | inr early ↦ rw (used, early) (inr (inr (ltb→le _ _ early), refl))
  ]
]

-- A pruning clears exactly the entries in use whose time to live, with a grace period of one second, is
-- over: every other slot, near the deadline as well, keeps its entry, and the table its size.
pub prune_peers_lem :
    (now : ℕ) (ps : List Peer) (i : ℕ)
    → Pruned now (get_or ps i zero_peer) (get_or (prune_peers now ps) i zero_peer)
      × (length (prune_peers now ps) ≡ length ps)
unfolding prune_peers
prune_peers_lem now [] i = (inr (inl refl, refl), refl)
prune_peers_lem now (p ∷ ps) zero = (prune-Pruned now p, length-prune now (p ∷ ps))
prune_peers_lem now (p ∷ ps) (suc i) = ((prune_peers_lem now ps i).0, length-prune now (p ∷ ps))
