-- ===== src/Discovery/Peers/Alloc.antt =====
-- `find_or_alloc_peer` of firmware/link.c.
use colorlight_i9_abletonlin.Base.{
  ℕ, zero, suc, ◌+◌, ◌-◌, ◌≤◌, ◌<◌, ◌≡◌, refl, true, false, List, [], ◌∷◌, Option, none, some,
  arith, same, same→eq, length, length-set, get_or, get_or-set_self, set, ◌⊎◌, inl, inr, Bool-cases,
}
use colorlight_i9_abletonlin.Types.{LinkId, Peer, zero_peer}
use colorlight_i9_abletonlin.Discovery.Peers.{
  is_node, Scan, found, missing, first_free, scan_peers, fresh_peer, take_slot, find_or_alloc_peer,
}
use colorlight_i9_abletonlin.Discovery.Peers.Count.{here, count_node, Unique, count-set}

-- Every entry is in use.
abbrev pub IsFull : List Peer → Type 0
IsFull [] = Unit {0}
IsFull (p ∷ ps) = (p.in_use ≡ true) × IsFull ps

abbrev slot : List Peer → ℕ → Peer
slot ps i = get_or ps i zero_peer

-- The outcome of the loop over `ps`, which stands from index `i` on, with `free` seen before.
abbrev ScanOf : LinkId → List Peer → ℕ → Option ℕ → Scan → Type 0
ScanOf id ps i free (found j) =
    (i ≤ j) × (j < i + length ps) × (is_node id (slot ps (j - i)) ≡ true)
ScanOf id ps i (some k) (missing m) = (count_node id ps ≡ 0) × (m ≡ some k)
ScanOf id ps i none (missing none) = (count_node id ps ≡ 0) × IsFull ps
ScanOf id ps i none (missing (some k)) =
    (count_node id ps ≡ 0) × (i ≤ k) × (k < i + length ps) × ((slot ps (k - i)).in_use ≡ false)

later-free :
    (id : LinkId) (p : Peer) (ps : List Peer) (i k : ℕ)
    → is_node id p ≡ false
    → ScanOf id ps (i + 1) none (missing (some k))
    → ScanOf id (p ∷ ps) i none (missing (some k))
later-free id p ps i k miss h =
    let e : k - i ≡ suc (k - (i + 1)) = omega arith in
    (ground arith, omega arith, omega arith, rw e h.3)

first-free :
    (id : LinkId) (p : Peer) (ps : List Peer) (i k : ℕ)
    → is_node id p ≡ false
    → p.in_use ≡ false
    → ScanOf id ps (i + 1) (some i) (missing (some k))
    → ScanOf id (p ∷ ps) i none (missing (some k))
first-free id p ps i k miss idle h =
    let same_slot : k ≡ i = cc (h.1) in
    let e : k - i ≡ zero = omega arith in (ground arith, omega arith, omega arith, rw e idle)

ScanOf-cons :
    (id : LinkId) (p : Peer) (ps : List Peer) (i : ℕ) (free : Option ℕ) (s : Scan)
    → is_node id p ≡ false
    → ScanOf id ps (i + 1) (first_free p i free) s
    → ScanOf id (p ∷ ps) i free s
ScanOf-cons id p ps i free (found j) miss h =
    let e : j - i ≡ suc (j - (i + 1)) = omega arith in (omega arith, omega arith, rw e h.2)
ScanOf-cons id p ps i (some k) (missing m) miss h = ground arith
ScanOf-cons id p ps i none (missing none) miss h = elim (Bool-cases p.in_use) [
  | inl used ↦ ground arith
  | inr idle ↦ ground arith
]
ScanOf-cons id p ps i none (missing (some k)) miss h = elim (Bool-cases p.in_use) [
  | inl used ↦ later-free id p ps i k miss (rw used at h)
  | inr idle ↦ first-free id p ps i k miss idle (rw idle at h)
]

scan_peers_lem :
    (id : LinkId) (ps : List Peer) (i : ℕ) (free : Option ℕ)
    → ScanOf id ps i free (scan_peers id ps i free)
unfolding scan_peers
scan_peers_lem id [] i none = (refl, tt)
scan_peers_lem id [] i (some k) = (refl, refl)
scan_peers_lem id (p ∷ ps) i free = elim (Bool-cases (is_node id p)) [
  | inl hit ↦ let e : i - i ≡ zero = omega arith in rw hit (omega arith, omega arith, rw e hit)
  | inr miss ↦
      rw miss
        (ScanOf-cons id p ps i free _ miss (scan_peers_lem id ps (i + 1) (first_free p i free)))
]

-- What the caller is given.
abbrev pub Allocated : LinkId → List Peer → List Peer × Option ℕ → Type 0
Allocated id ps (qs, none) = (qs ≡ ps) × (count_node id ps ≡ 0) × IsFull ps
Allocated id ps (qs, some i) =
    (i < length ps)
    × ((qs ≡ ps) × (is_node id (slot ps i) ≡ true)
        ⊎ (count_node id ps ≡ 0) × ((slot ps i).in_use ≡ false) × (qs ≡ set ps i (fresh_peer id)))

ScanOf-Allocated :
    (id : LinkId) (ps : List Peer) (s : Scan)
    → ScanOf id ps 0 none s
    → Allocated id ps (take_slot id ps s)
ScanOf-Allocated id ps (found j) h =
    let e : j - 0 ≡ j = omega arith in (omega arith, inl (refl, rw e at h.2))
ScanOf-Allocated id ps (missing none) h = (refl, h.0, h.1)
ScanOf-Allocated id ps (missing (some k)) h =
    let e : k - 0 ≡ k = omega arith in (omega arith, inr (h.0, rw e at h.3, refl))

-- Of any table: nothing is returned only with the node absent and every entry in use, and then
-- the table is untouched. A slot that is returned lies in the table and is the node's own, the
-- table untouched, or was free while the node was absent, and only it is written.
pub find_or_alloc_peer_lem :
    (id : LinkId) (ps : List Peer) → Allocated id ps (find_or_alloc_peer id ps)
unfolding find_or_alloc_peer
find_or_alloc_peer_lem id ps =
    ScanOf-Allocated id ps (scan_peers id ps 0 none) (scan_peers_lem id ps 0 none)

here_idle : (id : LinkId) (p : Peer) → p.in_use ≡ false → here id p ≡ 0
here_idle id p h = ground arith

here-le : (id : LinkId) (p : Peer) → here id p ≤ 1
here-le id p = ground arith

Allocated-Unique :
    (id : LinkId) (ps : List Peer) (r : List Peer × Option ℕ)
    → Allocated id ps r
    → Unique ps
    → Unique r.0
Allocated-Unique id ps (qs, none) h u = rw h.0 u
Allocated-Unique id ps (qs, some i) (lt, inl (e, _)) u = rw e u
Allocated-Unique id ps (qs, some i) (lt, inr (absent, idle, e)) u = rw e (λ j.
    elim (Bool-cases (same id j)) [
      | inl eq ↦
          let e' : id ≡ j = same→eq id j eq in
          omega (
            arith,
            count-set j ps i (fresh_peer id) lt,
            here_idle j (slot ps i) idle,
            rw e' at absent,
            here-le j (fresh_peer id),
          )
      | inr ne ↦
          let skip : here j (fresh_peer id) ≡ 0 = ground arith in
          omega (arith, count-set j ps i (fresh_peer id) lt, here_idle j (slot ps i) idle, u j)
    ])

-- No node gets a second slot.
pub find_or_alloc_peer-Unique :
    (id : LinkId) (ps : List Peer) → Unique ps → Unique (find_or_alloc_peer id ps).0
find_or_alloc_peer-Unique id ps u = Allocated-Unique id ps _ (find_or_alloc_peer_lem id ps) u

length-take_slot :
    (id : LinkId) (ps : List Peer) (s : Scan) → length (take_slot id ps s).0 ≡ length ps
length-take_slot id ps (found j) = refl
length-take_slot id ps (missing none) = refl
length-take_slot id ps (missing (some k)) = length-set ps k (fresh_peer id)

pub length-find_or_alloc_peer :
    (id : LinkId) (ps : List Peer) → length (find_or_alloc_peer id ps).0 ≡ length ps
unfolding find_or_alloc_peer
length-find_or_alloc_peer id ps = length-take_slot id ps (scan_peers id ps 0 none)

-- A slot that is returned is in use under the id.
pub Allocated-slot :
    (id : LinkId) (ps qs : List Peer) (i : ℕ)
    → Allocated id ps (qs, some i)
    → (i < length qs)
      × ((get_or qs i zero_peer).in_use ≡ true)
      × ((get_or qs i zero_peer).node_id ≡ id)
Allocated-slot id ps qs i (lt, inl (e, hit)) = rw e (owned (slot ps i) lt hit)
  where
    owned :
        (p : Peer)
        → i < length ps
        → is_node id p ≡ true
        → (i < length ps) × (p.in_use ≡ true) × (p.node_id ≡ id)
    owned p lt hit = ground (arith, same→eq p.node_id id)
Allocated-slot id ps qs i (lt, inr (absent, idle, e)) =
    rw (e, get_or-set_self ps i (fresh_peer id) zero_peer lt)
      (omega (arith, length-set ps i (fresh_peer id)), refl, refl)
