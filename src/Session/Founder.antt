-- ===== src/Session/Founder.antt =====
-- What `find_founder` and the choice of a timeline in firmware/session.c pick from the peer table.
use colorlight_i9_abletonlin.Base.{
  ℕ, suc, ◌<◌, ◌≡◌, refl, Bool, true, false, List, [], ◌∷◌, Option, none, some, arith, length,
  get_or, Bool-cases, inl, inr, ◌⊎◌,
}
use colorlight_i9_abletonlin.Types.{LinkId, Peer, zero_peer}
use colorlight_i9_abletonlin.Session.{in_session, is_founder, first_peer, find_founder, any_peer}

-- An entry of the table.
abbrev pub IsEntry : Peer → List Peer → Type 0
IsEntry p ps = (i : ℕ) × (i < length ps) × (get_or ps i zero_peer ≡ p)

-- The search for a test found nothing that passes, or an entry that does.
abbrev Search : (Peer → Bool) → List Peer → Option Peer → Type 0
Search test ps none = any_peer test ps ≡ false
Search test ps (some p) = (test p ≡ true) × IsEntry p ps × (any_peer test ps ≡ true)

Search-cons :
    (test : Peer → Bool) (q : Peer) (ps : List Peer) (o : Option Peer)
    → test q ≡ false
    → Search test ps o
    → Search test (q ∷ ps) o
Search-cons test q ps none miss h = ground arith
Search-cons test q ps (some p) miss (t, (i, l, e), a) = (t, (suc i, omega arith, e), rw (miss) a)

first_peer_lem : (test : Peer → Bool) (ps : List Peer) → Search test ps (first_peer test ps)
first_peer_lem test [] = refl
first_peer_lem test (q ∷ ps) = elim (Bool-cases (test q)) [
  | inl hit ↦ rw hit (hit, (0, omega arith, refl), rw hit refl)
  | inr miss ↦ rw miss (Search-cons test q ps _ miss (first_peer_lem test ps))
]

-- What `find_founder` may return: nothing without a peer in the session; else a peer of the table
-- in the session, and the founder itself if the table has it.
abbrev pub Founder : LinkId → List Peer → Option Peer → Type 0
Founder s ps none = any_peer (in_session s) ps ≡ false
Founder s ps (some p) =
    IsEntry p ps
    × (in_session s p ≡ true)
    × ((any_peer (is_founder s) ps ≡ false) ⊎ (is_founder s p ≡ true))

fallback :
    (s : LinkId) (ps : List Peer) (o : Option Peer)
    → any_peer (is_founder s) ps ≡ false
    → Search (in_session s) ps o
    → Founder s ps o
fallback s ps none no_founder h = h
fallback s ps (some p) no_founder h = (h.1, h.0, inl no_founder)

choose :
    (s : LinkId) (ps : List Peer) (o : Option Peer)
    → Search (is_founder s) ps o
    → Founder s ps (elim o [ some p ↦ some p | none ↦ first_peer (in_session s) ps ])
choose s ps none h = fallback s ps _ h (first_peer_lem (in_session s) ps)
choose s ps (some p) h = (h.1, ground arith, inr h.0)

-- Of any table and session: nothing is returned only if no peer of the table is in the session; a
-- peer that is returned is in the table and the session, and is the founder if the table has it.
pub find_founder_lem : (s : LinkId) (ps : List Peer) → Founder s ps (find_founder s ps)
unfolding find_founder
find_founder_lem s ps = choose s ps _ (first_peer_lem (is_founder s) ps)
