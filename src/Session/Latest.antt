-- ===== src/Session/Latest.antt =====
-- Whose timeline a device adopts when it joins a session, in firmware/session.c.
use colorlight_i9_abletonlin.Base.{
  ℕ, suc, ◌≤◌, ◌≡◌, refl, true, false, List, [], ◌∷◌, Option, none, some, arith, Bool-cases, inl,
  inr, ◌⊎◌, ◌&&◌, ltb, ltb→lt, ltb→le,
}
use colorlight_i9_abletonlin.Base.Int64.{slt, bias}
use colorlight_i9_abletonlin.Types.{LinkId, Peer}
use colorlight_i9_abletonlin.Session.{in_session, any_peer, later_origin, best_timeline}
use colorlight_i9_abletonlin.Session.Founder.{IsEntry}

-- The place of a peer's time origin in the order of `int64_t`.
pub origin : Peer → ℕ
origin p = bias p.timeline.time_origin_us_ghost

later : (c p : Peer) → later_origin p (some c) ≡ ltb (origin c) (origin p)
unfolding origin slt
later c p = refl

-- No peer of the session in the list has a later origin.
abbrev pub IsLatest : LinkId → List Peer → Peer → Type 0
IsLatest s [] b = Unit {0}
IsLatest s (p ∷ ps) b = ((in_session s p ≡ false) ⊎ (origin p ≤ origin b)) × IsLatest s ps b

NotLater : Option Peer → Peer → Type 0
NotLater none b = Unit {0}
NotLater (some c) b = origin c ≤ origin b

-- The loop over the list with a candidate at its start.
Latest : LinkId → List Peer → Option Peer → Option Peer → Type 0
Latest s ps best none = (best ≡ none) × (any_peer (in_session s) ps ≡ false)
Latest s ps best (some b) =
    ((best ≡ some b) ⊎ (IsEntry b ps × (in_session s b ≡ true))) × IsLatest s ps b × NotLater best b

IsEntry-cons : (b p : Peer) (ps : List Peer) → IsEntry b ps → IsEntry b (p ∷ ps)
IsEntry-cons b p ps (i, l, e) = (suc i, omega arith, e)

-- The head is taken as the candidate.
taken :
    (s : LinkId) (p : Peer) (ps : List Peer) (best r : Option Peer)
    → in_session s p ≡ true
    → later_origin p best ≡ true
    → Latest s ps (some p) r
    → Latest s (p ∷ ps) best r
unfolding Latest NotLater
taken s p ps best none member newer (e, _) = cc
taken s p ps best (some b) member newer (from, latest, le) =
    (inr (came from), (inr le, latest), older best newer)
  where
    came :
        (some p ≡ some b) ⊎ (IsEntry b ps × (in_session s b ≡ true))
        → IsEntry b (p ∷ ps) × (in_session s b ≡ true)
    came (inl e) = let e' : p ≡ b = cc in ((0, omega arith, e'), rw e' at member)
    came (inr (entry, m)) = (IsEntry-cons b p ps entry, m)

    older : (c : Option Peer) → later_origin p c ≡ true → NotLater c b
    older none h = tt
    older (some c) h = omega (arith, ltb→lt (origin c) (origin p) (rw later at h), le)

-- The head is passed over.
passed :
    (s : LinkId) (p : Peer) (ps : List Peer) (best r : Option Peer)
    → (in_session s p && later_origin p best) ≡ false
    → Latest s ps best r
    → Latest s (p ∷ ps) best r
unfolding Latest NotLater
passed s p ps none none miss (e, absent) =
    let out : in_session s p ≡ false = ground arith in (refl, ground (arith, out, absent))
passed s p ps (some c) none miss (e, absent) = cc
passed s p ps best (some b) miss (from, latest, le) = (kept from, (head best miss le, latest), le)
  where
    kept :
        (best ≡ some b) ⊎ (IsEntry b ps × (in_session s b ≡ true))
        → (best ≡ some b) ⊎ (IsEntry b (p ∷ ps) × (in_session s b ≡ true))
    kept (inl e) = inl e
    kept (inr (entry, m)) = inr (IsEntry-cons b p ps entry, m)

    older : (c : Option Peer) → later_origin p c ≡ false → NotLater c b → origin p ≤ origin b
    older none h l = cc
    older (some c) h l = omega (arith, ltb→le (origin c) (origin p) (rw later at h), l)

    head :
        (c : Option Peer)
        → (in_session s p && later_origin p c) ≡ false
        → NotLater c b
        → (in_session s p ≡ false) ⊎ (origin p ≤ origin b)
    head c h l = elim (Bool-cases (in_session s p)) [
      | inr out ↦ inl out
      | inl m ↦ inr (older c (rw m at h) l)
    ]

best_timeline_from :
    (s : LinkId) (best : Option Peer) (ps : List Peer) → Latest s ps best (best_timeline s best ps)
unfolding best_timeline
best_timeline_from s none [] = unfold Latest in (refl, refl)
best_timeline_from s (some b) [] = unfold Latest NotLater in (inl refl, tt, omega arith)
best_timeline_from s best (p ∷ ps) = elim (Bool-cases (in_session s p && later_origin p best)) [
  | inl hit ↦
      let both : (in_session s p ≡ true) × (later_origin p best ≡ true) = ground arith in
      rw (hit, best_timeline) (taken s p ps best _ both.0 both.1 (best_timeline_from s (some p) ps))
  | inr miss ↦ rw (miss, best_timeline) (passed s p ps best _ miss (best_timeline_from s best ps))
]

-- The peer whose timeline is adopted, if there is one.
abbrev pub Adopted : LinkId → List Peer → Option Peer → Type 0
Adopted s ps none = any_peer (in_session s) ps ≡ false
Adopted s ps (some b) = IsEntry b ps × (in_session s b ≡ true) × IsLatest s ps b

adopted : (s : LinkId) (ps : List Peer) (r : Option Peer) → Latest s ps none r → Adopted s ps r
unfolding Latest
adopted s ps none (e, absent) = absent
adopted s ps (some b) (inl e, latest, le) = cc
adopted s ps (some b) (inr (entry, m), latest, le) = (entry, m, latest)

-- Of any table and session: nothing is chosen only if no peer of the table is in the session, and a
-- peer that is chosen is in the table and the session, and none of the session has a later origin.
pub best_timeline_lem : (s : LinkId) (ps : List Peer) → Adopted s ps (best_timeline s none ps)
best_timeline_lem s ps = adopted s ps _ (best_timeline_from s none ps)
