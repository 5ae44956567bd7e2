-- ===== src/Audio/Receive/Lookup.antt =====
-- The catalog of firmware/link_audio.c as a map from the ids of channels: what an announced channel
-- changes in it.
use colorlight_i9_abletonlin.Base.{
  ℕ, zero, suc, ◌+◌, ◌≡◌, ◌⊎◌, inl, inr, refl, arith, Bool, true, false, ◌&&◌, ◌||◌, not, List, [],
  ◌∷◌, Option, none, some, if◌then◌else◌, same, same→eq, Bool-cases, get_or, set, All,
}
use colorlight_i9_abletonlin.Types.{LinkId}
use colorlight_i9_abletonlin.Device.{Env, host_time_us}
use colorlight_i9_abletonlin.Audio.{Remote, zero_remote}
use colorlight_i9_abletonlin.Audio.Catalog.{find_remote}
use colorlight_i9_abletonlin.Audio.Receive.{
  is_remote, AnnCtx, Slot, found, free, full, first_free, search_slot, refresh, learn_at,
  learn_channel,
}

-- The slot is the first entry of the channel, or one that is not in use while no entry behind it or
-- before it has the channel.
abbrev pub Fits : LinkId → List Remote → ℕ → Type 0
Fits cid [] k = ⊥
Fits cid (r ∷ rs) zero = (is_remote cid r ≡ true) ⊎ (r.in_use ≡ false)
Fits cid (r ∷ rs) (suc k) = (is_remote cid r ≡ false) × Fits cid rs k

other_id :
    (cid cid' : LinkId) (r : Remote)
    → is_remote cid r ≡ false
    → same cid cid' ≡ true
    → is_remote cid' r ≡ false
other_id cid cid' r miss e = let eq = same→eq cid cid' e in rw eq at miss

find_remote-set :
    (cid cid' : LinkId) (rs : List Remote) (k : ℕ) (r' : Remote)
    → Fits cid rs k
    → r'.in_use ≡ true
    → r'.channel_id ≡ cid
    → find_remote cid' (set rs k r') ≡ (if same cid cid' then some r' else find_remote cid' rs)
find_remote-set cid cid' [] k r' h used id = absurd h
find_remote-set cid cid' (r ∷ rs) zero r' (inl hit) used id =
    let eq : r.channel_id ≡ cid = same→eq r.channel_id cid (ground arith) in
    rw (used, id, eq) (ground arith)
find_remote-set cid cid' (r ∷ rs) zero r' (inr idle) used id = rw (used, id, idle) (ground arith)
find_remote-set cid cid' (r ∷ rs) (suc k) r' (miss, h) used id =
    let ih = find_remote-set cid cid' rs k r' h used id in
    elim (Bool-cases (same cid cid')) [
      | inl e ↦ let m = other_id cid cid' r miss e in rw (m, ih, e) refl
      | inr ne ↦ rw (ih, ne) refl
    ]

-- What the search finds: an entry of the channel, a free slot, or neither.
abbrev pub Outcome : LinkId → List Remote → ℕ → Option ℕ → Slot → Type 0
Outcome cid rs s free_slot (found i) =
    (k : ℕ) × (i ≡ s + k) × Fits cid rs k × (find_remote cid rs ≡ some (get_or rs k zero_remote))
Outcome cid rs s free_slot (free i) =
    (find_remote cid rs ≡ none) × ((free_slot ≡ some i) ⊎ ((k : ℕ) × (i ≡ s + k) × Fits cid rs k))
Outcome cid rs s free_slot full =
    (find_remote cid rs ≡ none) × (free_slot ≡ none) × All (λ r. r.in_use ≡ true) rs

Outcome-cons :
    (cid : LinkId) (r : Remote) (rs : List Remote) (s : ℕ) (free_slot : Option ℕ) (o : Slot)
    → is_remote cid r ≡ false
    → Outcome cid rs (s + 1) (first_free r s free_slot) o
    → Outcome cid (r ∷ rs) s free_slot o
Outcome-cons cid r rs s free_slot (found i) miss (k, e, fits, here) =
    (suc k, omega arith, (miss, fits), rw miss here)
Outcome-cons cid r rs s (some j) (free i) miss (h, place) = (
  rw miss h,
  elim place [ inl e ↦ inl e | inr (k, e, fits) ↦ inr (suc k, omega arith, (miss, fits)) ],
)
Outcome-cons cid r rs s none (free i) miss (h, place) = (
  rw miss h,
  elim place [
    | inl e ↦ elim (Bool-cases r.in_use) [
      | inl busy ↦ absurd (ground arith)
      | inr idle ↦ inr (0, ground arith, inr idle)
    ]
    | inr (k, e, fits) ↦ inr (suc k, omega arith, (miss, fits))
  ],
)
Outcome-cons cid r rs s (some j) full miss (h, fr, busy) = absurd (ground arith)
Outcome-cons cid r rs s none full miss (h, fr, busy) = (rw miss h, refl, (ground arith, busy))

search_slot-Outcome :
    (cid : LinkId) (rs : List Remote) (s : ℕ) (free_slot : Option ℕ)
    → Outcome cid rs s free_slot (search_slot cid rs s free_slot)
unfolding search_slot
search_slot-Outcome cid [] s none = (refl, refl, tt)
search_slot-Outcome cid [] s (some i) = (refl, inl refl)
search_slot-Outcome cid (r ∷ rs) s free_slot = elim (Bool-cases (is_remote cid r)) [
  | inl hit ↦ rw hit (0, omega arith, inl hit, rw hit refl)
  | inr miss ↦ rw miss (
      Outcome-cons cid r rs s free_slot _ miss
        (search_slot-Outcome cid rs (s + 1) (first_free r s free_slot)))
]

abbrev pub all_used : List Remote → Bool
all_used [] = true
all_used (r ∷ rs) = r.in_use && all_used rs

-- The channel is known, or a slot is free.
abbrev pub is_known : Option Remote → Bool
is_known none = false
is_known (some r) = true

abbrev pub has_room : LinkId → List Remote → Bool
has_room cid rs = is_known (find_remote cid rs) || not (all_used rs)

find_remote-is_remote :
    (cid : LinkId) (rs : List Remote) (r : Remote)
    → find_remote cid rs ≡ some r
    → is_remote cid r ≡ true
find_remote-is_remote cid [] r h = cc
find_remote-is_remote cid (q ∷ qs) r h = elim (Bool-cases (is_remote cid q)) [
  | inl hit ↦ let e : some q ≡ some r = rw hit at h in ground arith
  | inr miss ↦ find_remote-is_remote cid qs r (rw miss at h)
]

free-all_used :
    (cid : LinkId) (rs : List Remote) (k : ℕ)
    → Fits cid rs k
    → find_remote cid rs ≡ none
    → all_used rs ≡ false
free-all_used cid [] k h e = absurd h
free-all_used cid (r ∷ rs) zero (inl hit) e = absurd (ground arith)
free-all_used cid (r ∷ rs) zero (inr idle) e = rw idle refl
free-all_used cid (r ∷ rs) (suc k) (miss, h) e =
    let rest = free-all_used cid rs k h (rw miss at e) in ground arith

full-all_used : (rs : List Remote) → All (λ r. r.in_use ≡ true) rs → all_used rs ≡ true
full-all_used [] h = refl
full-all_used (r ∷ rs) (used, h) = rw (used, full-all_used rs h) refl

-- What the catalog has for an announced channel, by what it had.
abbrev pub learned : List ℕ → LinkId → AnnCtx → ℕ → Option Remote → Remote
learned name cid ctx now (some r) = refresh name ctx.peer_addr ctx.peer_port now r
learned name cid ctx now none = record {
  in_use = true;
  peer_id = ctx.peer_id;
  channel_id = cid;
  name = name;
  endpoint_addr = ctx.peer_addr;
  endpoint_port = ctx.peer_port;
  last_seen_us = now;
}

module _ (env : Env) (name : List ℕ) (cid cid' : LinkId) (ctx : AnnCtx) where
  abbrev Stored : AnnCtx → Type 0
  Stored ctx' = find_remote cid' ctx'.remotes ≡ (
      if same cid cid' && has_room cid ctx.remotes
      then some (learned name cid ctx (host_time_us env ctx.device).0 (find_remote cid ctx.remotes))
      else find_remote cid' ctx.remotes)

  learn_at-Stored :
      (o : Slot) → Outcome cid ctx.remotes 0 none o → Stored (learn_at env name cid ctx o)
  learn_at-Stored (found i) (k, e, fits, here) =
      let at : i ≡ k = omega arith in
      let is = find_remote-is_remote cid ctx.remotes _ here in
      let stored =
        find_remote-set cid cid' ctx.remotes k
          (refresh name ctx.peer_addr ctx.peer_port (host_time_us env ctx.device).0
            (get_or ctx.remotes k zero_remote))
          fits (ground arith) (same→eq _ _ (ground arith)) in
      rw (at, here, stored) (ground arith)
  learn_at-Stored (free i) (h, inl e) = cc
  learn_at-Stored (free i) (h, inr (k, e, fits)) =
      let at : i ≡ k = omega arith in
      let room = free-all_used cid ctx.remotes k fits h in
      let stored =
        find_remote-set cid cid' ctx.remotes k
          (learned name cid ctx (host_time_us env ctx.device).0 none) fits refl refl in
      rw (at, h, room, stored) (ground arith)
  learn_at-Stored full (h, e, busy) = rw (h, full-all_used ctx.remotes busy) (ground arith)

  -- The catalog as a map from ids to entries: an announced channel is stored under its id, with the
  -- announcer's endpoint and the time, if it is known or a slot is free; every other id, and every
  -- id if there is no room, has what it had. A known channel keeps its first announcer's id.
  pub learn_channel_lem : Stored (learn_channel env name cid ctx)
  unfolding learn_channel
  learn_channel_lem =
      learn_at-Stored (search_slot cid ctx.remotes 0 none)
        (search_slot-Outcome cid ctx.remotes 0 none)
