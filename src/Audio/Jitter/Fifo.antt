-- ===== src/Audio/Jitter/Fifo.antt =====
-- The jitter ring of firmware/link_audio.c as a queue that drops its oldest samples.
use colorlight_i9_abletonlin.Base.{
  zero, suc, List, [], ◌∷◌, ◌++◌, append_assoc, append-nil, ap, ap₂, drop, length-append,
  length-drop, ℕ, ◌+◌, ◌-◌, ◌%◌, ◌^◌, ◌≤◌, ◌<◌, ◌≡◌, ◌∙◌, refl, some, arith, ltb, ◌==◌, length,
  get_or, set, length-set, get_or-set_self, get_or-set_ne, false, Bool-cases, ltb→lt, ltb→le, ◌⊎◌,
  ◌≢◌, inl, inr,
}
use colorlight_i9_abletonlin.Audio.{jbuf_len, Sub}
use colorlight_i9_abletonlin.Audio.Jitter.{queued, push_sample, push_samples, drain}

-- The ring has its size, its counters are words, and it holds no more than it has room for.
pub record IsRing (s : Sub) : Type 0 where
  pub size : length s.jbuf ≡ jbuf_len
  pub written : s.jbuf_w < 2 ^ 32
  pub read : s.jbuf_r < 2 ^ 32
  pub bounded : queued s ≤ jbuf_len

-- The sample at a place of the queue, the oldest first.
abbrev pub held : Sub → ℕ → ℕ
held s i = get_or s.jbuf ((s.jbuf_r + i) % 2 ^ 32 % jbuf_len) 0

-- The samples that a write drops.
abbrev pub dropped : Sub → ℕ
dropped s = queued s + 1 - jbuf_len

-- The counters of a ring, as numbers.
module _ (w r i : ℕ) (hw : w < 2 ^ 32) (hr : r < 2 ^ 32)
    (room : (w + 2 ^ 32 - r) % 2 ^ 32 ≤ jbuf_len) where
  grown : ((w + 1) % 2 ^ 32 + 2 ^ 32 - r) % 2 ^ 32 ≡ (w + 2 ^ 32 - r) % 2 ^ 32 + 1
  grown = omega arith

  moved :
      (w + 2 ^ 32 - r) % 2 ^ 32 ≡ jbuf_len
      → ((w + 1) % 2 ^ 32 + 2 ^ 32 - jbuf_len) % 2 ^ 32 ≡ (r + 1) % 2 ^ 32
  moved full = omega arith

  newest : (r + (w + 2 ^ 32 - r) % 2 ^ 32) % 2 ^ 32 ≡ w
  newest = omega arith

  -- No place of the queue that is kept is the one that is written.
  apart :
      (k : ℕ)
      → i + k < (w + 2 ^ 32 - r) % 2 ^ 32
      → 0 < i + k ⊎ (w + 2 ^ 32 - r) % 2 ^ 32 < jbuf_len
      → w % jbuf_len ≢ (r + (i + k)) % 2 ^ 32 % jbuf_len
  apart k h (inl pos) e = omega arith
  apart k h (inr free) e = omega arith

pub push_sample-IsRing : (v : ℕ) (s : Sub) → IsRing s → IsRing (push_sample v s)
unfolding push_sample
push_sample-IsRing v s ring =
    let size : length (set s.jbuf (s.jbuf_w % jbuf_len) v) ≡ jbuf_len =
      length-set s.jbuf _ v ∙ ring.size in
    let up = grown s.jbuf_w s.jbuf_r 0 ring.written ring.read ring.bounded in
    elim (Bool-cases (ltb jbuf_len (((s.jbuf_w + 1) % 2 ^ 32 + 2 ^ 32 - s.jbuf_r) % 2 ^ 32))) [
      | inl full ↦
          rw full (record {
            size = size;
            written = omega arith;
            read = omega arith;
            bounded = omega arith;
          })
      | inr free ↦ rw free (record {
        size = size;
        written = omega arith;
        read = ring.read;
        bounded = ltb→le _ _ free;
      })
    ]

-- The places of the queue, one by one.
push_sample_places :
    (v : ℕ) (s : Sub)
    → IsRing s
    → IsRing (push_sample v s)
      × (queued (push_sample v s) + dropped s ≡ queued s + 1)
      × (held (push_sample v s) (queued (push_sample v s) - 1) ≡ v)
      × ((i : ℕ) → i + dropped s < queued s → held (push_sample v s) i ≡ held s (i + dropped s))
unfolding push_sample
push_sample_places v s ring =
    let w : ℕ = s.jbuf_w in
    let r : ℕ = s.jbuf_r in
    let up = grown w r 0 ring.written ring.read ring.bounded in
    let at_w : w % jbuf_len < length s.jbuf = rw ring.size (omega arith) in
    let written : get_or (set s.jbuf (w % jbuf_len) v) (w % jbuf_len) 0 ≡ v =
      get_or-set_self s.jbuf (w % jbuf_len) v 0 at_w in
    let size : length (set s.jbuf (w % jbuf_len) v) ≡ jbuf_len =
      length-set s.jbuf (w % jbuf_len) v ∙ ring.size in
    let lookup : (k : ℕ) → k ≡ w % jbuf_len → get_or (set s.jbuf (w % jbuf_len) v) k 0 ≡ v =
      λ k e. rw e written in
    let kept : (k j : ℕ)
        → k ≡ (r + j) % 2 ^ 32 % jbuf_len
        → w % jbuf_len ≢ (r + j) % 2 ^ 32 % jbuf_len
        → get_or (set s.jbuf (w % jbuf_len) v) k 0 ≡ held s j =
      λ k j e ne. rw e (get_or-set_ne s.jbuf (w % jbuf_len) _ v 0 ne) in
    elim (Bool-cases (ltb jbuf_len (((w + 1) % 2 ^ 32 + 2 ^ 32 - r) % 2 ^ 32))) [
      | inl full ↦
          let q : queued s ≡ jbuf_len = omega (arith, up, ltb→lt _ _ full, ring.bounded) in
          let one : dropped s ≡ 1 = omega (arith, q) in
          let next = moved w r 0 ring.written ring.read ring.bounded q in
          rw full (
            record {
              size = size;
              written = omega arith;
              read = omega arith;
              bounded = omega arith;
            },
            omega (arith, one, q),
            lookup _ (omega arith),
            λ i h. kept _ (i + dropped s) (omega (arith, next, one)) (
                apart w r i ring.written ring.read ring.bounded (dropped s) h
                  (inl (omega (arith, one)))),
          )
      | inr free ↦
          let q : queued s < jbuf_len = omega (arith, up, ltb→le _ _ free) in
          let none_dropped : dropped s ≡ 0 = omega (arith, q) in
          rw free (
            record {
              size = size;
              written = omega arith;
              read = ring.read;
              bounded = omega (arith, up, q);
            },
            omega (arith, up, none_dropped),
            lookup _ (omega (arith, up)),
            λ i h.
                kept _ (i + dropped s) (omega (arith, none_dropped))
                  (apart w r i ring.written ring.read ring.bounded (dropped s) h (inr q)),
          )
    ]

abbrev tabulate : (ℕ → ℕ) → ℕ → ℕ → List ℕ
tabulate f i zero = []
tabulate f i (suc n) = f i ∷ tabulate f (i + 1) n

-- The samples in the ring, the oldest first.
unfoldable pub contents : Sub → List ℕ
contents s = tabulate (held s) 0 (queued s)

-- The last 1024 samples.
abbrev pub latest : List ℕ → List ℕ
latest vs = drop (length vs - jbuf_len) vs

length-tabulate : (f : ℕ → ℕ) (i n : ℕ) → length (tabulate f i n) ≡ n
length-tabulate f i zero = refl
length-tabulate f i (suc n) = omega (arith, length-tabulate f (i + 1) n)

tabulate_snoc : (f : ℕ → ℕ) (i n : ℕ) → tabulate f i (suc n) ≡ tabulate f i n ++ (f (i + n) ∷ [])
tabulate_snoc f i zero = let z : i + 0 ≡ i = omega arith in rw z refl
tabulate_snoc f i (suc n) =
    let z : i + suc n ≡ i + 1 + n = omega arith in
    rw z (ap (λ (t : List ℕ). f i ∷ t) (tabulate_snoc f (i + 1) n))

tabulate_same :
    (f g : ℕ → ℕ) (i k n : ℕ)
    → ((j : ℕ) → j < n → f (i + j) ≡ g (k + j))
    → tabulate f i n ≡ tabulate g k n
tabulate_same f g i k zero h = refl
tabulate_same f g i k (suc n) h =
    let zi : i + 0 ≡ i = omega arith in
    let zk : k + 0 ≡ k = omega arith in
    ap₂ (λ (a : ℕ) (b : List ℕ). a ∷ b) (rw (zi, zk) at (h 0 (omega arith)))
      (tabulate_same f g (i + 1) (k + 1) n (λ j l.
        let ni : i + 1 + j ≡ i + suc j = omega arith in
        let nk : k + 1 + j ≡ k + suc j = omega arith in rw (ni, nk) (h (suc j) (omega arith))))

-- A queue whose last place is new and whose others have moved up by `a`.
moved_up :
    (f g : ℕ → ℕ) (q q' a v : ℕ)
    → a ≤ 1
    → a ≤ q
    → q' + a ≡ q + 1
    → g (q' - 1) ≡ v
    → ((i : ℕ) → i + a < q → g i ≡ f (i + a))
    → tabulate g 0 q' ≡ drop a (tabulate f 0 q ++ (v ∷ []))
moved_up f g q q' zero v one low size last up =
    let n : q' ≡ suc q = omega arith in
    let at : q' - 1 ≡ 0 + q = omega arith in
    let same_front = tabulate_same g f 0 0 q (λ j l.
      let z : 0 + j ≡ j = omega arith in
      let z' : j + 0 ≡ j = omega arith in rw z (rw z' at (up j (omega arith)))) in
    rw n (tabulate_snoc g 0 q ∙ rw (same_front, rw at at last) refl)
moved_up f g zero q' (suc a) v one low size last up = absurd (omega arith)
moved_up f g (suc m) q' (suc (suc a)) v one low size last up = absurd (omega arith)
moved_up f g (suc m) q' (suc zero) v one low size last up =
    let n : q' ≡ suc m = omega arith in
    let at : q' - 1 ≡ 0 + m = omega arith in
    let same_front = tabulate_same g f 0 1 m (λ j l.
      let z : 0 + j ≡ j = omega arith in
      let z' : 1 + j ≡ j + 1 = omega arith in rw (z, z') (up j (omega arith))) in
    rw n (tabulate_snoc g 0 m ∙ rw (same_front, rw at at last) refl)

-- A write to a ring in order, be it empty, full or between, keeps it in order, and makes its samples the
-- last 1024 of those it had and the new one at the end.
pub push_sample_lem :
    (v : ℕ) (s : Sub)
    → IsRing s
    → IsRing (push_sample v s) × (contents (push_sample v s) ≡ latest (contents s ++ (v ∷ [])))
unfolding contents
push_sample_lem v s ring =
    let r = push_sample_places v s ring in
    let size : length (tabulate (held s) 0 (queued s) ++ (v ∷ [])) ≡ queued s + 1 = omega (
      arith,
      length-append (tabulate (held s) 0 (queued s)) (v ∷ []),
      length-tabulate (held s) 0 (queued s),
    ) in
    (
      r.0,
      rw size (
          moved_up (held s) (held (push_sample v s)) (queued s) (queued (push_sample v s))
            (dropped s) v (omega (arith, ring.bounded)) (omega (arith, ring.bounded)) r.1 r.2 r.3),
    )

drop-drop :
    (k a : ℕ) (xs ys : List ℕ) → k ≤ length xs → drop a (drop k xs ++ ys) ≡ drop (k + a) (xs ++ ys)
drop-drop zero a xs ys h = let z : 0 + a ≡ a = omega arith in rw z refl
drop-drop (suc k) a [] ys h = absurd (omega arith)
drop-drop (suc k) a (x ∷ xs) ys h =
    let n : suc k + a ≡ suc (k + a) = omega arith in rw n (drop-drop k a xs ys (omega arith))

latest-append : (xs ys : List ℕ) → latest (latest xs ++ ys) ≡ latest (xs ++ ys)
latest-append xs ys =
    let k : ℕ = length xs - jbuf_len in
    let sizes : length (drop k xs ++ ys) ≡ length xs - k + length ys =
      omega (arith, length-append (drop k xs) ys, length-drop k xs) in
    let n : k + (length xs - k + length ys - jbuf_len) ≡ length xs + length ys - jbuf_len =
      omega arith in
    let whole = length-append xs ys in
    rw (sizes, whole)
      (drop-drop k (length xs - k + length ys - jbuf_len) xs ys (omega arith) ∙ rw n refl)

-- After a packet's samples a ring in order has the last 1024 of those it had and the packet's.
pub push_samples_lem :
    (vs : List ℕ) (s : Sub)
    → IsRing s
    → IsRing (push_samples vs s) × (contents (push_samples vs s) ≡ latest (contents s ++ vs))
unfolding push_samples
push_samples_lem [] s ring =
    let few : queued s - jbuf_len ≡ 0 = omega (arith, ring.bounded) in
    (
      ring,
      unfold contents in
          rw
            (
              append-nil (tabulate (held s) 0 (queued s)),
              length-tabulate (held s) 0 (queued s),
              few,
            )
            refl,
    )
push_samples_lem (v ∷ vs) s ring =
    let r = push_sample_lem v s ring in
    let rest = push_samples_lem vs (push_sample v s) r.0 in
    (
      rest.0,
      rest.1
          ∙ rw r.1 (
              latest-append (contents s ++ (v ∷ [])) vs
              ∙ rw (append_assoc (contents s) (v ∷ []) vs) refl),
    )

-- Of a queue that is not empty a frame reads the oldest and takes it out, and every other
-- sample moves up by one.
pub drain_lem :
    (i : ℕ) (s : Sub)
    → IsRing s
    → 0 < queued s
    → ((drain s).0 ≡ some (held s 0))
      × IsRing (drain s).1
      × (queued (drain s).1 + 1 ≡ queued s)
      × (held (drain s).1 i ≡ held s (i + 1))
unfolding drain
drain_lem i s ring h =
    let some_queued : (s.jbuf_r == s.jbuf_w) ≡ false = ground arith in
    let first : (s.jbuf_r + 0) % 2 ^ 32 ≡ s.jbuf_r = omega (arith, ring.read) in
    let place : ((s.jbuf_r + 1) % 2 ^ 32 + i) % 2 ^ 32 ≡ (s.jbuf_r + (i + 1)) % 2 ^ 32 =
      omega (arith, ring.read) in
    rw (some_queued, first, place)
      (
        refl,
        record {
          size = ring.size;
          written = ring.written;
          read = omega arith;
          bounded = omega (arith, ring.bounded, ring.read, ring.written);
        },
        omega (arith, ring.read, ring.written),
        refl,
      )
