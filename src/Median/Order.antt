-- ===== src/Median/Order.antt =====
-- `median_i64` of firmware/median.c against order statistics that are defined by counting.
use colorlight_i9_abletonlin.Base.{
  ℕ, zero, suc, ◌+◌, ◌-◌, ◌/◌, ◌%◌, ◌≤◌, ◌<◌, ◌≡◌, refl, Bool, true, false, not, List, [], ◌∷◌,
  Option, none, some, arith, if◌then◌else◌, ltb, ◌==◌, ltb→lt, le→ltb, Bool-cases, inl, inr, length,
}
use colorlight_i9_abletonlin.Base.Int64.{slt, add64, sdiv64}
use colorlight_i9_abletonlin.Median.{at, nth_element, median_even, median_i64}
use colorlight_i9_abletonlin.Median.Shuffle.{count, Shuffle, Shuffle-trans}
use colorlight_i9_abletonlin.Median.Partition.{rank, slt-rank}
use colorlight_i9_abletonlin.Median.Select.{Apart, IsSelected, Selects, nth_element_lem}

-- `v` is the element of index `k` of the first `n` elements in ascending order: at most `k` of them
-- are smaller, and more than `k` are not larger.
abbrev pub IsNth : ℕ → ℕ → List ℕ → ℕ → Type 0
IsNth n k a v = (count (λ x. slt x v) n a ≤ k) × (k < count (λ x. not (slt v x)) n a)

count-le :
    (f : ℕ → Bool) (n k : ℕ) (a : List ℕ)
    → ((x : ℕ) → k ≤ x → x < n → x < length a → f (at a x) ≡ false)
    → count f n a ≤ k
count-le f zero k a h = omega arith
count-le f (suc n) k [] h = omega arith
count-le f (suc n) zero (y ∷ a) h =
    let tail =
      count-le f n zero a (λ x p q r. h (suc x) (omega arith) (omega arith) (omega arith)) in
    ground (arith, h 0, tail)
count-le f (suc n) (suc k) (y ∷ a) h =
    let tail = count-le f n k a (λ x p q r. h (suc x) (omega arith) (omega arith) (omega arith)) in
    ground (arith, tail)

lt-count :
    (f : ℕ → Bool) (n k : ℕ) (a : List ℕ)
    → k < n
    → k < length a
    → ((x : ℕ) → x ≤ k → f (at a x) ≡ true)
    → k < count f n a
lt-count f zero k a m l h = absurd (omega arith)
lt-count f (suc n) k [] m l h = absurd (omega arith)
lt-count f (suc n) zero (y ∷ a) m l h = ground (arith, h 0)
lt-count f (suc n) (suc k) (y ∷ a) m l h =
    let tail = lt-count f n k a (omega arith) (omega arith) (λ x p. h (suc x) (omega arith)) in
    ground (arith, h 0, tail)

IsSelected-IsNth :
    (n k : ℕ) (a : List ℕ) → k < n → n ≤ length a → IsSelected n k a → IsNth n k a (at a k)
IsSelected-IsNth n k a m l s = (
  count-le _ n k a (λ x p q r. rw slt-rank (le→ltb _ _ (from_k x p q))),
  lt-count _ n k a m (omega arith) (λ x p. rw (slt-rank, le→ltb _ _ (to_k x p)) refl),
)
  where
    from_k : (x : ℕ) → k ≤ x → x < n → rank (at a k) ≤ rank (at a x)
    from_k x p q = elim (Bool-cases (ltb k x)) [
      | inl far ↦ s.above x (ltb→lt k x far) q
      | inr near ↦ let e : x ≡ k = ground arith in rw e (omega arith)
    ]

    to_k : (x : ℕ) → x ≤ k → rank (at a x) ≤ rank (at a k)
    to_k x p = elim (Bool-cases (ltb x k)) [
      | inl far ↦ s.below x (ltb→lt x k far)
      | inr near ↦ let e : x ≡ k = ground arith in rw e (omega arith)
    ]

-- An order statistic does not depend on the order.
IsNth-Shuffle :
    (n k lo hi v : ℕ) (a b : List ℕ) → hi < n → Shuffle lo hi a b → IsNth n k b v → IsNth n k a v
IsNth-Shuffle n k lo hi v a b m s h =
    omega (arith, s.counts (λ x. slt x v) n m, s.counts (λ x. not (slt v x)) n m)

whole_Apart : (n : ℕ) (a : List ℕ) → Apart n 0 (n - 1) a
whole_Apart n a = record {
  left = λ x y h q r. absurd (omega arith);
  right = λ x y h q r. absurd (omega arith);
}

-- What the first call of `nth_element` in `median_i64` gives.
module _ (n k : ℕ) (a : List ℕ) (m : k < n) (len : n ≤ length a) where
  Found : Option (List ℕ) → Type 0
  Found none = ⊥
  Found (some b) = IsNth n k a (at b k) × Shuffle 0 (n - 1) a b

  Selects-Found : (o : Option (List ℕ)) → Selects n 0 (n - 1) k a o → Found o
  unfolding Found Selects
  Selects-Found none h = h
  Selects-Found (some b) (h, s) = (
    IsNth-Shuffle n k 0 (n - 1) (at b k) a b (omega arith) s
        (IsSelected-IsNth n k b m (omega (arith, s.size)) h),
    s,
  )

  select-Found : Found (nth_element (n + 1) a 0 (n - 1) k)
  select-Found = Selects-Found _ (
      nth_element_lem (n + 1) n 0 (n - 1) k a (omega arith) (omega arith) (omega arith) len
        (omega arith) (whole_Apart n a))

-- A median of the first `n` elements of `a`: the middle one in ascending order, or for an even
-- number the mean of the two in the middle, rounded as C rounds.
pub data IsMedian (n : ℕ) (a : List ℕ) (m : ℕ) : Type 0 where
  odd_median : n % 2 ≡ 1 → IsNth n (n / 2) a m → IsMedian n a m
  even_median :
      (lo hi : ℕ)
      → n % 2 ≡ 0
      → IsNth n (n / 2 - 1) a lo
      → IsNth n (n / 2) a hi
      → m ≡ sdiv64 (add64 lo hi) 2
      → IsMedian n a m

-- The call returned, with a median, and only shuffled the first `n` elements.
abbrev pub Medians : ℕ → List ℕ → Option (ℕ × List ℕ) → Type 0
Medians n a none = ⊥
Medians n a (some (m, b)) = IsMedian n a m × Shuffle 0 (n - 1) a b

module _ (n : ℕ) (a : List ℕ) (pos : 0 < n) (len : n ≤ length a) where
  even_Medians :
      (b : List ℕ) (mid : ℕ)
      → n % 2 ≡ 0
      → Found n (n / 2) a (omega arith) len (some b)
      → mid ≡ at b (n / 2)
      → Medians n a (median_even b n mid)
  unfolding median_even Found
  even_Medians b mid even (h, s) e =
      let size : n ≤ length b = omega (arith, s.size) in
      finish (nth_element (n + 1) b 0 (n - 1) (n / 2 - 1))
        (select-Found n (n / 2 - 1) b (omega arith) size)
    where
      finish :
          (o : Option (List ℕ))
          → Found n (n / 2 - 1) b (omega arith) (omega (arith, s.size)) o
          → Medians n a
              (elim o [ none ↦ none | some c ↦ some (sdiv64 (add64 (at c (n / 2 - 1)) mid) 2, c) ])
      finish none h' = h'
      finish (some c) (h', s') = (
        even_median (at c (n / 2 - 1)) mid even
            (IsNth-Shuffle n (n / 2 - 1) 0 (n - 1) _ a b (omega arith) s h') (rw e h) refl,
        Shuffle-trans 0 (n - 1) a b c s s',
      )

  -- With one element or more in the array, `median_i64` returns a median of the first `n`, within
  -- `n + 1` rounds of each loop, and leaves the array shuffled within its first `n` places.
  pub median_i64_lem : Medians n a (median_i64 a n)
  unfolding median_i64 Found
  median_i64_lem =
      let some_elements : (n == 0) ≡ false = ground arith in
      rw some_elements (
        finish (nth_element (n + 1) a 0 (n - 1) (n / 2))
          (select-Found n (n / 2) a (omega arith) len))
    where
      finish :
          (o : Option (List ℕ))
          → Found n (n / 2) a (omega arith) len o
          → Medians n a (elim o [
            | none ↦ none
            | some b ↦ if n % 2 == 0 then median_even b n (at b (n / 2)) else some (at b (n / 2), b)
          ])
      finish none h = h
      finish (some b) h = elim (Bool-cases (n % 2 == 0)) [
        | inl even ↦ rw even (even_Medians b (at b (n / 2)) (ground arith) h refl)
        | inr odd ↦ rw odd (odd_median (ground arith) h.0, h.1)
      ]
