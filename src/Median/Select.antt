-- ===== src/Median/Select.antt =====
-- `nth_element` and `median_i64` of firmware/median.c.
use native.Mathlib.Decide.{dec_lt}
use colorlight_i9_abletonlin.Base.{
  ℕ, zero, suc, ◌+◌, ◌-◌, ◌≤◌, ◌<◌, ◌≡◌, refl, Bool, true, false, List, Option, none, some, arith,
  if◌then◌else◌, ltb, ◌==◌, ==→eq, ltb→lt, ltb→le, length,
}
use colorlight_i9_abletonlin.Median.{at, partition, nth_element}
use colorlight_i9_abletonlin.Median.Shuffle.{Shuffle, Shuffle-refl, Shuffle-trans, Shuffle-widen}
use colorlight_i9_abletonlin.Median.Partition.{rank, IsSplit, partition_lem}

-- Of the first `n` elements, none before the range is larger than one in or behind it, and none
-- behind it smaller than one in or before it.
pub record Apart (n lo hi : ℕ) (a : List ℕ) : Type 0 where
  pub left : (x y : ℕ) → x < lo → lo ≤ y → y < n → rank (at a x) ≤ rank (at a y)
  pub right : (x y : ℕ) → x ≤ hi → hi < y → y < n → rank (at a x) ≤ rank (at a y)

-- `at a k` is where sorting the first `n` elements would put it.
pub record IsSelected (n k : ℕ) (a : List ℕ) : Type 0 where
  pub below : (x : ℕ) → x < k → rank (at a x) ≤ rank (at a k)
  pub above : (x : ℕ) → k < x → x < n → rank (at a k) ≤ rank (at a x)

module _ (n lo hi : ℕ) (a b : List ℕ) (v : Apart n lo hi a) (s : Shuffle lo hi a b)
    (m : hi < n) where
  left_after : (x y : ℕ) → x < lo → lo ≤ y → y < n → rank (at b x) ≤ rank (at b y)
  left_after x y p q r = elim (dec_lt hi y) [
    | yes far ↦ ground (arith, v.left x y, (s.outside x).1, (s.outside y).0)
    | no near ↦
        let from = s.inside y q (omega arith) in
        ground (arith, v.left x from.0, (s.outside x).1, from.3)
  ]

  right_after : (x y : ℕ) → x ≤ hi → hi < y → y < n → rank (at b x) ≤ rank (at b y)
  right_after x y p q r = elim (dec_lt x lo) [
    | yes far ↦ ground (arith, v.right x y, (s.outside x).1, (s.outside y).0)
    | no near ↦
        let from = s.inside x (omega arith) p in
        ground (arith, v.right from.0 y, (s.outside y).0, from.3)
  ]

  module _ (p : ℕ) (split : IsSplit lo hi p b) where
    -- Nothing up to `p` is larger than the element there, and nothing behind smaller.
    below_pivot : (x : ℕ) → x < p → rank (at b x) ≤ rank (at b p)
    below_pivot x h = elim (dec_lt x lo) [
      | yes far ↦ left_after x p far split.from (omega (arith, split.to))
      | no near ↦ split.below x (omega arith) h
    ]

    above_pivot : (x : ℕ) → p < x → x < n → rank (at b p) ≤ rank (at b x)
    above_pivot x h r = elim (dec_lt hi x) [
      | yes far ↦ right_after p x split.to far r
      | no near ↦ split.above x h (omega arith)
    ]

    selected : IsSelected n p b
    selected = record { below = below_pivot; above = above_pivot }

    Apart-left : 0 < p → Apart n lo (p - 1) b
    Apart-left pos = record {
      left = left_after;
      right = λ x y h q r. elim (dec_lt p y) [
        | yes far ↦ omega (arith, below_pivot x (omega arith), above_pivot y far r)
        | no near ↦ let e : y ≡ p = omega arith in rw e (below_pivot x (omega arith))
      ];
    }

    Apart-right : Apart n (p + 1) hi b
    Apart-right = record {
      left = λ x y h q r. elim (dec_lt x p) [
        | yes far ↦ omega (arith, below_pivot x far, above_pivot y (omega arith) r)
        | no near ↦ let e : x ≡ p = omega arith in rw e (above_pivot y (omega arith) r)
      ];
      right = right_after;
    }

-- The loop has ended, with the element of index `k` in its place.
unfoldable pub Selects : ℕ → ℕ → ℕ → ℕ → List ℕ → Option (List ℕ) → Type 0
Selects n lo hi k a none = ⊥
Selects n lo hi k a (some b) = IsSelected n k b × Shuffle lo hi a b

selects :
    (n lo hi k : ℕ) (a b : List ℕ)
    → IsSelected n k b
    → Shuffle lo hi a b
    → Selects n lo hi k a (some b)
unfolding Selects
selects n lo hi k a b h s = (h, s)

Selects-widen :
    (n lo hi lo' hi' k : ℕ) (a b : List ℕ) (o : Option (List ℕ))
    → lo ≤ lo'
    → hi' ≤ hi
    → Shuffle lo hi a b
    → Selects n lo' hi' k b o
    → Selects n lo hi k a o
unfolding Selects
Selects-widen n lo hi lo' hi' k a b none l h s r = r
Selects-widen n lo hi lo' hi' k a b (some c) l h s r =
    (r.0, Shuffle-trans lo hi a b c s (Shuffle-widen lo' hi' lo hi b c l h r.1))

Selects-if :
    (n lo hi k : ℕ) (a : List ℕ) (t : Bool) (o o' : Option (List ℕ))
    → (t ≡ true → Selects n lo hi k a o)
    → (t ≡ false → Selects n lo hi k a o')
    → Selects n lo hi k a (if t then o else o')
Selects-if n lo hi k a true o o' h h' = h refl
Selects-if n lo hi k a false o o' h h' = h' refl

-- With the rest of the array set apart around the range, and a unit of fuel for each element of the
-- range, the call returns, the element at `k` is where sorting would put it, and only the range is shuffled.
pub nth_element_lem :
    (fuel n lo hi k : ℕ) (a : List ℕ)
    → lo ≤ k
    → k ≤ hi
    → hi < n
    → n ≤ length a
    → hi < fuel + lo
    → Apart n lo hi a
    → Selects n lo hi k a (nth_element fuel a lo hi k)
unfolding nth_element
nth_element_lem zero n lo hi k a l h m len f v = absurd (omega arith)
nth_element_lem (suc fuel) n lo hi k a l h m len f v =
    let p = (partition a lo hi).0 in
    let b = (partition a lo hi).1 in
    Selects-if n lo hi k a (ltb lo hi) _ _
      (λ more.
        let parted = partition_lem a lo hi (omega arith) (omega arith) in
        let split = parted.0 in
        let s = parted.1 in
        Selects-if n lo hi k a (p == k) _ _
          (λ e. selects n lo hi k a b (rw (==→eq p k e) at (selected n lo hi a b v s m p split)) s)
          (λ ne.
            Selects-if n lo hi k a (ltb k p) _ _
              (λ e.
                let lt : k < p = ltb→lt k p e in
                Selects-widen n lo hi lo (p - 1) k a b _ (omega arith) (omega (arith, split.to)) s (
                  nth_element_lem fuel n lo (p - 1) k b l (omega arith) (omega (arith, split.to))
                    (omega (arith, s.size)) (omega (arith, split.to, split.from))
                    (Apart-left n lo hi a b v s m p split (omega arith))))
              (λ e.
                let gt : p < k = ground (arith, ltb→le k p e) in
                Selects-widen n lo hi (p + 1) hi k a b _ (omega (arith, split.from)) (omega arith) s
                  (nth_element_lem fuel n (p + 1) hi k b (omega arith) h m (omega (arith, s.size))
                    (omega (arith, split.to, split.from))
                    (Apart-right n lo hi a b v s m p split)))))
      (λ done.
        selects n lo hi k a a
          (record {
            below = λ x q. v.left x k (omega (arith, ltb→le lo hi done)) l (omega arith);
            above = λ x q r. v.right k x h (omega (arith, ltb→le lo hi done)) r;
          })
          (Shuffle-refl lo hi a))
