-- ===== src/Median/Partition.antt =====
-- `partition` of firmware/median.c splits a range round its last element.
use colorlight_i9_abletonlin.Base.{
  ℕ, zero, suc, ◌+◌, ◌-◌, ◌≤◌, ◌<◌, ◌≡◌, refl, List, arith, ltb, ltb→lt, ltb→le, Bool-cases, inl,
  inr, length,
}
use colorlight_i9_abletonlin.Base.Int64.{bias, slt}
use colorlight_i9_abletonlin.Median.{at, swap64, partition_loop, partition}
use colorlight_i9_abletonlin.Median.Shuffle.{
  Shuffle, Shuffle-refl, Shuffle-trans, at-swap, swap-Shuffle,
}

-- The place of an `int64_t` in the order of the type.
pub rank : ℕ → ℕ
rank x = bias x

pub slt-rank : (a b : ℕ) → slt a b ≡ ltb (rank a) (rank b)
unfolding slt rank
slt-rank a b = refl

-- What the loop has arranged when it stands at `j` with `i` smaller elements seen.
record Parted (a : List ℕ) (lo i j hi pivot : ℕ) : Type 0 where
  pub low : lo ≤ i
  pub passed : i ≤ j
  pub below : (x : ℕ) → lo ≤ x → x < i → rank (at a x) ≤ rank pivot
  pub above : (x : ℕ) → i ≤ x → x < j → rank pivot ≤ rank (at a x)
  pub last : at a hi ≡ pivot

module _ (lo hi pivot : ℕ) where
  take_smaller :
      (i j : ℕ) (a : List ℕ)
      → hi < length a
      → j < hi
      → rank (at a j) < rank pivot
      → Parted a lo i j hi pivot
      → Parted (swap64 a i j) lo (i + 1) (j + 1) hi pivot
  take_smaller i j a n h less v = record {
    low = omega arith;
    passed = omega arith;
    below = λ x l u. ground (arith, at-swap a i j x, v.below x l);
    above = λ x l u. ground (arith, at-swap a i j x, v.above x, v.above i);
    last = ground (arith, at-swap a i j hi, v.last);
  }

  leave_larger :
      (i j : ℕ) (a : List ℕ)
      → rank pivot ≤ rank (at a j)
      → Parted a lo i j hi pivot
      → Parted a lo i (j + 1) hi pivot
  leave_larger i j a more v = record {
    low = v.low;
    passed = omega arith;
    below = v.below;
    above = λ x l u. ground (arith, v.above x);
    last = v.last;
  }

  Looped : List ℕ → ℕ × List ℕ → Type 0
  Looped a r = Parted r.1 lo r.0 hi hi pivot × Shuffle lo hi a r.1

  partition_loop_lem :
      (left i j : ℕ) (a : List ℕ)
      → hi < length a
      → j + left ≡ hi
      → Parted a lo i j hi pivot
      → Looped a (partition_loop left pivot i j a)
  unfolding partition_loop Looped
  partition_loop_lem zero i j a n e v =
      let done : j ≡ hi = omega arith in ((rw done at v), Shuffle-refl lo hi a)
  partition_loop_lem (suc left) i j a n e v = elim (Bool-cases (slt (at a j) pivot)) [
    | inl less ↦
        let swapped = swap-Shuffle lo hi a i j v.low (omega arith) (omega arith) (omega arith) n in
        let rest =
          partition_loop_lem left (i + 1) (j + 1) (swap64 a i j) (omega (arith, swapped.size))
            (omega arith)
            (take_smaller i j a n (omega arith) (ltb→lt _ _ (rw slt-rank at less)) v) in
        rw (less, partition_loop) (rest.0, Shuffle-trans lo hi a (swap64 a i j) _ swapped rest.1)
    | inr more ↦
        rw (more, partition_loop)
          (partition_loop_lem left i (j + 1) a n (omega arith)
            (leave_larger i j a (ltb→le _ _ (rw slt-rank at more)) v))
  ]

-- `p` is where a range is split: nothing before it in the range is larger than the element at `p`,
-- and nothing behind it smaller.
pub record IsSplit (lo hi p : ℕ) (a : List ℕ) : Type 0 where
  pub from : lo ≤ p
  pub to : p ≤ hi
  pub below : (x : ℕ) → lo ≤ x → x < p → rank (at a x) ≤ rank (at a p)
  pub above : (x : ℕ) → p < x → x ≤ hi → rank (at a p) ≤ rank (at a x)

IsSplit-at_pivot :
    (a b : List ℕ) (lo hi i pivot : ℕ)
    → hi < length a
    → Parted b lo i hi hi pivot
    → Shuffle lo hi a b
    → IsSplit lo hi i (swap64 b i hi) × Shuffle lo hi a (swap64 b i hi)
IsSplit-at_pivot a b lo hi i pivot n v s =
    let n' : hi < length b = omega (arith, s.size) in
    let mid : at (swap64 b i hi) i ≡ pivot = ground (arith, at-swap b i hi i, v.last) in
    (
      record {
        from = v.low;
        to = v.passed;
        below = λ x l u. rw mid (ground (arith, at-swap b i hi x, v.below x l u));
        above = λ x l u. rw mid (ground (arith, at-swap b i hi x, v.above x, v.above i));
      },
      Shuffle-trans lo hi a b (swap64 b i hi) s
          (swap-Shuffle lo hi b i hi v.low v.passed (omega arith) (omega arith) n'),
    )

-- In a range of the array, `partition` returns a place in the range and leaves the range split
-- there, with its elements shuffled and the rest of the array in place.
pub partition_lem :
    (a : List ℕ) (lo hi : ℕ)
    → lo ≤ hi
    → hi < length a
    → IsSplit lo hi (partition a lo hi).0 (partition a lo hi).1
      × Shuffle lo hi a (partition a lo hi).1
unfolding partition Looped
partition_lem a lo hi h n =
    let pivot = at a hi in
    let start : Parted a lo lo lo hi pivot = record {
      low = omega arith;
      passed = omega arith;
      below = λ x l u. absurd (omega arith);
      above = λ x l u. absurd (omega arith);
      last = refl;
    } in
    let r = partition_loop_lem lo hi pivot (hi - lo) lo lo a n (omega arith) start in
    IsSplit-at_pivot a _ lo hi _ pivot n r.0 r.1
