-- ===== src/Median.antt =====
-- firmware/median.c: in-place quickselect on `int64_t` samples. An array is a list of bit patterns.
pub mod Shuffle
pub mod Partition
pub mod Select
pub mod Order
use colorlight_i9_abletonlin.Base.{
  ℕ, zero, suc, ◌+◌, ◌-◌, ◌/◌, ◌%◌, List, Option, none, some, ltb, ◌==◌, if◌then◌else◌, get_or, set,
}
use colorlight_i9_abletonlin.Base.Int64.{add64, sdiv64, slt}

abbrev pub at : List ℕ → ℕ → ℕ
at a i = get_or a i 0

pub swap64 : List ℕ → ℕ → ℕ → List ℕ
swap64 a i j = set (set a i (at a j)) j (at a i)

-- The loop of `partition` at index `j`, with `left` rounds to go.
pub partition_loop : ℕ → ℕ → ℕ → ℕ → List ℕ → ℕ × List ℕ
partition_loop zero pivot i j a = (i, a)
partition_loop (suc left) pivot i j a =
    let less = slt (at a j) pivot in
    partition_loop left pivot (if less then i + 1 else i) (j + 1) (if less then swap64 a i j else a)

pub partition : List ℕ → ℕ → ℕ → ℕ × List ℕ
partition a lo hi =
    let pivot = at a hi in
    let (i, a') = partition_loop (hi - lo) pivot lo lo a in (i, swap64 a' i hi)

-- `none` means that the fuel ran out. `p - 1` is taken only at `k < p`.
pub nth_element : ℕ → List ℕ → ℕ → ℕ → ℕ → Option (List ℕ)
nth_element zero a lo hi k = none
nth_element (suc fuel) a lo hi k =
    let parted = partition a lo hi in
    let p = parted.0 in
    let left = nth_element fuel parted.1 lo (p - 1) k in
    let right = nth_element fuel parted.1 (p + 1) hi k in
    let found = if p == k then some parted.1 else if ltb k p then left else right in
    if ltb lo hi then found else some a

-- The even case, with the upper of the two middle samples at hand.
pub median_even : List ℕ → ℕ → ℕ → Option (ℕ × List ℕ)
median_even a n mid = elim (nth_element (n + 1) a 0 (n - 1) (n / 2 - 1)) [
  | none ↦ none
  | some b ↦ some (sdiv64 (add64 (at b (n / 2 - 1)) mid) 2, b)
]

-- The result and the array as it is left. `n + 1` rounds are enough.
pub median_i64 : List ℕ → ℕ → Option (ℕ × List ℕ)
median_i64 a n = if n == 0 then some (0, a) else elim (nth_element (n + 1) a 0 (n - 1) (n / 2)) [
  | none ↦ none
  | some b ↦ if n % 2 == 0 then median_even b n (at b (n / 2)) else some (at b (n / 2), b)
]
