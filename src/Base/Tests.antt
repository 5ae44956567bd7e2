-- ===== src/Base/Tests.antt =====
-- C's comparisons of unsigned numbers as Boolean tests, the conditional, and `memcmp`.
use Prim.Native.Nat.{ℕ, ◌≤◌, ◌<◌, compare, Ordering}
use mathlib.Core.Path.{◌≡◌, refl}
use mathlib.Core.Logic.{◌⊎◌, inl, inr}
use mathlib.Core.Bool.{Bool, true, false}
use mathlib.Core.Option.{Option, none, some}
use mathlib.Core.List.{List, [], ◌∷◌}
use native.Mathlib.Omega.{arith}

abbrev pub ltb : ℕ → ℕ → Bool
ltb a b = elim (compare a b) [ Ordering.lt ↦ true | _ ↦ false ]

abbrev pub leb : ℕ → ℕ → Bool
leb a b = elim (compare a b) [ Ordering.gt ↦ false | _ ↦ true ]

infix 50 ◌==◌
abbrev pub ◌==◌ : ℕ → ℕ → Bool
a == b = elim (compare a b) [ Ordering.eq ↦ true | _ ↦ false ]

infix 1 if◌then◌else◌
abbrev pub if◌then◌else◌ {ℓ} : {A : Type ℓ} → Bool → A → A → A
if true then x else y = x
if false then x else y = y

pub ltb→lt : (a b : ℕ) → ltb a b ≡ true → a < b
ltb→lt a b h = ground arith

pub lt→ltb : (a b : ℕ) → a < b → ltb a b ≡ true
lt→ltb a b h = ground arith

pub le→ltb : (a b : ℕ) → b ≤ a → ltb a b ≡ false
le→ltb a b h = ground arith

pub ltb→le : (a b : ℕ) → ltb a b ≡ false → b ≤ a
ltb→le a b h = ground arith

pub le→leb : (a b : ℕ) → a ≤ b → leb a b ≡ true
le→leb a b h = ground arith

pub leb→le : (a b : ℕ) → leb a b ≡ true → a ≤ b
leb→le a b h = ground arith

pub lt→leb : (a b : ℕ) → b < a → leb a b ≡ false
lt→leb a b h = ground arith

pub ==_refl : (a : ℕ) → (a == a) ≡ true
==_refl a = ground arith

pub ==→eq : (a b : ℕ) → (a == b) ≡ true → a ≡ b
==→eq a b h = ground arith

-- To split on a computed value and keep the equation.
pub Bool-cases : (b : Bool) → (b ≡ true) ⊎ (b ≡ false)
Bool-cases true = inl refl
Bool-cases false = inr refl

pub Option-cases {ℓ} : {A : Type ℓ} (o : Option A) → (o ≡ none) ⊎ ((a : A) × (o ≡ some a))
Option-cases none = inl refl
Option-cases (some a) = inr (a, refl)

-- `memcmp(a, b, n)` on two buffers of `n` bytes: the order of the first bytes that differ.
unfoldable pub memcmp : List ℕ → List ℕ → Ordering
memcmp [] [] = Ordering.eq
memcmp [] (y ∷ ys) = Ordering.lt
memcmp (x ∷ xs) [] = Ordering.gt
memcmp (x ∷ xs) (y ∷ ys) = elim (compare x y) [
  | Ordering.lt ↦ Ordering.lt
  | Ordering.gt ↦ Ordering.gt
  | Ordering.eq ↦ memcmp xs ys
]

-- `memcmp(a, b, n) == 0`.
unfoldable pub same : List ℕ → List ℕ → Bool
unfolding memcmp
same a b = elim (memcmp a b) [ Ordering.eq ↦ true | _ ↦ false ]

-- `memcmp(a, b, n) < 0`.
unfoldable pub before : List ℕ → List ℕ → Bool
unfolding memcmp
before a b = elim (memcmp a b) [ Ordering.lt ↦ true | _ ↦ false ]

memcmp_refl : (a : List ℕ) → memcmp a a ≡ Ordering.eq
unfolding memcmp
memcmp_refl [] = refl
memcmp_refl (x ∷ xs) = ground (arith, memcmp_refl xs)

memcmp→eq : (a b : List ℕ) → memcmp a b ≡ Ordering.eq → a ≡ b
unfolding memcmp
memcmp→eq [] [] h = refl
memcmp→eq [] (y ∷ ys) h = cc
memcmp→eq (x ∷ xs) [] h = cc
memcmp→eq (x ∷ xs) (y ∷ ys) h = ground (arith, memcmp→eq xs ys)

pub same_refl : (a : List ℕ) → same a a ≡ true
unfolding same
same_refl a = ground (arith, memcmp_refl a)

pub same→eq : (a b : List ℕ) → same a b ≡ true → a ≡ b
unfolding same
same→eq a b h = ground (arith, memcmp→eq a b)

pub same_of_eq : (a b : List ℕ) → a ≡ b → same a b ≡ true
same_of_eq a b e = rw e (same_refl b)

pub before_irrefl : (a : List ℕ) → before a a ≡ false
unfolding before
before_irrefl a = ground (arith, memcmp_refl a)

memcmp_swap : (a b : List ℕ) → memcmp a b ≡ Ordering.lt → memcmp b a ≡ Ordering.gt
unfolding memcmp
memcmp_swap [] [] h = cc
memcmp_swap [] (y ∷ ys) h = refl
memcmp_swap (x ∷ xs) [] h = cc
memcmp_swap (x ∷ xs) (y ∷ ys) h = ground (arith, memcmp_swap xs ys)

pub before_asymm : (a b : List ℕ) → before a b ≡ true → before b a ≡ false
unfolding before
before_asymm a b h = ground (arith, memcmp_swap a b)
