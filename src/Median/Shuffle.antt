-- ===== src/Median/Shuffle.antt =====
-- Swaps inside a range of an array, as firmware/median.c makes them: what they keep.
use colorlight_i9_abletonlin.Base.{
  ℕ, zero, suc, ◌+◌, ◌≤◌, ◌<◌, ◌≡◌, Bool, refl, ◌∙◌, List, [], ◌∷◌, arith, if◌then◌else◌, ◌==◌,
  length, length-set, get_or-set_self, get_or-set_ne, set,
}
use native.Mathlib.Decide.{dec_lt}
use colorlight_i9_abletonlin.Median.{at, swap64}

abbrev one_if : Bool → ℕ
one_if b = if b then 1 else 0

-- How many of the first `n` elements pass a test.
abbrev pub count : (ℕ → Bool) → ℕ → List ℕ → ℕ
count f zero a = 0
count f (suc n) [] = 0
count f (suc n) (x ∷ a) = one_if (f x) + count f n a

count-set :
    (f : ℕ → Bool) (n : ℕ) (a : List ℕ) (i w : ℕ)
    → i < n
    → i < length a
    → count f n (set a i w) + one_if (f (at a i)) ≡ count f n a + one_if (f w)
count-set f zero a i w m h = absurd (omega arith)
count-set f (suc n) [] i w m h = absurd (omega arith)
count-set f (suc n) (x ∷ a) zero w m h = omega arith
count-set f (suc n) (x ∷ a) (suc i) w m h =
    omega (arith, count-set f n a i w (omega arith) (omega arith))

-- A place in a range where an array holds the value.
abbrev pub Source : ℕ → ℕ → List ℕ → ℕ → Type 0
Source lo hi a v = (y : ℕ) × (lo ≤ y) × (y ≤ hi) × (v ≡ at a y)

-- `b` has the elements of `a`, each as often, those outside `lo` to `hi` in their places. As often:
-- any prefix that covers the range has as many elements that pass a test.
pub record Shuffle (lo hi : ℕ) (a b : List ℕ) : Type 0 where
  pub size : length b ≡ length a
  pub outside : (x : ℕ) → (hi < x → at b x ≡ at a x) × (x < lo → at b x ≡ at a x)
  pub inside : (x : ℕ) → lo ≤ x → x ≤ hi → Source lo hi a (at b x)
  pub counts : (f : ℕ → Bool) (n : ℕ) → hi < n → count f n b ≡ count f n a

pub Shuffle-refl : (lo hi : ℕ) (a : List ℕ) → Shuffle lo hi a a
Shuffle-refl lo hi a = record {
  size = refl;
  outside = λ x. (λ _. refl, λ _. refl);
  inside = λ x l h. (x, l, h, refl);
  counts = λ f n h. refl;
}

pub Shuffle-trans :
    (lo hi : ℕ) (a b c : List ℕ) → Shuffle lo hi a b → Shuffle lo hi b c → Shuffle lo hi a c
Shuffle-trans lo hi a b c s t = record {
  size = t.size ∙ s.size;
  outside =
      λ x. (λ h. (t.outside x).0 h ∙ (s.outside x).0 h, λ h. (t.outside x).1 h ∙ (s.outside x).1 h);
  inside = λ x l h.
      let (y, ly, hy, e) = t.inside x l h in
      let (z, lz, hz, e') = s.inside y ly hy in (z, lz, hz, e ∙ e');
  counts = λ f n h. t.counts f n h ∙ s.counts f n h;
}

pub Shuffle-widen :
    (lo hi lo' hi' : ℕ) (a b : List ℕ)
    → lo' ≤ lo
    → hi ≤ hi'
    → Shuffle lo hi a b
    → Shuffle lo' hi' a b
Shuffle-widen lo hi lo' hi' a b l h s = record {
  size = s.size;
  outside = λ x. (λ p. (s.outside x).0 (omega arith), λ p. (s.outside x).1 (omega arith));
  inside = λ x l' h'. widen x l' h' (dec_lt x lo) (dec_lt hi x);
  counts = λ f n m. s.counts f n (omega arith);
}
  where
    stays : (x : ℕ) → lo' ≤ x → x ≤ hi' → at b x ≡ at a x → Source lo' hi' a (at b x)
    stays x l' h' e = (x, l', h', e)

    widen : (x : ℕ) → lo' ≤ x → x ≤ hi' → Dec (x < lo) → Dec (hi < x) → Source lo' hi' a (at b x)
    widen x l' h' (yes low) d = stays x l' h' ((s.outside x).1 low)
    widen x l' h' (no _) (yes high) = stays x l' h' ((s.outside x).0 high)
    widen x l' h' (no p) (no q) =
        let (y, ly, hy, e) = s.inside x (omega arith) (omega arith) in
        (y, omega arith, omega arith, e)

pub at-swap :
    (a : List ℕ) (i j x : ℕ)
    → i < length a
    → j < length a
    → at (swap64 a i j) x ≡ (if x == j then at a i else if x == i then at a j else at a x)
unfolding swap64
at-swap a i j x hi hj = ground (
  arith,
  length-set a i (at a j),
  get_or-set_self (set a i (at a j)) j (at a i) 0,
  get_or-set_ne (set a i (at a j)) j x (at a i) 0,
  get_or-set_self a i (at a j) 0,
  get_or-set_ne a i x (at a j) 0,
)

length-swap : (a : List ℕ) (i j : ℕ) → length (swap64 a i j) ≡ length a
unfolding swap64
length-swap a i j = length-set (set a i (at a j)) j (at a i) ∙ length-set a i (at a j)

count-swap :
    (f : ℕ → Bool) (n : ℕ) (a : List ℕ) (i j : ℕ)
    → i < n
    → j < n
    → i < length a
    → j < length a
    → count f n (swap64 a i j) ≡ count f n a
unfolding swap64
count-swap f n a i j ni nj hi hj =
    let first : List ℕ = set a i (at a j) in
    let kept : at first j ≡ at a j =
      ground (arith, get_or-set_self a i (at a j) 0, get_or-set_ne a i j (at a j) 0) in
    let second : count f n (set first j (at a i)) + one_if (f (at a j))
        ≡ count f n first + one_if (f (at a i)) =
      rw kept at (count-set f n first j (at a i) nj (omega (arith, length-set a i (at a j)))) in
    omega (arith, second, count-set f n a i (at a j) ni hi)

pub swap-Shuffle :
    (lo hi : ℕ) (a : List ℕ) (i j : ℕ)
    → lo ≤ i
    → i ≤ hi
    → lo ≤ j
    → j ≤ hi
    → hi < length a
    → Shuffle lo hi a (swap64 a i j)
swap-Shuffle lo hi a i j li ih lj jh n = record {
  size = length-swap a i j;
  outside = λ x. (λ h. ground (arith, at-swap a i j x), λ h. ground (arith, at-swap a i j x));
  inside = λ x l h. (
    if x == j then i else if x == i then j else x,
    ground arith,
    ground arith,
    ground (arith, at-swap a i j x),
  );
  counts = λ f m h. count-swap f m a i j (omega arith) (omega arith) (omega arith) (omega arith);
}
