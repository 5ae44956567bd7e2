-- ===== src/Http/Request/Prefix.antt =====
-- What firmware/http_server.c reads of a request's headers does not change when more bytes arrive.
use colorlight_i9_abletonlin.Base.{
  ℕ, zero, suc, ◌+◌, ◌-◌, ◌*◌, ◌≤◌, ◌<◌, ◌≡◌, ◌≢◌, ◌⊎◌, inl, inr, refl, ap, arith, Bool, true,
  false, ◌&&◌, List, [], ◌∷◌, ◌++◌, Option, none, some, Option-cases, Bool-cases, ◌==◌, length,
  get_or, take, drop, All,
}
use colorlight_i9_abletonlin.Base.Text.{
  c_string, starts_with, find_char, find_text, is_space, is_digit, digits, atoi,
}

pub c_string-append : (xs ys : List ℕ) → (t : List ℕ) × (c_string (xs ++ ys) ≡ c_string xs ++ t)
c_string-append [] ys = (c_string ys, refl)
c_string-append (x ∷ xs) ys = elim (Bool-cases (x == 0)) [
  | inl end ↦ ([], rw end refl)
  | inr on ↦ let h = c_string-append xs ys in (h.0, rw on (ap (λ (l : List ℕ). x ∷ l) h.1))
]

starts_with_long : (p s t : List ℕ) → length p ≤ length s → starts_with p (s ++ t) ≡ starts_with p s
starts_with_long [] s t h = refl
starts_with_long (x ∷ p) [] t h = absurd (omega arith)
starts_with_long (x ∷ p) (y ∷ s) t h =
    ap (λ (b : Bool). x == y && b) (starts_with_long p s t (omega arith))

starts_with-length : (p s : List ℕ) → starts_with p s ≡ true → length p ≤ length s
starts_with-length [] s h = omega arith
starts_with-length (x ∷ p) [] h = cc
starts_with-length (x ∷ p) (y ∷ s) h = omega (arith, starts_with-length p s (ground arith))

-- A character that the needle does not have stands in its way.
pub starts_with_blocked :
    (p s t : List ℕ) (k : ℕ)
    → All (λ x. x ≢ 13) p
    → k < length s
    → get_or s k 0 ≡ 13
    → starts_with p (s ++ t) ≡ starts_with p s
starts_with_blocked [] s t k w h e = refl
starts_with_blocked (x ∷ p) [] t k w h e = absurd (omega arith)
starts_with_blocked (x ∷ p) (y ∷ s) t zero (w, ws) h e =
    let no : (x == y) ≡ false = ground arith in rw no refl
starts_with_blocked (x ∷ p) (y ∷ s) t (suc k) (w, ws) h e =
    ap (λ (b : Bool). x == y && b) (starts_with_blocked p s t k ws (omega arith) e)

-- Behind a first character that is passed over.
abbrev up : Option ℕ → Option ℕ
up o = elim o [ none ↦ none | some i ↦ some (i + 1) ]

up-some : (o : Option ℕ) (e : ℕ) → up o ≡ some e → (i : ℕ) × (o ≡ some i) × (e ≡ i + 1)
up-some none e h = cc
up-some (some i) e h = (i, refl, ground arith)

-- The text stands where it is found.
pub find_text_lem :
    (p s : List ℕ) (e : ℕ)
    → find_text p s ≡ some e
    → (starts_with p (drop e s) ≡ true) × (e + length p ≤ length s)
find_text_lem p [] e h = cc
find_text_lem p (x ∷ s) e h = elim (Bool-cases (starts_with p (x ∷ s))) [
  | inl here ↦
      let z : e ≡ 0 = let q : some 0 ≡ some e = rw here at h in ground arith in
      rw z (here, omega (arith, starts_with-length p (x ∷ s) here))
  | inr on ↦
      let q = up-some (find_text p s) e (rw on at h) in
      let ih = find_text_lem p s q.0 q.1 in
      let z : e ≡ suc q.0 = omega (arith, q.2) in rw z (ih.0, omega (arith, ih.1))
]

pub find_text-append :
    (p s t : List ℕ) (e : ℕ) → find_text p s ≡ some e → find_text p (s ++ t) ≡ some e
find_text-append p [] t e h = cc
find_text-append p (x ∷ s) t e h =
    let long = (find_text_lem p (x ∷ s) e h).1 in
    let same_start = starts_with_long p (x ∷ s) t (omega arith) in
    elim (Bool-cases (starts_with p (x ∷ s))) [
      | inl here ↦ rw (same_start, here) (rw here at h)
      | inr on ↦
          let q = up-some (find_text p s) e (rw on at h) in
          let z : e ≡ q.0 + 1 = q.2 in rw (same_start, on, find_text-append p s t q.0 q.1, z) refl
    ]

-- What is found is the same, or nothing is found in the first part.
pub find_char-append :
    (c : ℕ) (s t : List ℕ)
    → (find_char c (s ++ t) ≡ find_char c s)
      ⊎ (find_char c s ≡ none) × ((i : ℕ) × (find_char c (s ++ t) ≡ some i) × (length s ≤ i))
find_char-append c [] [] = inl refl
find_char-append c [] (y ∷ t) = elim (Option-cases (find_char c (y ∷ t))) [
  | inl miss ↦ inl miss
  | inr (i, e) ↦ inr (refl, (i, e, omega arith))
]
find_char-append c (x ∷ s) t = elim (Bool-cases (x == c)) [
  | inl here ↦ inl (rw here refl)
  | inr on ↦ elim (find_char-append c s t) [
    | inl e ↦ inl (rw (on, e) refl)
    | inr (miss, (i, e, far)) ↦ inr (rw (on, miss) refl, (i + 1, rw (on, e) refl, omega arith))
  ]
]

digits-append :
    (acc : ℕ) (s t : List ℕ) (k : ℕ)
    → k < length s
    → get_or s k 0 ≡ 13
    → digits acc (s ++ t) ≡ digits acc s
digits-append acc [] t k h e = absurd (omega arith)
digits-append acc (x ∷ s) t zero h e = let no : is_digit x ≡ false = ground arith in rw no refl
digits-append acc (x ∷ s) t (suc k) h e =
    rw (digits-append (acc * 10 + (x - b'0')) s t k (omega arith) e) refl

abbrev pub all_spaces : List ℕ → Bool
all_spaces [] = true
all_spaces (x ∷ s) = is_space x && all_spaces s

-- A number ends at the end of the line.
pub atoi-append :
    (s t : List ℕ) (k : ℕ)
    → k < length s
    → get_or s k 0 ≡ 13
    → all_spaces (take k s) ≡ false
    → atoi (s ++ t) ≡ atoi s
atoi-append [] t k h e w = absurd (omega arith)
atoi-append (x ∷ s) t zero h e w = cc
atoi-append (x ∷ s) t (suc k) h e w = elim (Bool-cases (is_space x)) [
  | inl blank ↦ rw blank (atoi-append s t k (omega arith) e (ground arith))
  | inr other ↦
      let d = digits-append 0 s t k (omega arith) e in
      let d' = digits-append 0 (x ∷ s) t (suc k) h e in rw other (rw (d, d') refl)
]

pub drop-append_short : (n : ℕ) (s t : List ℕ) → n ≤ length s → drop n (s ++ t) ≡ drop n s ++ t
drop-append_short zero s t h = refl
drop-append_short (suc n) [] t h = absurd (omega arith)
drop-append_short (suc n) (x ∷ s) t h = drop-append_short n s t (omega arith)

pub take-append_short : (n : ℕ) (s t : List ℕ) → n ≤ length s → take n (s ++ t) ≡ take n s
take-append_short zero s t h = refl
take-append_short (suc n) [] t h = absurd (omega arith)
take-append_short (suc n) (x ∷ s) t h =
    ap (λ (l : List ℕ). x ∷ l) (take-append_short n s t (omega arith))

pub get_or-drop : (n k : ℕ) (s : List ℕ) → get_or (drop n s) k 0 ≡ get_or s (n + k) 0
get_or-drop zero k s = let z : 0 + k ≡ k = omega arith in rw z refl
get_or-drop (suc n) k [] = refl
get_or-drop (suc n) k (x ∷ s) =
    let z : suc n + k ≡ suc (n + k) = omega arith in rw z (get_or-drop n k s)
