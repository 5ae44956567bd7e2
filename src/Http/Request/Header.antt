-- ===== src/Http/Request/Header.antt =====
-- firmware/http_server.c: the Content-Length that is read does not depend on what is behind the headers.
use colorlight_i9_abletonlin.Base.{
  length-drop, ℕ, zero, suc, ◌+◌, ◌-◌, ◌<◌, ◌≡◌, ◌∙◌, inl, inr, refl, sym, ap₂, arith, Bool, true,
  false, ◌||◌, not, List, [], ◌∷◌, ◌++◌, Option, none, some, Bool-cases, ltb, ltb→lt, le→ltb,
  if◌then◌else◌, length, get_or, take, drop,
}
use colorlight_i9_abletonlin.Base.Text.{codes, c_string, starts_with, find_char, find_text}
use colorlight_i9_abletonlin.Http.{Conn}
use colorlight_i9_abletonlin.Http.Request.{
  blank_line, at_length, read_length, find_length, parse_headers,
}
use colorlight_i9_abletonlin.Http.Request.Prefix.{
  c_string-append, starts_with_blocked, find_text_lem, find_text-append, find_char-append,
  all_spaces, atoi-append, take-append_short, drop-append_short, get_or-drop,
}

-- Behind the colon of a Content-Length, before the blank line, stands something else than spaces.
abbrev pub has_value : ℕ → List ℕ → Option ℕ → Bool
has_value left p none = true
has_value left p (some colon) =
    if ltb colon left
    then not (all_spaces (take (left - (colon + 1)) (drop (colon + 1) p)))
    else true

unfoldable pub is_valued : ℕ → List ℕ → Bool
is_valued zero p = true
is_valued (suc left) [] = true
is_valued (suc left) (x ∷ p) =
    let rest = is_valued left p in
    if at_length (x ∷ p) then has_value (suc left) (x ∷ p) (find_char b':' (x ∷ p)) else rest

at_length-append :
    (p t : List ℕ) (k : ℕ) → k < length p → get_or p k 0 ≡ 13 → at_length (p ++ t) ≡ at_length p
at_length-append p t k h e =
    ap₂ ◌||◌ (starts_with_blocked (codes "Content-Length") p t k (omega arith) h e)
      (starts_with_blocked (codes "content-length") p t k (omega arith) h e)

module _ (left : ℕ) (p t : List ℕ) (inside : left < length p) (ends : get_or p left 0 ≡ 13) where
  value_part :
      (colon : ℕ)
      → colon < left
      → (take (left - (colon + 1)) (drop (colon + 1) (p ++ t))
          ≡ take (left - (colon + 1)) (drop (colon + 1) p))
  value_part colon h = rw (drop-append_short (colon + 1) p t (omega arith)) (
      take-append_short (left - (colon + 1)) (drop (colon + 1) p) t
        (omega (arith, length-drop (colon + 1) p)))

  has_value-append :
      has_value left (p ++ t) (find_char b':' (p ++ t)) ≡ has_value left p (find_char b':' p)
  has_value-append = elim (find_char-append b':' p t) [
    | inl e ↦ rw e (go (find_char b':' p))
    | inr (miss, (i, e, far)) ↦
        let out : ltb i left ≡ false = le→ltb _ _ (omega arith) in rw (e, miss) (rw out refl)
  ]
    where
      go : (o : Option ℕ) → has_value left (p ++ t) o ≡ has_value left p o
      go none = refl
      go (some colon) = elim (Bool-cases (ltb colon left)) [
        | inl before ↦ rw (before, value_part colon (ltb→lt _ _ before)) refl
        | inr behind ↦ rw behind refl
      ]

  read_length-append :
      has_value left p (find_char b':' p) ≡ true
      → read_length left (p ++ t) (find_char b':' (p ++ t)) ≡ read_length left p (find_char b':' p)
  read_length-append w = elim (find_char-append b':' p t) [
    | inl e ↦ rw e (go (find_char b':' p) w)
    | inr (miss, (i, e, far)) ↦
        let out : ltb i left ≡ false = le→ltb _ _ (omega arith) in rw (e, miss) (rw out refl)
  ]
    where
      go :
          (o : Option ℕ)
          → has_value left p o ≡ true
          → read_length left (p ++ t) o ≡ read_length left p o
      go none v = refl
      go (some colon) v = elim (Bool-cases (ltb colon left)) [
        | inl before ↦
            let lt = ltb→lt colon left before in
            let k : ℕ = left - (colon + 1) in
            let at : colon + 1 + k ≡ left = omega arith in
            let end : get_or (drop (colon + 1) p) k 0 ≡ 13 =
              get_or-drop (colon + 1) k p ∙ rw at ends in
            let full : all_spaces (take k (drop (colon + 1) p)) ≡ false =
              let v' = rw before at v in ground arith in
            rw (before, drop-append_short (colon + 1) p t (omega arith))
              (atoi-append (drop (colon + 1) p) t k (omega (arith, length-drop (colon + 1) p)) end
                full)
        | inr behind ↦ rw behind refl
      ]

is_valued-append :
    (left : ℕ) (p t : List ℕ)
    → left < length p
    → get_or p left 0 ≡ 13
    → is_valued left (p ++ t) ≡ is_valued left p
unfolding is_valued
is_valued-append zero p t h e = refl
is_valued-append (suc left) [] t h e = absurd (omega arith)
is_valued-append (suc left) (x ∷ p) t h e =
    rw
      (
        at_length-append (x ∷ p) t (suc left) h e,
        has_value-append (suc left) (x ∷ p) t h e,
        is_valued-append left p t (omega arith) e,
      )
      refl

find_length-append :
    (left : ℕ) (p t : List ℕ)
    → left < length p
    → get_or p left 0 ≡ 13
    → is_valued left p ≡ true
    → find_length left (p ++ t) ≡ find_length left p
unfolding find_length is_valued
find_length-append zero p t h e w = refl
find_length-append (suc left) [] t h e w = absurd (omega arith)
find_length-append (suc left) (x ∷ p) t h e w =
    let same_test = at_length-append (x ∷ p) t (suc left) h e in
    elim (Bool-cases (at_length (x ∷ p))) [
      | inl here ↦ rw (same_test, here) (read_length-append (suc left) (x ∷ p) t h e (rw here at w))
      | inr on ↦ rw (same_test, on) (find_length-append left p t (omega arith) e (rw on at w))
    ]

-- Every Content-Length of the headers, if they are whole, has a value.
abbrev pub headers_valued : List ℕ → Option ℕ → Bool
headers_valued s none = true
headers_valued s (some eol) = is_valued eol s

abbrev pub is_well_formed : List ℕ → Bool
is_well_formed buf = headers_valued (c_string buf) (find_text blank_line (c_string buf))

-- The blank line starts with a carriage return.
blank_line_at :
    (s : List ℕ) (e : ℕ) → find_text blank_line s ≡ some e → (e < length s) × (get_or s e 0 ≡ 13)
blank_line_at s e h =
    let at = find_text_lem blank_line s e h in
    let z : e + 0 ≡ e = omega arith in
    (omega (arith, at.1), rw z at (sym (get_or-drop e 0 s) ∙ first (drop e s) at.0))
  where
    first : (l : List ℕ) → starts_with blank_line l ≡ true → get_or l 0 0 ≡ 13
    first [] h = cc
    first (x ∷ l) h = ground arith

-- Headers that were whole stay as they were read when more bytes arrive.
pub parse_headers-append :
    (cs : Conn) (ys : List ℕ) (e : ℕ)
    → find_text blank_line (c_string cs.buf) ≡ some e
    → is_well_formed (cs.buf ++ ys) ≡ true
    → parse_headers (record cs { buf = cs.buf ++ ys })
      ≡ record (parse_headers cs) { buf = cs.buf ++ ys }
unfolding parse_headers
parse_headers-append cs ys e h w =
    let s : List ℕ = c_string cs.buf in
    let more = c_string-append cs.buf ys in
    let at = blank_line_at s e h in
    let found : find_text blank_line (s ++ more.0) ≡ some e =
      find_text-append blank_line s more.0 e h in
    let valued : is_valued e (s ++ more.0) ≡ true = rw (more.1, found) at w in
    let valued' : is_valued e s ≡ true = rw (is_valued-append e s more.0 at.0 at.1) at valued in
    let len = find_length-append e s more.0 at.0 at.1 valued' in
    let found' : find_text blank_line (c_string (cs.buf ++ ys)) ≡ some e = rw more.1 found in
    let len' : find_length e (c_string (cs.buf ++ ys)) ≡ find_length e s = rw more.1 len in
    rw (found', h, len') refl
