-- ===== src/Base/Text.antt =====
-- What the source uses of the C library on strings: a string is the list of its bytes before the
-- terminating zero. A number that overflows its `int`, which C leaves undefined, wraps.
use Prim.Native.Nat.{ℕ, zero, suc, ◌+◌, ◌-◌, ◌*◌, ◌/◌, ◌%◌, ◌^◌}
use Prim.Native.Char.{code}
use Prim.Native.String.{String}
use mathlib.Core.Bool.{Bool, true, false, ◌&&◌, ◌||◌}
use mathlib.Core.Option.{Option, none, some}
use mathlib.Core.List.{List, [], ◌∷◌, ◌++◌}
use colorlight_i9_abletonlin.Base.Tests.{leb, ◌==◌, if◌then◌else◌}

abbrev pub codes : String → List ℕ
codes String.[] = []
codes (String.◌∷◌ c s) = code c ∷ codes s

-- The characters before the first zero.
abbrev pub c_string : List ℕ → List ℕ
c_string [] = []
c_string (x ∷ xs) = if x == 0 then [] else x ∷ c_string xs

-- `strncmp(s, p, strlen(p)) == 0`.
abbrev pub starts_with : List ℕ → List ℕ → Bool
starts_with [] s = true
starts_with (x ∷ p) [] = false
starts_with (x ∷ p) (y ∷ s) = x == y && starts_with p s

-- `strchr`, as an index.
abbrev pub find_char : ℕ → List ℕ → Option ℕ
find_char c [] = none
find_char c (x ∷ s) =
    let rest = find_char c s in
    if x == c then some 0 else elim rest [ none ↦ none | some i ↦ some (i + 1) ]

-- `strstr`, as an index; the needle is not empty.
abbrev pub find_text : List ℕ → List ℕ → Option ℕ
find_text p [] = none
find_text p (x ∷ s) =
    let rest = find_text p s in
    if starts_with p (x ∷ s) then some 0 else elim rest [ none ↦ none | some i ↦ some (i + 1) ]

abbrev pub is_space : ℕ → Bool
is_space c = c == 32 || leb 9 c && leb c 13

abbrev pub is_digit : ℕ → Bool
is_digit c = leb b'0' c && leb c b'9'

abbrev pub skip_spaces : List ℕ → List ℕ
skip_spaces [] = []
skip_spaces (x ∷ s) = let rest = skip_spaces s in if is_space x then rest else x ∷ s

-- The number that the digits at the front stand for, behind those of `acc`.
abbrev pub digits : ℕ → List ℕ → ℕ
digits acc [] = acc
digits acc (x ∷ s) = let rest = digits (acc * 10 + (x - b'0')) s in if is_digit x then rest else acc

-- A sign, and the number, as the pattern of an `int`.
abbrev pub signed : List ℕ → ℕ
signed [] = 0
signed (x ∷ s) =
    if x == b'-'
    then (2 ^ 32 - digits 0 s % 2 ^ 32) % 2 ^ 32
    else if x == b'+'
    then digits 0 s % 2 ^ 32
    else digits 0 (x ∷ s) % 2 ^ 32

abbrev pub atoi : List ℕ → ℕ
atoi s = signed (skip_spaces s)

-- The digits of a number of at most `fuel` digits, before those of `out`.
unfoldable pub decimal_digits : ℕ → ℕ → List ℕ → List ℕ
decimal_digits zero n out = out
decimal_digits (suc fuel) n out =
    let rest = decimal_digits fuel (n / 10) ((b'0' + n % 10) ∷ out) in if n == 0 then out else rest

-- What `%u` writes: a word has ten digits at most.
unfoldable pub decimal : ℕ → List ℕ
unfolding decimal_digits
decimal n = if n == 0 then b'0' ∷ [] else decimal_digits 10 n []

abbrev pub concat : List (List ℕ) → List ℕ
concat [] = []
concat (s ∷ ss) = s ++ concat ss
