-- ===== src/Wire/Bytes.antt =====
-- The big-endian accessors of firmware/tlv.h undo one another.
use colorlight_i9_abletonlin.Base.{
  ℕ, ◌/◌, ◌%◌, ◌^◌, ◌<◌, ◌≡◌, refl, List, [], ◌∷◌, ◌++◌, arith, length, drop,
}
use colorlight_i9_abletonlin.Wire.{be16, be32, be64, put_be16, put_be32, put_be64}

abbrev pub IsByte : ℕ → Type 0
IsByte b = b < 256

pub be16-put_be16 : (v : ℕ) (rest : List ℕ) → v < 2 ^ 16 → be16 (put_be16 v ++ rest) ≡ v
unfolding be16 put_be16
be16-put_be16 v rest h = omega arith

pub be32-put_be32 : (v : ℕ) (rest : List ℕ) → v < 2 ^ 32 → be32 (put_be32 v ++ rest) ≡ v
unfolding be32 put_be32
be32-put_be32 v rest h = omega arith

put_be64_halves :
    (v : ℕ) (rest : List ℕ)
    → put_be64 v ++ rest ≡ put_be32 (v / 2 ^ 32 % 2 ^ 32) ++ (put_be32 (v % 2 ^ 32) ++ rest)
unfolding put_be64 put_be32
put_be64_halves v rest = refl

pub drop-put_be32 : (v : ℕ) (rest : List ℕ) → drop 4 (put_be32 v ++ rest) ≡ rest
unfolding put_be32
drop-put_be32 v rest = refl

-- A number of 64 bits that was written is read back, whatever bytes are behind it.
pub be64-put_be64 : (v : ℕ) (rest : List ℕ) → v < 2 ^ 64 → be64 (put_be64 v ++ rest) ≡ v
unfolding be64
be64-put_be64 v rest h =
    let hi : ℕ = v / 2 ^ 32 % 2 ^ 32 in
    let lo : ℕ = v % 2 ^ 32 in
    rw (put_be64_halves v rest, drop-put_be32)
      (omega (
        arith,
        be32-put_be32 hi (put_be32 lo ++ rest) (omega arith),
        be32-put_be32 lo rest (omega arith),
      ))

-- Writing back what was read of four bytes gives the bytes back.
pub put_be32-be32 :
    (a b c d : ℕ)
    → IsByte a × IsByte b × IsByte c × IsByte d
    → put_be32 (be32 (a ∷ b ∷ c ∷ d ∷ [])) ≡ a ∷ b ∷ c ∷ d ∷ []
unfolding be32 put_be32
put_be32-be32 a b c d h = ground arith

pub length-put_be32 : (v : ℕ) → length (put_be32 v) ≡ 4
unfolding put_be32
length-put_be32 v = refl

pub length-put_be64 : (v : ℕ) → length (put_be64 v) ≡ 8
unfolding put_be64 put_be32
length-put_be64 v = refl

pub length-put_be16 : (v : ℕ) → length (put_be16 v) ≡ 2
unfolding put_be16
length-put_be16 v = refl

pub drop-put_be64 : (v : ℕ) (rest : List ℕ) → drop 8 (put_be64 v ++ rest) ≡ rest
unfolding put_be64 put_be32
drop-put_be64 v rest = refl

pub be32-lt :
    (a b c d : ℕ) (rest : List ℕ)
    → IsByte a × IsByte b × IsByte c × IsByte d
    → be32 (a ∷ b ∷ c ∷ d ∷ rest) < 2 ^ 32
unfolding be32
be32-lt a b c d rest h = omega arith
