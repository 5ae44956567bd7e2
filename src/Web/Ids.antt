-- ===== src/Web/Ids.antt =====
-- firmware/webui.c: ids as hexadecimal text.
use colorlight_i9_abletonlin.Base.{
  ℕ, zero, suc, ◌+◌, ◌-◌, ◌*◌, ◌/◌, ◌%◌, ◌<◌, ◌≡◌, refl, arith, false, List, [], ◌∷◌, ◌++◌, Option,
  none, some, ltb, le→ltb, if◌then◌else◌, length, length-append, drop, All,
}
use colorlight_i9_abletonlin.Types.{LinkId}

-- `h[n]`.
abbrev pub hex_digit : ℕ → ℕ
hex_digit n = if ltb n 10 then b'0' + n else b'a' + (n - 10)

-- The loop over the bytes.
unfoldable pub hex_bytes : List ℕ → List ℕ
hex_bytes [] = []
hex_bytes (b ∷ bs) = hex_digit (b / 16) ∷ hex_digit (b % 16) ∷ hex_bytes bs

abbrev pub node_id_hex : LinkId → List ℕ
node_id_hex id = hex_bytes id

pub length-hex_bytes : (bs : List ℕ) → length (hex_bytes bs) ≡ length bs * 2
unfolding hex_bytes
length-hex_bytes [] = omega arith
length-hex_bytes (b ∷ bs) = omega (arith, length-hex_bytes bs)

-- `sscanf` at the two characters of each of `left` bytes; the value is cut to a byte.
abbrev pub behind_byte : Option ℕ → Option (List ℕ) → Option (List ℕ)
behind_byte none rest = none
behind_byte (some v) none = none
behind_byte (some v) (some bs) = some (v % 256 ∷ bs)

module _ (scan_byte : List ℕ → Option ℕ) where
  unfoldable pub read_bytes : ℕ → List ℕ → Option (List ℕ)
  read_bytes zero s = some []
  read_bytes (suc left) s = let rest = read_bytes left (drop 2 s) in behind_byte (scan_byte s) rest

  unfoldable pub hex_to_id : List ℕ → Option LinkId
  hex_to_id s = if ltb (length s) 16 then none else read_bytes 8 s

  -- What `%2x` reads of two hexadecimal digits.
  abbrev pub ReadsDigits : Type 0
  ReadsDigits =
      (a b : ℕ) (rest : List ℕ)
      → a < 16
      → b < 16
      → scan_byte (hex_digit a ∷ hex_digit b ∷ rest) ≡ some (a * 16 + b)

  module _ (reads : ReadsDigits) where
    read_bytes-hex_bytes :
        (bs rest : List ℕ)
        → All (λ b. b < 256) bs
        → read_bytes (length bs) (hex_bytes bs ++ rest) ≡ some bs
    unfolding read_bytes hex_bytes
    read_bytes-hex_bytes [] rest h = refl
    read_bytes-hex_bytes (b ∷ bs) rest (h, hs) =
        let value : (b / 16 * 16 + b % 16) % 256 ≡ b = omega arith in
        rw
          (
            reads (b / 16) (b % 16) (hex_bytes bs ++ rest) (omega arith) (omega arith),
            read_bytes-hex_bytes bs rest hs,
          )
          (rw value refl)

    -- The text of an id of eight bytes is read back as that id, whatever stands behind it, if
    -- `sscanf` reads two hexadecimal digits as the number they stand for.
    pub hex_to_id-node_id_hex :
        (id : LinkId) (rest : List ℕ)
        → length id ≡ 8
        → All (λ b. b < 256) id
        → hex_to_id (node_id_hex id ++ rest) ≡ some id
    unfolding hex_to_id
    hex_to_id-node_id_hex id rest size bytes =
        let long : ltb (length (node_id_hex id ++ rest)) 16 ≡ false =
          le→ltb _ _ (omega (arith, length-append (hex_bytes id) rest, length-hex_bytes id)) in
        rw long (rw size at (read_bytes-hex_bytes id rest bytes))
