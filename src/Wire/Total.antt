-- ===== src/Wire/Total.antt =====
-- The walker of firmware/tlv.c on any bytes: what its callback keeps, and when it returns.
use colorlight_i9_abletonlin.Base.{
  ℕ, zero, suc, ◌+◌, ◌-◌, ◌^◌, ◌≤◌, ◌<◌, ◌≡◌, refl, Bool, true, false, List, arith, if◌then◌else◌,
  ltb, leb, ltb→le, leb→le, ◌⊎◌, inl, inr, length, take, drop,
}
use colorlight_i9_abletonlin.Wire.{
  Walk, ret, fault, running, Callback, addr, header_inside, walk_from, tlv_walk, be32,
}

-- A context that the walk hands back satisfies the predicate.
abbrev pub Leaves : {C : Type 0} → (C → Type 0) → Walk C → Type 0
Leaves P (ret code ctx) = P ctx
Leaves P fault = Unit {0}
Leaves P running = Unit {0}

module _ {C : Type 0} (P : C → Type 0) (base : ℕ) (buf : List ℕ) (cb : Callback C)
    (keeps : (key : ℕ) (v : List ℕ) (n : ℕ) (ctx : C) → P ctx → P (cb key v n ctx).1) where
  Leaves-if : (b : Bool) (w v : Walk C) → Leaves P w → Leaves P v → Leaves P (if b then w else v)
  Leaves-if true w v hw hv = hw
  Leaves-if false w v hw hv = hv

  walk_from-Leaves : (fuel p : ℕ) (ctx : C) → P ctx → Leaves P (walk_from base buf cb fuel p ctx)
  unfolding walk_from
  walk_from-Leaves zero p ctx h = tt
  walk_from-Leaves (suc fuel) p ctx h =
      let key = be32 (drop (p - base) buf) in
      let size = be32 (drop (p + 4 - base) buf) in
      let vp = addr (p + 8) in
      let v = take size (drop (vp - base) buf) in
      let kept = keeps key v size ctx h in
      Leaves-if (leb vp (addr (base + length buf))) _ _
        (Leaves-if (header_inside base buf cb p) _ _
          (Leaves-if (ltb (addr (base + length buf)) (addr (vp + size))) _ _ h (
            Leaves-if (cb key v size ctx).0 _ _
              (walk_from-Leaves fuel (addr (vp + size)) (cb key v size ctx).1 kept) kept))
          tt)
        h

  -- What a callback keeps of its context on every entry, the walk keeps on any bytes, if it returns.
  pub tlv_walk-Leaves : (ctx : C) → P ctx → Leaves P (tlv_walk base buf cb ctx)
  unfolding tlv_walk
  tlv_walk-Leaves ctx h = walk_from-Leaves (length buf + 1) base ctx h

-- The size field of the entry at an offset.
abbrev pub size_at : List ℕ → ℕ → ℕ
size_at buf o = be32 (drop (o + 4) buf)

-- No size field that a walk from offset `o` reads carries the pointer past the top of the address
-- space, in the first `rounds` entries.
abbrev pub FitsFrom : ℕ → ℕ → List ℕ → ℕ → Type 0
FitsFrom zero base buf o = Unit {0}
FitsFrom (suc rounds) base buf o =
    (length buf < o + 8)
    ⊎ (base + o + 8 + size_at buf o < 2 ^ 32) × FitsFrom rounds base buf (o + 8 + size_at buf o)

-- The buffer lies eight bytes or more below the top of the address space, and no size field wraps.
abbrev pub NoWrap : ℕ → List ℕ → Type 0
NoWrap base buf = (base + length buf + 8 < 2 ^ 32) × FitsFrom (length buf + 1) base buf 0

-- There is an entry.
pub fits_inside : {A : Type 0} (o len : ℕ) → o + 8 ≤ len → (len < o + 8) ⊎ A → A
fits_inside o len h (inl out) = absurd (omega arith)
fits_inside o len h (inr fits) = fits

abbrev pub Returns : {C : Type 0} → Walk C → Type 0
Returns (ret code ctx) = Unit {0}
Returns fault = ⊥
Returns running = ⊥

Returns-if :
    {C : Type 0} (b : Bool) (w v : Walk C)
    → (b ≡ true → Returns w)
    → (b ≡ false → Returns v)
    → Returns (if b then w else v)
Returns-if true w v hw hv = hw refl
Returns-if false w v hw hv = hv refl

module _ {C : Type 0} (base : ℕ) (buf : List ℕ) (cb : Callback C)
    (top : base + length buf + 8 < 2 ^ 32) where
  walk_from-Returns :
      (fuel o : ℕ) (ctx : C)
      → o ≤ length buf
      → length buf < fuel + o
      → FitsFrom fuel base buf o
      → Returns (walk_from base buf cb fuel (base + o) ctx)
  unfolding walk_from
  walk_from-Returns zero o ctx h f fits = absurd (omega arith)
  walk_from-Returns (suc fuel) o ctx h f fits =
      let here : base + o + 4 - base ≡ o + 4 = omega arith in
      let vp : addr (base + o + 8) ≡ base + o + 8 = omega arith in
      let end : addr (base + length buf) ≡ base + length buf = omega arith in
      rw (vp, end, here)
        (Returns-if (leb (base + o + 8) (base + length buf)) _ _
          (λ more.
            let inside : o + 8 ≤ length buf =
              omega (arith, leb→le (base + o + 8) (base + length buf)) in
            let next : ℕ = o + 8 + size_at buf o in
            let moved : addr (base + o + 8 + size_at buf o) ≡ base + next =
              omega (arith, (fits_inside o (length buf) inside fits).0) in
            rw moved (
              Returns-if (header_inside base buf cb (base + o)) _ _
                (λ _.
                  Returns-if (ltb (base + length buf) (base + next)) _ _ (λ _. tt)
                    (λ within.
                      Returns-if (cb _ _ (size_at buf o) ctx).0 _ _
                        (λ _.
                          walk_from-Returns fuel next _
                            (omega (arith, ltb→le (base + length buf) (base + next))) (omega arith)
                            (fits_inside o (length buf) inside fits).1)
                        (λ _. tt)))
                (λ out. absurd (ground arith))))
          (λ _. tt))

-- On any bytes where no size field wraps round the address space, the loop ends by its own test,
-- and reads nothing outside the buffer.
pub tlv_walk-Returns :
    {C : Type 0} (base : ℕ) (buf : List ℕ) (cb : Callback C) (ctx : C)
    → NoWrap base buf
    → Returns (tlv_walk base buf cb ctx)
unfolding tlv_walk
tlv_walk-Returns base buf cb ctx (top, fits) =
    let start : base + 0 ≡ base = omega arith in
    rw start at
      (walk_from-Returns base buf cb top (length buf + 1) 0 ctx (omega arith) (omega arith) fits)
