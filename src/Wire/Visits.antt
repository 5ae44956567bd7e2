-- ===== src/Wire/Visits.antt =====
-- The walker of firmware/tlv.c when each entry that it visits satisfies a condition.
use colorlight_i9_abletonlin.Base.{
  ℕ, zero, suc, ◌+◌, ◌-◌, ◌^◌, ◌≤◌, ◌<◌, ◌≡◌, refl, Bool, true, false, List, arith, if◌then◌else◌,
  ltb, leb, ltb→le, leb→le, ◌⊎◌, length, length-take, length-drop, take, drop,
}
use colorlight_i9_abletonlin.Wire.{
  Walk, ret, fault, running, Callback, addr, header_inside, walk_from, tlv_walk, be32,
}
use colorlight_i9_abletonlin.Wire.Total.{size_at, FitsFrom, NoWrap, fits_inside}

-- The walk returns, with a context that satisfies the predicate.
abbrev pub Holds : {C : Type 0} → (C → Type 0) → Walk C → Type 0
Holds Q (ret code ctx) = Q ctx
Holds Q fault = ⊥
Holds Q running = ⊥

Holds-if :
    {C : Type 0} (Q : C → Type 0) (b : Bool) (w v : Walk C)
    → (b ≡ true → Holds Q w)
    → (b ≡ false → Holds Q v)
    → Holds Q (if b then w else v)
Holds-if Q true w v hw hv = hw refl
Holds-if Q false w v hw hv = hv refl

-- The entries that a walk from offset `o` reads satisfy the condition, in the first `rounds`.
abbrev pub EachFrom : (ℕ → List ℕ → ℕ → Type 0) → ℕ → List ℕ → ℕ → Type 0
EachFrom P zero buf o = Unit {0}
EachFrom P (suc rounds) buf o =
    (length buf < o + 8)
    ⊎ P (be32 (drop o buf)) (take (size_at buf o) (drop (o + 8) buf)) (size_at buf o)
      × EachFrom P rounds buf (o + 8 + size_at buf o)

abbrev pub Each : (ℕ → List ℕ → ℕ → Type 0) → List ℕ → Type 0
Each P buf = EachFrom P (length buf + 1) buf 0

module _ {C : Type 0} (P : ℕ → List ℕ → ℕ → Type 0) (Q : C → Type 0) (base : ℕ) (buf : List ℕ)
    (cb : Callback C) (top : base + length buf + 8 < 2 ^ 32)
    (keeps : (key : ℕ) (v : List ℕ) (n : ℕ) (ctx : C)
      → length v ≡ n
      → P key v n
      → Q ctx
      → Q (cb key v n ctx).1) where
  walk_from-Holds :
      (fuel o : ℕ) (ctx : C)
      → o ≤ length buf
      → length buf < fuel + o
      → FitsFrom fuel base buf o
      → EachFrom P fuel buf o
      → Q ctx
      → Holds Q (walk_from base buf cb fuel (base + o) ctx)
  unfolding walk_from
  walk_from-Holds zero o ctx h f fits each q = absurd (omega arith)
  walk_from-Holds (suc fuel) o ctx h f fits each q =
      let here : base + o - base ≡ o = omega arith in
      let there : base + o + 4 - base ≡ o + 4 = omega arith in
      let vp : addr (base + o + 8) ≡ base + o + 8 = omega arith in
      let value : base + o + 8 - base ≡ o + 8 = omega arith in
      let end : addr (base + length buf) ≡ base + length buf = omega arith in
      rw (vp, end, there, here, value)
        (Holds-if Q (leb (base + o + 8) (base + length buf)) _ _
          (λ more.
            let inside : o + 8 ≤ length buf =
              omega (arith, leb→le (base + o + 8) (base + length buf)) in
            let fit = fits_inside o (length buf) inside fits in
            let good = fits_inside o (length buf) inside each in
            let next : ℕ = o + 8 + size_at buf o in
            let v : List ℕ = take (size_at buf o) (drop (o + 8) buf) in
            let moved : addr (base + o + 8 + size_at buf o) ≡ base + next = omega (arith, fit.0) in
            rw moved (
              Holds-if Q (header_inside base buf cb (base + o)) _ _
                (λ _.
                  Holds-if Q (ltb (base + length buf) (base + next)) _ _ (λ _. q)
                    (λ within.
                      let whole : length v ≡ size_at buf o =
                        length-take (size_at buf o) (drop (o + 8) buf) (
                          omega (
                            arith,
                            length-drop (o + 8) buf,
                            ltb→le (base + length buf) (base + next),
                          )) in
                      let kept = keeps (be32 (drop o buf)) v (size_at buf o) ctx whole good.0 q in
                      Holds-if Q (cb (be32 (drop o buf)) v (size_at buf o) ctx).0 _ _
                        (λ _.
                          walk_from-Holds fuel next _
                            (omega (arith, ltb→le (base + length buf) (base + next))) (omega arith)
                            fit.1 good.1 kept)
                        (λ _. kept)))
                (λ out. absurd (ground arith))))
          (λ _. q))

-- On any bytes where no size field wraps round the address space and each entry satisfies a
-- condition under which the callback keeps a predicate of its context, the walk returns and keeps it.
pub tlv_walk-Holds :
    {C : Type 0} (P : ℕ → List ℕ → ℕ → Type 0) (Q : C → Type 0) (base : ℕ) (buf : List ℕ)
    (cb : Callback C) (ctx : C)
    → ((key : ℕ) (v : List ℕ) (n : ℕ) (c : C) → length v ≡ n → P key v n → Q c → Q (cb key v n c).1)
    → NoWrap base buf
    → Each P buf
    → Q ctx
    → Holds Q (tlv_walk base buf cb ctx)
unfolding tlv_walk
tlv_walk-Holds P Q base buf cb ctx keeps (top, fits) each q =
    let start : base + 0 ≡ base = omega arith in
    rw start at (
      walk_from-Holds P Q base buf cb top keeps (length buf + 1) 0 ctx (omega arith) (omega arith)
        fits each q)
