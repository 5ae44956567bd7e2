-- ===== src/Wire/Entries.antt =====
-- The walker of firmware/tlv.c on a buffer of well-formed entries with any tail behind them.
use colorlight_i9_abletonlin.Base.{
  ℕ, zero, suc, ◌+◌, ◌-◌, ◌^◌, ◌≤◌, ◌<◌, ◌≡◌, refl, Bool, true, false, ◌&&◌, List, [], ◌∷◌, ◌++◌,
  append_assoc, append-nil, arith, if◌then◌else◌, ltb, length, length-append, take, drop,
  take-append,
}
use colorlight_i9_abletonlin.Wire.{ret, Callback, addr, walk_from, be32, put_be32}
use colorlight_i9_abletonlin.Wire.Bytes.{be32-put_be32}

pub record Entry : Type 0 where
  pub key : ℕ
  pub value : List ℕ

abbrev pub header : ℕ → ℕ → List ℕ
header key size = put_be32 key ++ put_be32 size

abbrev pub emit : Entry → List ℕ
emit e = header e.key (length e.value) ++ e.value

abbrev pub emit_all : List Entry → List ℕ
emit_all [] = []
emit_all (e ∷ es) = emit e ++ emit_all es

-- The key fits its word.
abbrev pub IsKeyed : List Entry → Type 0
IsKeyed [] = Unit {0}
IsKeyed (e ∷ es) = (e.key < 2 ^ 32) × IsKeyed es

-- The callback on each entry in turn, until it refuses one.
abbrev pub deliver : {C : Type 0} → Callback C → List Entry → C → Bool × C
deliver cb [] ctx = (true, ctx)
deliver cb (e ∷ es) ctx =
    let called = cb e.key e.value (length e.value) ctx in
    if called.0 then deliver cb es called.1 else (false, called.1)

-- One accepted entry.
pub deliver-cons :
    {C : Type 0} (cb : Callback C) (e : Entry) (es : List Entry) (ctx ctx' : C) {r : Bool × C}
    → cb e.key e.value (length e.value) ctx ≡ (true, ctx')
    → deliver cb es ctx' ≡ r
    → deliver cb (e ∷ es) ctx ≡ r
deliver-cons cb e es ctx ctx' h t = rw h t

drop-add {ℓ} :
    {A : Type ℓ} (pre ys : List A) (k : ℕ) → drop (length pre + k) (pre ++ ys) ≡ drop k ys
drop-add [] ys k = let e : 0 + k ≡ k = omega arith in rw e
drop-add (x ∷ pre) ys k =
    let e : suc (length pre) + k ≡ suc (length pre + k) = omega arith in rw e (drop-add pre ys k)

module _ (base : ℕ) (pre ys : List ℕ) where
  behind : (k p : ℕ) → p ≡ base + length pre + k → drop (p - base) (pre ++ ys) ≡ drop k ys
  behind k p e =
      let offset : p - base ≡ length pre + k = omega arith in rw offset (drop-add pre ys k)

pub length-header :
    (key size : ℕ) (rest : List ℕ) → length (header key size ++ rest) ≡ 8 + length rest
unfolding put_be32
length-header key size rest = omega arith

header_key : (key size : ℕ) (rest : List ℕ) → key < 2 ^ 32 → be32 (header key size ++ rest) ≡ key
header_key key size rest h =
    rw (append_assoc (put_be32 key) (put_be32 size) rest)
      (be32-put_be32 key (put_be32 size ++ rest) h)

drop-header_four :
    (key size : ℕ) (rest : List ℕ) → drop 4 (header key size ++ rest) ≡ put_be32 size ++ rest
unfolding put_be32
drop-header_four key size rest = refl

drop-header : (key size : ℕ) (rest : List ℕ) → drop 8 (header key size ++ rest) ≡ rest
unfolding put_be32
drop-header key size rest = refl

header_size :
    (key size : ℕ) (rest : List ℕ) → size < 2 ^ 32 → be32 (drop 4 (header key size ++ rest)) ≡ size
header_size key size rest h = rw drop-header_four (be32-put_be32 size rest h)

module _ {C : Type 0} (base : ℕ) (cb : Callback C) where
  -- One round of the loop at a header: what it reads, when nothing wraps.
  pub walk_round :
      (pre : List ℕ) (key size : ℕ) (rest : List ℕ) (fuel : ℕ) (ctx : C)
      → key < 2 ^ 32
      → size < 2 ^ 32
      → base + length (pre ++ (header key size ++ rest)) < 2 ^ 32
      → let called = cb key (take size rest) size ctx in
        walk_from base (pre ++ (header key size ++ rest)) cb (suc fuel) (base + length pre) ctx ≡ (
          if ltb (base + length pre + 8 + length rest) (addr (base + length pre + 8 + size))
          then ret false ctx
          else if called.0
          then walk_from base
              (pre ++ (header key size ++ rest))
              cb
              fuel
              (addr (base + length pre + 8 + size))
              called.1
          else ret false called.1)
  unfolding walk_from
  walk_round pre key size rest fuel ctx hk hs hb =
      let body : List ℕ = header key size ++ rest in
      let len : length (pre ++ body) ≡ length pre + (8 + length rest) =
        omega (arith, length-append pre body, length-header key size rest) in
      let vp : addr (base + length pre + 8) ≡ base + length pre + 8 = omega arith in
      let end : addr (base + length (pre ++ body)) ≡ base + length pre + 8 + length rest =
        omega arith in
      rw
        (
          end,
          vp,
          behind base pre body 0 (base + length pre) (omega arith),
          header_key key size rest hk,
          behind base pre body 4 (base + length pre + 4) refl,
          header_size key size rest hs,
          behind base pre body 8 (base + length pre + 8) refl,
          drop-header,
        )
        (ground arith)

-- A buffer of at most `cap` bytes ends eight bytes or more below the top of the address space.
module _ {C : Type 0} (base cap : ℕ) (room : base + cap + 8 < 2 ^ 32) (cb : Callback C) where
  -- What the bytes behind the last entry make the walker return, wherever they stand.
  abbrev pub Stops : List ℕ → Bool → Type 0
  Stops tail t =
      (pre : List ℕ) (fuel : ℕ) (ctx : C)
      → length (pre ++ tail) ≤ cap
      → walk_from base (pre ++ tail) cb (suc fuel) (base + length pre) ctx ≡ ret t ctx

  pub Stops-nil : Stops [] true
  unfolding walk_from
  Stops-nil pre fuel ctx h = ground (arith, append-nil pre)

  pub Stops-short : (tail : List ℕ) → 0 < length tail → length tail < 8 → Stops tail false
  unfolding walk_from
  Stops-short tail pos short pre fuel ctx h = ground (arith, length-append pre tail)

  -- A size that passes the end of the buffer, and does not wrap.
  pub Stops-overlong :
      (key size : ℕ) (rest : List ℕ)
      → key < 2 ^ 32
      → length rest < size
      → base + cap + size < 2 ^ 32
      → Stops (header key size ++ rest) false
  Stops-overlong key size rest hk long fits pre fuel ctx h =
      let n : length (pre ++ (header key size ++ rest)) ≡ length pre + (8 + length rest) =
        omega (arith, length-append pre (header key size ++ rest), length-header key size rest) in
      ground (arith, walk_round base cb pre key size rest fuel ctx hk (omega arith) (omega arith))

  pub walk_entries :
      (es : List Entry) (pre tail : List ℕ) (t : Bool) (fuel : ℕ) (ctx : C)
      → IsKeyed es
      → length es ≤ fuel
      → length (pre ++ (emit_all es ++ tail)) ≤ cap
      → Stops tail t
      → walk_from base (pre ++ (emit_all es ++ tail)) cb (suc fuel) (base + length pre) ctx
        ≡ ret ((deliver cb es ctx).0 && t) (deliver cb es ctx).1
  walk_entries [] pre tail t fuel ctx k f h stops = stops pre fuel ctx h
  walk_entries (e ∷ es) pre tail t zero ctx k f h stops = absurd (omega arith)
  walk_entries (e ∷ es) pre tail t (suc fuel) ctx k f h stops =
      let size : ℕ = length e.value in
      let more : List ℕ = emit_all es ++ tail in
      let rest : List ℕ = e.value ++ more in
      let split : emit_all (e ∷ es) ++ tail ≡ header e.key size ++ rest = simp append_assoc in
      let h' : length (pre ++ (header e.key size ++ rest)) ≤ cap = rw split at h in
      let n : length (pre ++ (header e.key size ++ rest))
          ≡ length pre + (8 + (size + length more)) =
        omega (
          arith,
          length-append pre (header e.key size ++ rest),
          length-header e.key size rest,
          length-append e.value more,
        ) in
      let called : Bool × C = cb e.key e.value size ctx in
      let pre' : List ℕ = pre ++ emit e in
      let joined : pre' ++ more ≡ pre ++ (header e.key size ++ rest) = simp append_assoc in
      let at : base + length pre' ≡ addr (base + length pre + 8 + size) =
        omega (arith, length-append pre (emit e), length-header e.key size e.value) in
      let ih : walk_from base (pre ++ (header e.key size ++ rest)) cb (suc fuel)
            (addr (base + length pre + 8 + size)) called.1
          ≡ ret ((deliver cb es called.1).0 && t) (deliver cb es called.1).1 =
        rw (← joined, ← at)
          (walk_entries es pre' tail t fuel called.1 k.1 (omega arith) (rw joined h') stops) in
      rw split (
        ground (
          arith,
          take-append e.value more,
          length-append e.value more,
          ih,
          walk_round base cb pre e.key size rest (suc fuel) ctx k.0 (omega arith) (omega arith),
        ))
