-- ===== src/Wire/Laws.antt =====
-- What firmware/tlv.c promises: the walker hands over the entries that the encoders wrote.
use colorlight_i9_abletonlin.Base.{
  ℕ, zero, suc, ◌+◌, ◌-◌, ◌^◌, ◌≤◌, ◌<◌, ◌≡◌, refl, ◌∙◌, Bool, true, false, ◌&&◌, List, [], ◌∷◌,
  ◌++◌, append_assoc, append-nil, arith, length, length-append, take, take-append,
}
use colorlight_i9_abletonlin.Wire.{
  ret, running, Callback, addr, walk_from, tlv_walk, put_be32, put_be64, tlv_emit_header,
  tlv_emit_u8, tlv_emit_u32be, tlv_emit_u64be, tlv_emit_bytes,
}
use colorlight_i9_abletonlin.Wire.Bytes.{length-put_be32, length-put_be64}
use colorlight_i9_abletonlin.Wire.Entries.{
  Entry, header, emit, emit_all, IsKeyed, deliver, walk_round, Stops, Stops-nil, Stops-short,
  Stops-overlong, walk_entries, length-header,
}

take_all : (xs : List ℕ) → take (length xs) xs ≡ xs
take_all xs = rw append-nil at (take-append xs [])

pub tlv_emit_header-append :
    (pp : List ℕ) (key size : ℕ) → tlv_emit_header pp key size ≡ pp ++ header key size
unfolding tlv_emit_header
tlv_emit_header-append pp key size = append_assoc pp (put_be32 key) (put_be32 size)

pub tlv_emit_u64be-append :
    (pp : List ℕ) (key v : ℕ)
    → tlv_emit_u64be pp key v ≡ pp ++ emit (record { key = key; value = put_be64 v })
unfolding tlv_emit_u64be
tlv_emit_u64be-append pp key v = simp (tlv_emit_header-append, length-put_be64, append_assoc)

pub tlv_emit_bytes-append :
    (pp : List ℕ) (key : ℕ) (src : List ℕ)
    → tlv_emit_bytes pp key src (length src) ≡ pp ++ emit (record { key = key; value = src })
unfolding tlv_emit_bytes
tlv_emit_bytes-append pp key src = simp (tlv_emit_header-append, take_all, append_assoc)

-- Every encoder appends one entry, the key, the size and the value, and leaves what is before it.
pub tlv_emit_lem :
    (pp : List ℕ) (key v : ℕ) (src : List ℕ)
    → (tlv_emit_u8 pp key v ≡ pp ++ emit (record { key = key; value = v ∷ [] }))
      × (tlv_emit_u32be pp key v ≡ pp ++ emit (record { key = key; value = put_be32 v }))
      × (tlv_emit_u64be pp key v ≡ pp ++ emit (record { key = key; value = put_be64 v }))
      × (tlv_emit_bytes pp key src (length src) ≡ pp ++ emit (record { key = key; value = src }))
unfolding tlv_emit_u8 tlv_emit_u32be
tlv_emit_lem pp key v src = (
  simp (tlv_emit_header-append, append_assoc),
  simp (tlv_emit_header-append, length-put_be32, append_assoc),
  tlv_emit_u64be-append pp key v,
  tlv_emit_bytes-append pp key src,
)

entries-le : (es : List Entry) (tail : List ℕ) → length es ≤ length (emit_all es ++ tail)
entries-le [] tail = omega arith
entries-le (e ∷ es) tail = rw (append_assoc (emit e) (emit_all es) tail) (
    omega (
      arith,
      length-append (emit e) (emit_all es ++ tail),
      length-header e.key (length e.value) e.value,
      entries-le es tail,
    ))

module _ {C : Type 0} (base : ℕ) (cb : Callback C) (ctx : C) where
  walk_with_tail :
      (es : List Entry) (tail : List ℕ) (t : Bool)
      → IsKeyed es
      → (room : base + length (emit_all es ++ tail) + 8 < 2 ^ 32)
      → Stops base (length (emit_all es ++ tail)) room cb tail t
      → tlv_walk base (emit_all es ++ tail) cb ctx
        ≡ ret ((deliver cb es ctx).0 && t) (deliver cb es ctx).1
  unfolding tlv_walk
  walk_with_tail es tail t k room stops =
      let n : ℕ = length (emit_all es ++ tail) in
      let fuel : n + 1 ≡ suc n = omega arith in
      let start : base + 0 ≡ base = omega arith in
      let walked : walk_from base (emit_all es ++ tail) cb (suc n) (base + 0) ctx
          ≡ ret ((deliver cb es ctx).0 && t) (deliver cb es ctx).1 =
        walk_entries base n room cb es [] tail t n ctx k (entries-le es tail) (omega arith) stops in
      rw fuel (rw start at walked)

  -- On a buffer of entries and nothing else the walker calls back with each entry in order, until
  -- a callback refuses one, and returns 0 exactly when none did. The keys fit 32 bits and the
  -- buffer ends eight bytes or more below the top of the address space.
  pub tlv_walk-emit_all :
      (es : List Entry)
      → IsKeyed es
      → base + length (emit_all es) + 8 < 2 ^ 32
      → tlv_walk base (emit_all es) cb ctx ≡ ret (deliver cb es ctx).0 (deliver cb es ctx).1
  tlv_walk-emit_all es k room = ground (
    arith,
    append-nil (emit_all es),
    walk_with_tail es [] true k (rw append-nil room) (Stops-nil base _ _ cb),
  )

  -- A tail of one to seven bytes, or a last entry whose size passes the end without wrapping round
  -- the address space, makes the walker return -1 after it has delivered the entries before it.
  pub tlv_walk_malformed :
      (es : List Entry) (short : List ℕ) (key size : ℕ) (rest : List ℕ)
      → IsKeyed es
      → key < 2 ^ 32
      → 0 < length short
      → length short < 8
      → base + length (emit_all es ++ short) + 8 < 2 ^ 32
      → length rest < size
      → base + length (emit_all es ++ (header key size ++ rest)) + 8 + size < 2 ^ 32
      → (tlv_walk base (emit_all es ++ short) cb ctx ≡ ret false (deliver cb es ctx).1)
        × (tlv_walk base (emit_all es ++ (header key size ++ rest)) cb ctx
            ≡ ret false (deliver cb es ctx).1)
  tlv_walk_malformed es short key size rest k hk pos lt room long fits = (
    ground (arith, walk_with_tail es short false k room (Stops-short base _ room cb short pos lt)),
    ground (
      arith,
      walk_with_tail es (header key size ++ rest) false k (omega arith)
          (Stops-overlong base _ (omega arith) cb key size rest hk long (omega arith)),
    ),
  )

  -- An entry whose size is 2 ^ 32 - 8, with a key that the callback passes over, sends the pointer
  -- back to itself on a machine with 32-bit addresses: the loop runs on whatever fuel it is given.
  pub walk_hangs :
      (key size : ℕ) (rest : List ℕ)
      → key < 2 ^ 32
      → size ≡ 2 ^ 32 - 8
      → base + length (header key size ++ rest) + 8 < 2 ^ 32
      → cb key (take size rest) size ctx ≡ (true, ctx)
      → (fuel : ℕ) → walk_from base (header key size ++ rest) cb fuel base ctx ≡ running
  walk_hangs key size rest hk hs room skips zero = unfold walk_from in refl
  walk_hangs key size rest hk hs room skips (suc fuel) =
      let start : base + 0 ≡ base = omega arith in
      let back : addr (base + 0 + 8 + size) ≡ base = omega (arith, length-header key size rest) in
      let round : walk_from base (header key size ++ rest) cb (suc fuel) (base + 0) ctx
          ≡ walk_from base (header key size ++ rest) cb fuel base ctx =
        ground
          (arith, walk_round base cb [] key size rest fuel ctx hk (omega arith) (omega arith)) in
      rw start at round ∙ walk_hangs key size rest hk hs room skips fuel
