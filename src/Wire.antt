-- ===== src/Wire.antt =====
-- firmware/tlv.h and firmware/tlv.c: big-endian words, the entry encoders and the entry walker.
-- A buffer is a list of bytes. An encoder appends at the end of the list, which is where `*pp`
-- points; the caller's capacity is a theorem about the messages (Discovery/Codec/Message).
-- Words are put together from disjoint bytes, so `|` is written `+`.
pub mod Bytes
pub mod Entries
pub mod Laws
pub mod Total
pub mod Visits
use colorlight_i9_abletonlin.Base.{
  ℕ, zero, suc, ◌+◌, ◌-◌, ◌*◌, ◌/◌, ◌%◌, ◌^◌, Bool, true, false, ◌&&◌, not, List, [], ◌∷◌, ◌++◌,
  ltb, leb, ◌==◌, if◌then◌else◌, length, get_or, take, drop,
}

abbrev pub key_tmln : ℕ
key_tmln = 0x746D6C6E

abbrev pub key_sess : ℕ
key_sess = 0x73657373

abbrev pub key_stst : ℕ
key_stst = 0x73747374

abbrev pub key_mep4 : ℕ
key_mep4 = 0x6D657034

abbrev pub key_mep6 : ℕ
key_mep6 = 0x6D657036

abbrev pub key_aep4 : ℕ
key_aep4 = 0x61657034

abbrev pub key_aep6 : ℕ
key_aep6 = 0x61657036

abbrev pub key_ht : ℕ
key_ht = 0x5F5F6874

abbrev pub key_gt : ℕ
key_gt = 0x5F5F6774

abbrev pub key_pgt : ℕ
key_pgt = 0x5F706774

abbrev pub key_pi : ℕ
key_pi = 0x5F5F7069

abbrev pub key_auca : ℕ
key_auca = 0x61756361

abbrev pub key_aucb : ℕ
key_aucb = 0x61756362

abbrev pub key_chid : ℕ
key_chid = 0x63686964

-- `p[i]`; a caller's length test rules the default out.
abbrev pub byte_at : List ℕ → ℕ → ℕ
byte_at p i = get_or p i 0

unfoldable pub be16 : List ℕ → ℕ
be16 p = byte_at p 0 * 2 ^ 8 + byte_at p 1

unfoldable pub be32 : List ℕ → ℕ
be32 p = byte_at p 0 * 2 ^ 24 + byte_at p 1 * 2 ^ 16 + byte_at p 2 * 2 ^ 8 + byte_at p 3

unfoldable pub be64 : List ℕ → ℕ
unfolding be32
be64 p = be32 p * 2 ^ 32 + be32 (drop 4 p)

unfoldable pub put_be16 : ℕ → List ℕ
put_be16 v = v / 2 ^ 8 % 256 ∷ v % 256 ∷ []

unfoldable pub put_be32 : ℕ → List ℕ
put_be32 v = v / 2 ^ 24 % 256 ∷ v / 2 ^ 16 % 256 ∷ v / 2 ^ 8 % 256 ∷ v % 256 ∷ []

unfoldable pub put_be64 : ℕ → List ℕ
unfolding put_be32
put_be64 v = put_be32 (v / 2 ^ 32 % 2 ^ 32) ++ put_be32 (v % 2 ^ 32)

unfoldable pub tlv_emit_header : List ℕ → ℕ → ℕ → List ℕ
tlv_emit_header pp key size = (pp ++ put_be32 key) ++ put_be32 size

unfoldable pub tlv_emit_u8 : List ℕ → ℕ → ℕ → List ℕ
tlv_emit_u8 pp key v = tlv_emit_header pp key 1 ++ (v ∷ [])

unfoldable pub tlv_emit_u32be : List ℕ → ℕ → ℕ → List ℕ
tlv_emit_u32be pp key v = tlv_emit_header pp key 4 ++ put_be32 v

unfoldable pub tlv_emit_u64be : List ℕ → ℕ → ℕ → List ℕ
tlv_emit_u64be pp key v = tlv_emit_header pp key 8 ++ put_be64 v

unfoldable pub tlv_emit_bytes : List ℕ → ℕ → List ℕ → ℕ → List ℕ
tlv_emit_bytes pp key src n = tlv_emit_header pp key n ++ take n src

-- What a walk comes to: the return value (`true` for 0, `false` for -1) with the callback's
-- context, a read outside the buffer, or a loop that is still running when the fuel is spent.
pub data Walk (C : Type 0) : Type 0 where
  ret : Bool → C → Walk C
  fault : Walk C
  running : Walk C

-- A callback gets key, value and size, and returns whether to go on (0) and the context. The
-- value is what the buffer holds from `vp` on, at most `size` bytes.
abbrev pub Callback : Type 0 → Type 0
Callback C = ℕ → List ℕ → ℕ → C → Bool × C

-- An address of the 32-bit machine.
abbrev pub addr : ℕ → ℕ
addr a = a % 2 ^ 32

-- `buf` lies at the address `base`. One unit of fuel is one round of the loop.
module _ {C : Type 0} (base : ℕ) (buf : List ℕ) (cb : Callback C) where
  -- The eight bytes at `p` lie inside the buffer.
  abbrev pub header_inside : ℕ → Bool
  header_inside p = leb base p && leb (p + 8) (base + length buf)

  pub walk_from : ℕ → ℕ → C → Walk C
  walk_from zero p ctx = running
  walk_from (suc fuel) p ctx =
      let end = addr (base + length buf) in
      let key = be32 (drop (p - base) buf) in
      let size = be32 (drop (p + 4 - base) buf) in
      let vp = addr (p + 8) in
      let called = cb key (take size (drop (vp - base) buf)) size ctx in
      let on =
        if called.0 then walk_from fuel (addr (vp + size)) called.1 else ret false called.1 in
      let entry = if ltb end (addr (vp + size)) then ret false ctx else on in
      let round = if header_inside p then entry else fault in
      if leb vp end then round else ret (p == end) ctx

-- Each entry takes eight bytes at least, so `length buf + 1` rounds are enough where no size
-- wraps round the address space.
pub tlv_walk : {C : Type 0} → ℕ → List ℕ → Callback C → C → Walk C
tlv_walk base buf cb ctx = walk_from base buf cb (length buf + 1) base ctx
