-- ===== src/Ethernet/Frames.antt =====
-- The driver of firmware/netif_litex.c: what is sent lies whole in its slot and nothing else is written,
-- and what comes in is handed on as it was sent.
use colorlight_i9_abletonlin.Base.{
  ℕ, zero, suc, ◌+◌, ◌*◌, ◌%◌, ◌^◌, ◌≤◌, ◌<◌, ◌≡◌, ◌⊎◌, inl, inr, refl, ap, ap₂, ◌∙◌, false, List,
  [], ◌∷◌, ◌++◌, Option, none, some, ltb, ltb→le, ltb→lt, le→ltb, ◌==◌, ==_refl, ==→eq, Bool-cases,
  if◌then◌else◌, length, length-append, joined, arith,
}
use colorlight_i9_abletonlin.Ethernet.{
  ethmac_slot_size, ethmac_tx_slots, tx_buffer, Memory, memcpy, read_from, Driver, Err, err_ok,
  err_buf, copy_chain, transmit, low_level_output, Arrival, fill_chain, take_frame,
}

memcpy-append :
    (ram : Memory) (to : ℕ) (xs ys : List ℕ)
    → memcpy ram to (xs ++ ys) ≡ memcpy (memcpy ram to xs) (to + length xs) ys
unfolding memcpy
memcpy-append ram to [] ys = ap (λ (n : ℕ). memcpy ram n ys) (omega arith)
memcpy-append ram to (x ∷ xs) ys =
    memcpy-append (λ i. if i == to then x else ram i) (to + 1) xs ys
    ∙ ap (λ (n : ℕ). memcpy (memcpy (λ i. if i == to then x else ram i) (to + 1) xs) n ys)
        (omega arith)

memcpy_outside :
    (ram : Memory) (to : ℕ) (xs : List ℕ) (i : ℕ)
    → (i < to) ⊎ (to + length xs ≤ i)
    → memcpy ram to xs i ≡ ram i
unfolding memcpy
memcpy_outside ram to [] i h = refl
memcpy_outside ram to (x ∷ xs) i h =
    memcpy_outside (λ i. if i == to then x else ram i) (to + 1) xs i (omega arith)
    ∙ elim (Bool-cases (i == to)) [
      | inl hit ↦ let same_place = ==→eq i to hit in absurd (omega arith)
      | inr miss ↦ rw miss refl
    ]

copy_chain-joined :
    (txbuf : ℕ) (p : List (List ℕ)) (len : ℕ) (ram : Memory)
    → len + length (joined p) ≤ ethmac_slot_size
    → copy_chain txbuf p len ram
      ≡ (some (len + length (joined p)), memcpy ram (txbuf + len) (joined p))
unfolding copy_chain memcpy
copy_chain-joined txbuf [] len ram h = ap (λ (n : ℕ). (some n, ram)) (omega arith)
copy_chain-joined txbuf (q ∷ p) len ram h =
    let sizes = length-append q (joined p) in
    let fits = le→ltb ethmac_slot_size (len + length q) (omega arith) in
    let rest =
      copy_chain-joined txbuf p (len + length q) (memcpy ram (txbuf + len) q) (omega arith) in
    let moved : memcpy ram (txbuf + len) (q ++ joined p)
        ≡ memcpy (memcpy ram (txbuf + len) q) (txbuf + len + length q) (joined p) =
      memcpy-append ram (txbuf + len) q (joined p) in
    let sum : len + length q + length (joined p) ≡ len + (length q + length (joined p)) =
      omega arith in
    let place : txbuf + (len + length q) ≡ txbuf + len + length q = omega arith in
    rw (fits, rest, moved, sizes, sum, place) refl

copy_chain_outside :
    (txbuf : ℕ) (p : List (List ℕ)) (len : ℕ) (ram : Memory) (i : ℕ)
    → len ≤ ethmac_slot_size
    → (i < txbuf) ⊎ (txbuf + ethmac_slot_size ≤ i)
    → (copy_chain txbuf p len ram).1 i ≡ ram i
unfolding copy_chain
copy_chain_outside txbuf [] len ram i h o = refl
copy_chain_outside txbuf (q ∷ p) len ram i h o =
    elim (Bool-cases (ltb ethmac_slot_size (len + length q))) [
      | inl long ↦ rw long refl
      | inr fits ↦
          let room = ltb→le ethmac_slot_size (len + length q) fits in
          rw fits (
            copy_chain_outside txbuf p (len + length q) (memcpy ram (txbuf + len) q) i room o
            ∙ memcpy_outside ram (txbuf + len) q i (omega arith))
    ]

copy_chain_long :
    (txbuf : ℕ) (p : List (List ℕ)) (len : ℕ) (ram : Memory)
    → len ≤ ethmac_slot_size
    → ethmac_slot_size < len + length (joined p)
    → (copy_chain txbuf p len ram).0 ≡ none
unfolding copy_chain
copy_chain_long txbuf [] len ram h l = absurd (omega arith)
copy_chain_long txbuf (q ∷ p) len ram h l =
    let sizes = length-append q (joined p) in
    elim (Bool-cases (ltb ethmac_slot_size (len + length q))) [
      | inl long ↦ rw long refl
      | inr fits ↦ rw fits (
          copy_chain_long txbuf p (len + length q) (memcpy ram (txbuf + len) q)
            (ltb→le ethmac_slot_size (len + length q) fits) (omega arith))
    ]

read_from-memcpy :
    (ram : Memory) (at : ℕ) (xs : List ℕ) → read_from (memcpy ram at xs) at (length xs) ≡ xs
unfolding memcpy read_from
read_from-memcpy ram at [] = refl
read_from-memcpy ram at (x ∷ xs) =
    let ram' : Memory = λ i. if i == at then x else ram i in
    let hit = ==_refl at in
    let first : memcpy ram' (at + 1) xs at ≡ x =
      memcpy_outside ram' (at + 1) xs at (omega arith) ∙ rw hit refl in
    ap₂ (λ (a : ℕ) (b : List ℕ). a ∷ b) first (read_from-memcpy ram' (at + 1) xs)

read_from-append :
    (ram : Memory) (at m n : ℕ)
    → read_from ram at (m + n) ≡ read_from ram at m ++ read_from ram (at + m) n
unfolding read_from
read_from-append ram at zero n =
    let here : at + 0 ≡ at = omega arith in
    let count : 0 + n ≡ n = omega arith in rw (here, count) refl
read_from-append ram at (suc m) n =
    let count : suc m + n ≡ suc (m + n) = omega arith in
    let place : at + suc m ≡ at + 1 + m = omega arith in
    rw (count, place) (ap (λ (b : List ℕ). ram at ∷ b) (read_from-append ram (at + 1) m n))

-- The same bytes at two places.
read_from_same :
    (ram ram' : Memory) (at at' n : ℕ)
    → ((j : ℕ) → j < n → ram (at + j) ≡ ram' (at' + j))
    → read_from ram at n ≡ read_from ram' at' n
unfolding read_from
read_from_same ram ram' at at' zero h = refl
read_from_same ram ram' at at' (suc n) h =
    let here : at + 0 ≡ at = omega arith in
    let here' : at' + 0 ≡ at' = omega arith in
    ap₂ (λ (a : ℕ) (b : List ℕ). a ∷ b) (rw (here, here') at (h 0 (omega arith)))
      (read_from_same ram ram' (at + 1) (at' + 1) n (λ j l.
        let next : at + 1 + j ≡ at + suc j = omega arith in
        let next' : at' + 1 + j ≡ at' + suc j = omega arith in
        rw (next, next') (h (suc j) (omega arith))))

-- The bytes that a chain with buffers of these lengths has room for.
abbrev pub total : List ℕ → ℕ
total [] = 0
total (n ∷ ns) = n + total ns

fill_chain-joined :
    (ram : Memory) (rxbuf off : ℕ) (ns : List ℕ)
    → off + total ns < 2 ^ 16
    → joined (fill_chain ram rxbuf off ns) ≡ read_from ram (rxbuf + off) (total ns)
unfolding fill_chain read_from
fill_chain-joined ram rxbuf off [] h = refl
fill_chain-joined ram rxbuf off (n ∷ ns) h =
    let small : (off + n) % 2 ^ 16 ≡ off + n = ground arith in
    let rest = fill_chain-joined ram rxbuf (off + n) ns (omega arith) in
    let whole : read_from ram (rxbuf + off) (n + total ns) ≡ _ =
      read_from-append ram (rxbuf + off) n (total ns) in
    let place : rxbuf + (off + n) ≡ rxbuf + off + n = omega arith in
    rw (small, rest, whole, place) refl

-- What becomes of a chain that fits into a slot: it lies there whole, and the reader is told to send it.
pub record IsSent (p : List (List ℕ)) (e : Driver) (r : Err × Driver) : Type 0 where
  pub fits : length (joined p) ≤ ethmac_slot_size
  pub code : r.0 ≡ err_ok
  pub bytes : read_from r.1.ram (tx_buffer e.s_tx_slot) (length (joined p)) ≡ joined p
  pub started : r.1.started ≡ (e.s_tx_slot, length (joined p)) ∷ e.started
  pub slot : r.1.s_tx_slot ≡ (e.s_tx_slot + 1) % ethmac_tx_slots

-- What becomes of one that does not: nothing is sent.
pub record IsRefused (p : List (List ℕ)) (e : Driver) (r : Err × Driver) : Type 0 where
  pub long : ethmac_slot_size < length (joined p)
  pub code : r.0 ≡ err_buf
  pub started : r.1.started ≡ e.started
  pub slot : r.1.s_tx_slot ≡ e.s_tx_slot

transmit_refused :
    (e : Driver) (o : Option ℕ) (ram : Memory)
    → o ≡ none
    → transmit e (o, ram) ≡ (err_buf, record e { ram = ram })
transmit_refused e o ram h = rw h refl

-- `low_level_output` sends a chain of at most 2048 bytes whole, from the slot whose turn it is, and turns
-- to the other slot; a longer one it refuses with ERR_BUF, and sends nothing.
pub low_level_output_lem :
    (p : List (List ℕ)) (e : Driver)
    → IsSent p e (low_level_output p e) ⊎ IsRefused p e (low_level_output p e)
unfolding low_level_output
low_level_output_lem p e = elim (Bool-cases (ltb ethmac_slot_size (length (joined p)))) [
  | inl long ↦
      let large = ltb→lt ethmac_slot_size (length (joined p)) long in
      let r = copy_chain (tx_buffer e.s_tx_slot) p 0 e.ram in
      let none_left =
        copy_chain_long (tx_buffer e.s_tx_slot) p 0 e.ram (omega arith) (omega arith) in
      let refused = transmit_refused e r.0 r.1 none_left in
      inr (record {
        long = large;
        code = ap (λ (x : Err × Driver). x.0) refused;
        started = ap (λ (x : Err × Driver). x.1.started) refused;
        slot = ap (λ (x : Err × Driver). x.1.s_tx_slot) refused;
      })
  | inr fits ↦
      let small = ltb→le ethmac_slot_size (length (joined p)) fits in
      let done = copy_chain-joined (tx_buffer e.s_tx_slot) p 0 e.ram (omega arith) in
      let here : tx_buffer e.s_tx_slot + 0 ≡ tx_buffer e.s_tx_slot = omega arith in
      let count : 0 + length (joined p) ≡ length (joined p) = omega arith in
      rw (done, here, count)
        (inl (record {
          fits = small;
          code = refl;
          bytes = read_from-memcpy e.ram (tx_buffer e.s_tx_slot) (joined p);
          started = refl;
          slot = refl;
        }))
]

transmit-ram : (e : Driver) (o : Option ℕ) (ram : Memory) → (transmit e (o, ram)).1.ram ≡ ram
transmit-ram e none ram = refl
transmit-ram e (some len) ram = refl

-- Whatever the chain, `low_level_output` writes no byte outside the slot whose turn it is.
pub low_level_output_outside :
    (p : List (List ℕ)) (e : Driver) (i : ℕ)
    → (i < tx_buffer e.s_tx_slot) ⊎ (tx_buffer e.s_tx_slot + ethmac_slot_size ≤ i)
    → (low_level_output p e).1.ram i ≡ e.ram i
unfolding low_level_output
low_level_output_outside p e i o =
    let r = copy_chain (tx_buffer e.s_tx_slot) p 0 e.ram in
    ap (λ (ram : Memory). ram i) (transmit-ram e r.0 r.1)
    ∙ copy_chain_outside (tx_buffer e.s_tx_slot) p 0 e.ram i (omega arith) o

-- The bytes of a chain, and none where there is no chain.
abbrev pub contents : Option (List (List ℕ)) → Option (List ℕ)
contents none = none
contents (some p) = some (joined p)

-- A frame that one board sends from a chain that fits into a slot arrives at another as the same bytes,
-- however the two chains are cut: if the core there shows the length and the bytes of the slot that was
-- sent, in a slot of its own, and `pbuf_alloc` has buffers of that length in total.
pub take_frame-low_level_output :
    (p : List (List ℕ)) (e : Driver) (x : Arrival) (ns : List ℕ)
    → length (joined p) ≤ ethmac_slot_size
    → x.len ≡ length (joined p)
    → ((j : ℕ)
        → j < x.len
        → x.ram (ethmac_slot_size * x.slot + j)
          ≡ (low_level_output p e).1.ram (tx_buffer e.s_tx_slot + j))
    → x.pbuf_alloc x.len ≡ some ns
    → total ns ≡ x.len
    → contents (take_frame x) ≡ some (joined p)
take_frame-low_level_output p e x ns small size wire pool whole =
    let fits : ltb ethmac_slot_size x.len ≡ false = le→ltb ethmac_slot_size x.len (omega arith) in
    let at = ethmac_slot_size * x.slot in
    let here : at + 0 ≡ at = omega arith in
    let filled = fill_chain-joined x.ram at 0 ns (omega arith) in
    let out = (low_level_output p e).1.ram in
    let moved = read_from_same x.ram out at (tx_buffer e.s_tx_slot) x.len wire in
    let sent : read_from out (tx_buffer e.s_tx_slot) (length (joined p)) ≡ joined p =
      elim (low_level_output_lem p e) [
        | inl s ↦ s.bytes
        | inr r ↦ let l = r.long in absurd (omega arith)
      ] in
    rw (fits, pool)
      (ap (λ (b : List ℕ). some b) (rw (here, whole) at filled ∙ moved ∙ rw size sent))
