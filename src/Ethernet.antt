-- ===== src/Ethernet.antt =====
-- firmware/netif_litex.c: the driver of the Ethernet core, which moves frames between the slots in its
-- memory and the buffer chains of lwIP. What the core does by itself, sending the slot that it is told
-- to and filling others, is not in the repository: an arrival gives what the driver finds then.
pub mod Frames
use colorlight_i9_abletonlin.Base.{
  ℕ, zero, suc, ◌+◌, ◌*◌, ◌%◌, ◌^◌, Bool, List, [], ◌∷◌, ◌++◌, Option, none, some, ltb, ◌==◌,
  if◌then◌else◌, length,
}

abbrev pub ethmac_rx_slots : ℕ
ethmac_rx_slots = 2

abbrev pub ethmac_tx_slots : ℕ
ethmac_tx_slots = 2

abbrev pub ethmac_slot_size : ℕ
ethmac_slot_size = 2048

-- The memory of the slots, by the offset from ETHMAC_BASE.
abbrev pub Memory : Type 0
Memory = ℕ → ℕ

unfoldable pub memcpy : Memory → ℕ → List ℕ → Memory
memcpy ram to [] = ram
memcpy ram to (x ∷ xs) = memcpy (λ i. if i == to then x else ram i) (to + 1) xs

-- The `n` bytes from an offset on.
unfoldable pub read_from : Memory → ℕ → ℕ → List ℕ
read_from ram at zero = []
read_from ram at (suc n) = ram at ∷ read_from ram (at + 1) n

-- The statics, the memory, and the frames that the reader was told to send, the newest first, by slot
-- and length. The counters of lwIP are off (lwipopts.h).
pub record Driver : Type 0 where
  pub s_tx_slot : ℕ
  pub s_rx_slot : ℕ
  pub ram : Memory
  pub started : List (ℕ × ℕ)

pub data Err : Type 0 where
  err_ok : Err
  err_buf : Err

abbrev pub tx_buffer : ℕ → ℕ
tx_buffer slot = ethmac_slot_size * (ethmac_rx_slots + slot)

-- The loop over a chain of buffers, with `len` bytes in the slot already: the length at its end, and
-- `none` where it stops early. What was copied before stays in the memory.
unfoldable pub copy_chain : ℕ → List (List ℕ) → ℕ → Memory → Option ℕ × Memory
copy_chain txbuf [] len ram = (some len, ram)
copy_chain txbuf (q ∷ p) len ram =
    let rest = copy_chain txbuf p (len + length q) (memcpy ram (txbuf + len) q) in
    if ltb ethmac_slot_size (len + length q) then (none, ram) else rest

-- Behind the loop.
abbrev pub transmit : Driver → Option ℕ × Memory → Err × Driver
transmit e (none, ram) = (err_buf, record e { ram = ram })
transmit e (some len, ram) = (
  err_ok,
  record e {
    ram = ram;
    started = (e.s_tx_slot, len) ∷ e.started;
    s_tx_slot = (e.s_tx_slot + 1) % ethmac_tx_slots;
  },
)

-- From the moment at which the reader is ready.
unfoldable pub low_level_output : List (List ℕ) → Driver → Err × Driver
low_level_output p e = transmit e (copy_chain (tx_buffer e.s_tx_slot) p 0 e.ram)

abbrev pub low_level_init : Driver → Driver
low_level_init e = record e { s_tx_slot = 0; s_rx_slot = 0 }

-- A pending frame: its slot and length in the registers, what the memory holds, and the lengths of the
-- buffers that `pbuf_alloc` gives for a length, if any.
pub record Arrival : Type 0 where
  pub slot : ℕ
  pub len : ℕ
  pub ram : Memory
  pub pbuf_alloc : ℕ → Option (List ℕ)

abbrev pub clamp : ℕ → ℕ
clamp len = if ltb ethmac_slot_size len then ethmac_slot_size else len

-- The loop over the buffers of a chain. The offset has 16 bits.
unfoldable pub fill_chain : Memory → ℕ → ℕ → List ℕ → List (List ℕ)
fill_chain ram rxbuf off [] = []
fill_chain ram rxbuf off (n ∷ ns) =
    read_from ram (rxbuf + off) n ∷ fill_chain ram rxbuf ((off + n) % 2 ^ 16) ns

-- What becomes of a frame: its chain, if there is memory.
abbrev pub chained : Arrival → Option (List ℕ) → Option (List (List ℕ))
chained x none = none
chained x (some ns) = some (fill_chain x.ram (ethmac_slot_size * x.slot) 0 ns)

abbrev pub take_frame : Arrival → Option (List (List ℕ))
take_frame x = chained x (x.pbuf_alloc (clamp x.len))

module _ {ℓ} (S : Type ℓ) (input : List (List ℕ) → S → S) (ack : S → S) where
  abbrev pub handed : Option (List (List ℕ)) → S → S
  handed none s = s
  handed (some p) s = input p s

  -- The loop while a frame is pending: its chain goes to lwIP, then the slot is given back.
  unfoldable pub netif_litex_input : List Arrival → S → S
  netif_litex_input [] s = s
  netif_litex_input (x ∷ xs) s = netif_litex_input xs (ack (handed (take_frame x) s))
