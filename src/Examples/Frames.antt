-- ===== src/Examples/Frames.antt =====
-- Frames of the Ethernet driver at small concrete chains.
use colorlight_i9_abletonlin.Base.{ℕ, ◌+◌, ◌≡◌, ◌⊎◌, inl, refl, ap, arith, List, [], ◌∷◌, some}
use colorlight_i9_abletonlin.Ethernet.{Driver, Arrival, tx_buffer, low_level_output, take_frame}
use colorlight_i9_abletonlin.Ethernet.Frames.{
  IsSent, IsRefused, contents, low_level_output_lem, low_level_output_outside,
  take_frame-low_level_output,
}

abbrev chain : List (List ℕ)
chain = (1 ∷ 2 ∷ []) ∷ (3 ∷ []) ∷ []

abbrev driver : Driver
driver = record { s_tx_slot = 1; s_rx_slot = 0; ram = λ i. 0; started = [] }

-- The other board finds the frame in its first slot, and gets two buffers for it.
abbrev arrival : Arrival
arrival = record {
  slot = 0;
  len = 3;
  ram = λ i. (low_level_output chain driver).1.ram (tx_buffer 1 + i);
  pbuf_alloc = λ n. some (1 ∷ 2 ∷ []);
}

low_level_output_lem_example :
    IsSent chain driver (low_level_output chain driver)
    ⊎ IsRefused chain driver (low_level_output chain driver)
low_level_output_lem_example = low_level_output_lem chain driver

low_level_output_outside_example : (low_level_output chain driver).1.ram 5 ≡ 0
low_level_output_outside_example = low_level_output_outside chain driver 5 (inl (omega arith))

take_frame-low_level_output_example : contents (take_frame arrival) ≡ some (1 ∷ 2 ∷ 3 ∷ [])
take_frame-low_level_output_example =
    take_frame-low_level_output chain driver arrival (1 ∷ 2 ∷ []) (omega arith) refl
      (λ j l. ap (λ (k : ℕ). (low_level_output chain driver).1.ram (6144 + k)) (omega arith)) refl
      refl
