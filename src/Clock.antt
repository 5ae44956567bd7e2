-- ===== src/Clock.antt =====
-- firmware/ghost_time.c over the registers of litex_soc/ghost_time.py. The 64-bit counter runs by
-- itself: `counter n` is its value at the n-th register access since boot. The gateware takes a
-- snapshot in every cycle, so two reads of the halves see two values of the counter.
pub mod Laws
use colorlight_i9_abletonlin.Base.{ℕ, ◌+◌, ◌*◌, ◌/◌, ◌%◌, ◌^◌}

pub record GhostTime : Type 0 where
  pub cycle : ℕ
  pub inter_lo : ℕ
  pub inter_hi : ℕ

abbrev pub access : GhostTime → GhostTime
access g = record g { cycle = g.cycle + 1 }

-- The intercept register as one 64-bit pattern.
abbrev pub intercept : GhostTime → ℕ
intercept g = g.inter_hi * 2 ^ 32 + g.inter_lo

module _ (counter : ℕ → ℕ) where
  abbrev ghost_counter : GhostTime → ℕ
  ghost_counter g = (counter g.cycle + intercept g) % 2 ^ 64

  unfoldable pub host_time_us : GhostTime → ℕ × GhostTime
  host_time_us g =
      let lo = counter g.cycle % 2 ^ 32 in
      let g' = access g in let hi = counter g'.cycle / 2 ^ 32 in (hi * 2 ^ 32 + lo, access g')

  pub ghost_time_us : GhostTime → ℕ × GhostTime
  ghost_time_us g =
      let g' = access g in
      let lo = ghost_counter g' % 2 ^ 32 in
      let g'' = access g' in let hi = ghost_counter g'' / 2 ^ 32 in (hi * 2 ^ 32 + lo, access g'')

pub ghost_time_set_intercept : ℕ → GhostTime → GhostTime
ghost_time_set_intercept v g = record (access (access g)) {
  inter_lo = v % 2 ^ 32;
  inter_hi = v / 2 ^ 32 % 2 ^ 32;
}

pub ghost_time_get_intercept : GhostTime → ℕ × GhostTime
ghost_time_get_intercept g = (g.inter_hi * 2 ^ 32 + g.inter_lo, access (access g))
