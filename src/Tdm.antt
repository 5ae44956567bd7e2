-- ===== src/Tdm.antt =====
-- firmware/tdm.c: the registers of the TDM ports, by port and channel. What the codec delivers, the
-- received samples and the frame counters, is a parameter. A negative port or channel is a
-- pattern of 2 ^ 31 or more, out of range like the others.
pub mod Frames
use colorlight_i9_abletonlin.Base.{
  ℕ, Bool, false, ◌&&◌, not, List, ltb, leb, ◌==◌, if◌then◌else◌, get_or, set, replicate,
}
use colorlight_i9_abletonlin.Config.{num_tdm_ports, tdm_channels_per_port}

-- `s_last_count`, and the registers that are written, the samples to send by port and channel.
pub record Tdm : Type 0 where
  pub ctrl : List ℕ
  pub tx : List (List ℕ)
  pub s_last_count : List ℕ

abbrev pub tdm_init : Tdm → Tdm
tdm_init t = record t { ctrl = replicate num_tdm_ports 1 }

abbrev in_range : ℕ → ℕ → Bool
in_range port channel = ltb port num_tdm_ports && ltb channel tdm_channels_per_port

unfoldable pub tdm_read_rx : (ℕ → ℕ → ℕ) → ℕ → ℕ → ℕ
tdm_read_rx rx port channel = if in_range port channel then rx port channel else 0

unfoldable pub tdm_write_tx : ℕ → ℕ → ℕ → Tdm → Tdm
tdm_write_tx port channel sample t =
    if in_range port channel
    then record t { tx = set t.tx port (set (get_or t.tx port (replicate 0 0)) channel sample) }
    else t

unfoldable pub tdm_frame_count : (ℕ → ℕ) → ℕ → ℕ
tdm_frame_count frames port = if ltb port num_tdm_ports then frames port else 0

unfoldable pub tdm_frame_pending : (ℕ → ℕ) → ℕ → Tdm → Bool
unfolding tdm_frame_count
tdm_frame_pending frames port t =
    if leb num_tdm_ports port
    then false
    else not (tdm_frame_count frames port == get_or t.s_last_count port 0)

unfoldable pub tdm_clear_frame_pending : (ℕ → ℕ) → ℕ → Tdm → Tdm
unfolding tdm_frame_count
tdm_clear_frame_pending frames port t =
    if leb num_tdm_ports port
    then t
    else record t { s_last_count = set t.s_last_count port (tdm_frame_count frames port) }
