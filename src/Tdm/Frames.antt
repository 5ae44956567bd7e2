-- ===== src/Tdm/Frames.antt =====
-- The frame flag that firmware/tdm.c derives from the counters.
use colorlight_i9_abletonlin.Base.{
  ℕ, ◌≡◌, ◌<◌, arith, Bool-cases, inl, inr, ◌==◌, not, if◌then◌else◌, length, get_or-set_self,
  get_or-set_ne,
}
use colorlight_i9_abletonlin.Config.{num_tdm_ports}
use colorlight_i9_abletonlin.Tdm.{Tdm, tdm_frame_count, tdm_frame_pending, tdm_clear_frame_pending}

-- Behind the clearing of a port that exists, that port is pending once its counter differs from
-- what it was at the clearing, and every other port is pending exactly as before.
pub tdm_clear_frame_pending_lem :
    (frames frames' : ℕ → ℕ) (port other : ℕ) (t : Tdm)
    → length t.s_last_count ≡ num_tdm_ports
    → port < num_tdm_ports
    → tdm_frame_pending frames' other (tdm_clear_frame_pending frames port t) ≡ (
        if other == port
        then not (frames' port == frames port)
        else tdm_frame_pending frames' other t)
unfolding tdm_frame_pending tdm_clear_frame_pending tdm_frame_count
tdm_clear_frame_pending_lem frames frames' port other t size h = elim (Bool-cases (other == port)) [
  | inl eq ↦
      let e : other ≡ port = ground arith in
      rw (eq, e) (ground (arith, get_or-set_self t.s_last_count port (frames port) 0))
  | inr ne ↦ rw ne (ground (arith, get_or-set_ne t.s_last_count port other (frames port) 0))
]
