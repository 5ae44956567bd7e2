-- ===== src/Audio/Jitter.antt =====
-- The jitter ring of a subscription: `handle_audio_buffer` writes to it and
-- `link_audio_on_tdm_frame` reads from it.
pub mod Fifo
use colorlight_i9_abletonlin.Base.{
  ℕ, ◌+◌, ◌-◌, ◌%◌, ◌^◌, List, [], ◌∷◌, Option, none, some, ltb, ◌==◌, if◌then◌else◌, get_or, set,
}
use colorlight_i9_abletonlin.Audio.{jbuf_len, Sub}

-- `jbuf_w - jbuf_r` on `uint32_t`.
abbrev pub queued : Sub → ℕ
queued s = (s.jbuf_w + 2 ^ 32 - s.jbuf_r) % 2 ^ 32

-- One round of the loop over the frames of a packet.
unfoldable pub push_sample : ℕ → Sub → Sub
push_sample v s =
    let s' = record s {
      jbuf = set s.jbuf (s.jbuf_w % jbuf_len) v;
      jbuf_w = (s.jbuf_w + 1) % 2 ^ 32;
    } in
    if ltb jbuf_len (queued s')
    then record s' { jbuf_r = (s'.jbuf_w + 2 ^ 32 - jbuf_len) % 2 ^ 32 }
    else s'

unfoldable pub push_samples : List ℕ → Sub → Sub
push_samples [] s = s
push_samples (v ∷ vs) s = push_samples vs (push_sample v s)

-- The sample that the port gets in this frame, if there is one.
unfoldable pub drain : Sub → Option ℕ × Sub
drain s = if s.jbuf_r == s.jbuf_w then (none, s) else (
  some (get_or s.jbuf (s.jbuf_r % jbuf_len) 0),
  record s { jbuf_r = (s.jbuf_r + 1) % 2 ^ 32 },
)
