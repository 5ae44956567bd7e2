-- ===== src/Audio/Sender/Packet.antt =====
-- What the decoder of firmware/link_audio.c makes of a packet of its own encoder.
use colorlight_i9_abletonlin.Base.{
  Option, none, Bool, not, if◌then◌else◌, get_or, set, ℕ, ◌+◌, ◌*◌, ◌%◌, ◌^◌, ◌<◌, ◌≡◌, List, ◌∷◌,
  ◌++◌, some, length, All, take, take-append,
}
use colorlight_i9_abletonlin.Config.{tdm_fs_hz}
use colorlight_i9_abletonlin.Types.{LinkId}
use colorlight_i9_abletonlin.Wire.{put_be16, put_be32, put_be64}
use colorlight_i9_abletonlin.Audio.{Sub, zero_sub, frames_per_pkt}
use colorlight_i9_abletonlin.Audio.Jitter.Fifo.{IsRing, contents, latest}
use colorlight_i9_abletonlin.Audio.Packets.{with_sub, is_subscribed, take_frames}
use colorlight_i9_abletonlin.Audio.Sender.{put_samples}

-- A sample of 16 bits.
abbrev pub IsSample : ℕ → Type 0
IsSample v = v < 2 ^ 16

-- What a packet leaves of a subscription besides the ring.
abbrev settings : Sub → Bool × LinkId × LinkId × ℕ × ℕ × ℕ × ℕ × ℕ
settings s = (
  s.in_use, s.channel_id, s.source_peer, s.source_addr, s.source_port, s.tdm_port, s.tdm_channel,
  s.next_request_us,
)

abbrev SameRest : Sub → Sub → Type 0
SameRest s' s =
    (settings s' ≡ settings s)
    × (s'.last_count ≡ s.last_count)
    × (s'.num_chan_remote ≡ s.num_chan_remote)

-- A subscription after a packet of these samples: the last 1024 of those that it had and the packet's.
pub record Fed (samples : List ℕ) (s s' : Sub) : Type 0 where
  pub ring : IsRing s'
  pub heard : contents s' ≡ latest (contents s ++ samples)
  pub kept : settings s' ≡ settings s
  pub channels : s'.num_chan_remote ≡ 1
  pub counted : s'.last_count ≡ (s.last_count + 1) % 2 ^ 64

-- The table after the packet, by the slot of the first subscription to the channel.
abbrev pub Delivered : List ℕ → List Sub → Option ℕ → List Sub → Type 0
Delivered samples subs none subs' = subs' ≡ subs
Delivered samples subs (some i) subs' =
    (s' : Sub) × (subs' ≡ set subs i s') × Fed samples (get_or subs i zero_sub) s'

module _ (channel_id session : LinkId) (count beats bp : ℕ) (samples : List ℕ)
    (cid_size : length channel_id ≡ 8) (session_size : length session ≡ 8)
    (frames : length samples ≡ frames_per_pkt) (words : All IsSample samples) where
  -- What is behind the chunk header.
  tail : List ℕ
  tail = 1 ∷ (put_be32 tdm_fs_hz ++ (1 ∷ (put_be16 (frames_per_pkt * 2) ++ put_samples samples)))

  -- What is behind the ids.
  chunk : List ℕ
  chunk =
      put_be32 1
      ++ (put_be64 count ++ (put_be16 frames_per_pkt ++ (put_be64 beats ++ (put_be64 bp ++ tail))))

  front : (xs rest : List ℕ) (n : ℕ) → length xs ≡ n → take n (xs ++ rest) ≡ xs
  front xs rest n e = rw (← e) (take-append xs rest)

  -- The table that the packet leaves.
  left : List Sub → List Sub
  left subs =
      if not (is_subscribed channel_id subs)
      then subs
      else with_sub channel_id (take_frames 1 samples) subs
