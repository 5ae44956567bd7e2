-- ===== src/Audio/Sender.antt =====
-- firmware/link_audio.c: `send_audio_buffer_for`, the packet that a channel sends to each subscriber.
pub mod Packet
use colorlight_i9_abletonlin.Base.{
  ℕ, zero, suc, ◌+◌, ◌*◌, ◌/◌, ◌%◌, ◌^◌, List, [], ◌∷◌, ◌++◌, ◌==◌, if◌then◌else◌, get_or, take,
}
use colorlight_i9_abletonlin.Base.Int64.{sub64}
use colorlight_i9_abletonlin.Config.{discovery_port, tdm_fs_hz}
use colorlight_i9_abletonlin.Types.{LinkId}
use colorlight_i9_abletonlin.Doubles.{Doubles}
use colorlight_i9_abletonlin.Device.{
  Device, Env, M, ◌>>=◌, ◌>>◌, get, pure, send, v4_unicast, ghost_time_us,
}
use colorlight_i9_abletonlin.Wire.{put_be16, put_be32, put_be64}
use colorlight_i9_abletonlin.Discovery.Edits.{beats_at}
use colorlight_i9_abletonlin.Audio.{Local, frames_per_pkt}
use colorlight_i9_abletonlin.Audio.Catalog.{encode_audio_header}

abbrev pub put_samples : List ℕ → List ℕ
put_samples [] = []
put_samples (v ∷ vs) = put_be16 v ++ put_samples vs

-- The body: the ids, one chunk header, and the samples, one channel of 16 bits.
unfoldable pub encode_audio_body : LinkId → LinkId → ℕ → ℕ → ℕ → List ℕ → List ℕ
encode_audio_body channel_id session count beats_first bp samples =
    take 8 channel_id
    ++ (take 8 session
        ++ (put_be32 1
            ++ (put_be64 count
                ++ (put_be16 frames_per_pkt
                    ++ (put_be64 beats_first
                        ++ (put_be64 bp
                            ++ (1
                                ∷ (put_be32 tdm_fs_hz
                                    ++ (1
                                        ∷ (put_be16 (frames_per_pkt * 2)
                                            ++ put_samples (take frames_per_pkt samples)))))))))))

-- The loop over the subscribers from `s` on, `left` more.
unfoldable pub send_to_subscribers : ℕ → ℕ → Local → List ℕ → M (Unit {0})
send_to_subscribers zero s c buf = pure tt
send_to_subscribers (suc left) s c buf = do
  send (v4_unicast (get_or c.sub_addr s 0) (get_or c.sub_port s 0)) discovery_port buf
  send_to_subscribers left (s + 1) c buf

module _ (fp : Doubles) (env : Env) where
  -- With at least one subscriber; the channel's counter is written back.
  unfoldable pub send_packet : Local → List ℕ → M Local
  send_packet c samples = do
    now_g ← ghost_time_us env
    d ← get
    let tl = d.self_timeline
    let pkt_t0 = sub64 now_g (frames_per_pkt * 1_000_000 / tdm_fs_hz)
    let beats_first =
        beats_at fp tl.beat_origin_microbeats tl.time_origin_us_ghost tl.tempo_us_per_beat pkt_t0
    send_to_subscribers c.num_subscribers 0 c (
        encode_audio_header d 6 0
        ++ encode_audio_body c.channel_id d.self_session c.next_send_count beats_first
            tl.tempo_us_per_beat samples)
    pure (record c { next_send_count = (c.next_send_count + 1) % 2 ^ 64 })

  unfoldable pub send_audio_buffer_for : Local → List ℕ → M Local
  send_audio_buffer_for c samples = if c.num_subscribers == 0 then pure c else send_packet c samples
