-- ===== src/Examples/Announcements.antt =====
-- Announcements, ChannelByes and frames of Link-Audio at small concrete states.
use colorlight_i9_abletonlin.Base.{
  ◌+◌, ◌++◌, ◌≡◌, refl, arith, true, ◌&&◌, List, [], ◌∷◌, some, if◌then◌else◌, replicate, same,
  memcmp, length, ◌≤◌, All,
}
use colorlight_i9_abletonlin.Config.{max_channels, max_msg_audio}
use colorlight_i9_abletonlin.Types.{zero_id}
use colorlight_i9_abletonlin.Device.{host_time_us}
use colorlight_i9_abletonlin.Clock
use colorlight_i9_abletonlin.Tdm.{Tdm}
use colorlight_i9_abletonlin.Audio.{Local, Audio, Capture, zero_remote, zero_sub}
use colorlight_i9_abletonlin.Audio.Catalog.{find_remote}
use colorlight_i9_abletonlin.Audio.Announce.{
  channels_size, encode_peer_announcement, link_audio_init,
}
use colorlight_i9_abletonlin.Audio.Announce.Bounds.{IsPlaced, place, link_audio_init_lem}
use colorlight_i9_abletonlin.Audio.Receive.{AnnCtx, ann_start, learn_channel, link_audio_handle_rx}
use colorlight_i9_abletonlin.Audio.Receive.Store.{store_all}
use colorlight_i9_abletonlin.Audio.Receive.Lookup.{has_room, learned, learn_channel_lem}
use colorlight_i9_abletonlin.Audio.Receive.Announcement.{
  IsAnnouncer, pong_to, link_audio_handle_rx-encode_peer_announcement,
}
use colorlight_i9_abletonlin.Audio.Receive.Byes.{
  byes, without_remotes, without_subs, link_audio_handle_rx-byes,
}
use colorlight_i9_abletonlin.Audio.Frame.{link_audio_on_tdm_frame}
use colorlight_i9_abletonlin.Audio.Frame.Queue.{
  IsCapture, all_pendings, enqueue_frame, link_audio_on_tdm_frame-enqueue_frame,
}
use colorlight_i9_abletonlin.Examples.Data.{env, id_a, id_b, device_a, device_b, integers}

abbrev drum : Local
drum = record {
  in_use = true;
  channel_id = id_a;
  name = b'd' ∷ b'r' ∷ [];
  tdm_port = 0;
  tdm_channel = 0;
  next_send_count = 0;
  num_subscribers = 1;
  sub_addr = 5 ∷ replicate 7 0;
  sub_port = 50 ∷ replicate 7 0;
  sub_peer = id_b ∷ replicate 7 zero_id;
}

-- A row whose first channel has 63 samples.
abbrev row : List Capture
row =
    record { buf = replicate 64 7; pos = 63 }
    ∷ replicate 15 (record { buf = replicate 64 0; pos = 0 })

-- One channel of `id_b` is known and subscribed to.
abbrev tables : Audio
tables = record {
  locals = drum ∷ [];
  remotes =
      record zero_remote { in_use = true; peer_id = id_b; channel_id = id_b } ∷ zero_remote ∷ [];
  subs = record zero_sub { in_use = true; channel_id = id_b } ∷ [];
  s_last_announce_us = 0;
  s_tx_pkt = row ∷ row ∷ [];
}

drum-IsAnnouncer : IsAnnouncer device_a (drum ∷ [])
unfolding channels_size
drum-IsAnnouncer = record {
  id = refl;
  session = refl;
  named = (record { id = refl; short = omega arith; text = omega arith }, tt);
  few = omega arith;
}

link_audio_handle_rx-encode_peer_announcement_example :
    (let known = store_all env device_a.self_id 5 20808 (drum ∷ []) (tables.remotes, device_b) in
      link_audio_handle_rx env 4096
        (encode_peer_announcement env (drum ∷ []) true device_a).0
        5
        20808
        tables
        device_b
      ≡ some (
        record tables { remotes = known.0 },
        record known.1 {
          sent = known.1.sent ++ (pong_to 5 20808 (host_time_us env device_a).0 known.1 ∷ []);
        },
      ))
unfolding channels_size
link_audio_handle_rx-encode_peer_announcement_example =
    link_audio_handle_rx-encode_peer_announcement env env device_a (drum ∷ []) drum-IsAnnouncer 4096
      5 20808 tables device_b (unfold same memcmp in refl)
      (unfold host_time_us Clock.host_time_us in omega arith) (omega arith)

told : AnnCtx
told = ann_start id_a 5 20808 tables.remotes device_b

learn_channel_lem_example : find_remote id_a (learn_channel env (b'x' ∷ []) id_a told).remotes ≡ (
    if same id_a id_a && has_room id_a told.remotes
    then some (
        learned
          (b'x' ∷ [])
          id_a
          told
          (host_time_us env told.device).0
          (find_remote id_a told.remotes))
    else find_remote id_a told.remotes)
learn_channel_lem_example = learn_channel_lem env (b'x' ∷ []) id_a id_a told

link_audio_handle_rx-byes_example :
    link_audio_handle_rx env 4096 (byes device_a (id_b ∷ [])) 5 20808 tables device_b
    ≡ some (
      record tables {
        remotes = without_remotes (id_b ∷ []) tables.remotes;
        subs = without_subs (id_b ∷ []) tables.subs;
      },
      device_b,
    )
link_audio_handle_rx-byes_example =
    link_audio_handle_rx-byes env device_a (id_b ∷ []) 4096 5 20808 tables device_b refl (refl, tt)
      (unfold same memcmp in refl) (omega arith)

link_audio_init_lem_example :
    IsPlaced (place (link_audio_init env tables device_a).0.locals 17) 1 1
    × (length (link_audio_init env tables device_a).0.locals ≡ max_channels)
    × (length
          (encode_peer_announcement env
            (link_audio_init env tables device_a).0.locals
            true
            device_b).0
        ≤ max_msg_audio)
link_audio_init_lem_example =
    link_audio_init_lem env tables device_a device_b 17 (omega arith) refl refl

ports : Tdm
ports = record { ctrl = 1 ∷ 1 ∷ []; tx = []; s_last_count = 5 ∷ 6 ∷ [] }

row-IsCapture : All IsCapture row
row-IsCapture = unfold_row
  where
    first : IsCapture (record { buf = replicate 64 7; pos = 63 })
    first = record { size = refl; inside = omega arith }

    other : IsCapture (record { buf = replicate 64 0; pos = 0 })
    other = record { size = refl; inside = omega arith }

    unfold_row : All IsCapture row
    unfold_row = (
      first,
      (
        other,
        (
          other,
          (
            other,
            (
              other,
              (
                other,
                (
                  other,
                  (
                    other,
                    (other, (other, (other, (other, (other, (other, (other, (other, tt)))))))),
                  ),
                ),
              ),
            ),
          ),
        ),
      ),
    )

link_audio_on_tdm_frame-enqueue_frame_example :
    (let r = link_audio_on_tdm_frame integers env (λ p ch. p + ch) 0 tables ports device_a in
      let s =
        enqueue_frame integers env
          (λ p ch. p + ch)
          0
          tables.locals
          (all_pendings tables.s_tx_pkt)
          device_a in
      All (All IsCapture) r.0.0.s_tx_pkt
      × (r.0.0.locals ≡ s.0.0)
      × (all_pendings r.0.0.s_tx_pkt ≡ s.0.1)
      × (r.1 ≡ s.1))
link_audio_on_tdm_frame-enqueue_frame_example =
    link_audio_on_tdm_frame-enqueue_frame integers env (λ p ch. p + ch) 0 tables ports device_a
      (row-IsCapture, (row-IsCapture, tt))
