-- ===== src/Examples/Sound.antt =====
-- The Link-Audio tables and the TDM ports at small concrete states.
use colorlight_i9_abletonlin.Base.{
  ℕ, ◌+◌, ◌-◌, ◌^◌, ◌≡◌, refl, arith, true, List, [], ◌∷◌, ◌++◌, some, replicate, same, memcmp,
}
use colorlight_i9_abletonlin.Types.{zero_id}
use colorlight_i9_abletonlin.Wire.{be32}
use colorlight_i9_abletonlin.Tdm.{Tdm}
use colorlight_i9_abletonlin.Audio.{Local, Remote, Sub, zero_sub}
use colorlight_i9_abletonlin.Audio.Jitter.{queued, push_sample, drain}
use colorlight_i9_abletonlin.Audio.Jitter.Fifo.{
  IsRing, held, contents, latest, push_sample_lem, drain_lem,
}
use colorlight_i9_abletonlin.Audio.Packets.{handle_audio_buffer}
use colorlight_i9_abletonlin.Audio.Packets.Safety.{Heard, handle_audio_buffer-Heard}
use colorlight_i9_abletonlin.Audio.Subscribers.{add_subscriber, remove_subscriber}
use colorlight_i9_abletonlin.Audio.Subscribers.Laws.{
  IsTable, subscriber, Added, add_subscriber_lem, Removed, remove_subscriber_lem,
}
use colorlight_i9_abletonlin.Audio.Catalog.{link_audio_subscribe}
use colorlight_i9_abletonlin.Audio.Catalog.Routes.{Subscription, link_audio_subscribe_lem}
use colorlight_i9_abletonlin.Examples.Data.{id_a, id_b}

ports : Tdm
ports = record { ctrl = 1 ∷ 1 ∷ []; tx = []; s_last_count = 5 ∷ 6 ∷ [] }

-- A full ring whose counters are about to wrap.
full : Sub
full = record zero_sub {
  in_use = true;
  channel_id = id_a;
  jbuf_w = 2 ^ 32 - 1;
  jbuf_r = 2 ^ 32 - 1025;
}

full-IsRing : IsRing full
unfolding full
full-IsRing = record {
  size = refl;
  written = omega arith;
  read = omega arith;
  bounded = omega arith;
}

push_sample_lem_example :
    IsRing (push_sample 77 full)
    × (contents (push_sample 77 full) ≡ latest (contents full ++ (77 ∷ [])))
push_sample_lem_example = push_sample_lem 77 full full-IsRing

drain_lem_example :
    ((drain full).0 ≡ some (held full 0))
    × IsRing (drain full).1
    × (queued (drain full).1 + 1 ≡ queued full)
    × (held (drain full).1 9 ≡ held full (9 + 1))
unfolding full
drain_lem_example = drain_lem 9 full full-IsRing (omega arith)

-- One chunk of one frame with two channels.
packet : List ℕ
packet =
    id_a
    ++ (id_b ++ (0 ∷ 0 ∷ 0 ∷ 1 ∷ replicate 8 0))
    ++ (0 ∷ 1 ∷ replicate 16 0)
    ++ (1 ∷ 0 ∷ 0 ∷ 187 ∷ 128 ∷ 2 ∷ 0 ∷ 4 ∷ 1 ∷ 2 ∷ 3 ∷ 4 ∷ [])

handle_audio_buffer-Heard_example : Heard (handle_audio_buffer id_b packet (full ∷ []))
unfolding packet be32
handle_audio_buffer-Heard_example =
    handle_audio_buffer-Heard id_b packet (full ∷ []) (omega arith) (full-IsRing, tt)

channel : Local
channel = record {
  in_use = true;
  channel_id = id_a;
  name = b't' ∷ [];
  tdm_port = 0;
  tdm_channel = 0;
  next_send_count = 0;
  num_subscribers = 2;
  sub_addr = 5 ∷ 6 ∷ replicate 6 0;
  sub_port = 50 ∷ 60 ∷ replicate 6 0;
  sub_peer = id_a ∷ id_b ∷ replicate 6 zero_id;
}

channel-IsTable : IsTable channel
unfolding channel
channel-IsTable = record { addrs = refl; ports = refl; peers = refl; filled = omega arith }

add_subscriber_lem_example :
    IsTable (add_subscriber id_b 7 70 channel)
    × (subscriber (add_subscriber id_b 7 70 channel) 1 ≡ subscriber channel 1)
    × Added id_b 7 70 channel (add_subscriber id_b 7 70 channel)
unfolding channel
add_subscriber_lem_example = add_subscriber_lem id_b 7 70 1 channel channel-IsTable (omega arith)

remove_subscriber_lem_example :
    IsTable (remove_subscriber 5 50 channel) × Removed 5 50 channel (remove_subscriber 5 50 channel)
remove_subscriber_lem_example = remove_subscriber_lem 5 50 channel channel-IsTable

abbrev remote : Remote
remote = record {
  in_use = true;
  peer_id = id_b;
  channel_id = id_a;
  name = [];
  endpoint_addr = 5;
  endpoint_port = 20808;
  last_seen_us = 0;
}

link_audio_subscribe_lem_example :
    Subscription 1 4
      (full ∷ zero_sub ∷ [])
      (some remote)
      (link_audio_subscribe 1 4 id_a (remote ∷ []) (full ∷ zero_sub ∷ []))
unfolding same memcmp
link_audio_subscribe_lem_example =
    link_audio_subscribe_lem 1 4 id_a (remote ∷ []) (full ∷ zero_sub ∷ [])

ramp : List ℕ
ramp = replicate 63 40_000 ++ (7 ∷ [])
