-- ===== src/Examples/Bytes.antt =====
-- The codec and the walker on short messages.
use colorlight_i9_abletonlin.Base.{
  set, ◌%◌, ◌^◌, ◌+◌, ◌-◌, ◌^◌, ◌≡◌, refl, true, false, inl, inr, List, [], ◌∷◌, ◌++◌, some, arith,
  same, memcmp, take, drop, get_or,
}
use colorlight_i9_abletonlin.Config.{discovery_port}
use colorlight_i9_abletonlin.Types.{Peer, zero_peer}
use colorlight_i9_abletonlin.Device.{Device, v4_unicast, ghost_time_us, host_time_us}
use colorlight_i9_abletonlin.Wire.{
  ret, running, walk_from, tlv_walk, be32, put_be32, byte_at, key_gt, key_sess,
}
use colorlight_i9_abletonlin.Wire.Entries.{Entry, header, emit_all, deliver}
use colorlight_i9_abletonlin.Wire.Laws.{tlv_walk-emit_all, tlv_walk_malformed, walk_hangs}
use colorlight_i9_abletonlin.Wire.Total.{Returns, tlv_walk-Returns}
use colorlight_i9_abletonlin.Discovery.Codec.{encode_header, encode_msg, handle_entry}
use colorlight_i9_abletonlin.Discovery.Codec.Message.{IsSized, announced}
use colorlight_i9_abletonlin.Discovery.Peers.{find_or_alloc_peer, evict_peer}
use colorlight_i9_abletonlin.Discovery.Peers.Count.{count_node}
use colorlight_i9_abletonlin.Discovery.Receive.{link_handle_rx}
use colorlight_i9_abletonlin.Discovery.Receive.Announce.{
  link_handle_rx-encode_msg, link_handle_rx_byebye,
}
use colorlight_i9_abletonlin.Measure.{
  proto_link, encode_ping, zero_pong, pong_handler, measurement_responder_handle_rx,
}
use colorlight_i9_abletonlin.Measure.Reply.{answer, reply, responder_lem}
use colorlight_i9_abletonlin.Examples.Data.{env, id_a, id_b, device_a, device_b}

-- A session and an unknown entry.
abbrev two : List Entry
two = record { key = key_sess; value = id_b } ∷ record { key = key_gt; value = 5 ∷ [] } ∷ []

tlv_walk-emit_all_example :
    tlv_walk 4096 (emit_all two) handle_entry zero_peer
    ≡ ret (deliver handle_entry two zero_peer).0 (deliver handle_entry two zero_peer).1
unfolding put_be32
tlv_walk-emit_all_example =
    tlv_walk-emit_all 4096 handle_entry zero_peer two (omega arith) (omega arith)

tlv_walk_malformed_example :
    (tlv_walk 4096 (emit_all two ++ (1 ∷ 2 ∷ [])) handle_entry zero_peer
      ≡ ret false (deliver handle_entry two zero_peer).1)
    × (tlv_walk 4096 (emit_all two ++ (header key_gt 3 ++ (1 ∷ []))) handle_entry zero_peer
        ≡ ret false (deliver handle_entry two zero_peer).1)
unfolding put_be32
tlv_walk_malformed_example =
    tlv_walk_malformed 4096 handle_entry zero_peer two (1 ∷ 2 ∷ []) key_gt 3 (1 ∷ []) (omega arith)
      (omega arith) (omega arith) (omega arith) (omega arith) (omega arith) (omega arith)

walk_hangs_example :
    walk_from 4096 (header key_gt (2 ^ 32 - 8) ++ []) handle_entry 1000 4096 zero_peer ≡ running
unfolding put_be32 handle_entry
walk_hangs_example =
    walk_hangs 4096 handle_entry zero_peer key_gt (2 ^ 32 - 8) [] (omega arith) refl (omega arith)
      refl 1000

tlv_walk-Returns_example :
    Returns (tlv_walk 4096 (0 ∷ 0 ∷ 0 ∷ 1 ∷ 0 ∷ 0 ∷ 0 ∷ 1 ∷ 6 ∷ 9 ∷ []) handle_entry zero_peer)
unfolding be32
tlv_walk-Returns_example =
    tlv_walk-Returns 4096 (0 ∷ 0 ∷ 0 ∷ 1 ∷ 0 ∷ 0 ∷ 0 ∷ 1 ∷ 6 ∷ 9 ∷ []) handle_entry zero_peer
      (omega arith, inr (omega arith, inl (omega arith)))

sized : IsSized env device_a
sized = record {
  id = refl;
  session = refl;
  v6 = refl;
  v4 = omega arith;
  tempo = omega arith;
  beats = omega arith;
  origin = omega arith;
  start_beats = omega arith;
  start_time = omega arith;
}

-- The sender's state in the receiver's first slot.
abbrev admitted : Peer
admitted =
    record (announced env device_a
      (get_or (find_or_alloc_peer id_a device_b.peers).0 0 zero_peer)) {
        expires_at_us = ((host_time_us env device_b).0 + 5_000_000) % 2 ^ 64;
      }

link_handle_rx-encode_msg_example :
    (r' : Device) × (link_handle_rx env 4096 (encode_msg env device_a 1 true) 5 20808 device_b
      ≡ some r')
    × (get_or r'.peers 0 zero_peer ≡ admitted)
    × (r'.peers ≡ set (find_or_alloc_peer id_a device_b.peers).0 0 admitted)
unfolding find_or_alloc_peer same memcmp
link_handle_rx-encode_msg_example =
    link_handle_rx-encode_msg env device_a sized env device_b 4096 1 5 20808 0 (omega arith)
      (inl refl) refl refl

link_handle_rx_byebye_example :
    (r' : Device) × (link_handle_rx env 4096 (encode_header device_a 3 0) 5 20808 device_b
      ≡ some r')
    × (r'.peers ≡ evict_peer id_a device_b.peers)
    × (count_node id_a r'.peers ≡ 0)
unfolding same memcmp
link_handle_rx_byebye_example =
    link_handle_rx_byebye env device_a sized env device_b 4096 5 20808 refl (λ id. omega arith)

responder_lem_example :
    ((measurement_responder_handle_rx env (encode_ping 12 34 true) 5 20808 device_a).1.sent
      ≡ []
        ++ (record {
          destination = v4_unicast 5 20808;
          src_port = discovery_port;
          payload = reply env device_a 12 34 true;
        }
            ∷ []))
    × (take 8 (reply env device_a 12 34 true) ≡ proto_link)
    × (byte_at (reply env device_a 12 34 true) 8 ≡ 2)
    × (tlv_walk (4096 + 9) (drop 9 (reply env device_a 12 34 true)) pong_handler zero_pong
        ≡ ret true (answer id_a (ghost_time_us env device_a).0 12 34 true))
responder_lem_example =
    responder_lem env device_a 12 34 5 20808 4096 true refl (omega arith) (omega arith)
      (omega arith)
