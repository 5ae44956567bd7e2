-- ===== src/Audio/Catalog.antt =====
-- firmware/link_audio.c: subscribing to the channels that others announce, the requests that keep a
-- subscription alive, and the frame that each subscription plays.
pub mod Header
pub mod Routes
use Prim.Native.Nat.{bit_and}
use colorlight_i9_abletonlin.Base.{
  ℕ, ◌+◌, ◌*◌, ◌/◌, ◌%◌, ◌^◌, Bool, true, false, ◌&&◌, not, List, [], ◌∷◌, ◌++◌, Option, none, some,
  leb, ◌==◌, if◌then◌else◌, same, take,
}
use colorlight_i9_abletonlin.Config.{discovery_port}
use colorlight_i9_abletonlin.Types.{LinkId}
use colorlight_i9_abletonlin.Device.{Device, M, ◌>>=◌, get, send, v4_unicast}
use colorlight_i9_abletonlin.Wire.{tlv_emit_bytes, key_chid}
use colorlight_i9_abletonlin.Tdm.{Tdm, tdm_write_tx}
use colorlight_i9_abletonlin.Audio.{Remote, Sub, zero_sub}
use colorlight_i9_abletonlin.Audio.Jitter.{drain}
use colorlight_i9_abletonlin.Audio.Packets.{is_sub}

abbrev pub proto_audio : List ℕ
proto_audio = b'c' ∷ b'h' ∷ b'n' ∷ b'n' ∷ b'l' ∷ b's' ∷ b'v' ∷ 1 ∷ []

abbrev pub audio_request_ttl_ms : ℕ
audio_request_ttl_ms = 5000

unfoldable pub encode_audio_header : Device → ℕ → ℕ → List ℕ
encode_audio_header d mtype ttl = proto_audio ++ (mtype ∷ ttl ∷ 0 ∷ 0 ∷ take 8 d.self_id)

unfoldable pub send_channel_request : ℕ → ℕ → ℕ → LinkId → M (Unit {0})
send_channel_request mtype addr port channel_id = do
  d ← get
  send (v4_unicast addr port) discovery_port (
      tlv_emit_bytes (encode_audio_header d mtype (audio_request_ttl_ms / 1000)) key_chid channel_id
        8)

-- The first announcement of the channel.
abbrev pub find_remote : LinkId → List Remote → Option Remote
find_remote cid [] = none
find_remote cid (r ∷ rs) =
    let rest = find_remote cid rs in if r.in_use && same r.channel_id cid then some r else rest

-- 0, -1 and -2.
pub data Subscribed : Type 0 where
  subscribed : Subscribed
  unknown_channel : Subscribed
  table_full : Subscribed

abbrev pub new_sub : ℕ → ℕ → Remote → Sub
new_sub my_tdm_port my_tdm_channel r = record zero_sub {
  in_use = true;
  channel_id = r.channel_id;
  source_peer = r.peer_id;
  source_addr = r.endpoint_addr;
  source_port = r.endpoint_port;
  tdm_port = my_tdm_port;
  tdm_channel = my_tdm_channel;
}

-- The first slot that is free takes the subscription.
unfoldable pub place_sub : Sub → List Sub → Subscribed × List Sub
place_sub s [] = (table_full, [])
place_sub s (q ∷ qs) =
    let rest = place_sub s qs in if q.in_use then (rest.0, q ∷ rest.1) else (subscribed, s ∷ qs)

abbrev pub subscribe_to : ℕ → ℕ → List Sub → Option Remote → Subscribed × List Sub
subscribe_to my_tdm_port my_tdm_channel subs none = (unknown_channel, subs)
subscribe_to my_tdm_port my_tdm_channel subs (some r) =
    place_sub (new_sub my_tdm_port my_tdm_channel r) subs

unfoldable pub link_audio_subscribe :
    ℕ → ℕ → LinkId → List Remote → List Sub → Subscribed × List Sub
link_audio_subscribe my_tdm_port my_tdm_channel channel_id remotes subs =
    subscribe_to my_tdm_port my_tdm_channel subs (find_remote channel_id remotes)

-- `true` is 0 and `false` is -1. The first subscription to the channel is ended.
unfoldable pub link_audio_unsubscribe : LinkId → List Sub → Device → Bool × List Sub × Device
link_audio_unsubscribe channel_id [] d = (false, [], d)
link_audio_unsubscribe channel_id (s ∷ ss) d =
    let rest = link_audio_unsubscribe channel_id ss d in
    if is_sub channel_id s
    then (
      true,
      record s { in_use = false } ∷ ss,
      (send_channel_request 5 s.source_addr s.source_port s.channel_id d).1,
    )
    else (rest.0, s ∷ rest.1, rest.2)

abbrev pub is_due : ℕ → Sub → Bool
is_due now s = s.in_use && leb s.next_request_us now

-- The loop of `link_audio_tick` over the subscriptions.
unfoldable pub renew_requests : ℕ → List Sub → Device → List Sub × Device
renew_requests now [] d = ([], d)
renew_requests now (s ∷ ss) d =
    let due = is_due now s in
    let d' =
      if due then (send_channel_request 4 s.source_addr s.source_port s.channel_id d).1 else d in
    let s' =
      if due
      then record s { next_request_us = (now + audio_request_ttl_ms * 1000) % 2 ^ 64 }
      else s in
    let rest = renew_requests now ss d' in (s' ∷ rest.0, rest.1)

-- What is drained goes to the slot of the subscription.
abbrev pub play : Sub → Option ℕ → Tdm → Tdm
play s none t = t
play s (some v) t = tdm_write_tx s.tdm_port s.tdm_channel v t

-- The second loop of `link_audio_on_tdm_frame`.
unfoldable pub drain_subs : ℕ → List Sub → Tdm → List Sub × Tdm
drain_subs port [] t = ([], t)
drain_subs port (s ∷ ss) t =
    let plays = s.in_use && s.tdm_port == port in
    let s' = if plays then (drain s).1 else s in
    let t' = if plays then play s (drain s).0 t else t in
    let rest = drain_subs port ss t' in (s' ∷ rest.0, rest.1)
