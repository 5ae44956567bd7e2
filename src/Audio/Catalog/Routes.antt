-- ===== src/Audio/Catalog/Routes.antt =====
-- What `link_audio_subscribe` and `link_audio_tick` of firmware/link_audio.c do to the table of
-- subscriptions.
use colorlight_i9_abletonlin.Base.{
  first_of, next_index, Bool-cases, inl, inr, Option, none, ◌&&◌, ◌++◌, same, take, replicate,
  append_assoc, ℕ, zero, suc, ◌+◌, ◌^◌, ◌<◌, ◌≡◌, refl, arith, Bool, true, false, List, [], ◌∷◌,
  some, if◌then◌else◌, length, get_or, set, All,
}
use colorlight_i9_abletonlin.Types.{LinkId}
use colorlight_i9_abletonlin.Device.{Device, Datagram, v4_unicast}
use colorlight_i9_abletonlin.Wire.{put_be32, key_chid, tlv_emit_bytes, tlv_emit_header}
use colorlight_i9_abletonlin.Audio.{Remote, Sub, zero_remote, zero_sub}
use colorlight_i9_abletonlin.Audio.Catalog.{
  find_remote, Subscribed, subscribed, unknown_channel, table_full, place_sub, link_audio_subscribe,
  subscribe_to, link_audio_unsubscribe, send_channel_request, encode_audio_header, proto_audio,
  is_due, renew_requests,
}

-- Every slot is taken.
abbrev pub IsFull : List Sub → Type 0
IsFull ss = All (λ s. s.in_use ≡ true) ss

-- What placing a subscription comes to.
abbrev pub Placed : Sub → List Sub → Subscribed × List Sub → Type 0
Placed s ss (subscribed, ss') =
    (i : ℕ) × (i < length ss) × ((get_or ss i zero_sub).in_use ≡ false) × (ss' ≡ set ss i s)
Placed s ss (table_full, ss') = IsFull ss × (ss' ≡ ss)
Placed s ss (unknown_channel, ss') = ⊥

Placed-cons :
    (s q : Sub) (qs : List Sub) (r : Subscribed × List Sub)
    → q.in_use ≡ true
    → Placed s qs r
    → Placed s (q ∷ qs) (r.0, q ∷ r.1)
Placed-cons s q qs (subscribed, qs') busy (i, l, idle, e) = (suc i, omega arith, idle, cc)
Placed-cons s q qs (table_full, qs') busy (full, e) = ((busy, full), cc)
Placed-cons s q qs (unknown_channel, qs') busy h = h

place_sub_lem : (s : Sub) (ss : List Sub) → Placed s ss (place_sub s ss)
unfolding place_sub
place_sub_lem s [] = (tt, refl)
place_sub_lem s (q ∷ qs) = go (place_sub_lem s qs) q.in_use refl
  where
    go :
        Placed s qs (place_sub s qs)
        → (b : Bool) → q.in_use ≡ b
        → Placed s
            (q ∷ qs)
            (if b then ((place_sub s qs).0, q ∷ (place_sub s qs).1) else (subscribed, s ∷ qs))
    go rest true busy = Placed-cons s q qs (place_sub s qs) busy rest
    go rest false idle = (0, omega arith, idle, refl)

-- The slot is in use and has the channel.
abbrev pub announces : LinkId → Remote → Bool
announces cid r = r.in_use && same r.channel_id cid

abbrev pub plays : LinkId → Sub → Bool
plays cid s = s.in_use && same s.channel_id cid

abbrev pub remote_at : List Remote → Option ℕ → Option Remote
remote_at rs none = none
remote_at rs (some i) = some (get_or rs i zero_remote)

find_remote-first_of :
    (cid : LinkId) (rs : List Remote)
    → find_remote cid rs ≡ remote_at rs (first_of (announces cid) rs)
find_remote-first_of cid [] = refl
find_remote-first_of cid (r ∷ rs) = elim (Bool-cases (announces cid r)) [
  | inl hit ↦ rw hit refl
  | inr miss ↦ rw (miss, find_remote-first_of cid rs) (onward (first_of (announces cid) rs))
]
  where
    onward : (o : Option ℕ) → remote_at rs o ≡ remote_at (r ∷ rs) (next_index o)
    onward none = refl
    onward (some i) = refl

-- What a request to subscribe comes to, by the first announcement of the channel.
abbrev pub Subscription : ℕ → ℕ → List Sub → Option Remote → Subscribed × List Sub → Type 0
Subscription port channel subs none r = r ≡ (unknown_channel, subs)
Subscription port channel subs (some q) r =
    Placed
      (record {
        in_use = true;
        channel_id = q.channel_id;
        source_peer = q.peer_id;
        source_addr = q.endpoint_addr;
        source_port = q.endpoint_port;
        tdm_port = port;
        tdm_channel = channel;
        next_request_us = 0;
        last_count = 0;
        num_chan_remote = 0;
        jbuf = replicate 1024 0;
        jbuf_w = 0;
        jbuf_r = 0;
      })
      subs r

subscribe_to-Subscription :
    (port channel : ℕ) (subs : List Sub) (o : Option Remote)
    → Subscription port channel subs o (subscribe_to port channel subs o)
subscribe_to-Subscription port channel subs none = refl
subscribe_to-Subscription port channel subs (some r) = place_sub_lem _ subs

-- A channel that is announced is placed in a free slot, with the id and endpoint of its first
-- announcement, an empty ring and a request that is due at once, and only that slot is written. The table
-- is untouched and reported full only when every slot is taken, and untouched if nobody announces the
-- channel, which is then reported unknown.
pub link_audio_subscribe_lem :
    (port channel : ℕ) (cid : LinkId) (remotes : List Remote) (subs : List Sub)
    → Subscription port channel subs
        (remote_at remotes (first_of (announces cid) remotes))
        (link_audio_subscribe port channel cid remotes subs)
unfolding link_audio_subscribe
link_audio_subscribe_lem port channel cid remotes subs =
    rw (← find_remote-first_of cid remotes)
      (subscribe_to-Subscription port channel subs (find_remote cid remotes))

-- The request to stop that goes to the source of a subscription.
abbrev pub stop_request : Sub → Device → Datagram
stop_request s d = record {
  destination = v4_unicast s.source_addr s.source_port;
  src_port = 20808;
  payload =
      proto_audio
      ++ ((5 ∷ 5 ∷ 0 ∷ 0 ∷ take 8 d.self_id)
          ++ (put_be32 key_chid ++ (put_be32 8 ++ take 8 s.channel_id)));
}

-- What ending the subscription in a slot comes to.
abbrev pub stopped : List Sub → Device → Option ℕ → Bool × List Sub × Device
stopped subs d none = (false, subs, d)
stopped subs d (some i) =
    let s = get_or subs i zero_sub in
    (
      true,
      set subs i (record s { in_use = false }),
      record d { sent = d.sent ++ (stop_request s d ∷ []) },
    )

-- `link_audio_unsubscribe` ends the first subscription to the channel, only its slot is given up, and its
-- source gets one request to stop; where there is none, nothing changes.
pub link_audio_unsubscribe_lem :
    (cid : LinkId) (subs : List Sub) (d : Device)
    → link_audio_unsubscribe cid subs d ≡ stopped subs d (first_of (plays cid) subs)
unfolding link_audio_unsubscribe send_channel_request encode_audio_header tlv_emit_bytes
    tlv_emit_header
link_audio_unsubscribe_lem cid [] d = refl
link_audio_unsubscribe_lem cid (s ∷ ss) d = elim (Bool-cases (plays cid s)) [
  | inl hit ↦ rw hit (simp append_assoc)
  | inr miss ↦ rw (miss, link_audio_unsubscribe_lem cid ss d) (onward (first_of (plays cid) ss))
]
  where
    onward :
        (o : Option ℕ)
        → ((stopped ss d o).0, s ∷ (stopped ss d o).1, (stopped ss d o).2)
          ≡ stopped (s ∷ ss) d (next_index o)
    onward none = refl
    onward (some i) = refl

-- After a round of requests at a time that leaves room for the next period below 2 ^ 64, no
-- subscription is due, every one is as it was but for the time of its next request, and the request
-- is moved exactly where it was due.
pub renew_requests_lem :
    (now i : ℕ) (ss : List Sub) (d : Device)
    → now + 5_000_000 < 2 ^ 64
    → let s = get_or ss i zero_sub in
      let s' = get_or (renew_requests now ss d).0 i zero_sub in
      (is_due now s' ≡ false)
      × (s' ≡ record s {
        next_request_us = if is_due now s then now + 5_000_000 else s.next_request_us;
      })
unfolding renew_requests
renew_requests_lem now i [] d h = (refl, refl)
renew_requests_lem now zero (s ∷ ss) d h = ground arith
renew_requests_lem now (suc i) (s ∷ ss) d h = renew_requests_lem now i ss _ h
