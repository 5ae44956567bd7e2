-- ===== src/Invariant/Ticks.antt =====
-- The ticks and frames of firmware/link_audio.c keep its tables in order, and the peers and the
-- measurement as they are.
use colorlight_i9_abletonlin.Base.{
  ℕ, zero, suc, ◌+◌, ◌^◌, ◌%◌, ◌≡◌, inl, inr, refl, arith, Bool, true, false, ◌&&◌, List, [], ◌∷◌,
  Bool-cases, ltb, ◌==◌, if◌then◌else◌, replicate, All,
}
use colorlight_i9_abletonlin.Base.Int64.{sub64}
use colorlight_i9_abletonlin.Config.{max_channels, tdm_channels_per_port}
use colorlight_i9_abletonlin.Types.{LinkId, Peer}
use colorlight_i9_abletonlin.Doubles.{Doubles}
use colorlight_i9_abletonlin.Device.{Device, Env, host_time_us, ghost_time_us}
use colorlight_i9_abletonlin.Tdm.{Tdm}
use colorlight_i9_abletonlin.Audio.{Local, Sub, Audio, zero_sub, max_remote}
use colorlight_i9_abletonlin.Audio.Announce.{
  random_id, init_locals, link_audio_init, encode_peer_announcement, has_endpoint, announce_to,
  announce_peers, send_announcements,
}
use colorlight_i9_abletonlin.Audio.Catalog.{
  send_channel_request, is_due, renew_requests, drain_subs,
}
use colorlight_i9_abletonlin.Audio.Sender.{send_to_subscribers, send_packet, send_audio_buffer_for}
use colorlight_i9_abletonlin.Audio.Jitter.{drain}
use colorlight_i9_abletonlin.Audio.Jitter.Fifo.{IsRing, drain_lem}
use colorlight_i9_abletonlin.Audio.Subscribers.Laws.{IsTable}
use colorlight_i9_abletonlin.Audio.Frame.{announce_due, link_audio_tick}
use colorlight_i9_abletonlin.Audio.Frame.Queue.{IsCapture}
use colorlight_i9_abletonlin.Invariant.Sound.{IsSound, Keeps, Keeps-trans}

pub Keeps-self : (d : Device) → Keeps d d
Keeps-self d = record { peers = refl; meas = refl }

Keeps-if : (b : Bool) (d x y : Device) → Keeps d x → Keeps d y → Keeps d (if b then x else y)
Keeps-if true d x y hx hy = hx
Keeps-if false d x y hx hy = hy

request-Keeps :
    (mtype addr port : ℕ) (cid : LinkId) (d : Device)
    → Keeps d (send_channel_request mtype addr port cid d).1
unfolding send_channel_request
request-Keeps mtype addr port cid d = record { peers = refl; meas = refl }

renew_requests-Keeps : (now : ℕ) (ss : List Sub) (d : Device) → Keeps d (renew_requests now ss d).1
unfolding renew_requests
renew_requests-Keeps now [] d = Keeps-self d
renew_requests-Keeps now (s ∷ ss) d =
    Keeps-trans
      (Keeps-if (is_due now s) d _ _ (request-Keeps 4 s.source_addr s.source_port s.channel_id d)
        (Keeps-self d))
      (renew_requests-Keeps now ss _)

-- A ring with the counters and the samples of another.
same-IsRing :
    (s s' : Sub)
    → s'.jbuf ≡ s.jbuf
    → s'.jbuf_w ≡ s.jbuf_w
    → s'.jbuf_r ≡ s.jbuf_r
    → IsRing s
    → IsRing s'
same-IsRing s s' e w r h = record {
  size = rw e h.size;
  written = rw w h.written;
  read = rw r h.read;
  bounded = rw (w, r) h.bounded;
}

renew_requests-IsRing :
    (now : ℕ) (ss : List Sub) (d : Device) → All IsRing ss → All IsRing (renew_requests now ss d).0
unfolding renew_requests
renew_requests-IsRing now [] d h = tt
renew_requests-IsRing now (s ∷ ss) d (h, hs) = (
  same-IsRing s
      (if is_due now s then record s { next_request_us = (now + 5_000_000) % 2 ^ 64 } else s)
      (ground arith) (ground arith) (ground arith) h,
  renew_requests-IsRing now ss _ hs,
)

module _ (env : Env) where
  announce_to-Keeps :
      (cs : List Local) (first : Bool) (p : Peer) (d : Device)
      → Keeps d (announce_to env cs first p d).1
  unfolding encode_peer_announcement host_time_us
  announce_to-Keeps cs true p d = record { peers = refl; meas = refl }
  announce_to-Keeps cs false p d = record { peers = refl; meas = refl }

  announce_peers-Keeps :
      (cs : List Local) (ps : List Peer) (first : Bool) (d : Device)
      → Keeps d (announce_peers env cs ps first d).1
  unfolding announce_peers
  announce_peers-Keeps cs [] first d = Keeps-self d
  announce_peers-Keeps cs (p ∷ ps) first d = elim (Bool-cases (has_endpoint p)) [
    | inl yes_one ↦
        rw yes_one
          (Keeps-trans (announce_to-Keeps cs first p d) (announce_peers-Keeps cs ps false _))
    | inr none_here ↦ rw none_here (announce_peers-Keeps cs ps first d)
  ]

  send_announcements-Keeps : (a : Audio) (d : Device) → Keeps d (send_announcements env a d).1
  unfolding send_announcements host_time_us
  send_announcements-Keeps a d =
      let h = announce_peers-Keeps a.locals d.peers true d in
      record { peers = h.peers; meas = h.meas }

  -- The device and the tables behind a step.
  abbrev pub Kept : Device → Audio × Device → Type 0
  Kept d r = IsSound r.0 × Keeps d r.1

  Kept-if :
      (b : Bool) (d : Device) (x y : Audio × Device)
      → Kept d x
      → Kept d y
      → Kept d (if b then x else y)
  Kept-if true d x y hx hy = hx
  Kept-if false d x y hx hy = hy

  announced-Kept : (a : Audio) (d : Device) → IsSound a → Kept d (send_announcements env a d)
  unfolding send_announcements
  announced-Kept a d s = (
    record { rings = s.rings; captures = s.captures; tables = s.tables },
    send_announcements-Keeps a d,
  )

  announce_due-Kept :
      (now : ℕ) (a : Audio) (d : Device) → IsSound a → Kept d (announce_due env now a d)
  announce_due-Kept now a d s = elim (Bool-cases (ltb 250_000 (sub64 now a.s_last_announce_us))) [
    | inl due ↦ rw due (announced-Kept a d s)
    | inr early ↦ rw early (s, Keeps-self d)
  ]

  read_time-Keeps : (d : Device) → Keeps d (host_time_us env d).1
  unfolding host_time_us
  read_time-Keeps d = record { peers = refl; meas = refl }

  pub link_audio_tick-Kept : (a : Audio) (d : Device) → IsSound a → Kept d (link_audio_tick env a d)
  unfolding link_audio_tick
  link_audio_tick-Kept a d s =
      let now : ℕ = (host_time_us env d).0 in
      let d1 : Device = (host_time_us env d).1 in
      let r = announce_due env now a d1 in
      let h = announce_due-Kept now a d1 s in
      (
        record {
          rings = renew_requests-IsRing now r.0.subs r.1 h.0.rings;
          captures = h.0.captures;
          tables = h.0.tables;
        },
        Keeps-trans (read_time-Keeps d) (Keeps-trans h.1 (renew_requests-Keeps now r.0.subs r.1)),
      )

  -- The channels of the table at the start.
  init_locals-IsTable :
      (left port ch : ℕ) (d : Device)
      → All IsTable (init_locals env left port ch d).0 × Keeps d (init_locals env left port ch d).1
  unfolding init_locals random_id
  init_locals-IsTable zero port ch d = (tt, Keeps-self d)
  init_locals-IsTable (suc left) port ch d =
      let last = ch + 1 == tdm_channels_per_port in
      let ih =
        init_locals-IsTable left (if last then port + 1 else port) (if last then 0 else ch + 1)
          (host_time_us env d).1 in
      (
        (record { addrs = refl; ports = refl; peers = refl; filled = omega arith }, ih.0),
        Keeps-trans (read_time-Keeps d) ih.1,
      )

  zero_subs-IsRing : (n : ℕ) → All IsRing (replicate n zero_sub)
  zero_subs-IsRing zero = tt
  zero_subs-IsRing (suc n) = (
    record { size = refl; written = omega arith; read = omega arith; bounded = omega arith },
    zero_subs-IsRing n,
  )

  pub link_audio_init-Kept :
      (a : Audio) (d : Device) → All (All IsCapture) a.s_tx_pkt → Kept d (link_audio_init env a d)
  unfolding link_audio_init
  link_audio_init-Kept a d w =
      let h = init_locals-IsTable max_channels 0 0 d in
      (record { rings = zero_subs-IsRing max_remote; captures = w; tables = h.0 }, h.1)

pub drain_subs-IsRing :
    (port : ℕ) (ss : List Sub) (t : Tdm) → All IsRing ss → All IsRing (drain_subs port ss t).0
unfolding drain_subs
drain_subs-IsRing port [] t h = tt
drain_subs-IsRing port (s ∷ ss) t (h, hs) = elim (Bool-cases (s.in_use && s.tdm_port == port)) [
  | inl plays ↦ rw plays (drain-IsRing s h, drain_subs-IsRing port ss _ hs)
  | inr other ↦ rw other (h, drain_subs-IsRing port ss t hs)
]
  where
    drain-IsRing : (s : Sub) → IsRing s → IsRing (drain s).1
    drain-IsRing s h = elim (Bool-cases (s.jbuf_r == s.jbuf_w)) [
      | inl empty ↦ unfold drain in rw empty h
      | inr some_left ↦ (drain_lem 0 s h (ground (arith, h.written, h.read))).1
    ]

module _ (fp : Doubles) (env : Env) where
  send_to-Keeps :
      (left s : ℕ) (c : Local) (buf : List ℕ) (d : Device)
      → Keeps d (send_to_subscribers left s c buf d).1
  unfolding send_to_subscribers
  send_to-Keeps zero s c buf d = Keeps-self d
  send_to-Keeps (suc left) s c buf d =
      let h = send_to-Keeps left (s + 1) c buf _ in record { peers = h.peers; meas = h.meas }

  -- What sending a channel's packet leaves of the table's entry and of the device.
  abbrev pub Sent : Device → Local × Device → Type 0
  Sent d r = IsTable r.0 × Keeps d r.1

  pub send_audio-Sent :
      (c : Local) (samples : List ℕ) (d : Device)
      → IsTable c
      → Sent d (send_audio_buffer_for fp env c samples d)
  unfolding send_audio_buffer_for send_packet ghost_time_us
  send_audio-Sent c samples d t = elim (Bool-cases (c.num_subscribers == 0)) [
    | inl alone ↦ rw alone (t, Keeps-self d)
    | inr heard ↦
        let h = send_to-Keeps c.num_subscribers 0 c _ _ in
        rw heard (
          record { addrs = t.addrs; ports = t.ports; peers = t.peers; filled = t.filled },
          record { peers = h.peers; meas = h.meas },
        )
  ]
