-- ===== src/Invariant/Frames.antt =====
-- A TDM frame of firmware/link_audio.c keeps the tables in order, and the peers and the measurement.
use colorlight_i9_abletonlin.Base.{
  ℕ, zero, suc, ◌+◌, inl, inr, List, [], ◌∷◌, Bool-cases, leb, get_or, set, All,
}
use colorlight_i9_abletonlin.Config.{num_tdm_ports, tdm_channels_per_port}
use colorlight_i9_abletonlin.Doubles.{Doubles}
use colorlight_i9_abletonlin.Device.{Device, Env}
use colorlight_i9_abletonlin.Tdm.{Tdm, tdm_read_rx}
use colorlight_i9_abletonlin.Audio.{Local, Audio, Capture}
use colorlight_i9_abletonlin.Audio.Frame.{
  is_source, send_from, capture, is_complete, capture_channel, capture_port, zero_capture,
  link_audio_on_tdm_frame,
}
use colorlight_i9_abletonlin.Audio.Frame.Queue.{link_audio_on_tdm_frame-enqueue_frame}
use colorlight_i9_abletonlin.Audio.Jitter.Fifo.{IsRing}
use colorlight_i9_abletonlin.Audio.Subscribers.Laws.{IsTable}
use colorlight_i9_abletonlin.Invariant.Sound.{IsSound, Keeps, Keeps-trans}
use colorlight_i9_abletonlin.Invariant.Ticks.{Keeps-self, drain_subs-IsRing, send_audio-Sent}

module _ (fp : Doubles) (env : Env) where
  -- The local channels and the device behind a step.
  abbrev Fine : Device → List Local × Device → Type 0
  Fine d r = All IsTable r.0 × Keeps d r.1

  send_from-Fine :
      (port ch : ℕ) (samples : List ℕ) (cs : List Local) (d : Device)
      → All IsTable cs
      → Fine d (send_from fp env port ch samples cs d)
  unfolding send_from
  send_from-Fine port ch samples [] d h = (tt, Keeps-self d)
  send_from-Fine port ch samples (c ∷ cs) d (h, hs) = elim (Bool-cases (is_source port ch c)) [
    | inl sends ↦ let sent = send_audio-Sent fp env c samples d h in rw sends ((sent.0, hs), sent.1)
    | inr other ↦
        let rest = send_from-Fine port ch samples cs d hs in rw other ((h, rest.0), rest.1)
  ]

  capture_channel-Fine :
      (port ch v : ℕ) (cs : List Local) (c : Capture) (d : Device)
      → All IsTable cs
      → let r = capture_channel fp env port ch v cs c d in Fine d (r.0.0, r.1)
  unfolding capture_channel
  capture_channel-Fine port ch v cs c d h = elim (Bool-cases (is_complete (capture v c))) [
    | inl whole ↦ rw whole (send_from-Fine port ch (capture v c).buf cs d h)
    | inr part ↦ rw part (h, Keeps-self d)
  ]

  capture_port-Fine :
      (rx : ℕ → ℕ → ℕ) (port left ch : ℕ) (cs : List Local) (row : List Capture) (d : Device)
      → All IsTable cs
      → let r = capture_port fp env rx port left ch cs row d in Fine d (r.0.0, r.1)
  unfolding capture_port
  capture_port-Fine rx port zero ch cs row d h = (h, Keeps-self d)
  capture_port-Fine rx port (suc left) ch cs row d h =
      let c = get_or row ch zero_capture in
      let v = tdm_read_rx rx port ch in
      let done = capture_channel fp env port ch v cs c d in
      let one = capture_channel-Fine port ch v cs c d h in
      let rest =
        capture_port-Fine rx port left (ch + 1) done.0.0 (set row ch done.0.1) done.1 one.0 in
      (rest.0, Keeps-trans one.1 rest.1)

  frame-IsRing :
      (rx : ℕ → ℕ → ℕ) (port : ℕ) (a : Audio) (t : Tdm) (d : Device)
      → All IsRing a.subs
      → All IsRing (link_audio_on_tdm_frame fp env rx port a t d).0.0.subs
  unfolding link_audio_on_tdm_frame
  frame-IsRing rx port a t d h = elim (Bool-cases (leb num_tdm_ports port)) [
    | inl out ↦ rw out h
    | inr inside ↦ rw inside (drain_subs-IsRing port a.subs t h)
  ]

  frame-Fine :
      (rx : ℕ → ℕ → ℕ) (port : ℕ) (a : Audio) (t : Tdm) (d : Device)
      → All IsTable a.locals
      → let r = link_audio_on_tdm_frame fp env rx port a t d in Fine d (r.0.0.locals, r.1)
  unfolding link_audio_on_tdm_frame
  frame-Fine rx port a t d h = elim (Bool-cases (leb num_tdm_ports port)) [
    | inl out ↦ rw out (h, Keeps-self d)
    | inr inside ↦
        rw inside (
          capture_port-Fine rx port tdm_channels_per_port 0 a.locals (get_or a.s_tx_pkt port []) d
            h)
  ]

  pub link_audio_on_tdm_frame-Kept :
      (rx : ℕ → ℕ → ℕ) (port : ℕ) (a : Audio) (t : Tdm) (d : Device)
      → IsSound a
      → let r = link_audio_on_tdm_frame fp env rx port a t d in IsSound r.0.0 × Keeps d r.1
  link_audio_on_tdm_frame-Kept rx port a t d s =
      let fine = frame-Fine rx port a t d s.tables in
      (
        record {
          rings = frame-IsRing rx port a t d s.rings;
          captures = (link_audio_on_tdm_frame-enqueue_frame fp env rx port a t d s.captures).0;
          tables = fine.0;
        },
        fine.1,
      )
