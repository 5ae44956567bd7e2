-- ===== src/Audio/Frame.antt =====
-- firmware/link_audio.c: the frame of a TDM port, which captures samples into packets and plays the
-- subscriptions, and the periodic tick.
pub mod Queue
use colorlight_i9_abletonlin.Base.{
  ℕ, zero, suc, ◌+◌, ◌-◌, ◌*◌, ◌^◌, ◌%◌, Bool, true, false, ◌&&◌, List, [], ◌∷◌, ltb, leb, ◌==◌,
  if◌then◌else◌, get_or, set, replicate,
}
use colorlight_i9_abletonlin.Config.{num_tdm_ports, tdm_channels_per_port, discovery_bcast_ms}
use colorlight_i9_abletonlin.Base.Int64.{sub64}
use colorlight_i9_abletonlin.Doubles.{Doubles}
use colorlight_i9_abletonlin.Device.{Device, Env, M, ◌>>=◌, ◌>>◌, pure, host_time_us}
use colorlight_i9_abletonlin.Tdm.{Tdm, tdm_read_rx}
use colorlight_i9_abletonlin.Audio.{Local, Audio, Capture, frames_per_pkt}
use colorlight_i9_abletonlin.Audio.Sender.{send_audio_buffer_for}
use colorlight_i9_abletonlin.Audio.Catalog.{drain_subs, renew_requests}
use colorlight_i9_abletonlin.Audio.Announce.{send_announcements}

abbrev pub is_source : ℕ → ℕ → Local → Bool
is_source port ch c = c.in_use && (c.tdm_port == port && c.tdm_channel == ch)

abbrev pub zero_capture : Capture
zero_capture = record { buf = replicate frames_per_pkt 0; pos = 0 }

-- The sample is written, and the position moves on.
abbrev pub capture : ℕ → Capture → Capture
capture v c = record { buf = set c.buf c.pos v; pos = c.pos + 1 }

abbrev pub is_complete : Capture → Bool
is_complete c = c.pos == frames_per_pkt

module _ (fp : Doubles) (env : Env) where
  -- The loop over the channels: the first one of the port and channel sends.
  unfoldable pub send_from : ℕ → ℕ → List ℕ → List Local → M (List Local)
  send_from port ch samples [] d = ([], d)
  send_from port ch samples (c ∷ cs) d =
      let sends = is_source port ch c in
      let sent = send_audio_buffer_for fp env c samples d in
      let rest = send_from port ch samples cs d in
      if sends then (sent.0 ∷ cs, sent.1) else (c ∷ rest.0, rest.1)

  -- One channel of the port.
  unfoldable pub capture_channel : ℕ → ℕ → ℕ → List Local → Capture → M (List Local × Capture)
  capture_channel port ch v locals c d =
      let c' = capture v c in
      let sent = send_from port ch c'.buf locals d in
      if is_complete c' then ((sent.0, record c' { pos = 0 }), sent.1) else ((locals, c'), d)

  -- The loop over the channels of the port, from `ch` on, `left` more.
  unfoldable pub capture_port :
      (ℕ → ℕ → ℕ) → ℕ → ℕ → ℕ → List Local → List Capture → M (List Local × List Capture)
  capture_port rx port zero ch locals row = pure (locals, row)
  capture_port rx port (suc left) ch locals row = do
    done ← capture_channel port ch (tdm_read_rx rx port ch) locals (get_or row ch zero_capture)
    capture_port rx port left (ch + 1) done.0 (set row ch done.1)

  unfoldable pub link_audio_on_tdm_frame : (ℕ → ℕ → ℕ) → ℕ → Audio → Tdm → M (Audio × Tdm)
  link_audio_on_tdm_frame rx port a t d =
      let row = get_or a.s_tx_pkt port [] in
      let captured = capture_port rx port tdm_channels_per_port 0 a.locals row d in
      let played = drain_subs port a.subs t in
      if leb num_tdm_ports port then ((a, t), d) else (
        (
          record a {
            locals = captured.0.0;
            s_tx_pkt = set a.s_tx_pkt port captured.0.1;
            subs = played.0;
          },
          played.1,
        ),
        captured.1,
      )

-- The loop over the subscriptions, at the time of the tick.
abbrev pub renew : ℕ → Audio → M Audio
renew now a d = let r = renew_requests now a.subs d in (record a { subs = r.0 }, r.1)

module _ (env : Env) where
  abbrev pub announce_due : ℕ → Audio → M Audio
  announce_due now a =
      if ltb (discovery_bcast_ms * 1000) (sub64 now a.s_last_announce_us)
      then send_announcements env a
      else pure a

  unfoldable pub link_audio_tick : Audio → M Audio
  link_audio_tick a = do now ← host_time_us env; a' ← announce_due now a; renew now a'
