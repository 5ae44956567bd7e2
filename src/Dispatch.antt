-- ===== src/Dispatch.antt =====
-- firmware/main.c: `on_udp_rx`, which hands each datagram to a protocol by its first eight bytes.
use colorlight_i9_abletonlin.Base.{
  ℕ, List, Option, none, some, ltb, if◌then◌else◌, same, length, take,
}
use colorlight_i9_abletonlin.Device.{Device, Env}
use colorlight_i9_abletonlin.Discovery.Codec.{proto_hdr}
use colorlight_i9_abletonlin.Discovery.Receive.{link_handle_rx}
use colorlight_i9_abletonlin.Measure.{
  Completion, proto_link, measurement_handle_rx, measurement_responder_handle_rx,
}
use colorlight_i9_abletonlin.Session.{complete}
use colorlight_i9_abletonlin.Audio.{Audio}
use colorlight_i9_abletonlin.Audio.Catalog.{proto_audio}
use colorlight_i9_abletonlin.Audio.Receive.{link_audio_handle_rx}

-- Discovery and measurement leave the tables of Link-Audio as they are.
abbrev pub beside : Audio → Option Device → Option (Audio × Device)
beside a none = none
beside a (some d) = some (a, d)

module _ (env : Env) where
  -- Behind the measurement's own handler: its completion, then the responder.
  abbrev pub respond : List ℕ → ℕ → ℕ → Option (Completion × Device) → Option Device
  respond buf src_addr src_port none = none
  respond buf src_addr src_port (some (done, d)) =
      some (measurement_responder_handle_rx env buf src_addr src_port (complete env done d).1).1

  unfoldable pub measurement_rx : ℕ → List ℕ → ℕ → ℕ → Device → Option Device
  measurement_rx base buf src_addr src_port d =
      respond buf src_addr src_port (measurement_handle_rx env base buf src_addr src_port d)

  unfoldable pub on_udp_rx : ℕ → List ℕ → ℕ → ℕ → Audio → Device → Option (Audio × Device)
  on_udp_rx base buf src_addr src_port a d =
      if ltb (length buf) 8
      then some (a, d)
      else if same (take 8 buf) proto_hdr
      then beside a (link_handle_rx env base buf src_addr src_port d)
      else if same (take 8 buf) proto_link
      then beside a (measurement_rx base buf src_addr src_port d)
      else if same (take 8 buf) proto_audio
      then link_audio_handle_rx env base buf src_addr src_port a d
      else some (a, d)
