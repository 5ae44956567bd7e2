-- ===== src/Web/Pages.antt =====
-- firmware/webui.c: the pages, as `snprintf` puts them together in `s_resp_buf`.
pub mod Bounds
use colorlight_i9_abletonlin.Base.{
  ℕ, ◌+◌, ◌-◌, ◌*◌, ◌/◌, ◌%◌, ◌^◌, Bool, true, false, ◌||◌, not, List, [], ◌∷◌, ◌++◌, ltb, ◌==◌,
  if◌then◌else◌, same, length, take,
}
use colorlight_i9_abletonlin.Base.Int64.{sub64, is_negative}
use colorlight_i9_abletonlin.Base.Text.{codes, concat, decimal}
use colorlight_i9_abletonlin.Config.{num_tdm_ports, tdm_channels_per_port, tdm_fs_hz}
use colorlight_i9_abletonlin.Types.{Peer}
use colorlight_i9_abletonlin.Doubles.{Doubles}
use colorlight_i9_abletonlin.Device.{Device, Env, ghost_time_us}
use colorlight_i9_abletonlin.Audio.{Remote}
use colorlight_i9_abletonlin.Http.{Response, Handler}
use colorlight_i9_abletonlin.Web.{Web, Stdio, set_device}
use colorlight_i9_abletonlin.Web.Ids.{node_id_hex}

abbrev pub resp_buf_size : ℕ
resp_buf_size = 4096

-- A text between quotes.
abbrev pub quoted : List ℕ → List ℕ
quoted s = b'"' ∷ (s ++ (b'"' ∷ []))

-- The response of a text: `n` is its whole length, and the buffer has what fits, less the zero.
abbrev pub json : List ℕ → Response → Response
json text resp = record resp {
  content_type = codes "application/json";
  body = take (resp_buf_size - 1) text;
  body_len = length text;
}

unfoldable pub serve_index : List ℕ → Handler Web
serve_index index_html path body blen resp w = (
  record resp {
    content_type = codes "text/html; charset=utf-8";
    body = index_html;
    body_len = length index_html;
  },
  w,
)

-- One announced channel; the name is the characters that it has.
abbrev pub channel_json : Bool → Remote → List ℕ
channel_json first r = concat (
    (if first then [] else codes ",")
    ∷ codes "{\"id\":"
    ∷ quoted (node_id_hex r.channel_id)
    ∷ codes ",\"name\":"
    ∷ quoted r.name
    ∷ codes ",\"peer\":"
    ∷ quoted (node_id_hex r.peer_id)
    ∷ codes "}"
    ∷ [])

-- The loop over the catalog; it ends when less than 192 bytes are left.
unfoldable pub channels_json : List Remote → Bool → List ℕ → List ℕ
channels_json [] first text = text
channels_json (r ∷ rs) first text =
    let rest =
      channels_json rs (if r.in_use then false else first)
        (if r.in_use then text ++ channel_json first r else text) in
    if ltb (length text) (resp_buf_size - 192) then rest else text

unfoldable pub serve_channels : Handler Web
serve_channels path body blen resp w =
    (json (channels_json w.audio.remotes true (codes "{\"channels\":[") ++ codes "]}") resp, w)

abbrev pub true_false : Bool → List ℕ
true_false b = if b then codes "true" else codes "false"

module _ (fp : Doubles) (io : Stdio fp) where
  open fp use {of_nat, of_int64, plus, times, over}

  -- `60e6 / (double)us`.
  abbrev pub bpm_of : ℕ → fp.Double
  bpm_of us = over (of_nat 60_000_000) (of_int64 us)

  abbrev pub endpoint_text : Peer → List ℕ
  endpoint_text p = concat (
      decimal (p.mep4_addr / 2 ^ 24 % 256)
      ∷ codes "."
      ∷ decimal (p.mep4_addr / 2 ^ 16 % 256)
      ∷ codes "."
      ∷ decimal (p.mep4_addr / 2 ^ 8 % 256)
      ∷ codes "."
      ∷ decimal (p.mep4_addr % 256)
      ∷ codes ":"
      ∷ decimal p.mep4_port
      ∷ [])

  abbrev pub peer_json : Bool → Peer → List ℕ
  peer_json first p =
      let us = p.timeline.tempo_us_per_beat in
      concat (
        (if first then [] else codes ",")
        ∷ codes "{\"node_id\":"
        ∷ quoted (node_id_hex p.node_id)
        ∷ codes ",\"session_id\":"
        ∷ quoted (node_id_hex p.session_id)
        ∷ codes ",\"tempo_bpm\":"
        ∷ io.print_3f (if us == 0 then of_nat 0 else bpm_of us)
        ∷ codes ",\"endpoint\":"
        ∷ quoted (endpoint_text p)
        ∷ codes "}"
        ∷ [])

  -- The loop over the peers; it ends when less than 256 bytes are left.
  unfoldable pub peers_json : List Peer → Bool → List ℕ → List ℕ
  peers_json [] first text = text
  peers_json (p ∷ ps) first text =
      let rest =
        peers_json ps (if p.in_use then false else first)
          (if p.in_use then text ++ peer_json first p else text) in
      if ltb (length text) (resp_buf_size - 256) then rest else text

  -- `bp`: a tempo that is not positive is replaced.
  abbrev pub shown_tempo : ℕ → ℕ
  shown_tempo us = if us == 0 || is_negative us then 500_000 else us

  -- Both ports are physical, the default.
  abbrev pub status_head : Device → List ℕ → ℕ → List ℕ
  status_head d name now_g =
      let tl = d.self_timeline in
      let bp = shown_tempo tl.tempo_us_per_beat in
      let cur_beats =
        plus (over (of_int64 tl.beat_origin_microbeats) (of_nat 1_000_000))
          (over (of_int64 (sub64 now_g tl.time_origin_us_ghost)) (of_int64 bp)) in
      concat (
        codes "{\"node_id\":"
        ∷ quoted (node_id_hex d.self_id)
        ∷ codes ",\"session_id\":"
        ∷ quoted (node_id_hex d.self_session)
        ∷ codes ",\"tempo_bpm\":"
        ∷ io.print_3f (bpm_of bp)
        ∷ codes ",\"beats\":"
        ∷ io.print_3f cur_beats
        ∷ codes ",\"playing\":"
        ∷ true_false (not (d.self_startstop.is_playing == 0))
        ∷ codes ",\"synced\":"
        ∷ true_false (not (same d.self_session d.self_id))
        ∷ codes ",\"name\":"
        ∷ quoted name
        ∷ codes ",\"tdm\":{\"physical\":2,\"virtual\":0,\"channels_per_port\":16,\"fs_hz\":48000},"
        ∷ codes "\"peers\":["
        ∷ [])

  unfoldable pub serve_status : Env → Handler Web
  serve_status env path body blen resp w =
      let r = ghost_time_us env w.device in
      (
        json (peers_json r.1.peers true (status_head r.1 w.s_peer_name r.0) ++ codes "]}") resp,
        set_device r.1 w,
      )
