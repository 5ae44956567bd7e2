-- ===== src/Web/Controls.antt =====
-- firmware/webui.c: the handlers that change something, and the table of routes.
pub mod Requests
use Prim.Native.String.{String}
use colorlight_i9_abletonlin.Base.{
  ℕ, ◌+◌, ◌-◌, Bool, true, false, ◌||◌, List, [], ◌∷◌, Option, none, some, ltb, if◌then◌else◌,
  length, take,
}
use colorlight_i9_abletonlin.Base.Text.{codes, c_string}
use colorlight_i9_abletonlin.Types.{LinkId}
use colorlight_i9_abletonlin.Doubles.{Doubles}
use colorlight_i9_abletonlin.Device.{Device, Env}
use colorlight_i9_abletonlin.Discovery.Edits.{link_set_local_tempo, link_set_play}
use colorlight_i9_abletonlin.Audio.{Sub}
use colorlight_i9_abletonlin.Audio.Catalog.{
  Subscribed, subscribed, unknown_channel, table_full, link_audio_subscribe, link_audio_unsubscribe,
}
use colorlight_i9_abletonlin.Http.{Response, Handler, Route, http_route}
use colorlight_i9_abletonlin.Web.{Web, Stdio, set_device}
use colorlight_i9_abletonlin.Web.Ids.{hex_to_id}
use colorlight_i9_abletonlin.Web.Pages.{serve_index, serve_status, serve_channels}

abbrev pub ok : Response → Response
ok resp = record resp {
  content_type = codes "application/json";
  body = codes "{\"ok\":true}";
  body_len = 11;
}

abbrev pub bad : String → Response → Response
bad text resp = record resp { status = 400; body = codes text; body_len = length (codes text) }

-- The copy of the body into an array of `size` bytes, as a string.
abbrev pub body_text : ℕ → List ℕ → ℕ → List ℕ
body_text size body blen = c_string (take (if ltb blen (size - 1) then blen else size - 1) body)

module _ (fp : Doubles) (io : Stdio fp) (env : Env) where
  open fp use {less, of_nat}

  unfoldable pub post_tempo : Handler Web
  post_tempo path body blen resp w =
      let bpm = io.atof (body_text 16 body blen) in
      if less bpm (of_nat 20) || less (of_nat 999) bpm
      then (bad "bad tempo" resp, w)
      else (ok resp, set_device (link_set_local_tempo fp env bpm w.device).1 w)

  unfoldable pub post_play : Handler Web
  post_play path body blen resp w = (ok resp, set_device (link_set_play fp env true w.device).1 w)

  unfoldable pub post_stop : Handler Web
  post_stop path body blen resp w = (ok resp, set_device (link_set_play fp env false w.device).1 w)

  unfoldable pub post_name : Handler Web
  post_name path body blen resp w = (ok resp, record w { s_peer_name = body_text 32 body blen })

  -- Behind the call: 0, or one of the two errors.
  abbrev pub placed : Response → Web → Subscribed × List Sub → Response × Web
  placed resp w (subscribed, subs) = (ok resp, record w { audio = record w.audio { subs = subs } })
  placed resp w (unknown_channel, subs) = (bad "subscribe failed" resp, w)
  placed resp w (table_full, subs) = (bad "subscribe failed" resp, w)

  abbrev pub subscribe_id : ℕ → ℕ → Response → Web → Option LinkId → Response × Web
  subscribe_id port slot resp w none = (bad "subscribe failed" resp, w)
  subscribe_id port slot resp w (some id) =
      placed resp w (link_audio_subscribe port slot id w.audio.remotes w.audio.subs)

  abbrev pub subscribe_request : Response → Web → Option (ℕ × ℕ × List ℕ) → Response × Web
  subscribe_request resp w none = (bad "subscribe failed" resp, w)
  subscribe_request resp w (some (port, slot, hex)) =
      subscribe_id port slot resp w (hex_to_id io.scan_byte hex)

  unfoldable pub post_subscribe : Handler Web
  post_subscribe path body blen resp w =
      subscribe_request resp w (io.scan_request (body_text 80 body blen))

  abbrev pub ended : Response → Web → Bool × List Sub × Device → Response × Web
  ended resp w (true, subs, d) =
      (ok resp, record w { audio = record w.audio { subs = subs }; device = d })
  ended resp w (false, subs, d) = (bad "unsubscribe failed" resp, w)

  abbrev pub unsubscribe_id : Response → Web → Option LinkId → Response × Web
  unsubscribe_id resp w none = (bad "unsubscribe failed" resp, w)
  unsubscribe_id resp w (some id) = ended resp w (link_audio_unsubscribe id w.audio.subs w.device)

  unfoldable pub post_unsubscribe : Handler Web
  post_unsubscribe path body blen resp w =
      unsubscribe_id resp w (hex_to_id io.scan_byte (body_text 20 body blen))

  -- `index_html` is the text of the page.
  unfoldable pub webui_init : List ℕ → List (Route Web) → List (Route Web)
  webui_init index_html routes =
      let r1 = http_route (codes "GET") (codes "/") (serve_index index_html) routes in
      let r2 = http_route (codes "GET") (codes "/api/status") (serve_status fp io env) r1 in
      let r3 = http_route (codes "GET") (codes "/api/channels") serve_channels r2 in
      let r4 = http_route (codes "POST") (codes "/api/tempo") post_tempo r3 in
      let r5 = http_route (codes "POST") (codes "/api/play") post_play r4 in
      let r6 = http_route (codes "POST") (codes "/api/stop") post_stop r5 in
      let r7 = http_route (codes "POST") (codes "/api/name") post_name r6 in
      let r8 = http_route (codes "POST") (codes "/api/subscribe") post_subscribe r7 in
      http_route (codes "POST") (codes "/api/unsubscribe") post_unsubscribe r8
