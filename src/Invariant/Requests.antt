-- ===== src/Invariant/Requests.antt =====
-- The requests of the web page keep the device and the Link-Audio tables in order.
use colorlight_i9_abletonlin.Base.{
  ℕ, ◌+◌, inl, inr, refl, arith, Bool, true, false, List, [], ◌∷◌, Option, none, some, Bool-cases,
  ltb, ◌==◌, if◌then◌else◌, length, drop, All,
}
use colorlight_i9_abletonlin.Types.{LinkId}
use colorlight_i9_abletonlin.Doubles.{Doubles}
use colorlight_i9_abletonlin.Device.{Device, Env, host_time_us, ghost_time_us}
use colorlight_i9_abletonlin.Discovery.Broadcast.{link_broadcast_alive_now}
use colorlight_i9_abletonlin.Discovery.Edits.{link_set_local_tempo, link_set_play}
use colorlight_i9_abletonlin.Audio.{Remote, Sub, Audio}
use colorlight_i9_abletonlin.Audio.Catalog.{
  Subscribed, subscribed, unknown_channel, table_full, send_channel_request, find_remote, new_sub,
  place_sub, subscribe_to, link_audio_subscribe, link_audio_unsubscribe,
}
use colorlight_i9_abletonlin.Audio.Jitter.Fifo.{IsRing}
use colorlight_i9_abletonlin.Audio.Packets.{is_sub}
use colorlight_i9_abletonlin.Http.{Response, Handler, Route, Conn, http_route, plain}
use colorlight_i9_abletonlin.Wire.{byte_at}
use colorlight_i9_abletonlin.Http.Server.{
  word, matches, route_request, dispatch, append_segment, on_recv,
}
use colorlight_i9_abletonlin.Http.Request.{request_complete}
use colorlight_i9_abletonlin.Web.{Web, Stdio}
use colorlight_i9_abletonlin.Web.Ids.{hex_to_id}
use colorlight_i9_abletonlin.Web.Pages.{serve_index, serve_status, serve_channels}
use colorlight_i9_abletonlin.Web.Controls.{
  body_text, post_tempo, post_play, post_stop, post_name, placed, subscribe_id, subscribe_request,
  post_subscribe, ended, unsubscribe_id, post_unsubscribe, webui_init,
}
use colorlight_i9_abletonlin.Invariant.{Inv}
use colorlight_i9_abletonlin.Invariant.Buffer.{set_meas-Inv}
use colorlight_i9_abletonlin.Invariant.Sound.{IsSound, Keeps}
use colorlight_i9_abletonlin.Invariant.Ticks.{Keeps-self}

-- The device and the tables are in order.
abbrev pub InOrder : Device → Audio → Type 0
InOrder d a = Inv d × IsSound a

abbrev pub WebInOrder : Web → Type 0
WebInOrder w = InOrder w.device w.audio

pub Keeps-Inv : (d d' : Device) → Keeps d d' → Inv d → Inv d'
Keeps-Inv d d' k v = set_meas-Inv d d' k.peers (rw k.meas v.buffer) v

IsRing-if :
    (b : Bool) (x y : Subscribed × List Sub)
    → All IsRing x.1
    → All IsRing y.1
    → All IsRing (if b then x else y).1
IsRing-if true x y hx hy = hx
IsRing-if false x y hx hy = hy

place_sub-IsRing :
    (s : Sub) (ss : List Sub) → IsRing s → All IsRing ss → All IsRing (place_sub s ss).1
unfolding place_sub
place_sub-IsRing s [] r h = tt
place_sub-IsRing s (q ∷ qs) r (h, hs) =
    IsRing-if q.in_use ((place_sub s qs).0, q ∷ (place_sub s qs).1) (subscribed, s ∷ qs)
      (h, place_sub-IsRing s qs r hs) (r, hs)

subscribe-IsRing :
    (port ch : ℕ) (cid : LinkId) (rs : List Remote) (ss : List Sub)
    → All IsRing ss
    → All IsRing (link_audio_subscribe port ch cid rs ss).1
unfolding link_audio_subscribe
subscribe-IsRing port ch cid rs ss h = go (find_remote cid rs)
  where
    go : (o : Option Remote) → All IsRing (subscribe_to port ch ss o).1
    go none = h
    go (some r) =
        place_sub-IsRing (new_sub port ch r) ss
          (record { size = refl; written = omega arith; read = omega arith; bounded = omega arith })
          h

unsubscribe-IsRing :
    (cid : LinkId) (ss : List Sub) (d : Device)
    → All IsRing ss
    → let r = link_audio_unsubscribe cid ss d in All IsRing r.1 × Keeps d r.2
unfolding link_audio_unsubscribe send_channel_request
unsubscribe-IsRing cid [] d h = (tt, Keeps-self d)
unsubscribe-IsRing cid (s ∷ ss) d (h, hs) = elim (Bool-cases (is_sub cid s)) [
  | inl hit ↦ rw hit (
    (record { size = h.size; written = h.written; read = h.read; bounded = h.bounded }, hs),
    record { peers = refl; meas = refl },
  )
  | inr miss ↦ let rest = unsubscribe-IsRing cid ss d hs in rw miss ((h, rest.0), rest.1)
]

-- A handler keeps the order.
abbrev pub FnKeeps : Handler Web → Type 0
FnKeeps fn =
    (path body : List ℕ) (n : ℕ) (resp : Response) (w : Web)
    → WebInOrder w
    → WebInOrder (fn path body n resp w).1

module _ (fp : Doubles) (env : Env) where
  pub set_tempo-Inv :
      (bpm : fp.Double) (d : Device) → Inv d → Inv (link_set_local_tempo fp env bpm d).1
  unfolding link_set_local_tempo link_broadcast_alive_now ghost_time_us host_time_us
  set_tempo-Inv bpm d v = set_meas-Inv d _ refl v.buffer v

  pub set_play-Inv : (play : Bool) (d : Device) → Inv d → Inv (link_set_play fp env play d).1
  unfolding link_set_play link_broadcast_alive_now ghost_time_us host_time_us
  set_play-Inv play d v = set_meas-Inv d _ refl v.buffer v

module _ (fp : Doubles) (io : Stdio fp) (env : Env) where
  status-FnKeeps : FnKeeps (serve_status fp io env)
  unfolding serve_status ghost_time_us
  status-FnKeeps path body n resp w (v, s) = (set_meas-Inv w.device _ refl v.buffer v, s)

  channels-FnKeeps : FnKeeps serve_channels
  unfolding serve_channels
  channels-FnKeeps path body n resp w h = h

  index-FnKeeps : (page : List ℕ) → FnKeeps (serve_index page)
  unfolding serve_index
  index-FnKeeps page path body n resp w h = h

  tempo-FnKeeps : FnKeeps (post_tempo fp io env)
  unfolding post_tempo
  tempo-FnKeeps path body n resp w (v, s) =
      WebInOrder-if _ _ _ (v, s)
        (set_tempo-Inv fp env (io.atof (body_text 16 body n)) w.device v, s)
    where
      WebInOrder-if :
          (b : Bool) (x y : Response × Web)
          → WebInOrder x.1
          → WebInOrder y.1
          → WebInOrder (if b then x else y).1
      WebInOrder-if true x y hx hy = hx
      WebInOrder-if false x y hx hy = hy

  play-FnKeeps : FnKeeps (post_play fp io env)
  unfolding post_play
  play-FnKeeps path body n resp w (v, s) = (set_play-Inv fp env true w.device v, s)

  stop-FnKeeps : FnKeeps (post_stop fp io env)
  unfolding post_stop
  stop-FnKeeps path body n resp w (v, s) = (set_play-Inv fp env false w.device v, s)

  name-FnKeeps : FnKeeps (post_name fp io env)
  unfolding post_name
  name-FnKeeps path body n resp w h = h

  placed-InOrder :
      (resp : Response) (w : Web) (r : Subscribed × List Sub)
      → All IsRing r.1
      → WebInOrder w
      → WebInOrder (placed fp io env resp w r).1
  placed-InOrder resp w (subscribed, subs) h (v, s) =
      (v, record { rings = h; captures = s.captures; tables = s.tables })
  placed-InOrder resp w (unknown_channel, subs) h o = o
  placed-InOrder resp w (table_full, subs) h o = o

  subscribe_id-InOrder :
      (port slot : ℕ) (resp : Response) (w : Web) (o : Option LinkId)
      → WebInOrder w
      → WebInOrder (subscribe_id fp io env port slot resp w o).1
  subscribe_id-InOrder port slot resp w none h = h
  subscribe_id-InOrder port slot resp w (some id) (v, s) =
      placed-InOrder resp w _ (subscribe-IsRing port slot id w.audio.remotes w.audio.subs s.rings)
        (v, s)

  subscribe_request-InOrder :
      (resp : Response) (w : Web) (o : Option (ℕ × ℕ × List ℕ))
      → WebInOrder w
      → WebInOrder (subscribe_request fp io env resp w o).1
  subscribe_request-InOrder resp w none h = h
  subscribe_request-InOrder resp w (some (port, slot, hex)) h =
      subscribe_id-InOrder port slot resp w (hex_to_id io.scan_byte hex) h

  subscribe-FnKeeps : FnKeeps (post_subscribe fp io env)
  unfolding post_subscribe
  subscribe-FnKeeps path body n resp w h =
      subscribe_request-InOrder resp w (io.scan_request (body_text 80 body n)) h

  ended-InOrder :
      (resp : Response) (w : Web) (r : Bool × List Sub × Device)
      → All IsRing r.1
      → Keeps w.device r.2
      → WebInOrder w
      → WebInOrder (ended fp io env resp w r).1
  ended-InOrder resp w (true, subs, d) h k (v, s) =
      (Keeps-Inv w.device d k v, record { rings = h; captures = s.captures; tables = s.tables })
  ended-InOrder resp w (false, subs, d) h k o = o

  unsubscribe_id-InOrder :
      (resp : Response) (w : Web) (o : Option LinkId)
      → WebInOrder w
      → WebInOrder (unsubscribe_id fp io env resp w o).1
  unsubscribe_id-InOrder resp w none h = h
  unsubscribe_id-InOrder resp w (some id) (v, s) =
      let r = unsubscribe-IsRing id w.audio.subs w.device s.rings in
      ended-InOrder resp w _ r.0 r.1 (v, s)

  unsubscribe-FnKeeps : FnKeeps (post_unsubscribe fp io env)
  unfolding post_unsubscribe
  unsubscribe-FnKeeps path body n resp w h =
      unsubscribe_id-InOrder resp w (hex_to_id io.scan_byte (body_text 20 body n)) h

  routes-FnKeeps : (page : List ℕ) → All (λ r. FnKeeps r.fn) (webui_init fp io env page [])
  unfolding webui_init http_route
  routes-FnKeeps page = (
    index-FnKeeps page,
    (
      status-FnKeeps,
      (
        channels-FnKeeps,
        (
          tempo-FnKeeps,
          (
            play-FnKeeps,
            (stop-FnKeeps, (name-FnKeeps, (subscribe-FnKeeps, (unsubscribe-FnKeeps, tt)))),
          ),
        ),
      ),
    ),
  )

route_request-InOrder :
    (method path body : List ℕ) (n : ℕ) (rs : List (Route Web)) (w : Web)
    → All (λ r. FnKeeps r.fn) rs
    → WebInOrder w
    → WebInOrder (route_request method path body n rs w).1
unfolding route_request
route_request-InOrder method path body n [] w ks h = h
route_request-InOrder method path body n (r ∷ rs) w (k, ks) h =
    elim (Bool-cases (matches method path r)) [
      | inl hit ↦ rw hit (k path body n (plain 200 "") w h)
      | inr miss ↦ rw miss (route_request-InOrder method path body n rs w ks h)
    ]

dispatch-InOrder :
    (rs : List (Route Web)) (cs : Conn) (w : Web)
    → All (λ r. FnKeeps r.fn) rs
    → WebInOrder w
    → WebInOrder (dispatch rs cs w).1
unfolding dispatch
dispatch-InOrder rs cs w ks h =
    let line = word 7 cs.buf in
    let target = word 63 (drop 1 line.1) in
    let r =
      route_request-InOrder line.0 target.0 (drop cs.body_offset cs.buf) cs.content_length rs w ks
        h in
    elim (Bool-cases (byte_at line.1 0 == 32)) [
      | inl good ↦ rw good r
      | inr bad_line ↦ rw bad_line h
    ]

pub on_recv-InOrder :
    (fp : Doubles) (io : Stdio fp) (env : Env) (page : List ℕ) (p : Option (List ℕ)) (cs : Conn)
    (w : Web)
    → WebInOrder w
    → WebInOrder (on_recv (webui_init fp io env page []) p cs w).1
unfolding on_recv
on_recv-InOrder fp io env page none cs w h = h
on_recv-InOrder fp io env page (some p) cs w h =
    let done =
      dispatch-InOrder (webui_init fp io env page []) (append_segment p cs) w
        (routes-FnKeeps fp io env page) h in
    elim (Bool-cases (ltb 4096 (length cs.buf + length p))) [
      | inl large ↦ rw large h
      | inr fits ↦ elim (Bool-cases (request_complete (append_segment p cs))) [
        | inl whole ↦ rw (fits, whole) done
        | inr part ↦ rw (fits, part) h
      ]
    ]
