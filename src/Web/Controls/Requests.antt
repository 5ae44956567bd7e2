-- ===== src/Web/Controls/Requests.antt =====
-- Requests of the web page, from the bytes of the request to the tables of firmware/link_audio.c.
use colorlight_i9_abletonlin.Base.{
  ◌∙◌, ◌≤◌, ◌^◌, ap, le→ltb, le→leb, length-append, drop, drop_front, first_of, Option, none, false,
  get_or, set, ℕ, ◌+◌, ◌/◌, ◌%◌, ◌==◌, same, memcmp, ◌<◌, ◌≡◌, refl, arith, true, false, List, [],
  ◌∷◌, ◌++◌, append-nil, some, ltb, leb, length, take_exact, All,
}
use colorlight_i9_abletonlin.Base.Text.{find_text, codes, c_string}
use colorlight_i9_abletonlin.Types.{LinkId}
use colorlight_i9_abletonlin.Doubles.{Doubles}
use colorlight_i9_abletonlin.Device.{Env}
use colorlight_i9_abletonlin.Audio.{zero_sub}
use colorlight_i9_abletonlin.Audio.Catalog.Routes.{
  plays, stop_request, stopped, link_audio_unsubscribe_lem,
}
use colorlight_i9_abletonlin.Http.{Conn, send_response, new_conn, plain, http_route}
use colorlight_i9_abletonlin.Http.Request.{blank_line, find_length, parse_headers, request_complete}
use colorlight_i9_abletonlin.Http.Request.Header.{is_well_formed, parse_headers-append}
use colorlight_i9_abletonlin.Http.Server.{Served, word, route_request, dispatch, answered, on_recv}
use colorlight_i9_abletonlin.Web.{Web, Stdio}
use colorlight_i9_abletonlin.Web.Ids.{
  hex_digit, hex_to_id, node_id_hex, hex_bytes, ReadsDigits, length-hex_bytes,
  hex_to_id-node_id_hex,
}
use colorlight_i9_abletonlin.Web.Controls.{body_text, ended, post_unsubscribe, webui_init}

abbrev pub request_line : List ℕ
request_line = codes "POST /api/unsubscribe HTTP/1.1" ++ (13 ∷ 10 ∷ [])

-- Headers of a request to end a subscription: the request line, then any headers, up to the first blank
-- line, from which the server reads a length of 16, within its buffer.
pub record IsHead (more : List ℕ) : Type 0 where
  pub end : ℕ
  pub blank : find_text blank_line (c_string (request_line ++ more)) ≡ some end
  pub whole : length (request_line ++ more) ≡ end + 4
  pub sixteen : find_length end (c_string (request_line ++ more)) ≡ 16
  pub fits : end + 20 ≤ 4096

module _ (fp : Doubles) (io : Stdio fp) (env : Env) (page : List ℕ) where
  parsed :
      (more text : List ℕ) (h : IsHead more)
      → record (parse_headers (record new_conn { buf = request_line ++ more })) {
        buf = (request_line ++ more) ++ text;
      }
        ≡ record {
          buf = (request_line ++ more) ++ text;
          have_headers = true;
          content_length = 16;
          body_offset = h.end + 4;
        }
  unfolding parse_headers
  parsed more text h = rw (h.blank, h.sixteen) refl

  complete_headers :
      (more text : List ℕ) (h : IsHead more)
      → is_well_formed ((request_line ++ more) ++ text) ≡ true
      → parse_headers (record new_conn { buf = (request_line ++ more) ++ text }) ≡ record {
        buf = (request_line ++ more) ++ text;
        have_headers = true;
        content_length = 16;
        body_offset = h.end + 4;
      }
  complete_headers more text h valued =
      let cs : Conn = record new_conn { buf = request_line ++ more } in
      parse_headers-append cs text h.end h.blank valued ∙ parsed more text h

  text_of_hex : (bs : List ℕ) → All (λ b. b < 256) bs → c_string (hex_bytes bs) ≡ hex_bytes bs
  unfolding hex_bytes
  text_of_hex [] h = refl
  text_of_hex (b ∷ bs) (h, hs) =
      let high : (hex_digit (b / 16) == 0) ≡ false = ground arith in
      let low : (hex_digit (b % 16) == 0) ≡ false = ground arith in
      rw (high, low, text_of_hex bs hs) refl

  -- What `post_unsubscribe` is given is what the request ends with.
  dispatched :
      (more text : List ℕ) (o : ℕ) (w : Web)
      → drop o ((request_line ++ more) ++ text) ≡ text
      → dispatch
          (webui_init fp io env page [])
          (record {
            buf = (request_line ++ more) ++ text;
            have_headers = true;
            content_length = 16;
            body_offset = o;
          })
          w
        ≡ (let r = post_unsubscribe fp io env (codes "/api/unsubscribe") text 16 (plain 200 "") w in
            (send_response r.0, r.1))
  unfolding dispatch webui_init http_route word route_request same memcmp
  dispatched more text o w behind =
      let buf : List ℕ = drop o ((request_line ++ more) ++ text) in
      ap
        (λ (b : List ℕ).
          let r = post_unsubscribe fp io env (codes "/api/unsubscribe") b 16 (plain 200 "") w in
          (send_response r.0, r.1))
        behind

  -- The answer and what is left of the state, by the slot of the subscription.
  abbrev pub answer : Web → Option ℕ → Served × Web
  answer w none = (
    answered (
        send_response (record {
          status = 400;
          content_type = codes "text/plain";
          body = codes "unsubscribe failed";
          body_len = 18;
        })),
    w,
  )
  answer w (some i) =
      let s = get_or w.audio.subs i zero_sub in
      (
        answered (
            send_response (record {
              status = 200;
              content_type = codes "application/json";
              body = codes "{\"ok\":true}";
              body_len = 11;
            })),
        record w {
          audio = record w.audio { subs = set w.audio.subs i (record s { in_use = false }) };
          device = record w.device { sent = w.device.sent ++ (stop_request s w.device ∷ []) };
        },
      )

  ended-answer :
      (w : Web) (o : Option ℕ)
      → (let r = ended fp io env (plain 200 "") w (stopped w.audio.subs w.device o) in
          (answered (send_response r.0), r.1))
        ≡ answer w o
  ended-answer w none = refl
  ended-answer w (some i) = refl

  -- A request to end a subscription, with any headers from which the server reads a length of 16, in one
  -- segment on a new connection, gives up the slot of the first subscription to the channel that it names,
  -- sends one request to stop to its source, changes nothing else, and answers with a 200; where there is
  -- no subscription to the channel it changes nothing and answers with a 400. The id has eight bytes,
  -- `sscanf` reads two hexadecimal digits as the number they stand for, and a Content-Length has something
  -- else than spaces behind its colon.
  pub on_recv-unsubscribe :
      (more : List ℕ) (id : LinkId) (w : Web)
      → IsHead more
      → is_well_formed ((request_line ++ more) ++ node_id_hex id) ≡ true
      → ReadsDigits io.scan_byte
      → length id ≡ 8
      → All (λ b. b < 256) id
      → on_recv
          (webui_init fp io env page [])
          (some ((request_line ++ more) ++ node_id_hex id))
          new_conn
          w
        ≡ answer w (first_of (plays id) w.audio.subs)
  unfolding on_recv request_complete post_unsubscribe
  on_recv-unsubscribe more id w h valued reads size bytes =
      let text : List ℕ = node_id_hex id in
      let n : length text ≡ 16 = omega (arith, length-hex_bytes id, size) in
      let total : length ((request_line ++ more) ++ text) ≡ h.end + 20 =
        omega (arith, n, h.whole, length-append (request_line ++ more) text) in
      let fits : ltb 4096 (0 + length ((request_line ++ more) ++ text)) ≡ false =
        le→ltb _ _ (omega (arith, total, h.fits)) in
      let done : leb ((h.end + 4 + 16) % 2 ^ 32) (length ((request_line ++ more) ++ text)) ≡ true =
        le→leb _ _ (omega (arith, total, h.fits)) in
      let behind : drop (h.end + 4) ((request_line ++ more) ++ text) ≡ text =
        drop_front (h.end + 4) (request_line ++ more) text h.whole in
      let named : body_text 20 text 16 ≡ text = rw (take_exact 16 text n) (text_of_hex id bytes) in
      let read : hex_to_id io.scan_byte text ≡ some id =
        rw append-nil at (hex_to_id-node_id_hex io.scan_byte reads id [] size bytes) in
      rw
        (
          fits,
          complete_headers more text h valued,
          done,
          dispatched more text (h.end + 4) w behind,
          named,
          read,
          link_audio_unsubscribe_lem id w.audio.subs w.device,
        )
        (ended-answer w (first_of (plays id) w.audio.subs))
