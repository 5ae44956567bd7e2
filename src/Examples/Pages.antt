-- ===== src/Examples/Pages.antt =====
-- Requests of the web page, in segments, and what they change.
use colorlight_i9_abletonlin.Audio.Catalog.Routes.{plays}
use colorlight_i9_abletonlin.Base.{
  first_of, ◌⊎◌, joined, ℕ, ◌+◌, ◌-◌, ◌*◌, ◌<◌, ◌≡◌, refl, arith, true, List, [], ◌∷◌, ◌++◌, Option,
  none, some, ltb, if◌then◌else◌, length,
}
use colorlight_i9_abletonlin.Base.Text.{codes}
use colorlight_i9_abletonlin.Audio.{zero_remote, zero_sub}
use colorlight_i9_abletonlin.Http.{Route, Conn, new_conn, plain}
use colorlight_i9_abletonlin.Http.Request.{find_length, parse_headers, request_complete}
use colorlight_i9_abletonlin.Http.Request.Header.{is_valued}
use colorlight_i9_abletonlin.Http.Server.{on_recv}
use colorlight_i9_abletonlin.Http.Server.Segments.{feed-joined}
use colorlight_i9_abletonlin.Web.{Web, Stdio}
use colorlight_i9_abletonlin.Web.Ids.{
  hex_digit, hex_to_id, node_id_hex, ReadsDigits, hex_to_id-node_id_hex,
}
use colorlight_i9_abletonlin.Web.Pages.{resp_buf_size, serve_channels}
use colorlight_i9_abletonlin.Web.Pages.Bounds.{with_commas, in_use_texts, serve_channels_lem}
use colorlight_i9_abletonlin.Web.Controls.{webui_init}
use colorlight_i9_abletonlin.Web.Controls.Requests.{
  answer, request_line, IsHead, on_recv-unsubscribe,
}
use colorlight_i9_abletonlin.Examples.Data.{env, id_b, device_a, integers}

-- Segments of a request whose body is not whole.
abbrev segments : List (List ℕ)
segments =
    codes "POST /api/name HTTP/1.0\r"
    ∷ (10 ∷ (codes "Content-Length: 4" ++ (13 ∷ 10 ∷ 13 ∷ 10 ∷ codes "ab")))
    ∷ []

no_routes : List (Route ℕ)
no_routes = []

abbrev half_way : Conn
half_way = record {
  buf = joined segments;
  have_headers = true;
  content_length = 4;
  body_offset = 46;
}

feed-joined_example :
    on_recv no_routes (some (codes "cd")) half_way 3
    ≡ on_recv no_routes (some (joined segments ++ codes "cd")) new_conn 3
feed-joined_example =
    feed-joined no_routes segments (codes "cd") new_conn half_way 3 3
      (unfold on_recv parse_headers find_length request_complete in refl) (unfold is_valued in refl)

abbrev unhex : ℕ → ℕ
unhex c = if ltb c b'a' then c - b'0' else c - b'a' + 10

abbrev scan_two : List ℕ → Option ℕ
scan_two [] = none
scan_two (a ∷ []) = none
scan_two (a ∷ b ∷ s) = some (unhex a * 16 + unhex b)

scan_two-ReadsDigits : ReadsDigits scan_two
scan_two-ReadsDigits a b rest ha hb =
    let x : unhex (hex_digit a) ≡ a = ground arith in
    let y : unhex (hex_digit b) ≡ b = ground arith in rw (x, y) refl

hex_to_id-node_id_hex_example : hex_to_id scan_two (node_id_hex id_b ++ codes " x") ≡ some id_b
hex_to_id-node_id_hex_example =
    hex_to_id-node_id_hex scan_two scan_two-ReadsDigits id_b (codes " x") refl (omega arith)

abbrev io : Stdio integers
io = record { scan_byte = scan_two; scan_request = λ s. none; atof = λ s. 120; print_3f = λ x. [] }

abbrev web : Web
web = record {
  device = device_a;
  audio = record {
    locals = [];
    remotes = record zero_remote { in_use = true; channel_id = id_b; name = codes "bass" } ∷ [];
    subs = record zero_sub { in_use = true; channel_id = id_b } ∷ [];
    s_last_announce_us = 0;
    s_tx_pkt = [];
  };
  s_peer_name = codes "linkfpga";
}

serve_channels_lem_example :
    (let r = (serve_channels [] [] 0 (plain 200 "") web).0 in
      (r.body_len < resp_buf_size)
      × (length r.body ≡ r.body_len)
      × ((41 < length (in_use_texts web.audio.remotes))
          ⊎ (r.body
              ≡ (codes "{\"channels\":[" ++ with_commas true (in_use_texts web.audio.remotes))
                ++ codes "]}")))
serve_channels_lem_example =
    serve_channels_lem [] [] 0 (plain 200 "") web
      (record { id = refl; peer = refl; name = omega arith }, tt)

abbrev browser_headers : List ℕ
browser_headers =
    codes "Host: 192.168.1.50"
    ++ (13
        ∷ 10
        ∷ (codes "Content-Type: text/plain;charset=UTF-8"
            ++ (13 ∷ 10 ∷ (codes "Content-Length: 16" ++ (13 ∷ 10 ∷ 13 ∷ 10 ∷ [])))))

browser-IsHead : IsHead browser_headers
unfolding find_length
browser-IsHead = record {
  end = 110;
  blank = refl;
  whole = refl;
  sixteen = refl;
  fits = omega arith;
}

on_recv-unsubscribe_example :
    on_recv
      (webui_init integers io env (codes "<html>") [])
      (some ((request_line ++ browser_headers) ++ node_id_hex id_b))
      new_conn
      web
    ≡ answer integers io env (codes "<html>") web (first_of (plays id_b) web.audio.subs)
on_recv-unsubscribe_example =
    on_recv-unsubscribe integers io env (codes "<html>") browser_headers id_b web browser-IsHead
      (unfold is_valued in refl) scan_two-ReadsDigits refl (omega arith)
