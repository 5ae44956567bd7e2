-- ===== src/Http/Server.antt =====
-- firmware/http_server.c: the dispatch of a request, and the callbacks of a connection.
pub mod Segments
use colorlight_i9_abletonlin.Base.{
  ℕ, zero, suc, ◌+◌, ◌-◌, Bool, true, false, ◌&&◌, ◌||◌, not, List, [], ◌∷◌, ◌++◌, Option, none,
  some, ltb, ◌==◌, if◌then◌else◌, same, length, drop,
}
use colorlight_i9_abletonlin.Base.Text.{codes}
use colorlight_i9_abletonlin.Wire.{byte_at}
use colorlight_i9_abletonlin.Http.{
  Response, Handler, Route, Conn, req_buf_max, send_response, plain,
}
use colorlight_i9_abletonlin.Http.Request.{parse_headers, request_complete}

-- The characters before a zero or a space, at most `room`, and what is behind them.
unfoldable pub word : ℕ → List ℕ → List ℕ × List ℕ
word zero s = ([], s)
word (suc room) [] = ([], [])
word (suc room) (x ∷ s) =
    let rest = word room s in if x == 0 || x == b' ' then ([], x ∷ s) else (x ∷ rest.0, rest.1)

abbrev pub matches : {S : Type 0} → List ℕ → List ℕ → Route S → Bool
matches method path r = same r.method method && same r.path path

-- The loop over the routes: the first that matches answers, on a response that starts as an empty 200.
unfoldable pub route_request :
    {S : Type 0} → List ℕ → List ℕ → List ℕ → ℕ → List (Route S) → S → Response × S
route_request method path body body_len [] s = (plain 404 "not found", s)
route_request method path body body_len (r ∷ rs) s =
    let rest = route_request method path body body_len rs s in
    if matches method path r then r.fn path body body_len (plain 200 "") s else rest

-- `content_length` becomes a `size_t`.
unfoldable pub dispatch : {S : Type 0} → List (Route S) → Conn → S → List ℕ × S
dispatch routes cs s =
    let line = word 7 cs.buf in
    let target = word 63 (drop 1 line.1) in
    let r = route_request line.0 target.0 (drop cs.body_offset cs.buf) cs.content_length routes s in
    if byte_at line.1 0 == b' '
    then (send_response r.0, r.1)
    else (send_response (plain 400 "bad"), s)

-- A connection that goes on, one that is closed behind an answer, and one that is closed without.
pub data Served : Type 0 where
  waiting : Conn → Served
  answered : List ℕ → Served
  dropped : Served

abbrev pub append_segment : List ℕ → Conn → Conn
append_segment p cs =
    let cs' = record cs { buf = cs.buf ++ p } in if cs.have_headers then cs' else parse_headers cs'

-- `none` is an error or the end of the connection.
unfoldable pub on_recv : {S : Type 0} → List (Route S) → Option (List ℕ) → Conn → S → Served × S
on_recv routes none cs s = (dropped, s)
on_recv routes (some p) cs s =
    let cs' = append_segment p cs in
    let done = dispatch routes cs' s in
    if ltb req_buf_max (length cs.buf + length p)
    then (answered (send_response (plain 413 "too large")), s)
    else if not (request_complete cs')
    then (waiting cs', s)
    else (answered done.0, done.1)
