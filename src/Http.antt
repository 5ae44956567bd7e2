-- ===== src/Http.antt =====
-- firmware/http_server.h and http_server.c: the routes, the connection and the responses. The calls
-- into lwIP are the results of the functions: what is written to the connection, and that it is closed.
pub mod Request
pub mod Server
use Prim.Native.String.{String}
use colorlight_i9_abletonlin.Base.{
  ℕ, ◌+◌, ◌-◌, Bool, false, List, [], ◌∷◌, ◌++◌, leb, ◌==◌, if◌then◌else◌, length, take,
}
use colorlight_i9_abletonlin.Base.Text.{codes, decimal}

-- `http_response_t`; the strings without their terminating zero.
pub record Response : Type 0 where
  pub status : ℕ
  pub content_type : List ℕ
  pub body : List ℕ
  pub body_len : ℕ

-- A handler gets the path, the body, its length and the response that it changes; `S` is the state
-- that the handlers share.
abbrev pub Handler : Type 0 → Type 0
Handler S = List ℕ → List ℕ → ℕ → Response → S → Response × S

pub record Route (S : Type 0) : Type 0 where
  pub method : List ℕ
  pub path : List ℕ
  pub fn : Handler S

-- `conn_state_t`: the bytes received, which are `used` in number, behind them zeros.
pub record Conn : Type 0 where
  pub buf : List ℕ
  pub have_headers : Bool
  pub content_length : ℕ
  pub body_offset : ℕ

abbrev pub max_routes : ℕ
max_routes = 16

abbrev pub req_buf_max : ℕ
req_buf_max = 4096

-- What `calloc` gives.
abbrev pub new_conn : Conn
new_conn = record { buf = []; have_headers = false; content_length = 0; body_offset = 0 }

-- The strings are cut to fit their arrays of 8 and 64 bytes.
unfoldable pub http_route :
    {S : Type 0} → List ℕ → List ℕ → Handler S → List (Route S) → List (Route S)
http_route method path fn routes =
    if leb max_routes (length routes)
    then routes
    else routes ++ (record { method = take 7 method; path = take 63 path; fn = fn } ∷ [])

unfoldable pub reason : ℕ → List ℕ
reason status =
    if status == 200
    then codes "OK"
    else if status == 400
    then codes "Bad Request"
    else if status == 404
    then codes "Not Found"
    else if status == 413
    then codes "Payload Too Large"
    else if status == 500
    then codes "Internal Server Error"
    else codes "Error"

abbrev pub crlf : List ℕ
crlf = 13 ∷ 10 ∷ []

-- The header, as `snprintf` puts it together; the header array has 256 bytes.
unfoldable pub response_header : Response → List ℕ
unfolding reason decimal
response_header resp =
    (codes "HTTP/1.0 " ++ (decimal resp.status ++ (codes " " ++ (reason resp.status ++ crlf))))
    ++ ((codes "Server: LinkFPGA" ++ crlf)
        ++ ((codes "Content-Type: " ++ (resp.content_type ++ crlf))
            ++ ((codes "Content-Length: " ++ (decimal resp.body_len ++ crlf))
                ++ ((codes "Connection: close" ++ crlf)
                    ++ ((codes "Access-Control-Allow-Origin: *" ++ crlf) ++ crlf)))))

-- The bytes written to the connection.
unfoldable pub send_response : Response → List ℕ
send_response resp = response_header resp ++ take resp.body_len resp.body

abbrev pub plain : ℕ → String → Response
plain status text = record {
  status = status;
  content_type = codes "text/plain";
  body = codes text;
  body_len = length (codes text);
}
