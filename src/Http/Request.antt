-- ===== src/Http/Request.antt =====
-- firmware/http_server.c: when the bytes received are a whole request.
pub mod Header
pub mod Prefix
use Prim.Native.String.{String}
use colorlight_i9_abletonlin.Base.{
  ℕ, zero, suc, ◌+◌, ◌-◌, ◌%◌, ◌^◌, Bool, true, false, ◌&&◌, ◌||◌, not, List, [], ◌∷◌, ◌++◌, Option,
  none, some, ltb, leb, ◌==◌, if◌then◌else◌, length, drop,
}
use colorlight_i9_abletonlin.Base.Text.{codes, c_string, starts_with, find_char, find_text, atoi}
use colorlight_i9_abletonlin.Http.{Conn, crlf}

abbrev pub blank_line : List ℕ
blank_line = 13 ∷ 10 ∷ 13 ∷ 10 ∷ []

-- The test of the loop: `&&` binds before `||`.
abbrev pub at_length : List ℕ → Bool
at_length p = starts_with (codes "Content-Length") p || starts_with (codes "content-length") p

-- Behind the search for the colon, with `left` characters before the blank line.
abbrev pub read_length : ℕ → List ℕ → Option ℕ → ℕ
read_length left p none = 0
read_length left p (some colon) = if ltb colon left then atoi (drop (colon + 1) p) else 0

-- The loop from `p` on, with `left` characters before the blank line.
unfoldable pub find_length : ℕ → List ℕ → ℕ
find_length zero p = 0
find_length (suc left) [] = 0
find_length (suc left) (x ∷ p) =
    let rest = find_length left p in
    if at_length (x ∷ p) then read_length (suc left) (x ∷ p) (find_char b':' (x ∷ p)) else rest

abbrev pub with_headers : Conn → Option ℕ → Conn
with_headers cs none = cs
with_headers cs (some eol) = record cs {
  have_headers = true;
  body_offset = eol + 4;
  content_length = find_length eol (c_string cs.buf);
}

-- The zero that is written behind the bytes is the end of the string.
unfoldable pub parse_headers : Conn → Conn
parse_headers cs = with_headers cs (find_text blank_line (c_string cs.buf))

-- The sum has 32 bits, as `size_t` on the target.
unfoldable pub request_complete : Conn → Bool
request_complete cs =
    if not cs.have_headers
    then false
    else if cs.content_length == 0
    then true
    else leb ((cs.body_offset + cs.content_length) % 2 ^ 32) (length cs.buf)
