-- ===== src/Http/Server/Segments.antt =====
-- How a request arrives in TCP segments makes no difference to firmware/http_server.c.
use colorlight_i9_abletonlin.Base.{
  joined, ℕ, ◌+◌, ◌≡◌, ◌∙◌, refl, sym, ap, arith, Bool, true, false, List, [], ◌∷◌, ◌++◌,
  append_assoc, none, some, Option-cases, Bool-cases, inl, inr, ltb, length, length-append,
}
use mathlib.Core.Path.{subst}
use colorlight_i9_abletonlin.Base.Text.{c_string, find_text}
use colorlight_i9_abletonlin.Http.{Route, Conn, req_buf_max}
use colorlight_i9_abletonlin.Http.Request.{blank_line, parse_headers, request_complete}
use colorlight_i9_abletonlin.Http.Request.Header.{is_well_formed, parse_headers-append}
use colorlight_i9_abletonlin.Http.Server.{
  Served, waiting, answered, dropped, append_segment, on_recv,
}

parse_headers_buf : (cs : Conn) → (parse_headers cs).buf ≡ cs.buf
unfolding parse_headers
parse_headers_buf cs = elim (Option-cases (find_text blank_line (c_string cs.buf))) [
  | inl e ↦ rw e refl
  | inr (e, h) ↦ rw h refl
]

append_segment-buf : (xs : List ℕ) (cs : Conn) → (append_segment xs cs).buf ≡ cs.buf ++ xs
append_segment-buf xs cs = elim (Bool-cases cs.have_headers) [
  | inl known ↦ rw known refl
  | inr not_known ↦ rw not_known (parse_headers_buf _)
]

-- Behind whole headers the bytes are appended.
append_segment_known :
    (ys : List ℕ) (cs : Conn)
    → cs.have_headers ≡ true
    → append_segment ys cs ≡ record cs { buf = cs.buf ++ ys }
append_segment_known ys cs h = rw h refl

parse_headers-none :
    (cs : Conn) → find_text blank_line (c_string cs.buf) ≡ none → parse_headers cs ≡ cs
unfolding parse_headers
parse_headers-none cs h = rw h refl

parse_headers-some :
    (cs : Conn) (e : ℕ)
    → find_text blank_line (c_string cs.buf) ≡ some e
    → (parse_headers cs).have_headers ≡ true
unfolding parse_headers
parse_headers-some cs e h = rw h refl

append_segment-append_new :
    (xs ys buf : List ℕ) (l o : ℕ)
    → is_well_formed (buf ++ (xs ++ ys)) ≡ true
    → let cs : Conn = record {
      buf = buf;
      have_headers = false;
      content_length = l;
      body_offset = o;
    } in
      append_segment ys (append_segment xs cs) ≡ append_segment (xs ++ ys) cs
append_segment-append_new xs ys buf l o w =
    let cs1 : Conn = record {
      buf = buf ++ xs;
      have_headers = false;
      content_length = l;
      body_offset = o;
    } in
    let whole : (buf ++ xs) ++ ys ≡ buf ++ (xs ++ ys) = append_assoc buf xs ys in
    elim (Option-cases (find_text blank_line (c_string (buf ++ xs)))) [
      | inl e ↦ rw (parse_headers-none cs1 e, whole) refl
      | inr (e, h) ↦
          append_segment_known ys (parse_headers cs1) (parse_headers-some cs1 e h)
          ∙ (ap (λ b. record (parse_headers cs1) { buf = b ++ ys }) (parse_headers_buf cs1)
              ∙ (sym (parse_headers-append cs1 ys e h (rw whole w))
                  ∙ ap (λ b. parse_headers (record cs1 { buf = b })) whole))
    ]

append_segment-append :
    (xs ys : List ℕ) (cs : Conn)
    → is_well_formed (cs.buf ++ (xs ++ ys)) ≡ true
    → append_segment ys (append_segment xs cs) ≡ append_segment (xs ++ ys) cs
append_segment-append xs ys cs w = elim (Bool-cases cs.have_headers) [
  | inl known ↦ rw (known, append_assoc cs.buf xs ys) refl
  | inr not_known ↦
      let e : cs ≡ record cs { have_headers = false } =
        ap (λ (b : Bool). record cs { have_headers = b }) not_known in
      subst (λ c. append_segment ys (append_segment xs c) ≡ append_segment (xs ++ ys) c) (sym e)
        (append_segment-append_new xs ys cs.buf cs.content_length cs.body_offset w)
]

-- What a segment that leaves the connection waiting tells.
record Waits {S : Type 0} (routes : List (Route S)) (xs : List ℕ) (cs cs' : Conn) (s s' : S)
    : Type 0 where
  pub fits : ltb req_buf_max (length cs.buf + length xs) ≡ false
  pub conn : cs' ≡ append_segment xs cs
  pub state : s' ≡ s

module _ {S : Type 0} (routes : List (Route S)) where
  on_recv-Waits :
      (xs : List ℕ) (cs cs' : Conn) (s s' : S)
      → on_recv routes (some xs) cs s ≡ (waiting cs', s')
      → Waits routes xs cs cs' s s'
  unfolding on_recv
  on_recv-Waits xs cs cs' s s' h = elim (Bool-cases (ltb req_buf_max (length cs.buf + length xs))) [
    | inl long ↦ absurd (let q = rw long at h in cc)
    | inr fits ↦ elim (Bool-cases (request_complete (append_segment xs cs))) [
      | inl whole ↦ absurd (let q = rw (fits, whole) at h in cc)
      | inr part ↦ let q = rw (fits, part) at h in record { fits = fits; conn = cc; state = cc }
    ]
  ]

  on_recv-append :
      (xs ys : List ℕ) (cs cs' : Conn) (s s' : S)
      → on_recv routes (some xs) cs s ≡ (waiting cs', s')
      → is_well_formed (cs.buf ++ (xs ++ ys)) ≡ true
      → on_recv routes (some ys) cs' s' ≡ on_recv routes (some (xs ++ ys)) cs s
  on_recv-append xs ys cs cs' s s' h w =
      let v = on_recv-Waits xs cs cs' s s' h in
      let added = append_segment-append xs ys cs w in
      let sizes : length (append_segment xs cs).buf + length ys
          ≡ length cs.buf + length (xs ++ ys) =
        omega (
          arith,
          ap length (append_segment-buf xs cs),
          length-append cs.buf xs,
          length-append xs ys,
        ) in
      rw (v.conn, v.state) (unfold on_recv in rw (sizes, added) refl)

  -- The segments in turn, while the connection waits.
  abbrev pub and_then : Served × S → (Conn → S → Served × S) → Served × S
  and_then (waiting cs, s) more = more cs s
  and_then (answered out, s) more = (answered out, s)
  and_then (dropped, s) more = (dropped, s)

  abbrev pub feed : List (List ℕ) → Conn → S → Served × S
  feed [] cs s = (waiting cs, s)
  feed (p ∷ ps) cs s = and_then (on_recv routes (some p) cs s) (λ cs' s'. feed ps cs' s')

  -- Whatever segments a request arrives in: if the connection still waits when all but the last of
  -- them are in, the last makes of it what the whole request does in one segment, with the same bytes
  -- sent and the same change of state. A Content-Length of the headers has something else than
  -- spaces behind its colon.
  pub feed-joined :
      (ps : List (List ℕ)) (last : List ℕ) (cs cs' : Conn) (s s' : S)
      → feed ps cs s ≡ (waiting cs', s')
      → is_well_formed (cs.buf ++ (joined ps ++ last)) ≡ true
      → on_recv routes (some last) cs' s' ≡ on_recv routes (some (joined ps ++ last)) cs s
  feed-joined [] last cs cs' s s' h w =
      let e : cs ≡ cs' = cc in let e' : s ≡ s' = cc in rw (e, e') refl
  feed-joined (p ∷ ps) last cs cs' s s' h w =
      go (feed-joined ps last) (on_recv routes (some p) cs s) refl h
    where
      go :
          ((c c' : Conn) (t t' : S)
            → feed ps c t ≡ (waiting c', t')
            → is_well_formed (c.buf ++ (joined ps ++ last)) ≡ true
            → on_recv routes (some last) c' t' ≡ on_recv routes (some (joined ps ++ last)) c t)
          → (r : Served × S) → on_recv routes (some p) cs s ≡ r
          → and_then r (λ c t. feed ps c t) ≡ (waiting cs', s')
          → on_recv routes (some last) cs' s'
            ≡ on_recv routes (some ((p ++ joined ps) ++ last)) cs s
      go ih (answered out, s1) e h = absurd (cc)
      go ih (dropped, s1) e h = absurd (cc)
      go ih (waiting cs1, s1) e h =
          let whole = append_assoc p (joined ps) last in
          let w1 : is_well_formed (cs.buf ++ (p ++ (joined ps ++ last))) ≡ true = rw whole at w in
          let buf : cs1.buf ≡ cs.buf ++ p =
            ap (λ (c : Conn). c.buf) (on_recv-Waits p cs cs1 s s1 e).conn
            ∙ append_segment-buf p cs in
          let w2 : is_well_formed (cs1.buf ++ (joined ps ++ last)) ≡ true =
            rw (buf, append_assoc cs.buf p (joined ps ++ last)) w1 in
          rw whole (ih cs1 cs' s1 s' h w2 ∙ on_recv-append p (joined ps ++ last) cs cs1 s s1 e w1)
