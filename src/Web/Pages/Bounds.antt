-- ===== src/Web/Pages/Bounds.antt =====
-- firmware/webui.c: the list of channels fits the buffer that it is written to.
use colorlight_i9_abletonlin.Base.{
  ◌⊎◌, ltb→le, ◌*◌, ◌∙◌, sym, append_assoc, append-nil, lt→ltb, if◌then◌else◌, ℕ, ◌+◌, ◌-◌, ◌≤◌,
  ◌<◌, ◌≡◌, ap, arith, Bool, true, false, List, [], ◌∷◌, ◌++◌, Bool-cases, inl, inr, ltb, ltb→lt,
  length, length-append, take, take_long, All,
}
use colorlight_i9_abletonlin.Base.Text.{codes, concat}
use colorlight_i9_abletonlin.Audio.{Remote}
use colorlight_i9_abletonlin.Http.{Response}
use colorlight_i9_abletonlin.Web.{Web}
use colorlight_i9_abletonlin.Web.Ids.{node_id_hex, length-hex_bytes}
use colorlight_i9_abletonlin.Web.Pages.{
  resp_buf_size, quoted, channel_json, channels_json, serve_channels,
}

-- Ids of eight bytes and a name that fits its array.
pub record IsListed (r : Remote) : Type 0 where
  pub id : length r.channel_id ≡ 8
  pub peer : length r.peer_id ≡ 8
  pub name : length r.name < 32

length-quoted : (s : List ℕ) → length (quoted s) ≡ 2 + length s
length-quoted s = omega (arith, length-append s (b'"' ∷ []))

length-channel_json : (first : Bool) (r : Remote) → IsListed r → length (channel_json first r) ≤ 93
length-channel_json true r w = omega (
  arith,
  length-append (quoted (node_id_hex r.channel_id)) (
      concat (
        codes ",\"name\":"
        ∷ quoted r.name
        ∷ codes ",\"peer\":"
        ∷ quoted (node_id_hex r.peer_id)
        ∷ codes "}"
        ∷ [])),
  length-append (quoted r.name)
      (concat (codes ",\"peer\":" ∷ quoted (node_id_hex r.peer_id) ∷ codes "}" ∷ [])),
  length-append (quoted (node_id_hex r.peer_id)) (concat (codes "}" ∷ [])),
  length-quoted (node_id_hex r.channel_id),
  length-quoted r.name,
  length-quoted (node_id_hex r.peer_id),
  length-hex_bytes r.channel_id,
  length-hex_bytes r.peer_id,
  w.id,
  w.peer,
  w.name,
)
length-channel_json false r w = omega (
  arith,
  length-append (quoted (node_id_hex r.channel_id)) (
      concat (
        codes ",\"name\":"
        ∷ quoted r.name
        ∷ codes ",\"peer\":"
        ∷ quoted (node_id_hex r.peer_id)
        ∷ codes "}"
        ∷ [])),
  length-append (quoted r.name)
      (concat (codes ",\"peer\":" ∷ quoted (node_id_hex r.peer_id) ∷ codes "}" ∷ [])),
  length-append (quoted (node_id_hex r.peer_id)) (concat (codes "}" ∷ [])),
  length-quoted (node_id_hex r.channel_id),
  length-quoted r.name,
  length-quoted (node_id_hex r.peer_id),
  length-hex_bytes r.channel_id,
  length-hex_bytes r.peer_id,
  w.id,
  w.peer,
  w.name,
)

channels_json-le :
    (rs : List Remote) (first : Bool) (text : List ℕ)
    → All IsListed rs
    → length text ≤ 3997
    → length (channels_json rs first text) ≤ 3997
unfolding channels_json
channels_json-le [] first text w h = h
channels_json-le (r ∷ rs) first text (w, ws) h =
    elim (Bool-cases (ltb (length text) (resp_buf_size - 192))) [
      | inl room ↦ rw room (
          channels_json-le rs _ _ ws (elim (Bool-cases r.in_use) [
            | inl used ↦ rw used (
                omega (
                  arith,
                  length-append text (channel_json first r),
                  length-channel_json first r w,
                  ltb→lt (length text) (resp_buf_size - 192) room,
                ))
            | inr idle ↦ rw idle h
          ]))
      | inr full ↦ rw full h
    ]

-- The text of a channel, and of a list of them with commas between.
abbrev pub channel_text : Remote → List ℕ
channel_text r = concat (
    codes "{\"id\":"
    ∷ quoted (node_id_hex r.channel_id)
    ∷ codes ",\"name\":"
    ∷ quoted r.name
    ∷ codes ",\"peer\":"
    ∷ quoted (node_id_hex r.peer_id)
    ∷ codes "}"
    ∷ [])

-- The channels in use, in the order of the catalog.
abbrev pub in_use_texts : List Remote → List (List ℕ)
in_use_texts [] = []
in_use_texts (r ∷ rs) = if r.in_use then channel_text r ∷ in_use_texts rs else in_use_texts rs

abbrev pub more : List (List ℕ) → List ℕ
more [] = []
more (t ∷ ts) = b',' ∷ (t ++ more ts)

abbrev pub with_commas : Bool → List (List ℕ) → List ℕ
with_commas false ts = more ts
with_commas true [] = []
with_commas true (t ∷ ts) = t ++ more ts

with_commas-cons :
    (first : Bool) (text : List ℕ) (r : Remote) (ts : List (List ℕ))
    → (text ++ channel_json first r) ++ more ts ≡ text ++ with_commas first (channel_text r ∷ ts)
with_commas-cons true text r ts = append_assoc text (channel_text r) (more ts)
with_commas-cons false text r ts = append_assoc text (b',' ∷ channel_text r) (more ts)

channels_json-in_use :
    (rs : List Remote) (first : Bool) (text : List ℕ)
    → All IsListed rs
    → length text + 93 * length (in_use_texts rs) < 3904
    → channels_json rs first text ≡ text ++ with_commas first (in_use_texts rs)
unfolding channels_json
channels_json-in_use [] true text w h = sym (append-nil text)
channels_json-in_use [] false text w h = sym (append-nil text)
channels_json-in_use (r ∷ rs) first text (w, ws) h =
    let room : ltb (length text) (resp_buf_size - 192) ≡ true = lt→ltb _ _ (omega arith) in
    elim (Bool-cases r.in_use) [
      | inl used ↦
          let size : length (text ++ channel_json first r) ≤ length text + 93 =
            omega
              (arith, length-append text (channel_json first r), length-channel_json first r w) in
          let fewer : length text + 93 * (length (in_use_texts rs) + 1) < 3904 =
            omega (arith, rw used at h) in
          let ih = channels_json-in_use rs false (text ++ channel_json first r) ws (omega arith) in
          rw (room, used) (ih ∙ with_commas-cons first text r (in_use_texts rs))
      | inr idle ↦ rw (room, idle) (channels_json-in_use rs first text ws (rw idle at h))
    ]

-- The list of channels fits the response buffer with its terminating zero, and its length is that of the
-- body; unless more than 41 entries of the catalog are in use, it is every one of them, in their order,
-- with commas between and nothing cut off. The entries have ids of eight bytes and names of less than 32
-- characters.
pub serve_channels_lem :
    (path body : List ℕ) (blen : ℕ) (resp : Response) (w : Web)
    → All IsListed w.audio.remotes
    → let r = (serve_channels path body blen resp w).0 in
      (r.body_len < resp_buf_size)
      × (length r.body ≡ r.body_len)
      × (41 < length (in_use_texts w.audio.remotes)
          ⊎ (r.body
              ≡ (codes "{\"channels\":[" ++ with_commas true (in_use_texts w.audio.remotes))
                ++ codes "]}"))
unfolding serve_channels
serve_channels_lem path body blen resp w h =
    let start : List ℕ = codes "{\"channels\":[" in
    let text : List ℕ = channels_json w.audio.remotes true start ++ codes "]}" in
    let n : length text ≤ 3999 = omega (
      arith,
      length-append (channels_json w.audio.remotes true start) (codes "]}"),
      channels_json-le w.audio.remotes true start h (omega arith),
    ) in
    let whole : take 4095 text ≡ text = take_long 4095 text (omega arith) in
    (
      omega arith,
      ap length whole,
      elim (Bool-cases (ltb 41 (length (in_use_texts w.audio.remotes)))) [
        | inl many ↦ inl (ltb→lt _ _ many)
        | inr few ↦
            let n41 = ltb→le 41 (length (in_use_texts w.audio.remotes)) few in
            inr (
              whole
              ∙ ap (λ (t : List ℕ). t ++ codes "]}")
                  (channels_json-in_use w.audio.remotes true start h (omega arith)))
      ],
    )
