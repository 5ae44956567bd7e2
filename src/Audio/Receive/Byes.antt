-- ===== src/Audio/Receive/Byes.antt =====
-- What a ChannelByes does to the catalog and the subscriptions of firmware/link_audio.c.
use colorlight_i9_abletonlin.Base.{
  ℕ, ◌+◌, ◌-◌, ◌*◌, ◌^◌, ◌%◌, ◌<◌, ◌≡◌, ◌∙◌, refl, ap, ap₂, arith, Bool, false, ◌&&◌, ◌||◌, List,
  [], ◌∷◌, ◌++◌, append-nil, some, ltb, le→ltb, same, same_refl, if◌then◌else◌, length,
  length-append, take, drop, take_front, drop_front, All,
}
use colorlight_i9_abletonlin.Types.{LinkId}
use colorlight_i9_abletonlin.Device.{Device, Env}
use colorlight_i9_abletonlin.Wire.{be32, put_be32, key_aucb}
use colorlight_i9_abletonlin.Wire.Bytes.{be32-put_be32, drop-put_be32, length-put_be32}
use colorlight_i9_abletonlin.Wire.Entries.{Entry, emit_all}
use colorlight_i9_abletonlin.Wire.Laws.{tlv_walk-emit_all}
use colorlight_i9_abletonlin.Audio.{Remote, Sub, Audio}
use colorlight_i9_abletonlin.Audio.Catalog.{proto_audio, encode_audio_header}
use colorlight_i9_abletonlin.Audio.Catalog.Header.{encode_audio_header_lem}
use colorlight_i9_abletonlin.Audio.Receive.{
  drop_remotes, drop_subs, forget_channels, handle_aucb_entry, audio_message, link_audio_handle_rx,
}

abbrev pub listed : LinkId → List LinkId → Bool
listed cid [] = false
listed cid (id ∷ ids) = same cid id || listed cid ids

-- Every entry in use with an id of the list is given up, and no other.
abbrev pub without_remotes : List LinkId → List Remote → List Remote
without_remotes ids [] = []
without_remotes ids (r ∷ rs) =
    (if r.in_use && listed r.channel_id ids then record r { in_use = false } else r)
    ∷ without_remotes ids rs

abbrev pub without_subs : List LinkId → List Sub → List Sub
without_subs ids [] = []
without_subs ids (s ∷ ss) =
    (if s.in_use && listed s.channel_id ids then record s { in_use = false } else s)
    ∷ without_subs ids ss

without_no_remotes : (rs : List Remote) → without_remotes [] rs ≡ rs
without_no_remotes [] = refl
without_no_remotes (r ∷ rs) = ground (arith, without_no_remotes rs)

without_no_subs : (ss : List Sub) → without_subs [] ss ≡ ss
without_no_subs [] = refl
without_no_subs (s ∷ ss) = ground (arith, without_no_subs ss)

without-drop_remotes :
    (id : LinkId) (ids : List LinkId) (rs : List Remote)
    → without_remotes ids (drop_remotes id rs) ≡ without_remotes (id ∷ ids) rs
unfolding drop_remotes
without-drop_remotes id ids [] = refl
without-drop_remotes id ids (r ∷ rs) = ground (arith, without-drop_remotes id ids rs)

without-drop_subs :
    (id : LinkId) (ids : List LinkId) (ss : List Sub)
    → without_subs ids (drop_subs id ss) ≡ without_subs (id ∷ ids) ss
unfolding drop_subs
without-drop_subs id ids [] = refl
without-drop_subs id ids (s ∷ ss) = ground (arith, without-drop_subs id ids ss)

abbrev pub joined : List LinkId → List ℕ
joined [] = []
joined (id ∷ ids) = id ++ joined ids

length-joined :
    (ids : List LinkId) → All (λ id. length id ≡ 8) ids → length (joined ids) ≡ length ids * 8
length-joined [] h = omega arith
length-joined (id ∷ ids) (h, hs) =
    omega (arith, length-append id (joined ids), length-joined ids hs, h)

forget_channels-joined :
    (ids : List LinkId) (rs : List Remote) (ss : List Sub)
    → All (λ id. length id ≡ 8) ids
    → forget_channels (length ids) (joined ids) (rs, ss)
      ≡ some (without_remotes ids rs, without_subs ids ss)
unfolding forget_channels
forget_channels-joined [] rs ss h = rw (without_no_remotes rs, without_no_subs ss) refl
forget_channels-joined (id ∷ ids) rs ss (h, hs) =
    let front : take 8 (id ++ joined ids) ≡ id = take_front 8 id (joined ids) h in
    let behind : drop 8 (id ++ joined ids) ≡ joined ids = drop_front 8 id (joined ids) h in
    let long : ltb (length (id ++ joined ids)) 8 ≡ false =
      le→ltb _ _ (omega (arith, length-append id (joined ids))) in
    rw (long, front, behind)
      (forget_channels-joined ids (drop_remotes id rs) (drop_subs id ss) hs
        ∙ ap some (
            ap₂ (λ (x : List Remote) (y : List Sub). (x, y)) (without-drop_remotes id ids rs)
              (without-drop_subs id ids ss)))

-- The message: the header, and one entry with the number of ids and the ids.
abbrev pub byes_entry : List LinkId → Entry
byes_entry ids = record { key = key_aucb; value = put_be32 (length ids) ++ joined ids }

abbrev pub byes : Device → List LinkId → List ℕ
byes sender ids = encode_audio_header sender 2 0 ++ emit_all (byes_entry ids ∷ [])

-- A ChannelByes of another device gives up every announced channel and every subscription whose id
-- it lists, and changes nothing else, the subscribers of the local channels included. The ids have eight bytes, and the message lies below the last
-- addresses.
pub link_audio_handle_rx-byes :
    (env : Env) (sender : Device) (ids : List LinkId) (base addr port : ℕ) (a : Audio) (d : Device)
    → length sender.self_id ≡ 8
    → All (λ id. length id ≡ 8) ids
    → same sender.self_id d.self_id ≡ false
    → base + length ids * 8 + 40 < 2 ^ 32
    → link_audio_handle_rx env base (byes sender ids) addr port a d
      ≡ some
          (record a { remotes = without_remotes ids a.remotes; subs = without_subs ids a.subs }, d)
unfolding link_audio_handle_rx audio_message handle_aucb_entry
link_audio_handle_rx-byes env sender ids base addr port a d id_size sizes other room =
    let es : List Entry = byes_entry ids ∷ [] in
    let ids_size = length-joined ids sizes in
    let value_size : length (put_be32 (length ids) ++ joined ids) ≡ 4 + length ids * 8 = omega (
      arith,
      length-append (put_be32 (length ids)) (joined ids),
      length-put_be32 (length ids),
      ids_size,
    ) in
    let h = encode_audio_header_lem sender 2 0 (emit_all es) id_size in
    let size : length (emit_all es) ≡ 12 + length ids * 8 =
      simp (append-nil, length-append, length-put_be32, ids_size) (omega arith) in
    let long : ltb (length (encode_audio_header sender 2 0 ++ emit_all es)) 20 ≡ false =
      le→ltb _ _ (omega (arith, h.4)) in
    let walked =
      tlv_walk-emit_all (base + 20) handle_aucb_entry (some (a.remotes, a.subs)) es (omega arith)
        (omega (arith, size)) in
    let count : be32 (put_be32 (length ids) ++ joined ids) ≡ length ids =
      be32-put_be32 (length ids) (joined ids) (omega arith) in
    let t1 : ltb (length (put_be32 (length ids) ++ joined ids)) 4 ≡ false =
      le→ltb _ _ (omega (arith, value_size)) in
    let t2 : ltb (length (put_be32 (length ids) ++ joined ids) - 4) (length ids * 8 % 2 ^ 32)
        ≡ false =
      le→ltb _ _ (omega (arith, value_size)) in
    rw (long, h.0, same_refl proto_audio, h.2, other, h.1, h.3, walked)
      (rw
        (
          t1,
          count,
          t2,
          drop-put_be32 (length ids) (joined ids),
          forget_channels-joined ids a.remotes a.subs sizes,
        )
        refl)
