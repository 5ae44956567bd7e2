-- ===== src/Invariant/Heard.antt =====
-- A Link-Audio datagram, from `link_audio_handle_rx` of firmware/link_audio.c on: it returns, and keeps
-- the tables in order.
use colorlight_i9_abletonlin.Base.{
  ℕ, ◌+◌, ◌⊎◌, ==→eq, ◌*◌, ◌^◌, ◌<◌, ◌≡◌, inl, inr, refl, arith, Bool, true, false, not, List, [],
  ◌∷◌, Option, none, some, Bool-cases, ltb, ◌==◌, if◌then◌else◌, same, length, take, drop, All,
}
use colorlight_i9_abletonlin.Types.{LinkId, zero_id}
use colorlight_i9_abletonlin.Device.{Device, Env}
use colorlight_i9_abletonlin.Wire.{Walk, ret, fault, running, byte_at, be32}
use colorlight_i9_abletonlin.Wire.Total.{NoWrap, Returns, tlv_walk-Returns}
use colorlight_i9_abletonlin.Wire.Visits.{Holds, Each, tlv_walk-Holds}
use colorlight_i9_abletonlin.Audio.{Local, Sub, Audio}
use colorlight_i9_abletonlin.Audio.Catalog.{proto_audio}
use colorlight_i9_abletonlin.Audio.Announce.{send_pong}
use colorlight_i9_abletonlin.Audio.Packets.Safety.{Heard, handle_audio_buffer-Heard}
use colorlight_i9_abletonlin.Audio.Subscribers.{
  add_subscriber, remove_subscriber, with_local_channel, is_channel, requested, change_channel,
  handle_chid_entry, handle_channel_request,
}
use colorlight_i9_abletonlin.Audio.Subscribers.Laws.{
  IsTable, add_subscriber_lem, remove_subscriber_lem,
}
use colorlight_i9_abletonlin.Audio.Receive.{
  Tables, AnnCtx, ann_handler, handle_aucb_entry, answer_announcement, forgotten, with_locals,
  with_subs, audio_message, link_audio_handle_rx,
}
use colorlight_i9_abletonlin.Invariant.Sound.{
  IsSound, Keeps, SaneEntry, Forgets, handle_aucb_entry-Forgets, Hears, ann_handler-Hears,
}

-- The handler returned with its tables in order, and left the peers and the measurement alone.
abbrev pub Returned : Device → Option (Audio × Device) → Type 0
Returned d none = ⊥
Returned d (some (a, d')) = IsSound a × Keeps d d'

Returned-if :
    (d : Device) (b : Bool) (x y : Option (Audio × Device))
    → (b ≡ true → Returned d x)
    → (b ≡ false → Returned d y)
    → Returned d (if b then x else y)
Returned-if d true x y hx hy = hx refl
Returned-if d false x y hx hy = hy refl

Keeps-refl : (d : Device) → Keeps d d
Keeps-refl d = record { peers = refl; meas = refl }

IsTable-if : (b : Bool) (c c' : Local) → IsTable c → IsTable c' → IsTable (if b then c else c')
IsTable-if true c c' h h' = h
IsTable-if false c c' h h' = h'

requested-IsTable :
    (mtype : ℕ) (requester : LinkId) (addr port : ℕ) (c : Local)
    → IsTable c
    → IsTable (requested mtype requester addr port c)
requested-IsTable mtype requester addr port c t =
    IsTable-if (mtype == 4) (add_subscriber requester addr port c) (remove_subscriber addr port c)
      (add_subscriber_lem requester addr port (c.num_subscribers + 1) c t (omega arith)).0
      (remove_subscriber_lem addr port c t).0

with_local_channel-IsTable :
    (cid : LinkId) (f : Local → Local) (cs : List Local)
    → ((c : Local) → IsTable c → IsTable (f c))
    → All IsTable cs
    → All IsTable (with_local_channel cid f cs)
unfolding with_local_channel
with_local_channel-IsTable cid f [] keeps h = tt
with_local_channel-IsTable cid f (c ∷ cs) keeps (h, hs) = elim (Bool-cases (is_channel cid c)) [
  | inl hit ↦ rw hit (keeps c h, hs)
  | inr miss ↦ rw miss (h, with_local_channel-IsTable cid f cs keeps hs)
]

-- Announcements and ChannelByes.
abbrev pub IsLearned : ℕ → Type 0
IsLearned mtype = (mtype ≡ 1) ⊎ (mtype ≡ 2)

-- The types whose entries are walked: these, and the requests.
abbrev pub IsWalked : ℕ → Type 0
IsWalked mtype = IsLearned mtype ⊎ (mtype ≡ 4) ⊎ (mtype ≡ 5)

-- What a Link-Audio datagram must not do: carry a size, a name's length or a number of chunks or ids
-- that wraps round 32 bits, where its type has them.
pub record IsAudioSane (base : ℕ) (buf : List ℕ) : Type 0 where
  pub sizes : IsWalked (byte_at buf 8) → NoWrap (base + 20) (drop 20 buf)
  pub entries : IsLearned (byte_at buf 8) → Each SaneEntry (drop 20 buf)
  pub chunks : byte_at buf 8 ≡ 6 → be32 (drop 16 (drop 20 buf)) * 26 < 2 ^ 32

module _ (env : Env) (base : ℕ) (body sender : List ℕ) (src_addr src_port : ℕ) (a : Audio)
    (d : Device) (sound : IsSound a) where
  answer-Returned :
      (w : Walk (Option AnnCtx))
      → Holds (Hears d) w
      → Returned d (answer_announcement src_addr src_port a w)
  answer-Returned fault h = h
  answer-Returned running h = h
  answer-Returned (ret code none) h = h
  answer-Returned (ret code (some ctx)) h = elim (Bool-cases ctx.have_ping) [
    | inl ping ↦ rw ping (
      record { rings = sound.rings; captures = sound.captures; tables = sound.tables },
      unfold send_pong in record { peers = h.peers; meas = h.meas },
    )
    | inr quiet ↦
        rw quiet
          (record { rings = sound.rings; captures = sound.captures; tables = sound.tables }, h)
  ]

  forgotten-Returned : (w : Walk (Option Tables)) → Holds Forgets w → Returned d (forgotten a d w)
  forgotten-Returned fault h = h
  forgotten-Returned running h = h
  forgotten-Returned (ret code none) h = h
  forgotten-Returned (ret code (some (rs, ss))) h =
      (record { rings = h; captures = sound.captures; tables = sound.tables }, Keeps-refl d)

  changed-Returned :
      (mtype : ℕ) (w : Walk LinkId)
      → Returns w
      → Returned d (with_locals a d (change_channel mtype sender src_addr src_port a.locals w))
  changed-Returned mtype fault h = h
  changed-Returned mtype running h = h
  changed-Returned mtype (ret code cid) h = (
    record {
      rings = sound.rings;
      captures = sound.captures;
      tables =
          with_local_channel-IsTable cid (requested mtype sender src_addr src_port) a.locals
            (requested-IsTable mtype sender src_addr src_port) sound.tables;
    },
    Keeps-refl d,
  )

  request-Returned :
      (mtype : ℕ)
      → NoWrap base body
      → Returned d (
          with_locals a d
            (handle_channel_request mtype sender src_addr src_port base body a.locals))
  unfolding handle_channel_request
  request-Returned mtype sizes =
      changed-Returned mtype _ (tlv_walk-Returns base body handle_chid_entry zero_id sizes)

  subs-Returned : (o : Option (List Sub)) → Heard o → Returned d (with_subs a d o)
  subs-Returned none h = h
  subs-Returned (some ss) h =
      (record { rings = h; captures = sound.captures; tables = sound.tables }, Keeps-refl d)

  message-Returned :
      (mtype : ℕ)
      → (IsWalked mtype → NoWrap base body)
      → (IsLearned mtype → Each SaneEntry body)
      → (mtype ≡ 6 → be32 (drop 16 body) * 26 < 2 ^ 32)
      → Returned d (audio_message env mtype base sender body src_addr src_port a d)
  unfolding audio_message
  message-Returned mtype sizes entries chunks =
      Returned-if d (mtype == 1) _ _
        (λ is. answer-Returned _ (
          tlv_walk-Holds SaneEntry (Hears d) base body (ann_handler env) _ (ann_handler-Hears env d)
            (sizes (inl (inl (==→eq mtype 1 is)))) (entries (inl (==→eq mtype 1 is)))
            (Keeps-refl d)))
        (λ _.
          Returned-if d (mtype == 2) _ _
            (λ is. forgotten-Returned _ (
              tlv_walk-Holds SaneEntry Forgets base body handle_aucb_entry _
                handle_aucb_entry-Forgets (sizes (inl (inr (==→eq mtype 2 is))))
                (entries (inr (==→eq mtype 2 is))) sound.rings))
            (λ _.
              Returned-if d (mtype == 4) _ _
                (λ is. request-Returned mtype (sizes (inr (inl (==→eq mtype 4 is)))))
                (λ _.
                  Returned-if d (mtype == 5) _ _
                    (λ is. request-Returned mtype (sizes (inr (inr (==→eq mtype 5 is)))))
                    (λ _.
                      Returned-if d (mtype == 6) _ _
                        (λ is. subs-Returned _ (
                          handle_audio_buffer-Heard d.self_session body a.subs
                            (chunks (ground arith)) sound.rings))
                        (λ _. (sound, Keeps-refl d))))))

pub link_audio_handle_rx-Returned :
    (env : Env) (base : ℕ) (buf : List ℕ) (src_addr src_port : ℕ) (a : Audio) (d : Device)
    → IsSound a
    → IsAudioSane base buf
    → Returned d (link_audio_handle_rx env base buf src_addr src_port a d)
unfolding link_audio_handle_rx
link_audio_handle_rx-Returned env base buf src_addr src_port a d sound sane =
    let same_state : Returned d (some (a, d)) = (sound, Keeps-refl d) in
    Returned-if d (ltb (length buf) 20) _ _ (λ _. same_state)
      (λ _.
        Returned-if d (not (same (take 8 buf) proto_audio)) _ _ (λ _. same_state)
          (λ _.
            Returned-if d (same (take 8 (drop 12 buf)) d.self_id) _ _ (λ _. same_state)
              (λ _.
                message-Returned env (base + 20) (drop 20 buf) (take 8 (drop 12 buf)) src_addr
                  src_port a d sound (byte_at buf 8) sane.sizes sane.entries sane.chunks)))
