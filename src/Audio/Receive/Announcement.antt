-- ===== src/Audio/Receive/Announcement.antt =====
-- What a device learns from an announcement that another device's firmware/link_audio.c has sent.
use colorlight_i9_abletonlin.Base.{
  ℕ, suc, ◌+◌, ◌-◌, ◌^◌, ◌≤◌, ◌<◌, ◌≡◌, ◌≢◌, refl, ap, arith, true, false, List, [], ◌∷◌, ◌++◌,
  append_assoc, append-nil, some, Bool-cases, inl, inr, ltb, leb, le→ltb, same, same_refl, ◌==◌,
  if◌then◌else◌, length, length-append, take, drop, take_exact, take_front, drop_front, All,
}
use colorlight_i9_abletonlin.Base.Text.{c_string}
use colorlight_i9_abletonlin.Device.{Device, Datagram, v4_unicast, Env, host_time_us}
use colorlight_i9_abletonlin.Wire.{
  be32, be64, put_be32, put_be64, key_sess, key_pi, key_auca, key_ht, tlv_emit_bytes,
  tlv_emit_u64be, tlv_emit_header,
}
use colorlight_i9_abletonlin.Wire.Bytes.{
  be32-put_be32, drop-put_be32, length-put_be32, length-put_be64, be64-put_be64,
}
use colorlight_i9_abletonlin.Wire.Entries.{Entry, emit_all, deliver}
use colorlight_i9_abletonlin.Wire.Laws.{
  tlv_emit_header-append, tlv_emit_u64be-append, tlv_walk-emit_all,
}
use colorlight_i9_abletonlin.Audio.{Local, Remote, Audio}
use colorlight_i9_abletonlin.Audio.Receive.Store.{
  knowing, store_one, store_all, learn_channel-store_one,
}
use colorlight_i9_abletonlin.Audio.Catalog.{proto_audio, encode_audio_header}
use colorlight_i9_abletonlin.Audio.Catalog.Header.{encode_audio_header_lem}
use colorlight_i9_abletonlin.Audio.Announce.{
  peer_name, put_channel, channels_size, channels_count, put_channels, encode_channels,
  encode_peer_announcement, send_pong,
}
use colorlight_i9_abletonlin.Audio.Receive.{
  AnnCtx, clip_name, copy_name, learn_channel, learn_channels, ann_handler, ann_start,
  audio_message, link_audio_handle_rx,
}

-- A name that fits its array, without a zero, and an id of eight bytes.
pub record IsNamed (c : Local) : Type 0 where
  pub id : length c.channel_id ≡ 8
  pub short : length c.name < 32
  pub text : All (λ x. x ≢ 0) c.name

c_string_text : (xs : List ℕ) → All (λ x. x ≢ 0) xs → c_string xs ≡ xs
c_string_text [] h = refl
c_string_text (x ∷ xs) (h, hs) =
    let no : (x == 0) ≡ false = ground arith in rw (no, c_string_text xs hs) refl

length-put_channels :
    (cs : List Local) → All IsNamed cs → length (put_channels cs) ≡ channels_size cs
unfolding put_channels channels_size
length-put_channels [] h = refl
length-put_channels (c ∷ cs) (w, ws) =
    let ih = length-put_channels cs ws in
    elim (Bool-cases c.in_use) [
      | inl used ↦
          rw (used, take_exact 8 c.channel_id w.id)
            (omega (
              arith,
              length-append (put_be32 (length c.name) ++ (c.name ++ c.channel_id))
                  (put_channels cs),
              length-append (put_be32 (length c.name)) (c.name ++ c.channel_id),
              length-append c.name c.channel_id,
              length-put_be32 (length c.name),
              w.id,
            ))
      | inr idle ↦ rw idle (omega arith)
    ]

count-le : (cs : List Local) → channels_count cs ≤ channels_size cs
unfolding channels_count channels_size
count-le [] = omega arith
count-le (c ∷ cs) = ground (arith, count-le cs)

module _ (env : Env) where
  -- The channels in use, one after the other.
  abbrev pub learn_all : List Local → AnnCtx → AnnCtx
  learn_all [] ctx = ctx
  learn_all (c ∷ cs) ctx =
      learn_all cs (if c.in_use then learn_channel env c.name c.channel_id ctx else ctx)

  learn_one :
      (c : Local) (left n : ℕ) (more : List ℕ) (ctx : AnnCtx)
      → IsNamed c
      → n ≡ 12 + length c.name + length more
      → learn_channels env (suc left) (put_channel c ++ more) n ctx
        ≡ learn_channels env left more (length more) (learn_channel env c.name c.channel_id ctx)
  unfolding learn_channels
  learn_one c left n more ctx w size =
      let body : List ℕ = c.name ++ (c.channel_id ++ more) in
      let split : put_channel c ++ more ≡ put_be32 (length c.name) ++ body =
        rw (take_exact 8 c.channel_id w.id) (simp append_assoc) in
      let len : be32 (put_be32 (length c.name) ++ body) ≡ length c.name =
        be32-put_be32 (length c.name) body (omega (arith, w.short)) in
      let clip : clip_name (length c.name) ≡ length c.name = ground (arith, w.short) in
      let left_over : n - 4 - length c.name - 8 ≡ length more = omega arith in
      let t1 : ltb n 4 ≡ false = ground arith in
      let t2 : leb (2 ^ 32) (length c.name + 8) ≡ false = ground (arith, w.short) in
      let t3 : ltb (n - 4) (length c.name + 8) ≡ false = ground arith in
      rw
        (
          split,
          len,
          drop-put_be32 (length c.name) body,
          clip,
          take_front _ c.name (c.channel_id ++ more) refl,
          drop_front _ c.name (c.channel_id ++ more) refl,
          c_string_text c.name w.text,
          take_front 8 c.channel_id more w.id,
          drop_front 8 c.channel_id more w.id,
          left_over,
          t1,
          t2,
          t3,
        )
        refl

  learn_channels-put_channels :
      (cs : List Local) (ctx : AnnCtx)
      → All IsNamed cs
      → learn_channels env (channels_count cs) (put_channels cs) (length (put_channels cs)) ctx
        ≡ (true, some (learn_all cs ctx))
  unfolding channels_count put_channels
  learn_channels-put_channels [] ctx h = unfold learn_channels in refl
  learn_channels-put_channels (c ∷ cs) ctx (w, ws) = elim (Bool-cases c.in_use) [
    | inl used ↦
        let more : List ℕ = put_channels cs in
        let one : 1 + channels_count cs ≡ suc (channels_count cs) = omega arith in
        let size : length (put_channel c ++ more) ≡ 12 + length c.name + length more = omega (
          arith,
          length-append (put_channel c) more,
          length-append (put_be32 (length c.name)) (c.name ++ take 8 c.channel_id),
          length-append c.name (take 8 c.channel_id),
          length-put_be32 (length c.name),
          ap length (take_exact 8 c.channel_id w.id),
          w.id,
        ) in
        rw
          (
            used,
            one,
            learn_one c (channels_count cs) (length (put_channel c ++ more)) more ctx w size,
          )
          (learn_channels-put_channels cs (learn_channel env c.name c.channel_id ctx) ws)
    | inr idle ↦
        let none : 0 + channels_count cs ≡ channels_count cs = omega arith in
        rw (idle, none) (learn_channels-put_channels cs ctx ws)
  ]

-- The values of the entries.
abbrev name_value : List ℕ
name_value = put_be32 (length peer_name) ++ peer_name

abbrev channels_value : List Local → List ℕ
channels_value cs = put_be32 (channels_count cs) ++ put_channels cs

abbrev channel_entries : Device → List Local → List Entry → List Entry
channel_entries d cs es =
    record { key = key_sess; value = d.self_session }
    ∷ record { key = key_pi; value = name_value }
    ∷ record { key = key_auca; value = channels_value cs }
    ∷ es

abbrev ping_entry : ℕ → Entry
ping_entry t = record { key = key_ht; value = put_be64 t }

length-channels_value :
    (cs : List Local) → All IsNamed cs → length (channels_value cs) ≡ 4 + channels_size cs
length-channels_value cs w = omega (
  arith,
  length-append (put_be32 (channels_count cs)) (put_channels cs),
  length-put_be32 (channels_count cs),
  length-put_channels cs w,
)

-- The sender's ids have eight bytes, and its channels are named.
pub record IsAnnouncer (d : Device) (cs : List Local) : Type 0 where
  pub id : length d.self_id ≡ 8
  pub session : length d.self_session ≡ 8
  pub named : All IsNamed cs
  pub few : channels_size cs < 2 ^ 31

copied :
    (ctx : AnnCtx)
    → copy_name name_value (length name_value) ctx
      ≡ (true, some (record ctx { peer_name = peer_name }))
unfolding be32 put_be32
copied ctx = refl

module _ (d : Device) (cs : List Local) (w : IsAnnouncer d cs) where
  encode_channels-entries :
      encode_channels d cs ≡ encode_audio_header d 1 5 ++ emit_all (channel_entries d cs [])
  unfolding encode_channels tlv_emit_bytes
  encode_channels-entries = simp (
    take_exact 8 d.self_session w.session,
    w.session,
    length-channels_value cs w.named,
    length-append,
    length-put_be32,
    tlv_emit_header-append,
    append-nil,
    append_assoc,
  )

  encode_ping-entries :
      (env : Env)
      → (encode_peer_announcement env cs true d).0
        ≡ encode_audio_header d 1 5
          ++ emit_all (channel_entries d cs (ping_entry (host_time_us env d).0 ∷ []))
  unfolding encode_peer_announcement
  encode_ping-entries env =
      rw (tlv_emit_u64be-append, encode_channels-entries) (simp (append_assoc, append-nil))

  module _ (env : Env) where
    deliver_channels :
        (es : List Entry) (ctx : AnnCtx)
        → deliver (ann_handler env) (channel_entries d cs es) (some ctx)
          ≡ deliver
              (ann_handler env)
              es
              (some (learn_all env cs (record ctx { peer_name = peer_name })))
    unfolding ann_handler
    deliver_channels es ctx =
        let named = record ctx { peer_name = peer_name } in
        let count : be32 (channels_value cs) ≡ channels_count cs =
          be32-put_be32 (channels_count cs) (put_channels cs) (omega (arith, count-le cs, w.few)) in
        let size : length (channels_value cs) - 4 ≡ length (put_channels cs) =
          omega (arith, length-channels_value cs w.named, length-put_channels cs w.named) in
        let long : ltb (length (channels_value cs)) 4 ≡ false =
          le→ltb _ _ (omega (arith, length-channels_value cs w.named)) in
        let heard : learn_channels env (be32 (channels_value cs)) (drop 4 (channels_value cs))
              (length (channels_value cs) - 4) named
            ≡ (true, some (learn_all env cs named)) =
          rw (count, size, drop-put_be32 (channels_count cs) (put_channels cs))
            (learn_channels-put_channels env cs named w.named) in
        rw (w.session, copied ctx) (rw (long, heard) refl)

    deliver_ping :
        (t : ℕ) (ctx : AnnCtx)
        → t < 2 ^ 64
        → deliver (ann_handler env) (ping_entry t ∷ []) (some ctx)
          ≡ (true, some (record ctx { ping_ht = t; have_ping = true }))
    unfolding ann_handler
    deliver_ping t ctx h =
        let value : be64 (put_be64 t) ≡ t = rw append-nil at (be64-put_be64 t [] h) in
        rw (length-put_be64 t, value) refl

  length-entries :
      (es : List Entry)
      → length (emit_all (channel_entries d cs es)) ≡ 48 + channels_size cs + length (emit_all es)
  length-entries es =
      simp (length-append, length-put_be32, length-put_channels cs w.named, w.session) (omega arith)

  pub length-encode_peer_announcement :
      (env : Env) → length (encode_peer_announcement env cs true d).0 ≡ 84 + channels_size cs
  length-encode_peer_announcement env =
      let t : ℕ = (host_time_us env d).0 in
      let es : List Entry = channel_entries d cs (ping_entry t ∷ []) in
      let ping_size : length (emit_all (ping_entry t ∷ [])) ≡ 16 =
        simp (length-append, length-put_be32, length-put_be64) in
      rw (encode_ping-entries env) (
        omega (
          arith,
          (encode_audio_header_lem d 1 5 (emit_all es) w.id).4,
          length-entries (ping_entry t ∷ []),
          ping_size,
        ))

-- What the receiver of an announcement starts with, and what it knows behind it.
abbrev pub heard_from : Device → ℕ → ℕ → Audio → Device → AnnCtx
heard_from sender addr port a d = record (ann_start sender.self_id addr port a.remotes d) {
  peer_name = peer_name;
}

-- The pong that echoes a time.
abbrev pub pong_to : ℕ → ℕ → ℕ → Device → Datagram
pong_to addr port t d = record {
  destination = v4_unicast addr port;
  src_port = 20808;
  payload =
      proto_audio
      ++ ((3 ∷ 5 ∷ 0 ∷ 0 ∷ take 8 d.self_id) ++ (put_be32 key_ht ++ (put_be32 8 ++ put_be64 t)));
}

send_pong-pong_to :
    (addr port t : ℕ) (d : Device)
    → (send_pong addr port t d).1 ≡ record d { sent = d.sent ++ (pong_to addr port t d ∷ []) }
unfolding send_pong encode_audio_header tlv_emit_u64be tlv_emit_header
send_pong-pong_to addr port t d = simp append_assoc

module _ (env env' : Env) (sender : Device) (cs : List Local) (w : IsAnnouncer sender cs) where
  link_audio_handle_rx-learn_all :
      (base addr port : ℕ) (a : Audio) (d : Device)
      → same sender.self_id d.self_id ≡ false
      → (host_time_us env sender).0 < 2 ^ 64
      → base + channels_size cs + 100 < 2 ^ 32
      → let known = learn_all env' cs (heard_from sender addr port a d) in
        link_audio_handle_rx env' base (encode_peer_announcement env cs true sender).0 addr port a d
        ≡ some (
          record a { remotes = known.remotes },
          record known.device {
            sent =
                known.device.sent
                ++ (pong_to addr port (host_time_us env sender).0 known.device ∷ []);
          },
        )
  unfolding link_audio_handle_rx audio_message
  link_audio_handle_rx-learn_all base addr port a d other time room =
      let t : ℕ = (host_time_us env sender).0 in
      let es : List Entry = channel_entries sender cs (ping_entry t ∷ []) in
      let h = encode_audio_header_lem sender 1 5 (emit_all es) w.id in
      let size = length-entries sender cs w (ping_entry t ∷ []) in
      let ping_size : length (emit_all (ping_entry t ∷ [])) ≡ 16 =
        simp (length-append, length-put_be32, length-put_be64) in
      let long : ltb (length (encode_audio_header sender 1 5 ++ emit_all es)) 20 ≡ false =
        le→ltb _ _ (omega (arith, h.4)) in
      let start = ann_start sender.self_id addr port a.remotes d in
      let walked =
        tlv_walk-emit_all (base + 20) (ann_handler env') (some start) es (omega arith)
          (omega (arith, size, ping_size)) in
      let told = deliver_channels sender cs w env' (ping_entry t ∷ []) start in
      let asked =
        deliver_ping sender cs w env' t (learn_all env' cs (heard_from sender addr port a d))
          time in
      rw
        (
          encode_ping-entries sender cs w env,
          long,
          h.0,
          same_refl proto_audio,
          h.2,
          other,
          h.1,
          h.3,
          walked,
          told,
          asked,
          send_pong-pong_to addr port t
              (learn_all env' cs (heard_from sender addr port a d)).device,
        )
        refl

  learn_all-store_all :
      (addr port : ℕ) (es : List Local) (ctx : AnnCtx) (s : List Remote × Device)
      → learn_all env' es (knowing env' sender.self_id addr port ctx s)
        ≡ knowing env' sender.self_id addr port ctx (store_all env' sender.self_id addr port es s)
  learn_all-store_all addr port [] ctx s = refl
  learn_all-store_all addr port (e ∷ es) ctx s = elim (Bool-cases e.in_use) [
    | inl used ↦
        rw (used, learn_channel-store_one env' sender.self_id addr port e ctx s)
          (learn_all-store_all addr port es ctx (store_one env' sender.self_id addr port e s))
    | inr idle ↦ rw idle (learn_all-store_all addr port es ctx s)
  ]

  -- A device that receives an announcement of another one, with its ping, stores in its catalog the
  -- channels that the sender has in use, one after the other in their order, with their names, the
  -- address it came from and the time: in the first entry that has the channel, or else in the first free
  -- slot and with the sender's id; a new channel finds no place in a full catalog. It sends back one pong,
  -- with the eight bytes of the time that the sender put into its ping. The sender's ids have eight bytes,
  -- its channels have names of less than 32 characters, and the message lies below the last addresses.
  pub link_audio_handle_rx-encode_peer_announcement :
      (base addr port : ℕ) (a : Audio) (d : Device)
      → same sender.self_id d.self_id ≡ false
      → (host_time_us env sender).0 < 2 ^ 64
      → base + channels_size cs + 100 < 2 ^ 32
      → let known = store_all env' sender.self_id addr port cs (a.remotes, d) in
        link_audio_handle_rx env' base (encode_peer_announcement env cs true sender).0 addr port a d
        ≡ some (
          record a { remotes = known.0 },
          record known.1 {
            sent = known.1.sent ++ (pong_to addr port (host_time_us env sender).0 known.1 ∷ []);
          },
        )
  link_audio_handle_rx-encode_peer_announcement base addr port a d other time room =
      rw (learn_all-store_all addr port cs (heard_from sender addr port a d) (a.remotes, d)) at
        (link_audio_handle_rx-learn_all base addr port a d other time room)
