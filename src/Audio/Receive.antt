-- ===== src/Audio/Receive.antt =====
-- firmware/link_audio.c: what another device's announcements and ChannelByes do to the tables, and the
-- dispatch of a Link-Audio datagram by its message type.
pub mod Lookup
pub mod Store
pub mod Announcement
pub mod Byes
use colorlight_i9_abletonlin.Base.{
  ℕ, zero, suc, ◌+◌, ◌-◌, ◌*◌, ◌%◌, ◌^◌, Bool, true, false, ◌&&◌, not, List, [], ◌∷◌, Option, none,
  some, ltb, leb, ◌==◌, if◌then◌else◌, same, length, take, drop, set, get_or,
}
use colorlight_i9_abletonlin.Base.Text.{c_string}
use colorlight_i9_abletonlin.Types.{LinkId, zero_id}
use colorlight_i9_abletonlin.Device.{Device, Env, host_time_us}
use colorlight_i9_abletonlin.Wire.{
  Walk, ret, fault, running, byte_at, be32, be64, tlv_walk, key_ht, key_pi, key_sess, key_auca,
  key_aucb,
}
use colorlight_i9_abletonlin.Audio.{Local, Remote, Sub, Audio, zero_remote}
use colorlight_i9_abletonlin.Audio.Catalog.{proto_audio}
use colorlight_i9_abletonlin.Audio.Announce.{send_pong}
use colorlight_i9_abletonlin.Audio.Packets.{is_sub, handle_audio_buffer}
use colorlight_i9_abletonlin.Audio.Subscribers.{handle_channel_request}

-- `LINK_AUDIO_NAME_MAX`.
abbrev pub name_max : ℕ
name_max = 32

-- The entry is in use and has the id.
abbrev pub is_remote : LinkId → Remote → Bool
is_remote cid r = r.in_use && same r.channel_id cid

-- The two tests of the loop body, on each table.
unfoldable pub drop_remotes : LinkId → List Remote → List Remote
drop_remotes cid [] = []
drop_remotes cid (r ∷ rs) =
    (if is_remote cid r then record r { in_use = false } else r) ∷ drop_remotes cid rs

unfoldable pub drop_subs : LinkId → List Sub → List Sub
drop_subs cid [] = []
drop_subs cid (s ∷ ss) =
    (if is_sub cid s then record s { in_use = false } else s) ∷ drop_subs cid ss

abbrev pub Tables : Type 0
Tables = List Remote × List Sub

-- The loop over the ids of the entry; `none` is a read behind the entry.
unfoldable pub forget_channels : ℕ → List ℕ → Tables → Option Tables
forget_channels zero v t = some t
forget_channels (suc left) v t =
    let cid = take 8 v in
    let rest = forget_channels left (drop 8 v) (drop_remotes cid t.0, drop_subs cid t.1) in
    if ltb (length v) 8 then none else rest

-- The size of the ids is a product on 32 bits.
abbrev pub forget_entry : ℕ → List ℕ → ℕ → Tables → Bool × Option Tables
forget_entry key v n t =
    if not (key == key_aucb)
    then (true, some t)
    else if ltb n 4
    then (false, some t)
    else if ltb (n - 4) (be32 v * 8 % 2 ^ 32)
    then (false, some t)
    else (true, forget_channels (be32 v) (drop 4 v) t)

-- The context is `none` behind a read outside an entry.
unfoldable pub handle_aucb_entry : ℕ → List ℕ → ℕ → Option Tables → Bool × Option Tables
handle_aucb_entry key v n none = (false, none)
handle_aucb_entry key v n (some t) = forget_entry key v n t

-- `ann_ctx_t`, with the table and the device that the handler writes to.
pub record AnnCtx : Type 0 where
  pub ping_ht : ℕ
  pub have_ping : Bool
  pub peer_id : LinkId
  pub peer_addr : ℕ
  pub peer_port : ℕ
  pub peer_name : List ℕ
  pub remotes : List Remote
  pub device : Device

-- What the search of the catalog comes to: `r`, or else `free_slot`.
pub data Slot : Type 0 where
  found : ℕ → Slot
  free : ℕ → Slot
  full : Slot

abbrev pub first_free : Remote → ℕ → Option ℕ → Option ℕ
first_free r s (some i) = some i
first_free r s none = if r.in_use then none else some s

abbrev pub not_found : Option ℕ → Slot
not_found none = full
not_found (some i) = free i

-- The search from slot `s` on.
unfoldable pub search_slot : LinkId → List Remote → ℕ → Option ℕ → Slot
search_slot cid [] s free_slot = not_found free_slot
search_slot cid (r ∷ rs) s free_slot =
    let rest = search_slot cid rs (s + 1) (first_free r s free_slot) in
    if is_remote cid r then found s else rest

-- What is written of a slot in any case, and of a new one before that.
abbrev pub refresh : List ℕ → ℕ → ℕ → ℕ → Remote → Remote
refresh name addr port now r = record r {
  name = name;
  endpoint_addr = addr;
  endpoint_port = port;
  last_seen_us = now;
}

abbrev pub claim : LinkId → LinkId → Remote → Remote
claim peer cid r = record r { in_use = true; peer_id = peer; channel_id = cid }

-- `4 + len` and `name_len + 8` are sums on 32 bits.
abbrev pub clip_name : ℕ → ℕ
clip_name len = if ltb len name_max then len else name_max - 1

abbrev pub ann_start : LinkId → ℕ → ℕ → List Remote → Device → AnnCtx
ann_start sender src_addr src_port remotes d = record {
  ping_ht = 0;
  have_ping = false;
  peer_id = sender;
  peer_addr = src_addr;
  peer_port = src_port;
  peer_name = [];
  remotes = remotes;
  device = d;
}

-- Behind the walk of an announcement, whose return value is not looked at: the pong.
abbrev pub answer_announcement : ℕ → ℕ → Audio → Walk (Option AnnCtx) → Option (Audio × Device)
answer_announcement src_addr src_port a (ret code (some ctx)) = some (
  record a { remotes = ctx.remotes },
  (if ctx.have_ping then (send_pong src_addr src_port ctx.ping_ht ctx.device).1 else ctx.device),
)
answer_announcement src_addr src_port a (ret code none) = none
answer_announcement src_addr src_port a fault = none
answer_announcement src_addr src_port a running = none

abbrev pub forgotten : Audio → Device → Walk (Option Tables) → Option (Audio × Device)
forgotten a d (ret code (some t)) = some (record a { remotes = t.0; subs = t.1 }, d)
forgotten a d (ret code none) = none
forgotten a d fault = none
forgotten a d running = none

abbrev pub with_locals : Audio → Device → Option (List Local) → Option (Audio × Device)
with_locals a d none = none
with_locals a d (some locals) = some (record a { locals = locals }, d)

abbrev pub with_subs : Audio → Device → Option (List Sub) → Option (Audio × Device)
with_subs a d none = none
with_subs a d (some subs) = some (record a { subs = subs }, d)

-- The copy of a name may read behind the entry where the sum wraps.
abbrev pub copy_name : List ℕ → ℕ → AnnCtx → Bool × Option AnnCtx
copy_name v n ctx =
    let len = be32 v in
    if ltb n 4
    then (false, some ctx)
    else if ltb n ((4 + len) % 2 ^ 32)
    then (false, some ctx)
    else if ltb n (4 + clip_name len)
    then (false, none)
    else (true, some (record ctx { peer_name = c_string (take (clip_name len) (drop 4 v)) }))

module _ (env : Env) where
  -- The slot is written with the time.
  abbrev pub write_slot : List ℕ → ℕ → (Remote → Remote) → AnnCtx → AnnCtx
  write_slot name i f ctx =
      let t = host_time_us env ctx.device in
      record ctx {
        remotes =
            set ctx.remotes i
              (refresh name ctx.peer_addr ctx.peer_port t.0 (f (get_or ctx.remotes i zero_remote)));
        device = t.1;
      }

  abbrev pub learn_at : List ℕ → LinkId → AnnCtx → Slot → AnnCtx
  learn_at name cid ctx full = ctx
  learn_at name cid ctx (found i) = write_slot name i (λ r. r) ctx
  learn_at name cid ctx (free i) = write_slot name i (claim ctx.peer_id cid) ctx

  unfoldable pub learn_channel : List ℕ → LinkId → AnnCtx → AnnCtx
  learn_channel name cid ctx = learn_at name cid ctx (search_slot cid ctx.remotes 0 none)

  -- The loop over the channels of an entry. A name whose length and id wrap round 32 bits moves the
  -- pointer back and is not followed further: `none`.
  unfoldable pub learn_channels : ℕ → List ℕ → ℕ → AnnCtx → Bool × Option AnnCtx
  learn_channels zero v n ctx = (true, some ctx)
  learn_channels (suc left) v n ctx =
      let name_len = be32 v in
      let at_name = drop 4 v in
      let at_id = drop name_len at_name in
      let name = c_string (take (clip_name name_len) at_name) in
      let rest =
        learn_channels left (drop 8 at_id) (n - 4 - name_len - 8)
          (learn_channel name (take 8 at_id) ctx) in
      if ltb n 4
      then (false, some ctx)
      else if leb (2 ^ 32) (name_len + 8)
      then (false, none)
      else if ltb (n - 4) (name_len + 8)
      then (false, some ctx)
      else rest

  -- The `switch` on the key.
  abbrev pub ann_entry : ℕ → List ℕ → ℕ → AnnCtx → Bool × Option AnnCtx
  ann_entry key v n ctx =
      if key == key_ht
      then (if n == 8
          then (true, some (record ctx { ping_ht = be64 v; have_ping = true }))
          else (false, some ctx))
      else if key == key_pi
      then copy_name v n ctx
      else if key == key_sess
      then (n == 8, some ctx)
      else if key == key_auca
      then (if ltb n 4 then (false, some ctx) else learn_channels (be32 v) (drop 4 v) (n - 4) ctx)
      else (true, some ctx)

  -- The context is `none` behind a read outside an entry.
  unfoldable pub ann_handler : ℕ → List ℕ → ℕ → Option AnnCtx → Bool × Option AnnCtx
  ann_handler key v n none = (false, none)
  ann_handler key v n (some ctx) = ann_entry key v n ctx

  -- The `switch` on the message type; `base` is the address of the body.
  unfoldable pub audio_message :
      ℕ → ℕ → LinkId → List ℕ → ℕ → ℕ → Audio → Device → Option (Audio × Device)
  audio_message mtype base sender body src_addr src_port a d =
      if mtype == 1
      then answer_announcement src_addr src_port a
          (tlv_walk base body ann_handler (some (ann_start sender src_addr src_port a.remotes d)))
      else if mtype == 2
      then forgotten a d (tlv_walk base body handle_aucb_entry (some (a.remotes, a.subs)))
      else if mtype == 4
      then with_locals a d
          (handle_channel_request mtype sender src_addr src_port base body a.locals)
      else if mtype == 5
      then with_locals a d
          (handle_channel_request mtype sender src_addr src_port base body a.locals)
      else if mtype == 6
      then with_subs a d (handle_audio_buffer d.self_session body a.subs)
      else some (a, d)

  -- `none` is a read outside the datagram or an entry, or a walk that does not end.
  unfoldable pub link_audio_handle_rx :
      ℕ → List ℕ → ℕ → ℕ → Audio → Device → Option (Audio × Device)
  link_audio_handle_rx base buf src_addr src_port a d =
      let sender = take 8 (drop 12 buf) in
      if ltb (length buf) 20
      then some (a, d)
      else if not (same (take 8 buf) proto_audio)
      then some (a, d)
      else if same sender d.self_id
      then some (a, d)
      else audio_message (byte_at buf 8) (base + 20) sender (drop 20 buf) src_addr src_port a d
