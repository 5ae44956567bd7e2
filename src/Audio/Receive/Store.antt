-- ===== src/Audio/Receive/Store.antt =====
-- How firmware/link_audio.c stores announced channels, by the first entry of the channel and the first slot
-- that is free.
use colorlight_i9_abletonlin.Base.{
  ℕ, ◌+◌, ◌≡◌, refl, ap, arith, Bool, true, not, List, [], ◌∷◌, Option, none, some, Bool-cases, inl,
  inr, if◌then◌else◌, first_of, next_index, get_or, set,
}
use colorlight_i9_abletonlin.Types.{LinkId}
use colorlight_i9_abletonlin.Device.{Device, Env, host_time_us}
use colorlight_i9_abletonlin.Audio.{Local, Remote, zero_remote}
use colorlight_i9_abletonlin.Audio.Catalog.Routes.{announces}
use colorlight_i9_abletonlin.Audio.Receive.{
  AnnCtx, Slot, found, free, full, first_free, search_slot, learn_at, learn_channel,
}

abbrev pub is_vacant : Remote → Bool
is_vacant r = not r.in_use

slot_from : ℕ → Option ℕ → Option ℕ → Option ℕ → Slot
slot_from s fs (some i) v = found (s + i)
slot_from s (some j) none v = free j
slot_from s none none (some i) = free (s + i)
slot_from s none none none = full

taken-onward :
    (s : ℕ) (fs o v : Option ℕ)
    → slot_from (s + 1) fs o v ≡ slot_from s fs (next_index o) (next_index v)
unfolding slot_from
taken-onward s fs (some i) v = ap found (omega arith)
taken-onward s (some j) none v = refl
taken-onward s none none (some i) = ap free (omega arith)
taken-onward s none none none = refl

vacant-onward :
    (s : ℕ) (o v : Option ℕ)
    → slot_from (s + 1) (some s) o v ≡ slot_from s none (next_index o) (some 0)
unfolding slot_from
vacant-onward s (some i) v = ap found (omega arith)
vacant-onward s none v = ap free (omega arith)

known-onward :
    (s j : ℕ) (o v w : Option ℕ)
    → slot_from (s + 1) (some j) o v ≡ slot_from s (some j) (next_index o) w
unfolding slot_from
known-onward s j (some i) v w = ap found (omega arith)
known-onward s j none v w = refl

search_slot-first_of :
    (cid : LinkId) (rs : List Remote) (s : ℕ) (fs : Option ℕ)
    → search_slot cid rs s fs ≡ slot_from s fs (first_of (announces cid) rs) (first_of is_vacant rs)
unfolding search_slot slot_from
search_slot-first_of cid [] s none = refl
search_slot-first_of cid [] s (some j) = refl
search_slot-first_of cid (r ∷ rs) s fs = elim (Bool-cases (announces cid r)) [
  | inl hit ↦ rw hit (ap found (omega arith))
  | inr miss ↦ rw (miss, search_slot-first_of cid rs (s + 1) (first_free r s fs)) (onward fs)
]
  where
    o : Option ℕ
    o = first_of (announces cid) rs

    v : Option ℕ
    v = first_of is_vacant rs

    onward :
        (fs' : Option ℕ)
        → slot_from
            (s + 1)
            (first_free r s fs')
            (first_of (announces cid) rs)
            (first_of is_vacant rs)
          ≡ slot_from s fs'
              (next_index (first_of (announces cid) rs))
              (if is_vacant r then some 0 else next_index (first_of is_vacant rs))
    onward (some j) = known-onward s j _ _ _
    onward none = elim (Bool-cases r.in_use) [
      | inl busy ↦ rw busy (taken-onward s none _ _)
      | inr idle ↦ rw idle (vacant-onward s _ _)
    ]

module _ (env : Env) (peer : LinkId) (addr port : ℕ) where
  -- The catalog and the device behind one channel, by the first entry of the channel and the first free
  -- slot: a known one gets the name, the endpoint and the time, a new one the announcer as well.
  abbrev pub stored_at : Local → List Remote → Device → Option ℕ → Option ℕ → List Remote × Device
  stored_at c rs d (some i) v =
      let t = host_time_us env d in
      (
        set rs i (record (get_or rs i zero_remote) {
          name = c.name;
          endpoint_addr = addr;
          endpoint_port = port;
          last_seen_us = t.0;
        }),
        t.1,
      )
  stored_at c rs d none (some i) =
      let t = host_time_us env d in
      (
        set rs i (record {
          in_use = true;
          peer_id = peer;
          channel_id = c.channel_id;
          name = c.name;
          endpoint_addr = addr;
          endpoint_port = port;
          last_seen_us = t.0;
        }),
        t.1,
      )
  stored_at c rs d none none = (rs, d)

  abbrev pub store_one : Local → List Remote × Device → List Remote × Device
  store_one c (rs, d) =
      stored_at c rs d (first_of (announces c.channel_id) rs) (first_of is_vacant rs)

  -- The channels in use, one after the other.
  abbrev pub store_all : List Local → List Remote × Device → List Remote × Device
  store_all [] s = s
  store_all (c ∷ cs) s = store_all cs (if c.in_use then store_one c s else s)

  -- What the handler knows behind it.
  abbrev pub knowing : AnnCtx → List Remote × Device → AnnCtx
  knowing ctx s = record ctx {
    peer_id = peer;
    peer_addr = addr;
    peer_port = port;
    remotes = s.0;
    device = s.1;
  }

  learn_at-stored_at :
      (c : Local) (ctx : AnnCtx) (s : List Remote × Device) (o v : Option ℕ)
      → learn_at env c.name c.channel_id (knowing ctx s) (slot_from 0 none o v)
        ≡ knowing ctx (stored_at c s.0 s.1 o v)
  unfolding slot_from
  learn_at-stored_at c ctx s (some i) v = let z : 0 + i ≡ i = omega arith in rw z refl
  learn_at-stored_at c ctx s none (some i) = let z : 0 + i ≡ i = omega arith in rw z refl
  learn_at-stored_at c ctx s none none = refl

  pub learn_channel-store_one :
      (c : Local) (ctx : AnnCtx) (s : List Remote × Device)
      → learn_channel env c.name c.channel_id (knowing ctx s) ≡ knowing ctx (store_one c s)
  unfolding learn_channel
  learn_channel-store_one c ctx s =
      rw (search_slot-first_of c.channel_id s.0 0 none) (
        learn_at-stored_at c ctx s (first_of (announces c.channel_id) s.0) (first_of is_vacant s.0))
