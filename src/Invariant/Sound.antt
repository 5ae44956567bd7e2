-- ===== src/Invariant/Sound.antt =====
-- What holds of the Link-Audio tables of firmware/link_audio.c whatever comes in: every index that is
-- kept in them lies inside its array.
use colorlight_i9_abletonlin.Base.{
  ℕ, zero, suc, ◌+◌, ◌-◌, ◌*◌, ◌%◌, ◌^◌, ◌≤◌, ◌<◌, ◌≡◌, ◌⊎◌, ◌∙◌, inl, inr, refl, arith, Bool, true,
  false, List, [], ◌∷◌, Option, none, some, Bool-cases, ltb, leb, ltb→le, ◌==◌, if◌then◌else◌,
  length, length-drop, take, drop, All,
}
use colorlight_i9_abletonlin.Types.{LinkId}
use colorlight_i9_abletonlin.Device.{Device, Env, host_time_us}
use colorlight_i9_abletonlin.Wire.{be32, key_ht, key_pi, key_sess, key_auca, key_aucb}
use colorlight_i9_abletonlin.Audio.{Remote, Sub, Audio}
use colorlight_i9_abletonlin.Audio.Jitter.Fifo.{IsRing}
use colorlight_i9_abletonlin.Audio.Frame.Queue.{IsCapture}
use colorlight_i9_abletonlin.Audio.Packets.{is_sub}
use colorlight_i9_abletonlin.Audio.Subscribers.Laws.{IsTable}
use colorlight_i9_abletonlin.Audio.Receive.{
  drop_subs, forget_channels, handle_aucb_entry, Tables, AnnCtx, clip_name, copy_name,
  learn_channel, learn_channels, ann_handler, learn_at, write_slot, claim, Slot, found, free, full,
  search_slot,
}

pub record IsSound (a : Audio) : Type 0 where
  pub rings : All IsRing a.subs
  pub captures : All (All IsCapture) a.s_tx_pkt
  pub tables : All IsTable a.locals

-- A device with the peers and the measurement of another.
pub record Keeps (d d' : Device) : Type 0 where
  pub peers : d'.peers ≡ d.peers
  pub meas : d'.meas ≡ d.meas

-- No sum of a name's length and eight wraps in the channels of an entry.
abbrev pub SaneChannels : ℕ → List ℕ → ℕ → Type 0
SaneChannels zero v n = Unit {0}
SaneChannels (suc left) v n =
    (n < 4)
    ⊎ (be32 v + 8 < 2 ^ 32)
      × SaneChannels left (drop 8 (drop (be32 v) (drop 4 v))) (n - 4 - be32 v - 8)

-- The entries of a Link-Audio message whose own lengths do not wrap.
abbrev pub SaneEntry : ℕ → List ℕ → ℕ → Type 0
SaneEntry key v n =
    (key ≡ key_pi → be32 v + 4 < 2 ^ 32)
    × (key ≡ key_auca → SaneChannels (be32 v) (drop 4 v) (n - 4))
    × (key ≡ key_aucb → be32 v * 8 < 2 ^ 32)

drop_subs-rings : (cid : LinkId) (ss : List Sub) → All IsRing ss → All IsRing (drop_subs cid ss)
unfolding drop_subs
drop_subs-rings cid [] h = tt
drop_subs-rings cid (s ∷ ss) (h, hs) = elim (Bool-cases (is_sub cid s)) [
  | inl hit ↦ rw hit (
    record { size = h.size; written = h.written; read = h.read; bounded = h.bounded },
    drop_subs-rings cid ss hs,
  )
  | inr miss ↦ rw miss (h, drop_subs-rings cid ss hs)
]

abbrev pub Forgets : Option Tables → Type 0
Forgets none = ⊥
Forgets (some t) = All IsRing t.1

forget_channels-Forgets :
    (left : ℕ) (v : List ℕ) (rs : List Remote) (ss : List Sub)
    → left * 8 ≤ length v
    → All IsRing ss
    → Forgets (forget_channels left v (rs, ss))
unfolding forget_channels
forget_channels-Forgets zero v rs ss h r = r
forget_channels-Forgets (suc left) v rs ss h r =
    let long : ltb (length v) 8 ≡ false = ground arith in
    rw long (
      forget_channels-Forgets left (drop 8 v) _ _ (omega (arith, length-drop 8 v))
        (drop_subs-rings (take 8 v) ss r))

pub handle_aucb_entry-Forgets :
    (key : ℕ) (v : List ℕ) (n : ℕ) (c : Option Tables)
    → length v ≡ n
    → SaneEntry key v n
    → Forgets c
    → Forgets (handle_aucb_entry key v n c).1
unfolding handle_aucb_entry
handle_aucb_entry-Forgets key v n none whole s h = absurd h
handle_aucb_entry-Forgets key v n (some (rs, ss)) whole s h = elim (Bool-cases (key == key_aucb)) [
  | inr other ↦ rw other h
  | inl is ↦ elim (Bool-cases (ltb n 4)) [
    | inl short ↦ rw (is, short) h
    | inr long ↦ elim (Bool-cases (ltb (n - 4) (be32 v * 8 % 2 ^ 32))) [
      | inl less ↦ rw (is, long, less) h
      | inr enough ↦
          let fits : be32 v * 8 < 2 ^ 32 = s.2 (ground arith) in
          let le = ltb→le (n - 4) (be32 v * 8 % 2 ^ 32) enough in
          rw (is, long, enough)
            (forget_channels-Forgets (be32 v) (drop 4 v) rs ss (omega (arith, length-drop 4 v)) h)
    ]
  ]
]

pub Keeps-trans : {d d' d'' : Device} → Keeps d d' → Keeps d' d'' → Keeps d d''
Keeps-trans h k = record { peers = k.peers ∙ h.peers; meas = k.meas ∙ h.meas }

abbrev pub Hears : Device → Option AnnCtx → Type 0
Hears d none = ⊥
Hears d (some ctx) = Keeps d ctx.device

module _ (env : Env) (d : Device) where
  write_slot-Keeps :
      (name : List ℕ) (i : ℕ) (f : Remote → Remote) (ctx : AnnCtx)
      → Keeps d ctx.device
      → Keeps d (write_slot env name i f ctx).device
  unfolding host_time_us
  write_slot-Keeps name i f ctx h = record { peers = h.peers; meas = h.meas }

  learn_channel-Keeps :
      (name : List ℕ) (cid : LinkId) (ctx : AnnCtx)
      → Keeps d ctx.device
      → Keeps d (learn_channel env name cid ctx).device
  unfolding learn_channel
  learn_channel-Keeps name cid ctx h = go (search_slot cid ctx.remotes 0 none)
    where
      go : (o : Slot) → Keeps d (learn_at env name cid ctx o).device
      go full = h
      go (found i) = write_slot-Keeps name i (λ r. r) ctx h
      go (free i) = write_slot-Keeps name i (claim ctx.peer_id cid) ctx h

  learn_channels-Hears :
      (left : ℕ) (v : List ℕ) (n : ℕ) (ctx : AnnCtx)
      → SaneChannels left v n
      → Keeps d ctx.device
      → Hears d (learn_channels env left v n ctx).1
  unfolding learn_channels
  learn_channels-Hears zero v n ctx s h = h
  learn_channels-Hears (suc left) v n ctx (inl short) h =
      let t : ltb n 4 ≡ true = ground arith in rw t h
  learn_channels-Hears (suc left) v n ctx (inr (fits, s)) h =
      let t : leb (2 ^ 32) (be32 v + 8) ≡ false = ground arith in
      elim (Bool-cases (ltb n 4)) [
        | inl short ↦ rw short h
        | inr long ↦ elim (Bool-cases (ltb (n - 4) (be32 v + 8))) [
          | inl less ↦ rw (long, t, less) h
          | inr enough ↦
              rw (long, t, enough)
                (learn_channels-Hears left _ _ _ s (learn_channel-Keeps _ _ ctx h))
        ]
      ]

  copy_name-Hears :
      (v : List ℕ) (n : ℕ) (ctx : AnnCtx)
      → be32 v + 4 < 2 ^ 32
      → Keeps d ctx.device
      → Hears d (copy_name v n ctx).1
  copy_name-Hears v n ctx s h = elim (Bool-cases (ltb n 4)) [
    | inl short ↦ rw short h
    | inr long ↦ elim (Bool-cases (ltb n ((4 + be32 v) % 2 ^ 32))) [
      | inl less ↦ rw (long, less) h
      | inr enough ↦
          let t : ltb n (4 + clip_name (be32 v)) ≡ false = ground arith in
          rw (long, enough, t) (record { peers = h.peers; meas = h.meas })
    ]
  ]

  Hears-if :
      (b : Bool) (x y : Bool × Option AnnCtx)
      → (b ≡ true → Hears d x.1)
      → (b ≡ false → Hears d y.1)
      → Hears d (if b then x else y).1
  Hears-if true x y hx hy = hx refl
  Hears-if false x y hx hy = hy refl

  pub ann_handler-Hears :
      (key : ℕ) (v : List ℕ) (n : ℕ) (c : Option AnnCtx)
      → length v ≡ n
      → SaneEntry key v n
      → Hears d c
      → Hears d (ann_handler env key v n c).1
  unfolding ann_handler
  ann_handler-Hears key v n none whole s h = h
  ann_handler-Hears key v n (some ctx) whole s h =
      Hears-if (key == key_ht) _ _
        (λ _. Hears-if (n == 8) _ _ (λ _. record { peers = h.peers; meas = h.meas }) (λ _. h))
        (λ _.
          Hears-if (key == key_pi) _ _ (λ is. copy_name-Hears v n ctx (s.0 (ground arith)) h)
            (λ _.
              Hears-if (key == key_sess) _ _ (λ _. h)
                (λ _.
                  Hears-if (key == key_auca) _ _
                    (λ is.
                      Hears-if (ltb n 4) _ _ (λ _. h)
                        (λ _.
                          learn_channels-Hears (be32 v) (drop 4 v) (n - 4) ctx (s.1 (ground arith))
                            h))
                    (λ _. h))))
