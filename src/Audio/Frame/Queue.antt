-- ===== src/Audio/Frame/Queue.antt =====
-- The capture buffers of firmware/link_audio.c as queues of samples: what a TDM frame does to them.
use colorlight_i9_abletonlin.Base.{
  first_of, next_index, false, Option, none, some, Bool, ◌&&◌, ℕ, zero, suc, ◌+◌, ◌<◌, ◌≡◌, ◌∙◌,
  refl, ap, arith, List, [], ◌∷◌, ◌++◌, Bool-cases, inl, inr, leb, ◌==◌, ==→eq, if◌then◌else◌,
  length, length-append, length-set, length-take, take, take_exact, get_or, set, All,
}
use colorlight_i9_abletonlin.Config.{num_tdm_ports, tdm_channels_per_port}
use colorlight_i9_abletonlin.Doubles.{Doubles}
use colorlight_i9_abletonlin.Device.{Device, Env, M}
use colorlight_i9_abletonlin.Tdm.{Tdm, tdm_read_rx}
use colorlight_i9_abletonlin.Audio.{Local, Audio, Capture, frames_per_pkt}
use colorlight_i9_abletonlin.Types.{zero_id}
use colorlight_i9_abletonlin.Audio.Sender.{send_audio_buffer_for}
use colorlight_i9_abletonlin.Audio.Frame.{
  zero_capture, send_from, capture_channel, capture_port, link_audio_on_tdm_frame,
}

-- The buffer has its size, and the position is inside.
pub record IsCapture (c : Capture) : Type 0 where
  pub size : length c.buf ≡ frames_per_pkt
  pub inside : c.pos < frames_per_pkt

-- The samples that wait for the next packet.
abbrev pub pending : Capture → List ℕ
pending c = take c.pos c.buf

abbrev pub pendings : List Capture → List (List ℕ)
pendings [] = []
pendings (c ∷ cs) = pending c ∷ pendings cs

abbrev pub all_pendings : List (List Capture) → List (List (List ℕ))
all_pendings [] = []
all_pendings (row ∷ rows) = pendings row ∷ all_pendings rows

take-set :
    (xs : List ℕ) (i v : ℕ) → i < length xs → take (suc i) (set xs i v) ≡ take i xs ++ (v ∷ [])
take-set [] i v h = absurd (omega arith)
take-set (x ∷ xs) zero v h = refl
take-set (x ∷ xs) (suc i) v h = ap (λ (t : List ℕ). x ∷ t) (take-set xs i v (omega arith))

get_or-pendings :
    (cs : List Capture) (i : ℕ) → get_or (pendings cs) i [] ≡ pending (get_or cs i zero_capture)
get_or-pendings [] i = refl
get_or-pendings (c ∷ cs) zero = refl
get_or-pendings (c ∷ cs) (suc i) = get_or-pendings cs i

set-pendings :
    (cs : List Capture) (i : ℕ) (c : Capture)
    → pendings (set cs i c) ≡ set (pendings cs) i (pending c)
set-pendings [] i c = refl
set-pendings (q ∷ cs) zero c = refl
set-pendings (q ∷ cs) (suc i) c = ap (λ (t : List (List ℕ)). pending q ∷ t) (set-pendings cs i c)

get_or-all_pendings :
    (rows : List (List Capture)) (i : ℕ)
    → get_or (all_pendings rows) i [] ≡ pendings (get_or rows i [])
get_or-all_pendings [] i = refl
get_or-all_pendings (r ∷ rows) zero = refl
get_or-all_pendings (r ∷ rows) (suc i) = get_or-all_pendings rows i

set-all_pendings :
    (rows : List (List Capture)) (i : ℕ) (row : List Capture)
    → all_pendings (set rows i row) ≡ set (all_pendings rows) i (pendings row)
set-all_pendings [] i row = refl
set-all_pendings (r ∷ rows) zero row = refl
set-all_pendings (r ∷ rows) (suc i) row =
    ap (λ (t : List (List (List ℕ))). pendings r ∷ t) (set-all_pendings rows i row)

All-set :
    {A : Type 0} (P : A → Type 0) (xs : List A) (i : ℕ) (x : A)
    → All P xs
    → P x
    → All P (set xs i x)
All-set P [] i x h p = tt
All-set P (y ∷ xs) zero x (h, hs) p = (p, hs)
All-set P (y ∷ xs) (suc i) x (h, hs) p = (h, All-set P xs i x hs p)

All-get_or :
    {A : Type 0} (P : A → Type 0) (xs : List A) (i : ℕ) (x : A) → All P xs → P x → P (get_or xs i x)
All-get_or P [] i x h p = p
All-get_or P (y ∷ xs) zero x (h, hs) p = h
All-get_or P (y ∷ xs) (suc i) x (h, hs) p = All-get_or P xs i x hs p

zero-IsCapture : IsCapture zero_capture
zero-IsCapture = record { size = refl; inside = omega arith }

abbrev zero_local : Local
zero_local = record {
  in_use = false;
  channel_id = zero_id;
  name = [];
  tdm_port = 0;
  tdm_channel = 0;
  next_send_count = 0;
  num_subscribers = 0;
  sub_addr = [];
  sub_port = [];
  sub_peer = [];
}

module _ (fp : Doubles) (env : Env) where
  -- The packet goes out from the first channel in use at the port and place, if there is one.
  abbrev pub at_place : ℕ → ℕ → Local → Bool
  at_place port ch c = c.in_use && (c.tdm_port == port && c.tdm_channel == ch)

  abbrev pub sent_from : List ℕ → List Local → Option ℕ → M (List Local)
  sent_from q locals none d = (locals, d)
  sent_from q locals (some i) d =
      let sent = send_audio_buffer_for fp env (get_or locals i zero_local) q d in
      (set locals i sent.0, sent.1)

  send_from-first_of :
      (port ch : ℕ) (q : List ℕ) (locals : List Local) (d : Device)
      → send_from fp env port ch q locals d
        ≡ sent_from q locals (first_of (at_place port ch) locals) d
  unfolding send_from
  send_from-first_of port ch q [] d = refl
  send_from-first_of port ch q (c ∷ cs) d = elim (Bool-cases (at_place port ch c)) [
    | inl hit ↦ rw hit refl
    | inr miss ↦
        rw (miss, send_from-first_of port ch q cs d) (onward (first_of (at_place port ch) cs))
  ]
    where
      onward :
          (o : Option ℕ)
          → (c ∷ (sent_from q cs o d).0, (sent_from q cs o d).1)
            ≡ sent_from q (c ∷ cs) (next_index o) d
      onward none = refl
      onward (some i) = refl

  -- A sample joins its queue, and a queue of 64 is sent as it is and starts again.
  abbrev pub enqueue : ℕ → ℕ → List ℕ → List Local → M (List Local × List ℕ)
  enqueue port ch q locals d =
      let sent = sent_from q locals (first_of (at_place port ch) locals) d in
      if length q == frames_per_pkt then ((sent.0, []), sent.1) else ((locals, q), d)

  abbrev pub enqueue_port :
      (ℕ → ℕ → ℕ) → ℕ → ℕ → ℕ → List Local → List (List ℕ) → M (List Local × List (List ℕ))
  enqueue_port rx port zero ch locals qs d = ((locals, qs), d)
  enqueue_port rx port (suc left) ch locals qs d =
      let done = enqueue port ch (get_or qs ch [] ++ (tdm_read_rx rx port ch ∷ [])) locals d in
      enqueue_port rx port left (ch + 1) done.0.0 (set qs ch done.0.1) done.1

  -- What a step of a channel leaves, seen as a queue.
  record Seen (r : (List Local × Capture) × Device) (s : (List Local × List ℕ) × Device)
      : Type 0 where
    pub kept : IsCapture r.0.1
    pub locals : r.0.0 ≡ s.0.0
    pub queue : pending r.0.1 ≡ s.0.1
    pub device : r.1 ≡ s.1

  capture_channel-Seen :
      (port ch v : ℕ) (locals : List Local) (c : Capture) (d : Device)
      → IsCapture c
      → Seen
          (capture_channel fp env port ch v locals c d)
          (enqueue port ch (pending c ++ (v ∷ [])) locals d)
  unfolding capture_channel
  capture_channel-Seen port ch v locals c d w =
      let joined : take (c.pos + 1) (set c.buf c.pos v) ≡ pending c ++ (v ∷ []) =
        let one : c.pos + 1 ≡ suc c.pos = omega arith in
        rw one (take-set c.buf c.pos v (omega (arith, w.size, w.inside))) in
      let size : length (set c.buf c.pos v) ≡ 64 = length-set c.buf c.pos v ∙ w.size in
      let n : length (pending c ++ (v ∷ [])) ≡ c.pos + 1 = omega (
        arith,
        length-append (pending c) (v ∷ []),
        length-take c.pos c.buf (omega (arith, w.size, w.inside)),
      ) in
      elim (Bool-cases (c.pos + 1 == 64)) [
        | inl whole ↦
            let at : c.pos + 1 ≡ 64 = ==→eq _ _ whole in
            let all : set c.buf c.pos v ≡ pending c ++ (v ∷ []) =
              rw (← joined, at) (rw (take_exact 64 (set c.buf c.pos v) size) refl) in
            rw (n, whole, all, send_from-first_of port ch (pending c ++ (v ∷ [])) locals d)
              (record {
                kept = record { size = rw all at size; inside = omega arith };
                locals = refl;
                queue = refl;
                device = refl;
              })
        | inr part ↦
            rw (n, part)
              (record {
                kept = record { size = size; inside = ground (arith, w.inside) };
                locals = refl;
                queue = joined;
                device = refl;
              })
      ]

  -- What the loop over the channels leaves.
  record SeenRow (r : (List Local × List Capture) × Device)
      (s : (List Local × List (List ℕ)) × Device) : Type 0 where
    pub kept : All IsCapture r.0.1
    pub locals : r.0.0 ≡ s.0.0
    pub queues : pendings r.0.1 ≡ s.0.1
    pub device : r.1 ≡ s.1

  capture_port-Seen :
      (rx : ℕ → ℕ → ℕ) (port left ch : ℕ) (locals : List Local) (row : List Capture) (d : Device)
      → All IsCapture row
      → SeenRow
          (capture_port fp env rx port left ch locals row d)
          (enqueue_port rx port left ch locals (pendings row) d)
  unfolding capture_port
  capture_port-Seen rx port zero ch locals row d w = record {
    kept = w;
    locals = refl;
    queues = refl;
    device = refl;
  }
  capture_port-Seen rx port (suc left) ch locals row d w =
      let c = get_or row ch zero_capture in
      let v = tdm_read_rx rx port ch in
      let done = capture_channel fp env port ch v locals c d in
      let h =
        capture_channel-Seen port ch v locals c d
          (All-get_or IsCapture row ch _ w zero-IsCapture) in
      let ih =
        capture_port-Seen rx port left (ch + 1) done.0.0 (set row ch done.0.1) done.1
          (All-set IsCapture row ch done.0.1 w h.kept) in
      rw (get_or-pendings row ch, ← h.locals, ← h.queue, ← h.device, ← set-pendings row ch done.0.1)
        ih

  -- The frame on queues.
  abbrev pub enqueue_frame :
      (ℕ → ℕ → ℕ) → ℕ → List Local → List (List (List ℕ)) → M (List Local × List (List (List ℕ)))
  enqueue_frame rx port locals queues d =
      let r = enqueue_port rx port tdm_channels_per_port 0 locals (get_or queues port []) d in
      if leb num_tdm_ports port
      then ((locals, queues), d)
      else ((r.0.0, set queues port r.0.1), r.1)

  -- The captured samples are queues, one for each port and channel: in a frame each channel's sample
  -- joins the end of its queue, and a queue that has reached 64 samples is handed as it is, in its order,
  -- to `send_audio_buffer_for` of the first channel in use at that port and place, if there is one, and
  -- starts again; the buffers keep their sizes and positions. What is sent, the local channels and the
  -- device are those of the queues.
  pub link_audio_on_tdm_frame-enqueue_frame :
      (rx : ℕ → ℕ → ℕ) (port : ℕ) (a : Audio) (t : Tdm) (d : Device)
      → All (All IsCapture) a.s_tx_pkt
      → let r = link_audio_on_tdm_frame fp env rx port a t d in
        let s = enqueue_frame rx port a.locals (all_pendings a.s_tx_pkt) d in
        All (All IsCapture) r.0.0.s_tx_pkt
        × (r.0.0.locals ≡ s.0.0)
        × (all_pendings r.0.0.s_tx_pkt ≡ s.0.1)
        × (r.1 ≡ s.1)
  unfolding link_audio_on_tdm_frame
  link_audio_on_tdm_frame-enqueue_frame rx port a t d w =
      let row = get_or a.s_tx_pkt port [] in
      let h =
        capture_port-Seen rx port tdm_channels_per_port 0 a.locals row d
          (All-get_or (All IsCapture) a.s_tx_pkt port [] w tt) in
      let here = get_or-all_pendings a.s_tx_pkt port in
      let done = capture_port fp env rx port tdm_channels_per_port 0 a.locals row d in
      elim (Bool-cases (leb num_tdm_ports port)) [
        | inl out ↦ rw out (w, refl, refl, refl)
        | inr inside ↦
            rw (inside, here)
              (
                All-set (All IsCapture) a.s_tx_pkt port done.0.1 w h.kept,
                h.locals,
                set-all_pendings a.s_tx_pkt port done.0.1
                    ∙ ap (set (all_pendings a.s_tx_pkt) port) h.queues,
                h.device,
              )
      ]
