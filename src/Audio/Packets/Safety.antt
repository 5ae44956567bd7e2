-- ===== src/Audio/Packets/Safety.antt =====
-- `handle_audio_buffer` of firmware/link_audio.c stays inside the packet and the rings.
use colorlight_i9_abletonlin.Base.{
  ◌+◌, le→ltb, ltb→le, length-drop, ℕ, zero, suc, ◌-◌, ◌*◌, ◌%◌, ◌^◌, ◌≤◌, ◌<◌, ◌≡◌, refl, arith,
  ◌||◌, not, true, false, Bool, Bool-cases, inl, inr, List, [], ◌∷◌, Option, none, some, ltb, ◌==◌,
  same, if◌then◌else◌, length, All, take, drop,
}
use colorlight_i9_abletonlin.Types.{LinkId}
use colorlight_i9_abletonlin.Wire.{byte_at, be16, be32}
use colorlight_i9_abletonlin.Audio.{Sub}
use colorlight_i9_abletonlin.Audio.Jitter.{push_sample, push_samples}
use colorlight_i9_abletonlin.Audio.Jitter.Fifo.{IsRing, push_sample-IsRing}
use colorlight_i9_abletonlin.Audio.Packets.{
  read_chunks, is_sub, with_sub, and_sample, is_subscribed, store_frames, channel_samples,
  take_frames, read_samples, behind_chunks, handle_audio_buffer,
}

push_samples-IsRing : (vs : List ℕ) (s : Sub) → IsRing s → IsRing (push_samples vs s)
unfolding push_samples
push_samples-IsRing [] s r = r
push_samples-IsRing (v ∷ vs) s r =
    push_samples-IsRing vs (push_sample v s) (push_sample-IsRing v s r)

-- The headers were read, and the number of frames has 16 bits.
Chunked : Option (ℕ × List ℕ) → Type 0
Chunked none = ⊥
Chunked (some r) = r.0 < 2 ^ 16

read_chunks-Chunked :
    (left : ℕ) (p : List ℕ) (total : ℕ)
    → left * 26 ≤ length p
    → total < 2 ^ 16
    → Chunked (read_chunks left p total)
unfolding read_chunks Chunked
read_chunks-Chunked zero p total h t = t
read_chunks-Chunked (suc left) p total h t =
    let long : ltb (length p) 26 ≡ false = ground arith in
    rw long (read_chunks-Chunked left (drop 26 p) _ (omega (arith, length-drop 26 p)) (omega arith))

take_frames-IsRing :
    (num_chan : ℕ) (samples : List ℕ) (s : Sub) → IsRing s → IsRing (take_frames num_chan samples s)
unfolding take_frames
take_frames-IsRing num_chan samples s r =
    let q =
      push_samples-IsRing samples (record s { num_chan_remote = num_chan })
        (record { size = r.size; written = r.written; read = r.read; bounded = r.bounded }) in
    record { size = q.size; written = q.written; read = q.read; bounded = q.bounded }

with_sub-IsRing :
    (cid : LinkId) (f : Sub → Sub) (ss : List Sub)
    → ((s : Sub) → IsRing s → IsRing (f s))
    → All IsRing ss
    → All IsRing (with_sub cid f ss)
unfolding with_sub
with_sub-IsRing cid f [] keeps r = tt
with_sub-IsRing cid f (s ∷ ss) keeps (r, rs) = elim (Bool-cases (is_sub cid s)) [
  | inl hit ↦ rw hit (keeps s r, rs)
  | inr miss ↦ rw miss (r, with_sub-IsRing cid f ss keeps rs)
]

-- The handler returned, and every ring is in order.
abbrev pub Heard : Option (List Sub) → Type 0
Heard none = ⊥
Heard (some subs) = All IsRing subs

Heard-if :
    (b : Bool) (o o' : Option (List Sub))
    → Heard o
    → (b ≡ false → Heard o')
    → Heard (if b then o else o')
Heard-if true o o' h h' = h
Heard-if false o o' h h' = h' refl

-- All samples were read.
abbrev Read : Option (List ℕ) → Type 0
Read none = ⊥
Read (some vs) = Unit {0}

and_sample-Read : (v : ℕ) (o : Option (List ℕ)) → Read o → Read (and_sample v o)
and_sample-Read v none h = h
and_sample-Read v (some vs) h = tt

channel_samples-Read :
    (left num_chan : ℕ) (p : List ℕ)
    → 0 < num_chan
    → left * num_chan * 2 ≤ length p
    → Read (channel_samples left num_chan p)
unfolding channel_samples
channel_samples-Read zero num_chan p pos h = tt
channel_samples-Read (suc left) num_chan p pos h =
    let step : suc left * num_chan ≡ num_chan + left * num_chan = grind arith in
    let long : ltb (length p) 2 ≡ false = le→ltb _ _ (omega arith) in
    rw long (
      and_sample-Read (be16 p) (channel_samples left num_chan (drop (num_chan * 2) p)) (
        channel_samples-Read left num_chan (drop (num_chan * 2) p) pos
          (omega (arith, length-drop (num_chan * 2) p))))

store_frames-Heard :
    (channel_id : LinkId) (num_chan : ℕ) (subs : List Sub) (o : Option (List ℕ))
    → Read o
    → All IsRing subs
    → Heard (store_frames channel_id num_chan subs o)
store_frames-Heard channel_id num_chan subs none h r = h
store_frames-Heard channel_id num_chan subs (some samples) h r =
    with_sub-IsRing channel_id _ subs (take_frames-IsRing num_chan samples) r

no_wrap : (total num_chan : ℕ) → total < 2 ^ 16 → num_chan < 2 ^ 8 → total * num_chan * 2 < 2 ^ 32
no_wrap total num_chan h h' = grind arith

read_samples-Heard :
    (self_session channel_id session_id : LinkId) (total : ℕ) (p : List ℕ) (subs : List Sub)
    → total < 2 ^ 16
    → All IsRing subs
    → Heard (read_samples self_session channel_id session_id total p subs)
unfolding read_samples
read_samples-Heard self_session channel_id session_id total p subs few r =
    let num_chan : ℕ = byte_at p 5 % 2 ^ 8 in
    let num_bytes : ℕ = be16 (drop 6 p) in
    let small = no_wrap total num_chan few (omega arith) in
    Heard-if (ltb (length p) 8) (some subs) _ r (λ header. rw header (
      Heard-if (not (byte_at p 0 == 1)) (some subs) _ r (λ _.
        Heard-if (num_chan == 0) (some subs) _ r (λ channels.
          Heard-if (not (total * num_chan * 2 % 2 ^ 32 == num_bytes)) (some subs) _ r (λ sizes.
            Heard-if (ltb (length p - 8) num_bytes) (some subs) _ r (λ long.
              Heard-if (not (same session_id self_session)) (some subs) _ r (λ _.
                Heard-if (not (is_subscribed channel_id subs)) (some subs) _ r (λ _.
                  store_frames-Heard channel_id num_chan subs _
                    (channel_samples-Read total num_chan (drop 8 p) (ground arith)
                      (ground (arith, length-drop 8 p, ltb→le (length p - 8) num_bytes long)))
                    r))))))))

behind_chunks-Heard :
    (self_session channel_id session_id : LinkId) (subs : List Sub) (o : Option (ℕ × List ℕ))
    → Chunked o
    → All IsRing subs
    → Heard (behind_chunks self_session channel_id session_id subs o)
unfolding Chunked
behind_chunks-Heard self_session channel_id session_id subs none c r = c
behind_chunks-Heard self_session channel_id session_id subs (some (total, p)) c r =
    read_samples-Heard self_session channel_id session_id total p subs c r

-- On any packet whose number of chunks times 26 fits 32 bits, the handler reads no header and no sample
-- outside the packet, and every jitter ring stays in order and within its 1024 samples.
pub handle_audio_buffer-Heard :
    (self_session : LinkId) (p : List ℕ) (subs : List Sub)
    → be32 (drop 16 p) * 26 < 2 ^ 32
    → All IsRing subs
    → Heard (handle_audio_buffer self_session p subs)
unfolding handle_audio_buffer
handle_audio_buffer-Heard self_session p subs fits r =
    let chunk_count : ℕ = be32 (drop 16 p) in
    Heard-if (ltb (length p) 54) (some subs) _ r (λ long.
      let ids : ltb (length p) 20 ≡ false = ground arith in
      rw ids (
        Heard-if (chunk_count == 0 || ltb (length p - 20) (chunk_count * 26 % 2 ^ 32)) (some subs) _
          r
          (λ whole.
            behind_chunks-Heard self_session (take 8 p) (take 8 (drop 8 p)) subs
              (read_chunks chunk_count (drop 20 p) 0)
              (read_chunks-Chunked chunk_count (drop 20 p) 0 (ground (arith, length-drop 20 p))
                (omega arith))
              r)))
