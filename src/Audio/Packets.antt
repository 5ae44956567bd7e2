-- ===== src/Audio/Packets.antt =====
-- The audio packets of firmware/link_audio.c: a header, chunk headers, and interleaved samples.
pub mod Safety
use colorlight_i9_abletonlin.Base.{
  false, ℕ, zero, suc, ◌+◌, ◌-◌, ◌*◌, ◌%◌, ◌^◌, Bool, ◌&&◌, ◌||◌, not, List, [], ◌∷◌, Option, none,
  some, ltb, ◌==◌, if◌then◌else◌, same, length, take, drop,
}
use colorlight_i9_abletonlin.Types.{LinkId}
use colorlight_i9_abletonlin.Wire.{byte_at, be16, be32}
use colorlight_i9_abletonlin.Audio.{Sub}
use colorlight_i9_abletonlin.Audio.Jitter.{push_samples}

-- The loop over the chunk headers: the sum of their frames on 16 bits, and what is behind them. A
-- header that is cut off is a read outside the packet, of the header or of the codec behind it.
unfoldable pub read_chunks : ℕ → List ℕ → ℕ → Option (ℕ × List ℕ)
read_chunks zero p total_frames = some (total_frames, p)
read_chunks (suc left) p total_frames =
    let rest = read_chunks left (drop 26 p) ((total_frames + be16 (drop 8 p)) % 2 ^ 16) in
    if ltb (length p) 26 then none else rest

-- What reads `n` bytes from a position on: `none` where the packet has fewer behind it.
abbrev pub reading {ℓ} : {A : Type ℓ} → ℕ → List ℕ → Option A → Option A
reading n p o = if ltb (length p) n then none else o

abbrev pub and_sample : ℕ → Option (List ℕ) → Option (List ℕ)
and_sample v none = none
and_sample v (some vs) = some (v ∷ vs)

-- The samples of channel 0, each a read of two bytes.
unfoldable pub channel_samples : ℕ → ℕ → List ℕ → Option (List ℕ)
channel_samples zero num_chan p = some []
channel_samples (suc left) num_chan p =
    let rest = channel_samples left num_chan (drop (num_chan * 2) p) in
    reading 2 p (and_sample (be16 p) rest)

abbrev pub is_sub : LinkId → Sub → Bool
is_sub cid s = s.in_use && same s.channel_id cid

-- The change to the first subscription to the channel, if there is one: `find_sub_for_channel` and
-- what is done through its pointer.
unfoldable pub with_sub : LinkId → (Sub → Sub) → List Sub → List Sub
with_sub cid f [] = []
with_sub cid f (s ∷ ss) =
    let rest = with_sub cid f ss in if is_sub cid s then f s ∷ ss else s ∷ rest

unfoldable pub take_frames : ℕ → List ℕ → Sub → Sub
take_frames num_chan samples s =
    let s' = push_samples samples (record s { num_chan_remote = num_chan }) in
    record s' { last_count = (s'.last_count + 1) % 2 ^ 64 }

abbrev pub is_subscribed : LinkId → List Sub → Bool
is_subscribed cid [] = false
is_subscribed cid (s ∷ ss) = is_sub cid s || is_subscribed cid ss

-- Behind the reads of the samples.
abbrev pub store_frames : LinkId → ℕ → List Sub → Option (List ℕ) → Option (List Sub)
store_frames channel_id num_chan subs none = none
store_frames channel_id num_chan subs (some samples) =
    some (with_sub channel_id (take_frames num_chan samples) subs)

-- Behind the chunk headers: the sample header, the tests on it, and the samples, which are read only with
-- a subscription to the channel.
unfoldable pub read_samples : LinkId → LinkId → LinkId → ℕ → List ℕ → List Sub → Option (List Sub)
read_samples self_session channel_id session_id total_frames p subs =
    let codec = byte_at p 0 in
    let num_chan = byte_at p 5 % 2 ^ 8 in
    let num_bytes = be16 (drop 6 p) in
    let samples = channel_samples total_frames num_chan (drop 8 p) in
    if ltb (length p) (1 + 4 + 1 + 2)
    then some subs
    else reading 8 p (
        if not (codec == 1)
        then some subs
        else if num_chan == 0
        then some subs
        else if not (total_frames * num_chan * 2 % 2 ^ 32 == num_bytes)
        then some subs
        else if ltb (length p - 8) num_bytes
        then some subs
        else if not (same session_id self_session)
        then some subs
        else if not (is_subscribed channel_id subs)
        then some subs
        else store_frames channel_id num_chan subs samples)

abbrev pub behind_chunks :
    LinkId → LinkId → LinkId → List Sub → Option (ℕ × List ℕ) → Option (List Sub)
behind_chunks self_session channel_id session_id subs none = none
behind_chunks self_session channel_id session_id subs (some (total_frames, p)) =
    read_samples self_session channel_id session_id total_frames p subs

-- `none` is a read outside the packet. The product in the test has 32 bits, as `size_t` on the target.
unfoldable pub handle_audio_buffer : LinkId → List ℕ → List Sub → Option (List Sub)
handle_audio_buffer self_session p subs =
    let chunk_count = be32 (drop 16 p) in
    if ltb (length p) (8 + 8 + 4 + 26 + 1 + 4 + 1 + 2)
    then some subs
    else reading 20 p (
        if chunk_count == 0 || ltb (length p - 20) (chunk_count * 26 % 2 ^ 32)
        then some subs
        else behind_chunks self_session (take 8 p) (take 8 (drop 8 p)) subs
            (read_chunks chunk_count (drop 20 p) 0))
