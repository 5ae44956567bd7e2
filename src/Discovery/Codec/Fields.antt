-- ===== src/Discovery/Codec/Fields.antt =====
-- `handle_entry` of firmware/link.c on each value that `encode_msg` writes.
use colorlight_i9_abletonlin.Base.{
  ℕ, ◌^◌, ◌<◌, ◌≡◌, refl, true, List, [], ◌∷◌, ◌++◌, append-nil, ◌==◌, if◌then◌else◌, drop, take,
  length, take-append, drop-append,
}
use colorlight_i9_abletonlin.Types.{Peer}
use colorlight_i9_abletonlin.Wire.{
  be16, be64, put_be16, put_be32, put_be64, key_tmln, key_sess, key_stst, key_mep4, key_mep6,
  key_aep4, key_aep6,
}
use colorlight_i9_abletonlin.Wire.Bytes.{
  be16-put_be16, be32-put_be32, be64-put_be64, drop-put_be64, drop-put_be32,
}
use colorlight_i9_abletonlin.Discovery.Codec.{handle_entry}

be64_end : (v : ℕ) → v < 2 ^ 64 → be64 (put_be64 v) ≡ v
be64_end v h = rw append-nil at (be64-put_be64 v [] h)

be16_end : (v : ℕ) → v < 2 ^ 16 → be16 (put_be16 v) ≡ v
be16_end v h = rw append-nil at (be16-put_be16 v [] h)

drop-two : (a b : ℕ) (rest : List ℕ) → drop 16 (put_be64 a ++ (put_be64 b ++ rest)) ≡ rest
unfolding put_be64 put_be32
drop-two a b rest = refl

module _ (p : Peer) where
  pub handle_entry-tmln :
      (t b o : ℕ)
      → t < 2 ^ 64
      → b < 2 ^ 64
      → o < 2 ^ 64
      → handle_entry key_tmln (put_be64 t ++ (put_be64 b ++ put_be64 o)) 24 p ≡ (
        true,
        record p {
          timeline = record {
            tempo_us_per_beat = t;
            beat_origin_microbeats = b;
            time_origin_us_ghost = o;
          };
        },
      )
  unfolding handle_entry
  handle_entry-tmln t b o ht hb ho =
      rw
        (
          drop-put_be64 t (put_be64 b ++ put_be64 o),
          drop-two t b (put_be64 o),
          be64-put_be64 t (put_be64 b ++ put_be64 o) ht,
          be64-put_be64 b (put_be64 o) hb,
          be64_end o ho,
        )
        refl

  pub handle_entry-sess :
      (s : List ℕ)
      → length s ≡ 8
      → handle_entry key_sess s 8 p ≡ (true, record p { session_id = take 8 s })
  unfolding handle_entry
  handle_entry-sess s h = refl

  pub handle_entry-stst :
      (f b t : ℕ)
      → b < 2 ^ 64
      → t < 2 ^ 64
      → handle_entry key_stst (f ∷ (put_be64 b ++ put_be64 t)) 17 p ≡ (
        true,
        record p {
          startstop = record {
            is_playing = if f == 0 then 0 else 1;
            beats_microbeats = b;
            timestamp_us_ghost = t;
          };
        },
      )
  unfolding handle_entry
  handle_entry-stst f b t hb ht =
      rw (drop-put_be64 b (put_be64 t), be64-put_be64 b (put_be64 t) hb, be64_end t ht) refl

  module _ (a port : ℕ) (ha : a < 2 ^ 32) (hp : port < 2 ^ 16) where
    pub handle_entry-mep4 :
        handle_entry key_mep4 (put_be32 a ++ put_be16 port) 6 p
        ≡ (true, record p { mep4_addr = a; mep4_port = port })
    unfolding handle_entry
    handle_entry-mep4 =
        rw (be32-put_be32 a (put_be16 port) ha, drop-put_be32 a (put_be16 port), be16_end port hp)
          refl

    pub handle_entry-aep4 :
        handle_entry key_aep4 (put_be32 a ++ put_be16 port) 6 p
        ≡ (true, record p { aep4_addr = a; aep4_port = port })
    unfolding handle_entry
    handle_entry-aep4 =
        rw (be32-put_be32 a (put_be16 port) ha, drop-put_be32 a (put_be16 port), be16_end port hp)
          refl

  module _ (a : List ℕ) (port : ℕ) (ha : length a ≡ 16) (hp : port < 2 ^ 16) where
    split : (take 16 (a ++ put_be16 port) ≡ a) × (drop 16 (a ++ put_be16 port) ≡ put_be16 port)
    split = (rw ha at (take-append a (put_be16 port)), rw ha at (drop-append a (put_be16 port)))

    pub handle_entry-mep6 :
        handle_entry key_mep6 (a ++ put_be16 port) 18 p
        ≡ (true, record p { mep6_addr = a; mep6_port = port; have_mep6 = true })
    unfolding handle_entry
    handle_entry-mep6 = rw (split.0, split.1, be16_end port hp) refl

    pub handle_entry-aep6 :
        handle_entry key_aep6 (a ++ put_be16 port) 18 p
        ≡ (true, record p { aep6_addr = a; aep6_port = port; have_aep6 = true })
    unfolding handle_entry
    handle_entry-aep6 = rw (split.0, split.1, be16_end port hp) refl
