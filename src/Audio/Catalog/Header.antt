-- ===== src/Audio/Catalog/Header.antt =====
-- What a receiver reads of the header that `encode_audio_header` of firmware/link_audio.c writes.
use colorlight_i9_abletonlin.Base.{
  ℕ, ◌+◌, ◌≡◌, refl, arith, List, ◌++◌, length, length-append, take, drop, take_exact, take_front,
  drop_front,
}
use colorlight_i9_abletonlin.Device.{Device}
use colorlight_i9_abletonlin.Wire.{byte_at}
use colorlight_i9_abletonlin.Audio.Catalog.{proto_audio, encode_audio_header}

pub encode_audio_header_lem :
    (d : Device) (mtype ttl : ℕ) (rest : List ℕ)
    → length d.self_id ≡ 8
    → let msg = encode_audio_header d mtype ttl ++ rest in
      (take 8 msg ≡ proto_audio)
      × (byte_at msg 8 ≡ mtype)
      × (take 8 (drop 12 msg) ≡ d.self_id)
      × (drop 20 msg ≡ rest)
      × (length msg ≡ 20 + length rest)
unfolding encode_audio_header
encode_audio_header_lem d mtype ttl rest id =
    let size : length (d.self_id ++ rest) ≡ 8 + length rest =
      omega (arith, length-append d.self_id rest, id) in
    rw (take_exact 8 d.self_id id) (
      refl,
      refl,
      take_front 8 d.self_id rest id,
      drop_front 8 d.self_id rest id,
      omega (arith, size),
    )
