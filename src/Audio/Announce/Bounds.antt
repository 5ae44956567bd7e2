-- ===== src/Audio/Announce/Bounds.antt =====
-- firmware/link_audio.c: the channels that `link_audio_init` sets up, and the size of their announcement.
use colorlight_i9_abletonlin.Base.{
  ℕ, zero, suc, ◌+◌, ◌*◌, ◌/◌, ◌%◌, ◌≤◌, ◌<◌, ◌≡◌, refl, arith, true, List, ◌==◌, if◌then◌else◌,
  Bool-cases, inl, inr, length, get_or, All,
}
use colorlight_i9_abletonlin.Config.{max_channels, max_msg_audio, tdm_channels_per_port}
use colorlight_i9_abletonlin.Types.{zero_id}
use colorlight_i9_abletonlin.Device.{Device, Env}
use colorlight_i9_abletonlin.Audio.{Local, Audio}
use colorlight_i9_abletonlin.Audio.Announce.{
  id_of, channel_name, new_local, random_id, init_locals, link_audio_init, channels_size,
  encode_peer_announcement,
}
use colorlight_i9_abletonlin.Audio.Receive.Announcement.{
  IsNamed, IsAnnouncer, length-encode_peer_announcement,
}

id_of-size : (t : ℕ) → length (id_of t) ≡ 8
unfolding id_of
id_of-size t = refl

abbrev pub place : List Local → ℕ → Local
place cs i = get_or cs i (new_local zero_id 0 0)

-- The channel at a place: in use, named after its port and channel, with an id of eight bytes.
pub record IsPlaced (c : Local) (port ch : ℕ) : Type 0 where
  pub used : c.in_use ≡ true
  pub port_is : c.tdm_port ≡ port
  pub channel_is : c.tdm_channel ≡ ch
  pub name_is : c.name ≡ channel_name port ch
  pub alone : c.num_subscribers ≡ 0
  pub id : length c.channel_id ≡ 8

module _ (env : Env) where
  init_locals-IsPlaced :
      (left port ch i : ℕ) (d : Device)
      → ch < 16
      → i < left
      → IsPlaced
          (place (init_locals env left port ch d).0 i)
          ((port * 16 + ch + i) / 16)
          ((port * 16 + ch + i) % 16)
  unfolding init_locals random_id
  init_locals-IsPlaced zero port ch i d h l = absurd (omega arith)
  init_locals-IsPlaced (suc left) port ch zero d h l =
      let p : (port * 16 + ch + 0) / 16 ≡ port = omega arith in
      let c : (port * 16 + ch + 0) % 16 ≡ ch = omega arith in
      rw (p, c)
        (record {
          used = refl;
          port_is = refl;
          channel_is = refl;
          name_is = refl;
          alone = refl;
          id = id_of-size _;
        })
  init_locals-IsPlaced (suc left) port ch (suc i) d h l = elim (Bool-cases (ch + 1 == 16)) [
    | inl last ↦
        let e : port * 16 + ch + suc i ≡ (port + 1) * 16 + 0 + i = ground arith in
        rw (last, e) (init_locals-IsPlaced left (port + 1) 0 i _ (omega arith) (omega arith))
    | inr more ↦
        let e : port * 16 + ch + suc i ≡ port * 16 + (ch + 1) + i = omega arith in
        rw (more, e) (init_locals-IsPlaced left port (ch + 1) i _ (ground arith) (omega arith))
  ]

  init_locals-IsNamed :
      (left port ch : ℕ) (d : Device)
      → let cs = (init_locals env left port ch d).0 in
        All IsNamed cs × (channels_size cs ≡ left * 21) × (length cs ≡ left)
  unfolding init_locals random_id channels_size
  init_locals-IsNamed zero port ch d = (tt, omega arith, refl)
  init_locals-IsNamed (suc left) port ch d =
      let last = ch + 1 == tdm_channels_per_port in
      let d' = (random_id env d).1 in
      let ih =
        init_locals-IsNamed left (if last then port + 1 else port) (if last then 0 else ch + 1)
          d' in
      (
        (record { id = id_of-size _; short = omega arith; text = omega arith }, ih.0),
        omega (arith, ih.1),
        omega (arith, ih.2),
      )

  -- After `link_audio_init` the table has a channel for each place of each TDM port, in use, named
  -- after the two, without subscribers, and the announcement of the table, with its ping, by a device
  -- with ids of eight bytes fits the buffer of 1200 bytes that it is written to.
  pub link_audio_init_lem :
      (a : Audio) (d s : Device) (i : ℕ)
      → i < max_channels
      → length s.self_id ≡ 8
      → length s.self_session ≡ 8
      → let cs = (link_audio_init env a d).0.locals in
        IsPlaced (place cs i) (i / 16) (i % 16)
        × (length cs ≡ max_channels)
        × (length (encode_peer_announcement env cs true s).0 ≤ max_msg_audio)
  unfolding link_audio_init
  link_audio_init_lem a d s i h id session =
      let n = init_locals-IsNamed max_channels 0 0 d in
      let at : 0 * 16 + 0 + i ≡ i = omega arith in
      let w : IsAnnouncer s (init_locals env max_channels 0 0 d).0 = record {
        id = id;
        session = session;
        named = n.0;
        few = omega (arith, n.1);
      } in
      (
        rw at at (init_locals-IsPlaced max_channels 0 0 i d (omega arith) h),
        n.2,
        omega (arith, length-encode_peer_announcement s _ w env, n.1),
      )
