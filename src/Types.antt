-- ===== src/Types.antt =====
-- firmware/link.h: identities, timelines, the transport state and the peer table's entry. An
-- `int64_t` is its bit pattern, an `int` that is 0 or 1 a `Bool`, an array of bytes a list.
use colorlight_i9_abletonlin.Base.{ℕ, Bool, false, List, replicate}

-- `link_id_t`: eight bytes.
abbrev pub LinkId : Type 0
LinkId = List ℕ

pub record Timeline : Type 0 where
  pub tempo_us_per_beat : ℕ
  pub beat_origin_microbeats : ℕ
  pub time_origin_us_ghost : ℕ

pub record StartStop : Type 0 where
  pub is_playing : ℕ
  pub beats_microbeats : ℕ
  pub timestamp_us_ghost : ℕ

pub record Peer : Type 0 where
  pub in_use : Bool
  pub node_id : LinkId
  pub session_id : LinkId
  pub timeline : Timeline
  pub startstop : StartStop
  pub mep4_addr : ℕ
  pub mep4_port : ℕ
  pub aep4_addr : ℕ
  pub aep4_port : ℕ
  pub mep6_addr : List ℕ
  pub mep6_port : ℕ
  pub have_mep6 : Bool
  pub aep6_addr : List ℕ
  pub aep6_port : ℕ
  pub have_aep6 : Bool
  pub expires_at_us : ℕ
  pub measured : Bool
  pub ghost_offset : ℕ

abbrev pub zero_id : LinkId
zero_id = replicate 8 0

abbrev pub zero_timeline : Timeline
zero_timeline = record {
  tempo_us_per_beat = 0;
  beat_origin_microbeats = 0;
  time_origin_us_ghost = 0;
}

abbrev pub zero_startstop : StartStop
zero_startstop = record { is_playing = 0; beats_microbeats = 0; timestamp_us_ghost = 0 }

-- `memset(p, 0, sizeof(*p))`.
abbrev pub zero_peer : Peer
zero_peer = record {
  in_use = false;
  node_id = zero_id;
  session_id = zero_id;
  timeline = zero_timeline;
  startstop = zero_startstop;
  mep4_addr = 0;
  mep4_port = 0;
  aep4_addr = 0;
  aep4_port = 0;
  mep6_addr = replicate 16 0;
  mep6_port = 0;
  have_mep6 = false;
  aep6_addr = replicate 16 0;
  aep6_port = 0;
  have_aep6 = false;
  expires_at_us = 0;
  measured = false;
  ghost_offset = 0;
}
