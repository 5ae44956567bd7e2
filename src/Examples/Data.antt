-- ===== src/Examples/Data.antt =====
-- Devices and peers with small numbers.
use colorlight_i9_abletonlin.Base.{ℕ, ◌+◌, ◌*◌, ◌/◌, true, List, [], ◌∷◌, ltb, replicate}
use colorlight_i9_abletonlin.Types.{LinkId, Peer, zero_id, zero_timeline, zero_startstop, zero_peer}
use colorlight_i9_abletonlin.Device.{Device, Env}
use colorlight_i9_abletonlin.Doubles.{Doubles}
use colorlight_i9_abletonlin.Measure.{zero_measurement}

-- A counter that gains 3 microseconds at every access.
abbrev pub env : Env
env = record {
  counter = λ n. 1_000_000 + 3 * n;
  local_ipv4 = 0xC0A80132;
  local_ipv6 = 0xFE ∷ 0x80 ∷ replicate 14 1;
}

abbrev pub id_a : LinkId
id_a = 0 ∷ 0 ∷ 0 ∷ 0 ∷ 7 ∷ 1 ∷ 2 ∷ 3 ∷ []

abbrev pub id_b : LinkId
id_b = 0 ∷ 0 ∷ 0 ∷ 0 ∷ 9 ∷ 4 ∷ 5 ∷ 6 ∷ []

-- Memory before `link_init`.
abbrev pub memory : Device
memory = record {
  clock = record { cycle = 0; inter_lo = 0; inter_hi = 0 };
  sent = [];
  beat = record {
    s_flags = 0;
    s_beats_per_bar = 4;
    flags = 0;
    pulse_width = 1000;
    period_beat = 0;
    period_24ppqn = 0;
    period_48ppqn = 0;
    period_96ppqn = 0;
    period_bar = 0;
    soft_resets = 0;
  };
  prng = 0;
  self_id = zero_id;
  self_session = zero_id;
  self_timeline = zero_timeline;
  self_startstop = zero_startstop;
  peers = replicate 16 zero_peer;
  last_bcast_us = 0;
  next_bcast_us = 0;
  state_dirty = true;
  meas = zero_measurement;
  last_remeasure_us = 0;
  active_target_session = zero_id;
}

abbrev pub device_a : Device
device_a = record memory { self_id = id_a; self_session = id_a }

abbrev pub device_b : Device
device_b = record memory { self_id = id_b; self_session = id_b }

-- A peer in the session that `id_a` founded.
abbrev pub peer_a : Peer
peer_a = record zero_peer {
  in_use = true;
  node_id = id_a;
  session_id = id_a;
  mep4_addr = 5;
  mep4_port = 20808;
}

abbrev pub guest : Peer
guest = record peer_a {
  node_id = 1 ∷ id_b;
  timeline = record zero_timeline { time_origin_us_ghost = 40 };
}

abbrev pub table : List Peer
table = guest ∷ zero_peer ∷ peer_a ∷ []

-- Whole numbers in the place of `double`, enough to run the edits.
abbrev pub integers : Doubles
integers = record {
  Double = ℕ;
  of_nat = λ n. n;
  of_int64 = λ n. n;
  to_int64 = λ n. n;
  plus = λ a b. a + b;
  times = λ a b. a * b;
  over = λ a b. a / b;
  less = ltb;
  half = 0;
}
