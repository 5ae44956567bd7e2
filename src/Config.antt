-- ===== src/Config.antt =====
-- firmware/config.h: the constants, for the default of two TDM ports of 16 channels.
use colorlight_i9_abletonlin.Base.{ℕ, ◌*◌}

abbrev pub num_tdm_ports : ℕ
num_tdm_ports = 2

abbrev pub tdm_channels_per_port : ℕ
tdm_channels_per_port = 16

abbrev pub tdm_fs_hz : ℕ
tdm_fs_hz = 48000

abbrev pub discovery_ttl_sec : ℕ
discovery_ttl_sec = 5

abbrev pub discovery_bcast_ms : ℕ
discovery_bcast_ms = 250

abbrev pub discovery_min_ms : ℕ
discovery_min_ms = 50

abbrev pub prune_grace_ms : ℕ
prune_grace_ms = 1000

abbrev pub discovery_port : ℕ
discovery_port = 20808

abbrev pub max_peers : ℕ
max_peers = 16

abbrev pub max_channels : ℕ
max_channels = num_tdm_ports * tdm_channels_per_port

abbrev pub ping_interval_ms : ℕ
ping_interval_ms = 50

abbrev pub max_pings : ℕ
max_pings = 5

abbrev pub sample_threshold : ℕ
sample_threshold = 100

abbrev pub session_eps_us : ℕ
session_eps_us = 500_000

abbrev pub session_remeasure_s : ℕ
session_remeasure_s = 30

abbrev pub max_msg_discovery : ℕ
max_msg_discovery = 512

abbrev pub max_msg_link : ℕ
max_msg_link = 512

abbrev pub max_msg_audio : ℕ
max_msg_audio = 1200

abbrev pub default_tempo_us_per_beat : ℕ
default_tempo_us_per_beat = 500_000
