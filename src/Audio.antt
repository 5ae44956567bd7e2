-- ===== src/Audio.antt =====
-- firmware/link_audio.h and link_audio.c: the tables of the Link-Audio extension.
pub mod Catalog
pub mod Announce
pub mod Receive
pub mod Frame
pub mod Jitter
pub mod Packets
pub mod Sender
pub mod Subscribers
use colorlight_i9_abletonlin.Base.{ℕ, ◌*◌, Bool, false, List, [], replicate}
use colorlight_i9_abletonlin.Config.{max_channels}
use colorlight_i9_abletonlin.Types.{LinkId, zero_id}

abbrev pub jbuf_len : ℕ
jbuf_len = 1024

abbrev pub max_sub_per : ℕ
max_sub_per = 8

abbrev pub frames_per_pkt : ℕ
frames_per_pkt = 64

abbrev pub max_remote : ℕ
max_remote = 64

-- A name is the characters before the terminating zero.
pub record Local : Type 0 where
  pub in_use : Bool
  pub channel_id : LinkId
  pub name : List ℕ
  pub tdm_port : ℕ
  pub tdm_channel : ℕ
  pub next_send_count : ℕ
  pub num_subscribers : ℕ
  pub sub_addr : List ℕ
  pub sub_port : List ℕ
  pub sub_peer : List LinkId

pub record Remote : Type 0 where
  pub in_use : Bool
  pub peer_id : LinkId
  pub channel_id : LinkId
  pub name : List ℕ
  pub endpoint_addr : ℕ
  pub endpoint_port : ℕ
  pub last_seen_us : ℕ

abbrev pub zero_remote : Remote
zero_remote = record {
  in_use = false;
  peer_id = zero_id;
  channel_id = zero_id;
  name = [];
  endpoint_addr = 0;
  endpoint_port = 0;
  last_seen_us = 0;
}

-- A subscription with its jitter ring: `jbuf_w` and `jbuf_r` are 32-bit counters.
pub record Sub : Type 0 where
  pub in_use : Bool
  pub channel_id : LinkId
  pub source_peer : LinkId
  pub source_addr : ℕ
  pub source_port : ℕ
  pub tdm_port : ℕ
  pub tdm_channel : ℕ
  pub next_request_us : ℕ
  pub last_count : ℕ
  pub num_chan_remote : ℕ
  pub jbuf : List ℕ
  pub jbuf_w : ℕ
  pub jbuf_r : ℕ

abbrev pub zero_sub : Sub
zero_sub = record {
  in_use = false;
  channel_id = zero_id;
  source_peer = zero_id;
  source_addr = 0;
  source_port = 0;
  tdm_port = 0;
  tdm_channel = 0;
  next_request_us = 0;
  last_count = 0;
  num_chan_remote = 0;
  jbuf = replicate jbuf_len 0;
  jbuf_w = 0;
  jbuf_r = 0;
}

-- A row of `s_tx_pkt_buf` and its `s_tx_pkt_pos`: the samples captured for the next packet.
pub record Capture : Type 0 where
  pub buf : List ℕ
  pub pos : ℕ

-- The tables and statics of the file; `s_tx_pkt` by port and channel.
pub record Audio : Type 0 where
  pub locals : List Local
  pub remotes : List Remote
  pub subs : List Sub
  pub s_last_announce_us : ℕ
  pub s_tx_pkt : List (List Capture)
