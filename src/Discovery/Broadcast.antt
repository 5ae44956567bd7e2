-- ===== src/Discovery/Broadcast.antt =====
-- firmware/link.c: `send_alive`, `send_response`, `link_send_byebye` and `link_broadcast_alive_now`.
use colorlight_i9_abletonlin.Base.{ℕ, ◌+◌, ◌*◌, ◌%◌, ◌^◌, true, false}
use colorlight_i9_abletonlin.Config.{discovery_port, discovery_bcast_ms}
use colorlight_i9_abletonlin.Device.{
  Env, M, ◌>>=◌, ◌>>◌, get, modify, send, host_time_us, v4_unicast, v4_mcast, v6_mcast,
}
use colorlight_i9_abletonlin.Discovery.Codec.{encode_msg, encode_header}

module _ (env : Env) where
  unfoldable pub send_alive : M (Unit {0})
  send_alive = do
    d ← get
    let buf = encode_msg env d 1 true
    send (v4_mcast discovery_port) discovery_port buf
    send (v6_mcast discovery_port) discovery_port buf
    now ← host_time_us env
    modify λ d. record d {
      last_bcast_us = now;
      next_bcast_us = (now + discovery_bcast_ms * 1000) % 2 ^ 64;
      state_dirty = false;
    }

  unfoldable pub send_response : ℕ → ℕ → M (Unit {0})
  send_response to_addr to_port = do
    d ← get
    send (v4_unicast to_addr to_port) discovery_port (encode_msg env d 2 true)

  unfoldable pub link_broadcast_alive_now : M (Unit {0})
  link_broadcast_alive_now = do
    modify λ d. record d { state_dirty = true }
    now ← host_time_us env
    modify λ d. record d { next_bcast_us = now }

pub link_send_byebye : M (Unit {0})
link_send_byebye = do
  d ← get
  send (v4_mcast discovery_port) discovery_port (encode_header d 3 0)
  send (v6_mcast discovery_port) discovery_port (encode_header d 3 0)
