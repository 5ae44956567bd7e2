-- ===== src/Discovery/Tick/Throttle.antt =====
-- How often firmware/link.c broadcasts.
use colorlight_i9_abletonlin.Base.{
  ℕ, ◌+◌, ◌-◌, ◌%◌, ◌^◌, ◌≤◌, ◌≡◌, refl, true, false, ◌||◌, List, [], ◌∷◌, ◌++◌, append_assoc, leb,
  ◌⊎◌, inl, inr, Bool-cases, leb→le,
}
use colorlight_i9_abletonlin.Config.{discovery_port}
use colorlight_i9_abletonlin.Device.{Device, Datagram, v4_mcast, v6_mcast, Env, host_time_us}
use colorlight_i9_abletonlin.Discovery.Codec.{encode_msg}
use colorlight_i9_abletonlin.Discovery.Broadcast.{send_alive}
use colorlight_i9_abletonlin.Discovery.Tick.{broadcast_due, link_tick}

-- The ALIVE of the device's state, to the group of each address family.
abbrev pub alives : Env → Device → List Datagram
alives env d =
    record {
      destination = v4_mcast discovery_port;
      src_port = discovery_port;
      payload = encode_msg env d 1 true;
    }
    ∷ record {
      destination = v6_mcast discovery_port;
      src_port = discovery_port;
      payload = encode_msg env d 1 true;
    }
    ∷ []

-- The time since the last broadcast, on a counter of 64 bits.
abbrev pub since : ℕ → Device → ℕ
since now d = (now + 2 ^ 64 - d.last_bcast_us) % 2 ^ 64

-- A tick sends nothing and keeps the time of the last broadcast, or sends exactly the two ALIVEs of the
-- state. It sends them only if the state was dirty or its time had come and the last broadcast is 50 ms
-- ago; then the state is clean, the last broadcast is at the host time that is read behind them, and the
-- next is due 250 ms later.
pub link_tick_sends :
    (env : Env) (d : Device)
    → let now = (host_time_us env d).0 in
      let d' = (link_tick env d).1 in
      ((d'.sent ≡ d.sent) × (d'.last_bcast_us ≡ d.last_bcast_us) × (d'.state_dirty ≡ d.state_dirty))
      ⊎ ((d'.sent ≡ d.sent ++ alives env (host_time_us env d).1)
          × ((d.state_dirty || leb d.next_bcast_us now) ≡ true)
          × (50_000 ≤ since now d)
          × (d'.state_dirty ≡ false)
          × (d'.last_bcast_us ≡ (host_time_us env (host_time_us env d).1).0)
          × (d'.next_bcast_us ≡ (d'.last_bcast_us + 250_000) % 2 ^ 64))
unfolding link_tick broadcast_due send_alive host_time_us
link_tick_sends env d =
    let now : ℕ = (host_time_us env d).0 in
    elim (Bool-cases (d.state_dirty || leb d.next_bcast_us now)) [
      | inr idle ↦ inl (rw idle (refl, refl, refl))
      | inl due ↦ elim (Bool-cases (leb 50_000 (since now d))) [
        | inl late ↦ inr (
            rw (due, late)
              (append_assoc d.sent _ _, refl, leb→le 50_000 (since now d) late, refl, refl, refl))
        | inr early ↦ inl (rw (due, early) (refl, refl, refl))
      ]
    ]
