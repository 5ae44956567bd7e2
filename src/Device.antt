-- ===== src/Device.antt =====
-- The state that the files of firmware/ share: the globals of link.c, the statics of link.c,
-- session.c and measurement.c, the registers, and the datagrams handed to the network so far.
-- An operation is a state transformer, and a `do` block runs its steps in the order of the source.
use colorlight_i9_abletonlin.Base.{ℕ, Bool, true, false, List, [], ◌∷◌, ◌++◌}
use colorlight_i9_abletonlin.Types.{LinkId, Timeline, StartStop, Peer}
use colorlight_i9_abletonlin.Clock
use colorlight_i9_abletonlin.Clock.{GhostTime}
use colorlight_i9_abletonlin.Beat.{BeatPulse}

pub data Destination : Type 0 where
  v4_unicast : ℕ → ℕ → Destination
  v4_mcast : ℕ → Destination
  v6_mcast : ℕ → Destination

-- What `net_udp_send_*` is given: where to, the source port and the bytes.
pub record Datagram : Type 0 where
  pub destination : Destination
  pub src_port : ℕ
  pub payload : List ℕ

-- `state_t` of measurement.c. The completion is `on_measure_done` whenever it is set.
pub record Measurement : Type 0 where
  pub active : Bool
  pub target_addr : ℕ
  pub target_port : ℕ
  pub target_session : LinkId
  pub pings_sent : ℕ
  pub next_send_us : ℕ
  pub prev_ghost_time : ℕ
  pub prev_host_time : ℕ
  pub samples : List ℕ
  pub n_samples : ℕ

pub record Device : Type 0 where
  pub clock : GhostTime
  pub sent : List Datagram
  pub beat : BeatPulse
  pub prng : ℕ
  pub self_id : LinkId
  pub self_session : LinkId
  pub self_timeline : Timeline
  pub self_startstop : StartStop
  pub peers : List Peer
  pub last_bcast_us : ℕ
  pub next_bcast_us : ℕ
  pub state_dirty : Bool
  pub meas : Measurement
  pub last_remeasure_us : ℕ
  pub active_target_session : LinkId

-- What the program does not compute: the counter of the gateware at each register access, and the
-- addresses that lwIP has for the interface.
pub record Env : Type 0 where
  pub counter : ℕ → ℕ
  pub local_ipv4 : ℕ
  pub local_ipv6 : List ℕ

abbrev pub M : Type 0 → Type 0
M A = Device → A × Device

infixl 5 ◌>>=◌ ◌>>◌
abbrev pub ◌>>=◌ : {A B : Type 0} → M A → (A → M B) → M B
◌>>=◌ m f d = let r = m d in f r.0 r.1

abbrev pub ◌>>◌ : {A B : Type 0} → M A → M B → M B
◌>>◌ m k d = k (m d).1

abbrev pub pure : {A : Type 0} → A → M A
pure a d = (a, d)

abbrev pub get : M Device
get d = (d, d)

abbrev pub modify : (Device → Device) → M (Unit {0})
modify f d = (tt, f d)

abbrev pub when : Bool → M (Unit {0}) → M (Unit {0})
when b m d = elim b [ true ↦ m d | false ↦ (tt, d) ]

unfoldable pub host_time_us : Env → M ℕ
host_time_us env d =
    let r = Clock.host_time_us env.counter d.clock in (r.0, record d { clock = r.1 })

unfoldable pub ghost_time_us : Env → M ℕ
ghost_time_us env d =
    let r = Clock.ghost_time_us env.counter d.clock in (r.0, record d { clock = r.1 })

unfoldable pub set_intercept : ℕ → M (Unit {0})
set_intercept v d = (tt, record d { clock = Clock.ghost_time_set_intercept v d.clock })

unfoldable pub get_intercept : M ℕ
get_intercept d = let r = Clock.ghost_time_get_intercept d.clock in (r.0, record d { clock = r.1 })

abbrev pub send : Destination → ℕ → List ℕ → M (Unit {0})
send to src payload = modify λ d. record d {
  sent = d.sent ++ (record { destination = to; src_port = src; payload = payload } ∷ []);
}

abbrev pub with_beat : (BeatPulse → BeatPulse) → M (Unit {0})
with_beat f = modify λ d. record d { beat = f d.beat }
