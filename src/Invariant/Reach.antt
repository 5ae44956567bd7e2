-- ===== src/Invariant/Reach.antt =====
-- The run of firmware/main.c: the start, and then passes of the main loop, datagrams and requests of the
-- web page in any order.
use colorlight_i9_abletonlin.Base.{
  ℕ, ◌+◌, ◌≡◌, ◌⊎◌, ◌&&◌, not, ◌==◌, ==→eq, refl, ◌∙◌, zero, suc, Bool, true, false, List, [],
  Option, none, some, arith, ltb, same, take, drop, length, if◌then◌else◌, All,
}
use colorlight_i9_abletonlin.Device.{Device, Env, ghost_time_us, host_time_us}
use colorlight_i9_abletonlin.Doubles.{Doubles}
use colorlight_i9_abletonlin.Wire.{byte_at}
use colorlight_i9_abletonlin.Wire.Total.{NoWrap, tlv_walk-Returns}
use colorlight_i9_abletonlin.Beat.{beat_pulse_init}
use colorlight_i9_abletonlin.Audio.{Audio}
use colorlight_i9_abletonlin.Audio.Catalog.{proto_audio}
use colorlight_i9_abletonlin.Audio.Frame.Queue.{IsCapture}
use colorlight_i9_abletonlin.Dispatch.{beside, respond, on_udp_rx, measurement_rx}
use colorlight_i9_abletonlin.Discovery.Boot.{prng_byte, prng_bytes, link_init}
use colorlight_i9_abletonlin.Discovery.Codec.{proto_hdr, handle_entry}
use colorlight_i9_abletonlin.Discovery.Receive.{link_handle_rx}
use colorlight_i9_abletonlin.Measure.{Completion, proto_link, pong_handler, zero_pong}
use colorlight_i9_abletonlin.Session.{complete}
use colorlight_i9_abletonlin.Http.{Conn}
use colorlight_i9_abletonlin.Http.Server.{Served, on_recv}
use colorlight_i9_abletonlin.Web.{Web, Stdio}
use colorlight_i9_abletonlin.Web.Controls.{webui_init}
use colorlight_i9_abletonlin.Firmware.{Registers, Firmware, turn, link_app_main}
use colorlight_i9_abletonlin.Invariant.{IsBuffer, Inv}
use colorlight_i9_abletonlin.Invariant.Buffer.{
  set_meas-Inv, Handled, measurement_handle_rx-Handled, responder_frame,
}
use colorlight_i9_abletonlin.Invariant.Election.{complete-Inv}
use colorlight_i9_abletonlin.Invariant.Table.{Received, link_handle_rx-Received}
use colorlight_i9_abletonlin.Invariant.Sound.{IsSound}
use colorlight_i9_abletonlin.Invariant.Heard.{IsAudioSane, Returned, link_audio_handle_rx-Returned}
use colorlight_i9_abletonlin.Invariant.Ticks.{link_audio_init-Kept}
use colorlight_i9_abletonlin.Invariant.Requests.{InOrder, Keeps-Inv, on_recv-InOrder}
use colorlight_i9_abletonlin.Invariant.Turns.{FirmwareInOrder, broadcast-Inv, turn-InOrder}

-- A datagram at an address: it lies below the top of the address space and no size field of its entries
-- wraps, where its protocol and its type have entries that are walked.
abbrev pub IsSane : ℕ → List ℕ → Type 0
IsSane base buf =
    (same (take 8 buf) proto_hdr ≡ true
      → (byte_at buf 8 ≡ 1) ⊎ (byte_at buf 8 ≡ 2)
      → NoWrap (base + 20) (drop 20 buf))
    × (same (take 8 buf) proto_link ≡ true → byte_at buf 8 ≡ 2 → NoWrap (base + 9) (drop 9 buf))
    × (same (take 8 buf) proto_audio ≡ true → IsAudioSane base buf)

kinds : (k : ℕ) → (not (k == 1) && not (k == 2)) ≡ false → (k ≡ 1) ⊎ (k ≡ 2)
kinds k h = ground arith

-- The handler returned, with the device and the tables in order.
abbrev pub Arrived : Option (Audio × Device) → Type 0
Arrived none = ⊥
Arrived (some (a, d)) = InOrder d a

Arrived-if :
    (b : Bool) (o o' : Option (Audio × Device))
    → (b ≡ true → Arrived o)
    → (b ≡ false → Arrived o')
    → Arrived (if b then o else o')
Arrived-if true o o' h h' = h refl
Arrived-if false o o' h h' = h' refl

beside-Arrived : (a : Audio) (o : Option Device) → IsSound a → Received o → Arrived (beside a o)
beside-Arrived a none s h = h
beside-Arrived a (some d) s h = (h, s)

Returned-Arrived : (d : Device) (o : Option (Audio × Device)) → Inv d → Returned d o → Arrived o
Returned-Arrived d none v h = h
Returned-Arrived d (some (a, d')) v (s, k) = (Keeps-Inv d d' k v, s)

module _ (env : Env) where
  respond-Received :
      (buf : List ℕ) (a p : ℕ) (o : Option (Completion × Device))
      → Handled env o
      → Received (respond env buf a p o)
  respond-Received buf a p none h = h
  respond-Received buf a p (some (done, d)) v =
      let done' = (complete env done d).1 in
      let w = complete-Inv env done d v in
      let f = responder_frame env buf a p done' in set_meas-Inv done' _ f.0 (rw f.1 w.buffer) w

  -- From a device and Link-Audio tables in order `on_udp_rx` returns, and leaves them in order, on any
  -- datagram, if it carries no size that wraps round 32 bits: where its protocol and type have entries
  -- that are walked, it lies below the top of the address space and no size field from its first entry
  -- on, nor a name's length or number of ids in a Link-Audio entry, wraps, and the number of chunks of an
  -- AudioBuffer, times 26, fits 32 bits.
  pub on_udp_rx-Arrived :
      (base : ℕ) (buf : List ℕ) (src_addr src_port : ℕ) (a : Audio) (d : Device)
      → IsSane base buf
      → Inv d
      → IsSound a
      → Arrived (on_udp_rx env base buf src_addr src_port a d)
  unfolding on_udp_rx measurement_rx
  on_udp_rx-Arrived base buf addr p a d s v o =
      let discovery : Option Device = link_handle_rx env base buf addr p d in
      let measured : Option Device = measurement_rx env base buf addr p d in
      Arrived-if (ltb (length buf) 8) (some (a, d)) _ (λ _. (v, o))
        (λ _.
          Arrived-if (same (take 8 buf) proto_hdr) (beside a discovery) _
            (λ is. beside-Arrived a discovery o (
              link_handle_rx-Received env base buf
                (λ k q.
                  tlv_walk-Returns (base + 20) (drop 20 buf) handle_entry q
                    (s.0 is (kinds (byte_at buf 8) k.1)))
                addr p d v))
            (λ _.
              Arrived-if (same (take 8 buf) proto_link) (beside a measured) _
                (λ is. beside-Arrived a measured o (
                  respond-Received buf addr p _ (
                    measurement_handle_rx-Handled env base buf addr p d
                      (λ k.
                        tlv_walk-Returns (base + 9) (drop 9 buf) pong_handler zero_pong
                          (s.1 is (==→eq _ 2 k.1)))
                      v)))
                (λ _.
                  Arrived-if (same (take 8 buf) proto_audio) _ (some (a, d))
                    (λ is.
                      Returned-Arrived d _ v
                        (link_audio_handle_rx-Returned env base buf addr p a d o (s.2 is)))
                    (λ _. (v, o)))))

  prng_byte_frame : (d : Device) → (prng_byte env d).1.meas ≡ d.meas
  unfolding prng_byte host_time_us
  prng_byte_frame d = ground arith

  prng_bytes_frame : (n : ℕ) (d : Device) → (prng_bytes env n d).1.meas ≡ d.meas
  unfolding prng_bytes
  prng_bytes_frame zero d = refl
  prng_bytes_frame (suc n) d = prng_bytes_frame n (prng_byte env d).1 ∙ prng_byte_frame d

  link_init-Inv : (d : Device) → IsBuffer d.meas → Inv (link_init env d).1
  unfolding link_init host_time_us ghost_time_us
  link_init-Inv d b = record {
    slots = refl;
    unique = λ id. omega arith;
    buffer = rw (prng_bytes_frame 8 d) b;
  }

module _ (fp : Doubles) where
  -- Memory before the start: the buffers have their sizes, and every capture position is inside.
  pub record IsBlank (f : Firmware fp) : Type 0 where
    pub samples : IsBuffer f.device.meas
    pub captures : All (All IsCapture) f.audio.s_tx_pkt

  -- A datagram, a segment of a request on a connection in any state, and a pass of the main loop. The
  -- network may have given new addresses between any two.
  pub data Step : Firmware fp → Firmware fp → Type 0 where
    receive :
        (env : Env) (base : ℕ) (buf : List ℕ) (src_addr src_port : ℕ) {f : Firmware fp} {a : Audio}
        {d : Device}
        → IsSane base buf
        → on_udp_rx env base buf src_addr src_port f.audio f.device ≡ some (a, d)
        → Step f (record f { audio = a; device = d })
    request :
        (io : Stdio fp) (env : Env) (page : List ℕ) (p : Option (List ℕ)) (cs : Conn)
        {f : Firmware fp} {out : Served} {w : Web}
        → on_recv
            (webui_init fp io env page [])
            p
            cs
            (record { device = f.device; audio = f.audio; s_peer_name = f.web_name })
          ≡ (out, w)
        → Step f (record f { device = w.device; audio = w.audio; web_name = w.s_peer_name })
    pass : (env : Env) (regs : Registers) (f : Firmware fp) → Step f (turn fp env regs f)

  -- The states that the firmware can be in after its start, whatever the memory held before.
  pub data Reachable : Firmware fp → Type 0 where
    boot :
        (env : Env) (regs : Registers) (f : Firmware fp)
        → IsBlank f
        → Reachable (link_app_main fp env regs f)
    next : {f f' : Firmware fp} → Reachable f → Step f f' → Reachable f'

  Step-InOrder : {f f' : Firmware fp} → Step f f' → FirmwareInOrder fp f → FirmwareInOrder fp f'
  Step-InOrder (receive env base buf addr p {f} {a} {d} s e) (v, o) =
      rw e at (on_udp_rx-Arrived env base buf addr p f.audio f.device s v o)
  Step-InOrder (request io env page p cs {f} {out} {w} e) h =
      let w0 : Web = record { device = f.device; audio = f.audio; s_peer_name = f.web_name } in
      rw e at (on_recv-InOrder fp io env page p cs w0 h)
  Step-InOrder (pass env regs f) h = turn-InOrder fp env regs f h

  boot-InOrder :
      (env : Env) (regs : Registers) (f : Firmware fp)
      → IsBlank f
      → FirmwareInOrder fp (link_app_main fp env regs f)
  unfolding link_app_main
  boot-InOrder env regs f b =
      let d1 = record f.device { beat = beat_pulse_init f.device.beat } in
      let v = link_init-Inv env d1 (record { size = b.samples.size; filled = b.samples.filled }) in
      let a = link_audio_init-Kept env f.audio (link_init env d1).1 b.captures in
      (broadcast-Inv env _ (Keeps-Inv _ _ a.1 v), a.0)

  -- In every state that the firmware reaches, from memory whose sample and capture buffers have their
  -- sizes, in any order of datagrams whose entries that are walked, and whose number of chunks, have no size
  -- that wraps round 32 bits, requests of the web page and passes of the main loop: the peer table has sixteen slots with no
  -- node in two of them, the sample buffer 200 elements with the next index not past its end, every
  -- jitter ring its 1024 samples with counters that are at most as far apart, every capture buffer
  -- its 64 samples with the position inside, and every channel its eight places for subscribers with
  -- a count of at most eight.
  pub Reachable-InOrder : {f : Firmware fp} → Reachable f → Inv f.device × IsSound f.audio
  Reachable-InOrder (boot env regs f b) = boot-InOrder env regs f b
  Reachable-InOrder (next r s) = Step-InOrder s (Reachable-InOrder r)
