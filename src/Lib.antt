-- ===== src/Lib.antt =====
-- LinkFPGA: the firmware of an Ableton Link device on an FPGA board (firmware/), which finds other
-- devices, measures the offset of its clock to theirs, joins the session that wins, and drives beat
-- pulses from the shared timeline.
--
-- Parts, and where each is modelled:
--   firmware/config.h, link.h         Config, Types    constants; ids, timelines, peers
--   firmware/tlv.h, tlv.c             Wire             byte order, entry encoders, `tlv_walk`
--   firmware/ghost_time.c             Clock            host time and ghost time from registers
--   firmware/median.c                 Median           quickselect and `median_i64`
--   firmware/beat_pulse.c             Beat             periods and flags of the pulse generator
--   firmware/link.c                   Discovery        codec, peer table, broadcasts, edits
--   firmware/measurement.c, measurement_responder.c
--                                     Measure          pings, pongs and the sample buffer
--   firmware/session.c                Session          which session to measure and to join
--   firmware/main.c                   Dispatch, Firmware
--                                     datagrams by their first eight bytes; the start, the loop
--   firmware/tdm.c                    Tdm              samples and frame flags by port
--   firmware/midi.c, eurorack.c       Inputs           clock and transport inputs
--   firmware/link_audio.c             Audio            subscribers, announcements, ChannelByes,
--                                                      packets, jitter rings, frames, routes
--   firmware/http_server.c            Http             request buffer, parser, routes
--   firmware/webui.c                  Web              pages and controls
--   firmware/netif_litex.c            Ethernet         slots of the Ethernet core and buffer chains
--   the C library on strings          Base/Text        what http_server.c and webui.c call
--
-- Device holds the state that the files of discovery, measurement and election share: their globals
-- and statics, the registers, and the datagrams sent so far. Audio, Tdm and Inputs keep their state
-- beside it, Web borrows the device and the Link-Audio tables for a request, and Firmware holds the
-- state of all of them. An operation is a function from a state to a result and a state, with the
-- statements of the source in their order. Invariant follows the firmware through any sequence of
-- datagrams, requests and passes of the main loop; Examples runs the theorems on concrete data.
--
-- An `int64_t` is its 64-bit pattern; signed comparison and division are in Base/Int64, and sums wrap.
-- The counter of the gateware is a parameter that is read anew at each register access, since
-- litex_soc/ghost_time.py latches it in every cycle. `double` is a parameter (Doubles), and so are
-- `atof`, `sscanf`, the printing of a `double` and the text of the admin page (Web.Stdio). Addresses
-- of the interface come from lwIP and are a parameter (Device.Env).
--
-- Bounds. `tlv_walk` runs on addresses modulo 2 ^ 32, as on the target, with fuel of one round more
-- than the buffer has bytes: enough wherever no size field wraps round the address space, and never
-- enough where one leads back to itself. `nth_element` has fuel of one round more than the range is
-- long, which is always enough.
--
-- The Ethernet driver stands by itself: between its chains and the datagrams of Dispatch lies lwIP,
-- which is not in the repository. Its memory is a function from offsets to bytes.
--
-- Not modelled: the calls into lwIP that open and listen on ports, allocate packets and bring the
-- interface up (firmware/net.c, http_init, the rest of netif_litex.c), the wait for a free slot of the
-- Ethernet core, the prints on the serial line, and the gateware.
pub mod Base
pub mod Config
pub mod Doubles
pub mod Wire
pub mod Types
pub mod Clock
pub mod Median
pub mod Beat
pub mod Device
pub mod Discovery
pub mod Measure
pub mod Session
pub mod Dispatch
pub mod Tdm
pub mod Audio
pub mod Http
pub mod Web
pub mod Inputs
pub mod Ethernet
pub mod Firmware
pub mod Invariant
pub mod Examples
