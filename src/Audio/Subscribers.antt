-- ===== src/Audio/Subscribers.antt =====
-- The subscribers of a channel that we publish, in firmware/link_audio.c, and the requests that
-- change them. The three arrays are read up to `num_subscribers`.
pub mod Laws
use colorlight_i9_abletonlin.Base.{
  ℕ, zero, suc, ◌+◌, ◌-◌, Bool, true, false, ◌&&◌, List, [], ◌∷◌, Option, none, some, ltb, leb,
  ◌==◌, if◌then◌else◌, same, get_or, set, take,
}
use colorlight_i9_abletonlin.Types.{LinkId, zero_id}
use colorlight_i9_abletonlin.Wire.{Walk, ret, fault, running, Callback, tlv_walk, key_chid}
use colorlight_i9_abletonlin.Audio.{Local, max_sub_per}

-- `c->sub_addr[i] == addr && c->sub_port[i] == port`.
abbrev pub is_subscriber : ℕ → ℕ → Local → ℕ → Bool
is_subscriber addr port c i = get_or c.sub_addr i 0 == addr && get_or c.sub_port i 0 == port

-- The first subscriber at the address and port from index `i` on, of `left` more.
unfoldable pub find_subscriber : ℕ → ℕ → Local → ℕ → ℕ → Option ℕ
find_subscriber addr port c zero i = none
find_subscriber addr port c (suc left) i =
    let rest = find_subscriber addr port c left (i + 1) in
    if is_subscriber addr port c i then some i else rest

-- The three assignments of a subscriber's place.
abbrev pub write_subscriber : ℕ → ℕ → ℕ → LinkId → Local → Local
write_subscriber i addr port peer c = record c {
  sub_addr = set c.sub_addr i addr;
  sub_port = set c.sub_port i port;
  sub_peer = set c.sub_peer i peer;
}

abbrev append_subscriber : LinkId → ℕ → ℕ → Local → Local
append_subscriber peer addr port c =
    if leb max_sub_per c.num_subscribers
    then c
    else record (write_subscriber c.num_subscribers addr port peer c) {
      num_subscribers = c.num_subscribers + 1;
    }

-- Behind the search.
abbrev pub unless_found : LinkId → ℕ → ℕ → Local → Option ℕ → Local
unless_found peer_id addr port c (some i) = c
unless_found peer_id addr port c none = append_subscriber peer_id addr port c

unfoldable pub add_subscriber : LinkId → ℕ → ℕ → Local → Local
add_subscriber peer_id addr port c =
    unless_found peer_id addr port c (find_subscriber addr port c c.num_subscribers 0)

-- The loop that closes the gap at `j`, with `left` places behind it.
unfoldable pub close_gap : ℕ → ℕ → Local → Local
close_gap zero j c = c
close_gap (suc left) j c = close_gap left (j + 1) (
    write_subscriber j (get_or c.sub_addr (j + 1) 0) (get_or c.sub_port (j + 1) 0)
      (get_or c.sub_peer (j + 1) zero_id) c)

-- Behind the search.
abbrev pub if_found : Local → Option ℕ → Local
if_found c none = c
if_found c (some i) =
    close_gap (c.num_subscribers - 1 - i) i (record c { num_subscribers = c.num_subscribers - 1 })

unfoldable pub remove_subscriber : ℕ → ℕ → Local → Local
remove_subscriber addr port c = if_found c (find_subscriber addr port c c.num_subscribers 0)

-- The entry sets the id; every entry is accepted.
unfoldable pub handle_chid_entry : Callback LinkId
handle_chid_entry key v n out = (true, if key == key_chid && n == 8 then take 8 v else out)

abbrev pub is_channel : LinkId → Local → Bool
is_channel cid c = c.in_use && same c.channel_id cid

-- The change to the first channel of the id, if there is one: `find_local_channel` and what is done
-- through its pointer.
unfoldable pub with_local_channel : LinkId → (Local → Local) → List Local → List Local
with_local_channel cid f [] = []
with_local_channel cid f (c ∷ cs) =
    let rest = with_local_channel cid f cs in if is_channel cid c then f c ∷ cs else c ∷ rest

abbrev pub requested : ℕ → LinkId → ℕ → ℕ → Local → Local
requested mtype requester src_addr src_port c =
    if mtype == 4
    then add_subscriber requester src_addr src_port c
    else remove_subscriber src_addr src_port c

-- Behind the walk, whose return value is not looked at. `none` is a walk that left the buffer or did
-- not end.
abbrev pub change_channel : ℕ → LinkId → ℕ → ℕ → List Local → Walk LinkId → Option (List Local)
change_channel mtype requester src_addr src_port locals (ret code cid) =
    some (with_local_channel cid (requested mtype requester src_addr src_port) locals)
change_channel mtype requester src_addr src_port locals fault = none
change_channel mtype requester src_addr src_port locals running = none

-- `base` is the address of `body`.
unfoldable pub handle_channel_request :
    ℕ → LinkId → ℕ → ℕ → ℕ → List ℕ → List Local → Option (List Local)
handle_channel_request mtype requester src_addr src_port base body locals =
    change_channel mtype requester src_addr src_port locals
      (tlv_walk base body handle_chid_entry zero_id)
