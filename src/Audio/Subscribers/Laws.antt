-- ===== src/Audio/Subscribers/Laws.antt =====
-- What `add_subscriber` and `remove_subscriber` of firmware/link_audio.c do to the first places of
-- the three arrays.
use colorlight_i9_abletonlin.Base.{
  ℕ, zero, suc, ◌+◌, ◌-◌, ◌≤◌, ◌<◌, ◌≡◌, ◌≢◌, ◌∙◌, ◌⊎◌, inl, inr, refl, arith, true, false, Option,
  none, some, leb, ltb, ◌==◌, ◌&&◌, Bool, leb→le, if◌then◌else◌, length, get_or, length-set,
  get_or-set_self, get_or-set_ne, Bool-cases,
}
use colorlight_i9_abletonlin.Types.{LinkId, zero_id}
use colorlight_i9_abletonlin.Audio.{Local, max_sub_per}
use colorlight_i9_abletonlin.Audio.Subscribers.{
  is_subscriber, find_subscriber, write_subscriber, unless_found, add_subscriber, close_gap,
  if_found, remove_subscriber,
}

-- The arrays have their sizes, and the count is inside them.
pub record IsTable (c : Local) : Type 0 where
  pub addrs : length c.sub_addr ≡ max_sub_per
  pub ports : length c.sub_port ≡ max_sub_per
  pub peers : length c.sub_peer ≡ max_sub_per
  pub filled : c.num_subscribers ≤ max_sub_per

-- The subscriber at a place.
abbrev pub subscriber : Local → ℕ → ℕ × ℕ × LinkId
subscriber c i = (get_or c.sub_addr i 0, get_or c.sub_port i 0, get_or c.sub_peer i zero_id)

-- The place has the address and the port.
abbrev pub is_at : ℕ → ℕ → Local → ℕ → Bool
is_at addr port c i = (subscriber c i).0 == addr && (subscriber c i).1 == port

-- The search found none of the places it looked at, or the first that is_at.
abbrev pub Search : ℕ → ℕ → Local → ℕ → ℕ → Option ℕ → Type 0
Search addr port c left i none = (k : ℕ) → (left ≤ k) ⊎ (is_at addr port c (i + k) ≡ false)
Search addr port c left i (some j) =
    (i ≤ j)
    × (j < i + left)
    × (is_at addr port c j ≡ true)
    × ((k : ℕ) → (j ≤ i + k) ⊎ (is_at addr port c (i + k) ≡ false))

find_subscriber_lem :
    (addr port left i : ℕ) (c : Local)
    → Search addr port c left i (find_subscriber addr port c left i)
unfolding find_subscriber
find_subscriber_lem addr port zero i c = λ k. inl (omega arith)
find_subscriber_lem addr port (suc left) i c = elim (Bool-cases (is_subscriber addr port c i)) [
  | inl hit ↦ rw hit (omega arith, omega arith, hit, λ k. inl (omega arith))
  | inr miss ↦ rw miss (
      onward (find_subscriber addr port c left (i + 1)) miss
        (find_subscriber_lem addr port left (i + 1) c))
]
  where
    onward :
        (o : Option ℕ)
        → is_subscriber addr port c i ≡ false
        → Search addr port c left (i + 1) o
        → Search addr port c (suc left) i o
    onward none miss h = go
      where
        go : (k : ℕ) → (suc left ≤ k) ⊎ (is_subscriber addr port c (i + k) ≡ false)
        go zero = let e : i + 0 ≡ i = omega arith in inr (rw e miss)
        go (suc k) =
            let e : i + suc k ≡ i + 1 + k = omega arith in
            elim (h k) [ inl far ↦ inl (omega arith) | inr out ↦ inr (rw e out) ]
    onward (some j) miss h = (omega arith, omega arith, h.2, go)
      where
        go : (k : ℕ) → (j ≤ i + k) ⊎ (is_at addr port c (i + k) ≡ false)
        go zero = let e : i + 0 ≡ i = omega arith in inr (rw e miss)
        go (suc k) =
            let e : i + suc k ≡ i + 1 + k = omega arith in
            elim (h.3 k) [ inl far ↦ inl (omega arith) | inr out ↦ inr (rw e out) ]

write_lem :
    (j a p k : ℕ) (e : LinkId) (c : Local)
    → IsTable c
    → j < max_sub_per
    → subscriber (write_subscriber j a p e c) k ≡ (if k == j then (a, p, e) else subscriber c k)
write_lem j a p k e c t h = elim (Bool-cases (k == j)) [
  | inl eq ↦
      let same_place : k ≡ j = ground arith in
      let x = get_or-set_self c.sub_addr j a 0 (omega (arith, t.addrs)) in
      let y = get_or-set_self c.sub_port j p 0 (omega (arith, t.ports)) in
      let z = get_or-set_self c.sub_peer j e zero_id (omega (arith, t.peers)) in
      rw (eq, same_place, x, y, z) refl
  | inr ne ↦
      let other : j ≢ k = ground arith in
      let x = get_or-set_ne c.sub_addr j k a 0 other in
      let y = get_or-set_ne c.sub_port j k p 0 other in
      let z = get_or-set_ne c.sub_peer j k e zero_id other in rw (ne, x, y, z) refl
]

write-IsTable :
    (j a p : ℕ) (e : LinkId) (c : Local) → IsTable c → IsTable (write_subscriber j a p e c)
write-IsTable j a p e c t = record {
  addrs = length-set c.sub_addr j a ∙ t.addrs;
  ports = length-set c.sub_port j p ∙ t.ports;
  peers = length-set c.sub_peer j e ∙ t.peers;
  filled = t.filled;
}

-- What a request to subscribe came to: the channel as it was, which had the address and port or no
-- place, or one subscriber more, at the end.
abbrev pub Added : LinkId → ℕ → ℕ → Local → Local → Type 0
Added peer addr port c c' =
    ((c' ≡ c)
      × (((j : ℕ) × Search addr port c c.num_subscribers 0 (some j))
          ⊎ (max_sub_per ≤ c.num_subscribers)))
    ⊎ (Search addr port c c.num_subscribers 0 none
        × (c'.num_subscribers ≡ c.num_subscribers + 1)
        × (subscriber c' c.num_subscribers ≡ (addr, port, peer)))

-- A request to subscribe keeps the arrays, at most eight subscribers, and every place but the one
-- behind the last. It adds the address and port there if no subscriber has them and there is room,
-- and else it changes nothing.
pub add_subscriber_lem :
    (peer : LinkId) (addr port k : ℕ) (c : Local)
    → IsTable c
    → k ≢ c.num_subscribers
    → IsTable (add_subscriber peer addr port c)
      × (subscriber (add_subscriber peer addr port c) k ≡ subscriber c k)
      × Added peer addr port c (add_subscriber peer addr port c)
unfolding add_subscriber
add_subscriber_lem peer addr port k c t ne =
    go (find_subscriber addr port c c.num_subscribers 0)
      (find_subscriber_lem addr port c.num_subscribers 0 c)
  where
    n : ℕ
    n = c.num_subscribers

    go :
        (o : Option ℕ)
        → Search addr port c n 0 o
        → let c' = unless_found peer addr port c o in
          IsTable c' × (subscriber c' k ≡ subscriber c k) × Added peer addr port c c'
    go (some i) h = (t, refl, inl (refl, inl (i, h)))
    go none h = elim (Bool-cases (leb max_sub_per n)) [
      | inl full ↦ rw full (t, refl, inl (refl, inr (leb→le max_sub_per n full)))
      | inr room ↦
          let w = write-IsTable n addr port peer c t in
          let inside : n < max_sub_per = ground arith in
          let old : (k == n) ≡ false = ground (arith, ne) in
          let new : (n == n) ≡ true = ground arith in
          rw room (
            record { addrs = w.addrs; ports = w.ports; peers = w.peers; filled = omega arith },
            rw old at (write_lem n addr port k peer c t inside),
            inr (h, refl, rw new at (write_lem n addr port n peer c t inside)),
          )
    ]

-- Place `k` when the gap at `j` is closed up to `n`.
abbrev pub shifted : ℕ → ℕ → Local → ℕ → ℕ × ℕ × LinkId
shifted j n c k =
    if ltb k j then subscriber c k else if ltb k n then subscriber c (k + 1) else subscriber c k

close_gap_lem :
    (left j k : ℕ) (c : Local)
    → IsTable c
    → j + left < max_sub_per
    → IsTable (close_gap left j c)
      × ((close_gap left j c).num_subscribers ≡ c.num_subscribers)
      × (subscriber (close_gap left j c) k ≡ shifted j (j + left) c k)
unfolding close_gap
close_gap_lem zero j k c t h = (t, refl, ground arith)
close_gap_lem (suc left) j k c t h =
    let s = subscriber c (j + 1) in
    let c1 = write_subscriber j s.0 s.1 s.2 c in
    let rest = close_gap_lem left (j + 1) k c1 (write-IsTable j s.0 s.1 s.2 c t) (omega arith) in
    let here = write_lem j s.0 s.1 k s.2 c t (omega arith) in
    let next = write_lem j s.0 s.1 (k + 1) s.2 c t (omega arith) in
    (rest.0, rest.1, rest.2 ∙ rw (here, next) (ground arith))

-- What a request to stop came to: the channel as it was, which did not have the address and port, or
-- one subscriber less, the first one that had them, with the places behind it moved up by one.
abbrev pub Removed : ℕ → ℕ → Local → Local → Type 0
Removed addr port c c' =
    ((c' ≡ c) × Search addr port c c.num_subscribers 0 none)
    ⊎ ((i : ℕ) × Search addr port c c.num_subscribers 0 (some i)
        × (c'.num_subscribers + 1 ≡ c.num_subscribers)
        × ((k : ℕ) → subscriber c' k ≡ shifted i (c.num_subscribers - 1) c k))

-- A request to stop keeps the arrays, and removes the first subscriber with the address and port,
-- if there is one, from the places in use and leaves the others in their order.
pub remove_subscriber_lem :
    (addr port : ℕ) (c : Local)
    → IsTable c
    → IsTable (remove_subscriber addr port c) × Removed addr port c (remove_subscriber addr port c)
unfolding remove_subscriber
remove_subscriber_lem addr port c t =
    go (find_subscriber addr port c c.num_subscribers 0)
      (find_subscriber_lem addr port c.num_subscribers 0 c)
  where
    n : ℕ
    n = c.num_subscribers

    go :
        (o : Option ℕ)
        → Search addr port c n 0 o
        → IsTable (if_found c o) × Removed addr port c (if_found c o)
    go none h = (t, inl (refl, h))
    go (some i) h =
        let fewer : IsTable (record c { num_subscribers = n - 1 }) = record {
          addrs = t.addrs;
          ports = t.ports;
          peers = t.peers;
          filled = omega (arith, t.filled);
        } in
        let last : i + (n - 1 - i) ≡ n - 1 = omega (arith, h.1) in
        let low : i < n = omega (arith, h.1) in
        let r = λ (k : ℕ).
          close_gap_lem (n - 1 - i) i k (record c { num_subscribers = n - 1 }) fewer
            (omega (arith, t.filled, low)) in
        ((r 0).0, inr (i, h, omega (arith, (r 0).1, low), λ k. rw last at (r k).2))
