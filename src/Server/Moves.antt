-- ===== src/Server/Moves.antt =====
-- One move of a worker among others in `forward_request_to_server`: what it does to the shared state
-- and to what the others rely on.
use proxy_server_in_c.Common.{
  ◌∙◌, ℕ, true, false, ◌≡◌, ◌≤◌, ◌<◌, ◌⊎◌, inl, inr, refl, ap, Option, some, ◌==◌, Bytes, List, ◌∷◌,
  length, arith, Bool-cases, Option-cases,
}
use proxy_server_in_c.Common.Int.{ℤ, pos, negative}
use proxy_server_in_c.Common.Run.{Returns, returns, Returns-then, Returns-weaken}
use proxy_server_in_c.Cache.{Cache, Ptr, null, cache_size, cache_get, cache_add, load}
use proxy_server_in_c.Cache.Order.{has}
use proxy_server_in_c.Cache.Depth.{position}
use proxy_server_in_c.Cache.Rep.{load_live, live_of_mem}
use proxy_server_in_c.Cache.Aging.{
  WellFormed, MallocIsFresh, IsAged, unchanged, cache_get-IsFirst, cache_add-IsAged,
}
use proxy_server_in_c.ConnectionPool.Invariant.{IsValid}
use proxy_server_in_c.ConnectionPool.Reachable.{connection_pool_return-IsValid}
use proxy_server_in_c.Server.{
  World, Net, to_client, max_request_size, actual_path, cache_key, request_text, give_back, pass_on,
  send_cached,
}
use proxy_server_in_c.Server.Texts.{printed_fits, length-actual_path, length-request_text}
use proxy_server_in_c.Server.Sound.{on_cache-Returns, connect-IsSound, receive-Returns}
use proxy_server_in_c.Server.Shared.{
  Phase, looking_up, sending, asking, storing, returning, done, exchange, move, touches, older,
  IsInTime, Sends, held,
}

-- A method and a host name for which the texts fit their buffers.
abbrev pub Fits : Option Bytes → Bytes → Type 0
Fits method host = ((m : Bytes) × (method ≡ some m) × (length m < 8)) × (length host < 256)

-- What holds of a worker, when the entries of the cache `c` stand in the order `lru`: a node that it
-- holds is there, with no more entries before it than its age, and as it was found.
abbrev pub InPhase : Cache → List Ptr → Phase → Type 0
InPhase c lru (looking_up method path host port) = Fits method host
InPhase c lru (sending node found age) =
    age < cache_size → (has node lru ≡ true) × (position node lru ≤ age) × (held c node ≡ found)
InPhase c lru (asking method path host port) = Fits method host
InPhase c lru (storing path reply server host port) = Unit
InPhase c lru (returning reply server host port) = Unit
InPhase c lru (done result) = Unit

-- A call moves the node that a worker holds by one place at most.
pub InPhase-older :
    {s t : Cache} {w : WellFormed s} {v : WellFormed t}
    → IsAged w v
    → (p : Phase) → InPhase s w.lru p
    → InPhase t v.lru (older p)
InPhase-older aged (looking_up method path host port) h = h
InPhase-older {s} {t} aged (sending node found age) h = λ few.
    let (mem, depth, same) = h (omega arith) in
    let (there, deeper, _, payload, size) = aged.stays node mem (omega (arith, depth)) in
    (there, omega (arith, deeper, depth), rw (payload, size) same)
InPhase-older aged (asking method path host port) h = h
InPhase-older aged (storing path reply server host port) h = tt
InPhase-older aged (returning reply server host port) h = tt
InPhase-older aged (done result) h = tt

-- What one worker's move does to the shared state, and what it sends.
unfoldable pub Goes : (old : World) → WellFormed old.cache → (phase p : Phase) → World → Type 0
Goes old w phase p v =
    IsValid v.pool
    × (((touches phase ≡ false) × (v.cache ≡ old.cache) × InPhase old.cache w.lru p)
        ⊎ ((touches phase ≡ true)
            × (new : WellFormed v.cache) × IsAged w new
            × InPhase v.cache new.lru p))
    × Sends phase old v

-- The exchange with the server leaves the cache and the pool alone.
exchange_lem :
    (net : Net) (method : Option Bytes) (path host : Bytes) (port server : ℤ) (w : World)
    → Fits method host
    → Returns
        (λ p v.
          (v.cache ≡ w.cache)
          × (v.pool ≡ w.pool)
          × ((c : Cache) (lru : List Ptr) → InPhase c lru p))
        (exchange net method path host port server w)
unfolding exchange
exchange_lem net method path host port server w ((m, e, short), short_host) =
    let fits : length (request_text m (actual_path path) host) < max_request_size =
      omega (arith, length-request_text m (actual_path path) host, length-actual_path path) in
    let text = printed_fits max_request_size (request_text m (actual_path path) host) w fits in
    elim (Bool-cases (negative server)) [
      | inl n ↦ rw n (returns (refl, refl, λ c lru. tt))
      | inr n ↦ elim (Bool-cases net.sends) [
        | inr f ↦ rw (n, e, text, f) (returns (refl, refl, λ c lru. tt))
        | inl f ↦
            rw (n, e, text, f)
              (Returns-then (receive-Returns net _) (λ reply v same. elim (Option-cases reply) [
                | inl r ↦ rw (r, same) (returns (refl, refl, λ c lru. tt))
                | inr (bytes, r) ↦ rw (r, same) (returns (refl, refl, λ c lru. tt))
              ]))
      ]
    ]

module _ (net : Net) (world : World) (w : WellFormed world.cache) (valid : IsValid world.pool) where
  look_up-Goes :
      (method : Option Bytes) (path host : Bytes) (port : ℤ)
      → Fits method host
      → Returns
          (Goes world w (looking_up method path host port))
          (move net (looking_up method path host port) world)
  unfolding move Goes
  look_up-Goes method path host port fits =
      Returns-then
        (on_cache-Returns (cache_get (cache_key path) net.looked_up) world
          (cache_get-IsFirst w (cache_key path) net.looked_up))
        (λ node v ((new, aged, first), same). returns (
          rw (ap (λ u. u.pool) same) valid,
          inr (
            refl,
            new,
            aged,
            elim (Bool-cases (node == null)) [
              | inl e ↦ rw e fits
              | inr e ↦ elim first [
                | inl z ↦ absurd (ground arith)
                | inr (mem, z) ↦ rw e (λ few. (mem, omega (arith, z), refl))
              ]
            ],
          ),
          tt,
        ))

  send_cached_lem :
      (node : Ptr)
      → world.cache.live node ≡ true
      → Returns
          (λ _ v.
            (v.cache ≡ world.cache)
            × (v.pool ≡ world.pool)
            × (v.trace ≡ to_client (held world.cache node) ∷ world.trace))
          (send_cached node world)
  unfolding send_cached
  send_cached_lem node live =
      let loads : Returns (λ a t. (a ≡ held world.cache node) × (t ≡ world.cache))
          (load held node world.cache) =
        rw (load_live held node {s = world.cache} live) (returns (refl, refl)) in
      Returns-then (on_cache-Returns (load held node) world loads)
        (λ bytes v ((e, c), same). returns (c, ap (λ u. u.pool) same, rw (e, same) refl))

  send-Goes :
      (node : Ptr) (found : Bytes) (age : ℕ)
      → InPhase world.cache w.lru (sending node found age)
      → age < cache_size
      → Returns (Goes world w (sending node found age)) (move net (sending node found age) world)
  unfolding move Goes
  send-Goes node found age h few =
      let (there, _, same) = h few in
      Returns-then (send_cached_lem node (live_of_mem w.rep.list node there))
        (λ _ v (c, pool, sent). returns (rw pool valid, inl (refl, c, tt), rw (← same) sent))

  ask-Goes :
      (method : Option Bytes) (path host : Bytes) (port : ℤ)
      → Fits method host
      → Returns
          (Goes world w (asking method path host port))
          (move net (asking method path host port) world)
  unfolding move Goes
  ask-Goes method path host port fits =
      Returns-then (connect-IsSound net host port (record { cache = w; pool = valid }))
        (λ server v (sound, same).
          Returns-weaken (exchange_lem net method path host port server v fits)
            (λ p u (cache, pool, fine).
              (rw pool sound.pool, inl (refl, cache ∙ same, fine world.cache w.lru), tt)))

  pass_on_lem :
      (path reply : Bytes)
      → MallocIsFresh net.alloc world.cache
      → Returns
          (λ _ v. (v.pool ≡ world.pool) × (new : WellFormed v.cache) × IsAged w new)
          (pass_on net path reply world)
  unfolding pass_on
  pass_on_lem path reply m = elim (Bool-cases (length reply == 0)) [
    | inl e ↦ rw e (returns (refl, w, unchanged w))
    | inr e ↦ rw e (
        Returns-then
          (on_cache-Returns
            (cache_add net.alloc (cache_key path) reply (pos (length reply)) net.stored)
            (record world { trace = to_client reply ∷ world.trace })
            (cache_add-IsAged w net.alloc (cache_key path) reply (pos (length reply)) net.stored
              (omega arith) m))
          (λ _ v ((new, aged), same). returns (ap (λ u. u.pool) same, new, aged)))
  ]

  store-Goes :
      (path reply : Bytes) (server : ℤ) (host : Bytes) (port : ℤ)
      → MallocIsFresh net.alloc world.cache
      → Returns
          (Goes world w (storing path reply server host port))
          (move net (storing path reply server host port) world)
  unfolding move Goes
  store-Goes path reply server host port m =
      Returns-then (pass_on_lem path reply m)
        (λ _ v (pool, new, aged). returns (rw pool valid, inr (refl, new, aged, tt), tt))

  return-Goes :
      (reply : Bytes) (server : ℤ) (host : Bytes) (port : ℤ)
      → Returns
          (Goes world w (returning reply server host port))
          (move net (returning reply server host port) world)
  unfolding move Goes give_back
  return-Goes reply server host port = returns (
    connection_pool_return-IsValid valid server host port true net.returned,
    inl (refl, refl, tt),
    tt,
  )

  pub move-Goes :
      (phase : Phase)
      → InPhase world.cache w.lru phase
      → IsInTime net phase world
      → Returns (Goes world w phase) (move net phase world)
  unfolding move Goes
  move-Goes (looking_up method path host port) h t = look_up-Goes method path host port h
  move-Goes (sending node found age) h t = send-Goes node found age h t
  move-Goes (asking method path host port) h t = ask-Goes method path host port h
  move-Goes (storing path reply server host port) h t = store-Goes path reply server host port t
  move-Goes (returning reply server host port) h t = return-Goes reply server host port
  move-Goes (done result) h t = returns (valid, inl (refl, refl, tt), tt)
