-- ===== src/Server/Sound.antt =====
-- What `forward_request_to_server` keeps: the cache and the pool that the workers share.
use proxy_server_in_c.Common.{
  ℕ, ◌-◌, ◌≤◌, ◌<◌, ◌≡◌, ◌∙◌, refl, true, false, ◌⊎◌, inl, inr, none, some, ltb, leb, ◌==◌,
  if◌then◌else◌, Bytes, ◌∷◌, length, take, arith, ap, Bool-cases, Option-cases,
}
use proxy_server_in_c.HttpParser.{ParsedRequest, extract_host_port}
use proxy_server_in_c.Common.Int.{ℤ, pos, minus_one, positive, negative}
use proxy_server_in_c.Common.Run.{
  Cmd, pure, and_then, ◌>>◌, Returns, returns, Returns-then, Returns-weaken, Returns-value,
}
use proxy_server_in_c.Cache.{Cache, Ptr, cache_expiry_time, null, load, cache_get, cache_add}
use proxy_server_in_c.Cache.Aging.{WellFormed, MallocIsFresh}
use proxy_server_in_c.Cache.Safety.{cache_add-WellFormed}
use proxy_server_in_c.Cache.Get.{newest, cache_get_hit, miss_of_found}
use proxy_server_in_c.Cache.Order.{remove, length-remove}
use proxy_server_in_c.Cache.Rep.{load_live}
use proxy_server_in_c.ConnectionPool.{connection_pool_get}
use proxy_server_in_c.ConnectionPool.Invariant.{IsValid}
use proxy_server_in_c.ConnectionPool.Reachable.{
  connection_pool_get-IsValid, connection_pool_return-IsValid,
}
use proxy_server_in_c.Server.{
  World, Net, to_client, to_server, closed, on_cache, emit, connect, give_back, pass_on, receive,
  fetch, actual_path, request_text, cache_key, send_cached, forward_request_to_server,
  max_request_size,
}
use proxy_server_in_c.Server.Receive.{receive_loop_lem}
use proxy_server_in_c.Server.Texts.{printed_fits, length-actual_path, length-request_text}

-- The shared state is in order.
pub record IsSound (w : World) : Type 0 where
  pub cache : WellFormed w.cache
  pub pool : IsValid w.pool

pub on_cache-Returns :
    {A : Type 0} {P : A → Cache → Type 0} (m : Cmd Cache A) (w : World)
    → Returns P (m w.cache)
    → Returns (λ a v. P a v.cache × (v ≡ record w { cache = v.cache })) (on_cache m w)
on_cache-Returns m w r = let (a, c, e, p) = Returns-value r in rw (on_cache, e) (returns (p, refl))

pub connect-IsSound :
    (net : Net) (host : Bytes) (port : ℤ) {w : World}
    → IsSound w
    → Returns (λ _ v. IsSound v × (v.cache ≡ w.cache)) (connect net host port w)
unfolding connect
connect-IsSound net host port {w} s =
    let valid = connection_pool_get-IsValid s.pool host port net.asked net.dial in
    elim (Bool-cases (negative (connection_pool_get w.pool host port net.asked net.dial).result)) [
      | inl e ↦ rw e (returns (record { cache = s.cache; pool = valid }, refl))
      | inr e ↦ rw e (returns (record { cache = s.cache; pool = valid }, refl))
    ]

give_back-IsSound :
    (net : Net) (server : ℤ) (host : Bytes) (port : ℤ) {w : World}
    → IsSound w
    → Returns (λ _ v. IsSound v) (give_back net server host port w)
unfolding give_back
give_back-IsSound net server host port s = returns (record {
  cache = s.cache;
  pool = connection_pool_return-IsValid s.pool server host port true net.returned;
})

pass_on-IsSound :
    (net : Net) (path reply : Bytes) {w : World}
    → IsSound w
    → MallocIsFresh net.alloc w.cache
    → Returns (λ _ v. IsSound v) (pass_on net path reply w)
unfolding pass_on
pass_on-IsSound net path reply {w} s m = elim (Bool-cases (length reply == 0)) [
  | inl e ↦ rw e (returns s)
  | inr e ↦ rw e (
      Returns-then
        (on_cache-Returns
          (cache_add net.alloc (cache_key path) reply (pos (length reply)) net.stored)
          (record w { trace = to_client reply ∷ w.trace })
          (cache_add-WellFormed s.cache net.alloc (cache_key path) reply (pos (length reply))
            net.stored (omega arith) m))
        (λ _ v (f, same). returns (record { cache = f; pool = rw (ap (λ u. u.pool) same) s.pool })))
]

pub receive-Returns : (net : Net) (w : World) → Returns (λ _ v. v ≡ w) (receive net w)
unfolding receive
receive-Returns net w = let (k, e, _) = receive_loop_lem net.recv in rw e (returns refl)

-- What the request needs, for no text to overflow: a method as validation lets it through, a path,
-- and a host name that fits the buffer.
pub record IsPrintable (request : ParsedRequest) : Type 0 where
  pub method : Bytes
  pub path : Bytes
  pub has_method : request.method ≡ some method
  pub has_path : request.path ≡ some path
  pub short_method : length method ≤ 7
  pub short_host :
      (request.host ≡ none)
      ⊎ ((header : Bytes) × (request.host ≡ some header)
          × (length (extract_host_port header).0 < 256))

-- From the receive loop on.
reply-IsSound :
    (net : Net) (path host : Bytes) (port server : ℤ) (w : World)
    → IsSound w
    → MallocIsFresh net.alloc w.cache
    → Returns
        (λ _ v. IsSound v)
        (and_then (receive net w) (λ reply. elim reply [
          | none ↦ (do emit (closed server); pure minus_one)
          | some bytes ↦ (do
            pass_on net path bytes
            give_back net server host port
            pure (if ltb 0 (length bytes) then pos 0 else minus_one))
        ]))
reply-IsSound net path host port server w s m =
    Returns-then (receive-Returns net w) (λ reply v same. elim (Option-cases reply) [
      | inl e ↦ rw e (returns (rw same (record { cache = s.cache; pool = s.pool })))
      | inr (bytes, e) ↦ rw e (
          Returns-then (pass_on-IsSound net path bytes (rw same s) (rw same m)) (λ _ x sound.
            Returns-then (give_back-IsSound net server host port sound)
              (λ _ y after. returns after)))
    ])

fetch-IsSound :
    (net : Net) (method path host : Bytes) (port : ℤ) {w : World}
    → IsSound w
    → MallocIsFresh net.alloc w.cache
    → length method ≤ 7
    → length host < 256
    → Returns (λ _ v. IsSound v) (fetch net (some method) path host port w)
unfolding fetch
fetch-IsSound net method path host port {w} s m short_method short_host =
    let fits : length (request_text method (actual_path path) host) < max_request_size =
      omega (arith, length-request_text method (actual_path path) host, length-actual_path path) in
    Returns-then (connect-IsSound net host port s) (λ server v (sound, same).
      elim (Bool-cases (negative server)) [
        | inl e ↦ rw e (returns sound)
        | inr e ↦ elim (Bool-cases net.sends) [
          | inr f ↦
              rw
                (
                  e,
                  printed_fits max_request_size (request_text method (actual_path path) host) v
                      fits,
                  f,
                )
                (returns (record { cache = sound.cache; pool = sound.pool }))
          | inl f ↦
              rw
                (
                  e,
                  printed_fits max_request_size (request_text method (actual_path path) host) v
                      fits,
                  f,
                )
                (reply-IsSound net path host port server
                  (record v {
                    trace =
                        to_server server (request_text method (actual_path path) host) ∷ v.trace;
                  })
                  (record { cache = sound.cache; pool = sound.pool }) (rw same m))
        ]
      ])

-- A look-up keeps the cache in order; a miss leaves it as it is, and a hit is a live node.
look_up :
    {s : Cache}
    → WellFormed s
    → (url : Bytes) (now : ℕ)
    → Returns
        (λ p t.
          WellFormed t
          × (((p == null) ≡ true) × (t ≡ s) ⊎ ((p == null) ≡ false) × (t.live p ≡ true)))
        (cache_get url now s)
look_up {s} w url now = elim (Bool-cases (newest w.rep url == null)) [
  | inl z ↦ rw (miss_of_found w.rep url now (ground arith)) (returns (w, inl (refl, refl)))
  | inr z ↦ elim (Bool-cases (ltb (now - s.timestamp (newest w.rep url)) cache_expiry_time)) [
    | inr y ↦ rw (miss_of_found w.rep url now (ground arith)) (returns (w, inl (refl, refl)))
    | inl y ↦
        Returns-weaken (cache_get_hit w.rep url now (λ q. ground arith) (ground arith))
          (λ p t (e, mem, _, rep, same). (
            record {
              lru = p ∷ remove p w.lru;
              chain = w.chain;
              rep = rep;
              bounded = omega (arith, length-remove p w.lru mem, w.bounded);
              max_size = same.max_size ∙ w.max_size;
            },
            inr (ground arith, ground (arith, rep.list.live p)),
          ))
  ]
]

send_cached-IsSound :
    (node : Ptr) {w : World}
    → IsSound w
    → w.cache.live node ≡ true
    → Returns (λ _ v. IsSound v) (send_cached node w)
unfolding send_cached
send_cached-IsSound node {w} s live =
    let field : Cache → Ptr → Bytes = λ c p. take (c.data_size p) (c.payload p) in
    let loads : Returns (λ _ t. t ≡ w.cache) (load field node w.cache) =
      rw (load_live field node {s = w.cache} live) (returns refl) in
    Returns-then (on_cache-Returns (load field node) w loads) (λ bytes v (c, same).
      returns (record { cache = rw c s.cache; pool = rw (ap (λ u. u.pool) same) s.pool }))

-- `forward_request_to_server` returns, and keeps the cache and the pool in order.
pub forward-IsSound :
    (net : Net) (request : ParsedRequest) (client_socket : ℤ) {w : World}
    → IsSound w
    → MallocIsFresh net.alloc w.cache
    → IsPrintable request
    → Returns (λ _ v. IsSound v) (forward_request_to_server net request client_socket w)
unfolding forward_request_to_server
forward-IsSound net request client_socket {w} s m p = elim (Bool-cases (positive client_socket)) [
  | inr c ↦ rw c (returns s)
  | inl c ↦ elim p.short_host [
    | inl e ↦ rw (c, e) (returns s)
    | inr (header, e, short) ↦
        let fits : leb 256 (length (extract_host_port header).0) ≡ false = ground arith in
        rw (c, e, fits, p.has_path)
          (Returns-then
            (on_cache-Returns (cache_get (cache_key p.path) net.looked_up) w
              (look_up s.cache (cache_key p.path) net.looked_up))
            (λ node v ((good, why), same). elim why [
              | inl (miss, kept) ↦
                  rw (miss, p.has_method)
                    (fetch-IsSound net p.method p.path (extract_host_port header).0
                      (extract_host_port header).1
                      (record { cache = good; pool = rw (ap (λ u. u.pool) same) s.pool })
                      (rw kept m) p.short_method short)
              | inr (hit, live) ↦ rw hit (
                  Returns-then
                    (send_cached-IsSound node
                      (record { cache = good; pool = rw (ap (λ u. u.pool) same) s.pool }) live)
                    (λ _ u sound. returns sound))
            ]))
  ]
]
