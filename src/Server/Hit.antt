-- ===== src/Server/Hit.antt =====
-- `forward_request_to_server` with an answer in the cache.
use proxy_server_in_c.Common.{
  ℕ, ◌-◌, ◌<◌, ◌≡◌, ◌≢◌, ◌∙◌, sym, ap, refl, true, false, some, leb, ◌==◌, Bytes, List, ◌∷◌, length,
  take, arith, take_of_length-le, bytes_eq_refl,
}
use proxy_server_in_c.Common.Int.{ℤ, pos, positive}
use proxy_server_in_c.Common.Run.{and_then, Returns, returns, Returns-then, Returns-weaken}
use proxy_server_in_c.Cache.{
  Cache, Ptr, null, load, cache_get, cache_add, cache_hash, cache_expiry_time,
}
use proxy_server_in_c.Cache.Rep.{Rep, load_live}
use proxy_server_in_c.Cache.Get.{newest, cache_get_hit}
use proxy_server_in_c.Cache.Contract.{HasMemory, trimmed, trimmed_chain, cache_add_lem}
use proxy_server_in_c.Cache.Add.{pushed, Filled}
use proxy_server_in_c.HttpParser.{ParsedRequest, extract_host_port}
use proxy_server_in_c.Server.{
  World, Net, to_client, cache_key, send_cached, pass_on, forward_request_to_server,
}
use proxy_server_in_c.Server.Sound.{on_cache-Returns}

send_cached_lem :
    (node : Ptr) (w : World)
    → w.cache.live node ≡ true
    → Returns
        (λ _ v.
          (v.trace ≡ to_client (take (w.cache.data_size node) (w.cache.payload node)) ∷ w.trace)
          × (v.pool ≡ w.pool))
        (send_cached node w)
unfolding send_cached
send_cached_lem node w live =
    let field : Cache → Ptr → Bytes = λ c p. take (c.data_size p) (c.payload p) in
    let loads : Returns (λ b t. (b ≡ field w.cache node)) (load field node w.cache) =
      rw (load_live field node {s = w.cache} live) (returns refl) in
    Returns-then (on_cache-Returns (load field node) w loads) (λ bytes v (b, same). returns (
      ap (λ x. to_client x ∷ v.trace) b ∙ ap (λ u. to_client (field w.cache node) ∷ u.trace) same,
      ap (λ u. u.pool) same,
    ))

pass_on_lem :
    {w : World} {lru : List Ptr} {chain : ℕ → List Ptr}
    → Rep w.cache lru chain
    → (net : Net) (path reply : Bytes) → 0 < length reply
    → HasMemory net.alloc w.cache lru
    → Returns
        (λ _ v.
          Rep v.cache
            (net.alloc.node ∷ trimmed w.cache lru)
            (pushed (cache_hash (cache_key path)) net.alloc.node (trimmed_chain w.cache lru chain))
          × Filled net.alloc.node
              (cache_key path)
              (take (length reply) reply)
              (length reply)
              net.stored
              w.cache
              v.cache
          × (v.trace ≡ to_client reply ∷ w.trace)
          × (v.pool ≡ w.pool))
        (pass_on net path reply w)
unfolding pass_on
pass_on_lem {w} r net path reply some_bytes m =
    let e : (length reply == 0) ≡ false = ground arith in
    let sized : positive (pos (length reply)) ≡ true = ground arith in
    rw e (
      Returns-then
        (on_cache-Returns
          (cache_add net.alloc (cache_key path) reply (pos (length reply)) net.stored)
          (record w { trace = to_client reply ∷ w.trace })
          (cache_add_lem r net.alloc (cache_key path) reply (pos (length reply)) net.stored sized
            (omega arith) m))
        (λ n v ((_, rep, f), same).
          returns (rep, f, ap (λ u. u.trace) same, ap (λ u. u.pool) same)))

module _ (request : ParsedRequest) {header path : Bytes} (has_host : request.host ≡ some header)
    (short : length (extract_host_port header).0 < 256) (has_path : request.path ≡ some path) where
  -- What the cache holds for the path.
  abbrev pub answer_of :
      {s : Cache} {lru : List Ptr} {chain : ℕ → List Ptr} → Rep s lru chain → Bytes
  answer_of {s} r =
      take (s.data_size (newest r (cache_key path))) (s.payload (newest r (cache_key path)))

  -- A request whose path has a cached answer that is less than 300 seconds old is answered with that
  -- answer alone: no server is asked, the connection pool stays as it is, and the result is 0.
  pub forward_request_to_server_hit :
      {w : World} {lru : List Ptr} {chain : ℕ → List Ptr} (r : Rep w.cache lru chain) (net : Net)
      (client_socket : ℤ)
      → positive client_socket ≡ true
      → newest r (cache_key path) ≢ null
      → net.looked_up - w.cache.timestamp (newest r (cache_key path)) < cache_expiry_time
      → Returns
          (λ n v. (n ≡ pos 0) × (v.trace ≡ to_client (answer_of r) ∷ w.trace) × (v.pool ≡ w.pool))
          (forward_request_to_server net request client_socket w)
  unfolding forward_request_to_server
  forward_request_to_server_hit {w} r net client_socket c cached young =
      let fits : leb 256 (length (extract_host_port header).0) ≡ false = ground arith in
      rw (c, has_host, fits, has_path)
        (Returns-then
          (on_cache-Returns (cache_get (cache_key path) net.looked_up) w
            (cache_get_hit r (cache_key path) net.looked_up cached young))
          (λ node v ((it, mem, _, rep, nodes), same).
            let hit : (node == null) ≡ false = ground arith in
            let live : v.cache.live node ≡ true = ground (arith, rep.list.live node) in
            rw hit (
              Returns-then (send_cached_lem node v live) (λ _ u (sent, pool). returns (
                refl,
                sent
                    ∙ (rw (nodes.data_size, nodes.payload, it)
                        (ap (λ x. to_client (answer_of r) ∷ x.trace) same)),
                pool ∙ ap (λ x. x.pool) same,
              )))))

  -- An answer that has gone to a client is what the next request for the path gets within 300
  -- seconds, given memory for the entry: both clients are sent the same bytes, the second one with
  -- no server asked and the connection pool as it is.
  pub pass_on-forward_request_to_server :
      {w : World} {lru : List Ptr} {chain : ℕ → List Ptr}
      → Rep w.cache lru chain
      → (net net' : Net) (reply : Bytes) (client_socket : ℤ) → 0 < length reply
      → HasMemory net.alloc w.cache lru
      → positive client_socket ≡ true
      → net'.looked_up - net.stored < cache_expiry_time
      → Returns
          (λ n v.
            (n ≡ pos 0)
            × (v.trace ≡ to_client reply ∷ to_client reply ∷ w.trace)
            × (v.pool ≡ w.pool))
          (and_then
            (pass_on net path reply w)
            (λ _. forward_request_to_server net' request client_socket))
  pass_on-forward_request_to_server {w} r net net' reply client_socket some_bytes m c young =
      Returns-then (pass_on_lem r net path reply some_bytes m) (λ _ v (rep, f, sent, pool).
        let it : newest rep (cache_key path) ≡ net.alloc.node =
          ground (arith, f.key, bytes_eq_refl (cache_key path)) in
        let whole : take (length reply) reply ≡ reply =
          take_of_length-le (length reply) reply (omega arith) in
        let same : answer_of rep ≡ reply = rw (it, f.copied, f.copy, whole) whole in
        Returns-weaken
          (forward_request_to_server_hit rep net' client_socket c (λ z. m.not_null (sym it ∙ z))
            (rw (it, f.stamp) young))
          (λ n u (z, trace, kept). (
            z,
            trace ∙ ap (λ b. to_client b ∷ v.trace) same ∙ ap (λ l. to_client reply ∷ l) sent,
            kept ∙ pool,
          )))
