-- ===== src/Cache/Destroy.antt =====
-- `cache_destroy`, chain by chain.
use proxy_server_in_c.Common.{
  ℕ, zero, suc, ◌+◌, ◌<◌, ◌≡◌, ◌≢◌, refl, Bool, true, false, not, ◌&&◌, List, [], ◌∷◌, ◌==◌, leb,
  arith, length,
}
use proxy_server_in_c.Common.Run.{Returns, returns, Returns-then, Returns-weaken}
use proxy_server_in_c.Cache.{
  Cache, Ptr, null, cache_hash, hash_table_size, free_node, rounds, update,
}
use proxy_server_in_c.Cache.Order.{has, Distinct, first, after}
use proxy_server_in_c.Cache.Rep.{Rep, load_live}
use proxy_server_in_c.Cache.Get.{chain_links, length-chain-lt}
use proxy_server_in_c.Cache.Hash.{cache_hash-djb2}
use proxy_server_in_c.Cache.Expire.{free_chain, free_buckets, cache_destroy}

-- Only the set of live addresses has changed, and it is now this one.
record IsFreed (s : Cache) (live : Ptr → Bool) (t : Cache) : Type 0 where
  rest : t ≡ record s { live = t.live }
  freed : (x : Ptr) → t.live x ≡ live x

free_chain-IsFreed :
    (fuel : ℕ) (c : List Ptr) (t : Cache)
    → length c < fuel
    → Distinct c
    → ((x : Ptr) → has x c ≡ true → (t.live x ≡ true) × (x ≢ null) × (t.next x ≡ after c x))
    → Returns (λ _ u. IsFreed t (λ x. t.live x && not (has x c)) u) (free_chain fuel (first c) t)
unfolding free_chain free_node
free_chain-IsFreed zero c t enough d links = absurd (omega arith)
free_chain-IsFreed (suc fuel) [] t enough d links =
    returns (record { rest = refl; freed = λ x. ground arith })
free_chain-IsFreed (suc fuel) (a ∷ c) t enough d links =
    let (live, nz, next) = links a (ground arith) in
    let nz' : (a == null) ≡ false = ground arith in
    let next' : t.next a ≡ first c = ground (arith, next) in
    let t' : Cache = record t { live = update t.live a false } in
    rw (free_chain, nz', load_live (λ s. s.next) a {s = t} live, live, next')
      (Returns-weaken
        (free_chain-IsFreed fuel c t' (omega arith) d.1 (λ x m.
          let (l, n, f) = links x (ground arith) in
          (ground (arith, d.0, l), n, ground (arith, d.0, f))))
        (λ _ u f. record { rest = f.rest; freed = λ x. ground (arith, f.freed x) }))

module _ {s : Cache} {lru : List Ptr} {chain : ℕ → List Ptr} (r : Rep s lru chain) where
  -- What is live before bucket `i` is freed.
  abbrev left_from : ℕ → Ptr → Bool
  left_from i x = s.live x && leb i (cache_hash (s.url x))

  free_buckets-IsFreed :
      (k i : ℕ) (live : Ptr → Bool)
      → ((x : Ptr) → live x ≡ left_from i x)
      → k + i ≡ hash_table_size
      → Returns
          (λ _ u. IsFreed s (left_from hash_table_size) u)
          (free_buckets k i (record s { live = live }))
  unfolding free_buckets
  free_buckets-IsFreed zero i live f e =
      let q : i ≡ hash_table_size = omega arith in
      returns (record { rest = refl; freed = λ x. rw (← q) (f x) })
  free_buckets-IsFreed (suc k) i live f e =
      Returns-then
        (rw (← r.table.bucket i) at (
          free_chain-IsFreed (rounds s) (chain i) (record s { live = live }) (length-chain-lt r i)
            (r.table.distinct i)
            (λ x m.
              let (l, n, next) = chain_links r i x m in
              (ground (arith, f x, l, r.table.member i x), n, next))))
        (λ _ u g. rw g.rest (
          free_buckets-IsFreed k (suc i) u.live
            (λ x. ground (arith, g.freed x, f x, r.table.member i x, r.list.live x)) (omega arith)))

-- `cache_destroy` of a well-formed cache ends, follows no dangling pointer, frees no node twice,
-- and leaves none allocated.
pub cache_destroy_lem :
    {s : Cache} {lru : List Ptr} {chain : ℕ → List Ptr}
    → Rep s lru chain
    → Returns (λ _ t. (x : Ptr) → t.live x ≡ false) (cache_destroy s)
unfolding cache_destroy
cache_destroy_lem {s} r =
    Returns-weaken (free_buckets-IsFreed r hash_table_size 0 s.live (λ x. ground arith) refl)
      (λ _ t f x. ground (arith, f.freed x, (cache_hash-djb2 (s.url x)).1))
