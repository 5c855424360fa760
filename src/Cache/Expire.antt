-- ===== src/Cache/Expire.antt =====
-- `cache_remove_expired` and `cache_destroy` of src/components/cache.c.
use proxy_server_in_c.Common.{ℕ, zero, suc, ◌-◌, leb, ◌==◌, if◌then◌else◌}
use proxy_server_in_c.Common.Run.{ok, out_of_fuel, Cmd, pure, ◌>>=◌, ◌>>◌}
use proxy_server_in_c.Cache.{
  Cache, Ptr, null, cache_expiry_time, hash_table_size, load, set_next, set_lru_next, set_lru_prev,
  set_head, set_tail, set_bucket, free_node, count_down, rounds,
}

-- One expired node of bucket `i` is unlinked and freed; `prev` stands before it in the chain.
unfoldable pub drop_expired : ℕ → (current prev : Ptr) → Cmd Cache (Unit {0})
unfolding set_bucket free_node count_down set_next set_lru_next set_lru_prev load
drop_expired i current prev = do
  next ← load (λ s. s.next) current
  if prev == null then set_bucket i next else set_next prev next
  lru_prev ← load (λ s. s.lru_prev) current
  lru_next ← load (λ s. s.lru_next) current
  if lru_prev == null then set_head lru_next else set_lru_next lru_prev lru_next
  lru_prev ← load (λ s. s.lru_prev) current
  lru_next ← load (λ s. s.lru_next) current
  if lru_next == null then set_tail lru_prev else set_lru_prev lru_next lru_prev
  free_node current
  count_down

-- `prev ? prev->next : cache->hash_table[i]`
unfoldable pub follow : ℕ → (prev : Ptr) → Cmd Cache Ptr
unfolding load
follow i prev s = if prev == null then ok (s.hash_table i) s else load (λ t. t.next) prev s

-- The loop over one chain.
unfoldable pub expire_chain : ℕ → (now i : ℕ) → (current prev : Ptr) → Cmd Cache (Unit {0})
expire_chain zero now i current prev = λ _. out_of_fuel
expire_chain (suc fuel) now i current prev = if current == null then pure tt else do
  stamp ← load (λ s. s.timestamp) current
  if leb cache_expiry_time (now - stamp)
      then (do drop_expired i current prev; next ← follow i prev; expire_chain fuel now i next prev)
      else (do next ← load (λ s. s.next) current; expire_chain fuel now i next current)

-- The loop over `k` buckets from `i` on.
unfoldable pub expire_buckets : (k i now : ℕ) → Cmd Cache (Unit {0})
expire_buckets zero i now = pure tt
expire_buckets (suc k) i now = do
  (λ s. expire_chain (rounds s) now i (s.hash_table i) null s)
  expire_buckets k (suc i) now

-- `cache_remove_expired` for a pointer that is not `NULL`.
unfoldable pub cache_remove_expired : (now : ℕ) → Cmd Cache (Unit {0})
cache_remove_expired now = expire_buckets hash_table_size 0 now

-- The inner loop of `cache_destroy`: the nodes of one chain are freed.
unfoldable pub free_chain : ℕ → (current : Ptr) → Cmd Cache (Unit {0})
unfolding free_node load
free_chain zero current = λ _. out_of_fuel
free_chain (suc fuel) current =
    if current == null
    then pure tt
    else do next ← load (λ s. s.next) current; free_node current; free_chain fuel next

-- The loop over `k` buckets from `i` on.
unfoldable pub free_buckets : (k i : ℕ) → Cmd Cache (Unit {0})
free_buckets zero i = pure tt
free_buckets (suc k) i = do (λ s. free_chain (rounds s) (s.hash_table i) s); free_buckets k (suc i)

-- `cache_destroy` for a pointer that is not `NULL`, up to the release of the table and the mutex.
unfoldable pub cache_destroy : Cmd Cache (Unit {0})
cache_destroy = free_buckets hash_table_size 0
