-- ===== src/Cache/Safety.antt =====
-- Caches as the calls of the program leave them, from `cache_create` on.
use proxy_server_in_c.Common.{◌∙◌, ℕ, ◌≤◌, ◌≡◌, refl, Bool, [], arith, length, Bytes, some}
use proxy_server_in_c.Common.Int.{ℤ, pos_part}
use proxy_server_in_c.Common.Run.{ok, Returns, returns, Returns-weaken, Returns-ok, Returns-value}
use proxy_server_in_c.Cache.{Cache, Ptr, empty_cache, Alloc, cache_create, cache_add, cache_get}
use proxy_server_in_c.Cache.Rep.{empty_cache-Rep}
use proxy_server_in_c.Cache.Expire.{cache_remove_expired}
use proxy_server_in_c.Cache.Sweep.{is_young, cache_remove_expired_lem}
use proxy_server_in_c.Cache.Keep.{keep, length-keep-le}
use proxy_server_in_c.Cache.Aging.{WellFormed, MallocIsFresh, cache_get-IsAged, cache_add-IsAged}

empty_cache-WellFormed : WellFormed empty_cache
empty_cache-WellFormed = record {
  lru = [];
  chain = λ _. [];
  rep = empty_cache-Rep;
  bounded = omega arith;
  max_size = refl;
}

cache_create-WellFormed : (m t x : Bool) {s : Cache} → cache_create m t x ≡ some s → WellFormed s
unfolding cache_create
cache_create-WellFormed m t x {s} h =
    let e : s ≡ empty_cache = ground arith in rw e empty_cache-WellFormed

module _ {s : Cache} (w : WellFormed s) where
  pub cache_get-WellFormed :
      (url : Bytes) (now : ℕ) → Returns (λ _ t. WellFormed t) (cache_get url now s)
  cache_get-WellFormed url now = Returns-weaken (cache_get-IsAged w url now) (λ _ t (v, _). v)

  pub cache_add-WellFormed :
      (alloc : Alloc) (url bytes : Bytes) (size : ℤ) (now : ℕ)
      → pos_part size ≤ length bytes
      → MallocIsFresh alloc s
      → Returns (λ _ t. WellFormed t) (cache_add alloc url bytes size now s)
  cache_add-WellFormed alloc url bytes size now readable m =
      Returns-weaken (cache_add-IsAged w alloc url bytes size now readable m) (λ _ t (v, _). v)

  pub cache_remove_expired-WellFormed :
      (now : ℕ) → Returns (λ _ t. WellFormed t) (cache_remove_expired now s)
  cache_remove_expired-WellFormed now =
      Returns-weaken (cache_remove_expired_lem w.rep now) (λ _ t (rep, same). record {
        lru = keep (is_young s now) w.lru;
        chain = λ i. keep (is_young s now) (w.chain i);
        rep = rep;
        bounded = omega (arith, length-keep-le (is_young s now) w.lru, w.bounded);
        max_size = same.max_size ∙ w.max_size;
      })

-- One call of the program on its cache, which comes back with a cache.
pub data Call (s : Cache) (t : Cache) : Type 0 where
  get : (url : Bytes) (now : ℕ) (p : Ptr) → cache_get url now s ≡ ok p t → Call s t
  add :
      (alloc : Alloc) (url bytes : Bytes) (size : ℤ) (now : ℕ) (n : ℤ)
      → pos_part size ≤ length bytes
      → MallocIsFresh alloc s
      → cache_add alloc url bytes size now s ≡ ok n t
      → Call s t
  expire : (now : ℕ) → cache_remove_expired now s ≡ ok tt t → Call s t

pub data Reachable : Cache → Type 0 where
  create :
      (malloc_cache malloc_table mutex_init : Bool) {s : Cache}
      → cache_create malloc_cache malloc_table mutex_init ≡ some s
      → Reachable s
  call : {s t : Cache} → Reachable s → Call s t → Reachable t

Call-WellFormed : {s t : Cache} → Call s t → WellFormed s → WellFormed t
Call-WellFormed (get url now p e) w = Returns-ok (rw e at (cache_get-WellFormed w url now))
Call-WellFormed (add alloc url bytes size now n readable m e) w =
    Returns-ok (rw e at (cache_add-WellFormed w alloc url bytes size now readable m))
Call-WellFormed (expire now e) w = Returns-ok (rw e at (cache_remove_expired-WellFormed w now))

-- Every cache that returning calls of `cache_get`, `cache_add` and `cache_remove_expired` can
-- produce from `cache_create`,
-- where `malloc` gives no address in use and `data` holds `size` bytes, is
-- well formed: the doubly linked list and the hash chains hold exactly the live nodes, each once,
-- `current_size` counts them, and they are at most 1024.
pub Reachable-WellFormed : {s : Cache} → Reachable s → WellFormed s
Reachable-WellFormed (create m t x h) = cache_create-WellFormed m t x h
Reachable-WellFormed (call r c) = Call-WellFormed c (Reachable-WellFormed r)

-- On every cache that the calls of the program can produce, `cache_get`, `cache_add` and
-- `cache_remove_expired` return, if `malloc` gives no address in use and `data` holds `size` bytes:
-- no null or dangling pointer is followed, nothing is read past its end, every loop ends within its
-- rounds, and the program can produce the cache they leave.
pub calls_return :
    {s : Cache}
    → Reachable s
    → (url bytes : Bytes) (size : ℤ) (now : ℕ) (alloc : Alloc) → pos_part size ≤ length bytes
    → MallocIsFresh alloc s
    → Returns (λ _ t. Reachable t) (cache_get url now s)
      × Returns (λ _ t. Reachable t) (cache_add alloc url bytes size now s)
      × Returns (λ _ t. Reachable t) (cache_remove_expired now s)
calls_return r url bytes size now alloc readable m =
    let w = Reachable-WellFormed r in
    let (p, t, e, _) = Returns-value (cache_get-WellFormed w url now) in
    let (n, u, f, _) = Returns-value (cache_add-WellFormed w alloc url bytes size now readable m) in
    let (_, v, g, _) = Returns-value (cache_remove_expired-WellFormed w now) in
    (
      rw e (returns (call r (get url now p e))),
      rw f (returns (call r (add alloc url bytes size now n readable m f))),
      rw g (returns (call r (expire now g))),
    )
