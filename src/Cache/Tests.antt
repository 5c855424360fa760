-- ===== src/Cache/Tests.antt =====
-- Runs of cache.c, and the theorems at them.
use proxy_server_in_c.Common.{
  ℕ, ◌<◌, ◌≡◌, ◌≢◌, refl, true, false, List, [], ◌∷◌, ◌%◌, arith, Bytes, codes, none, some, take,
  bytes_eq,
}
use proxy_server_in_c.Common.Int.{ℤ, pos, minus_one}
use proxy_server_in_c.Common.Run.{
  Run, ok, fault, out_of_fuel, and_then, Returns, returns, Returns-ok,
}
use proxy_server_in_c.Cache.{
  Cache, Ptr, null, hash_table_size, empty_cache, cache_hash, Alloc, cache_create, cache_add,
  cache_get, make_room, load, set_lru_next, cache_move_to_front,
}
use proxy_server_in_c.Cache.Rep.{Rep, SameNodes, empty_cache-Rep}
use proxy_server_in_c.Cache.Add.{pushed, Filled}
use proxy_server_in_c.Cache.Contract.{
  HasMemory, trimmed, trimmed_chain, cache_add_lem, cache_add_no_memory, add_get,
}
use proxy_server_in_c.Cache.Aging.{fresh_of_Returns, WellFormed, MallocIsFresh}
use proxy_server_in_c.Cache.Lifetime.{no_call, then_get, hit_stays}
use proxy_server_in_c.Cache.Safety
use proxy_server_in_c.Cache.Safety.{Reachable, create, call, calls_return, Reachable-WellFormed}
use proxy_server_in_c.Cache.Expire.{
  cache_remove_expired, expire_buckets, expire_chain, drop_expired, follow, cache_destroy,
}
use proxy_server_in_c.Cache.Keep.{keep}
use proxy_server_in_c.Cache.Sweep.{is_young, cache_remove_expired_lem}
use proxy_server_in_c.Cache.Destroy.{cache_destroy_lem}
use proxy_server_in_c.Cache.Spec.{
  Request, get, add, expire, found, added, swept, lookup, without, spec_step, spec_run, cache_step,
  cache_run,
}
use proxy_server_in_c.Cache.Refine.Runs.{AreAllowed, cache_run_lem}
use proxy_server_in_c.Cache.Hash.{djb2, cache_hash-djb2}

abbrev key : Bytes
key = codes "/a"

abbrev other_key : Bytes
other_key = codes "/b"

abbrev page : Bytes
page = codes "HTTP/1.1 200 OK"

abbrev at : Ptr → Alloc
at p = record { node = p; url = true; payload = true }

abbrev state_of : {A : Type 0} → Run Cache A → Cache
state_of (ok a s) = s
state_of fault = empty_cache
state_of out_of_fuel = empty_cache

-- The page stored at address 5 at time 100, and another at address 9 at time 150.
abbrev one : Cache
unfolding cache_add
one = state_of (cache_add (at 5) key page (pos 15) 100 empty_cache)

abbrev two : Cache
unfolding cache_add
two = state_of (cache_add (at 9) other_key page (pos 4) 150 one)

abbrev chain_one : ℕ → List Ptr
chain_one = pushed (cache_hash key) 5 (λ _. [])

abbrev chain_two : ℕ → List Ptr
chain_two = pushed (cache_hash other_key) 9 chain_one

memory : (p : Ptr) → p ≢ null → HasMemory (at p) empty_cache []
memory p nz = record { not_null = nz; fresh = refl; for_url = refl; for_payload = refl }

after_add :
    {s t : Cache} {lru : List Ptr} {chain : ℕ → List Ptr} {n : ℤ} {url bytes : Bytes}
    {p size now : ℕ}
    → Returns (λ k u. (k ≡ pos 0) × Rep u lru chain × Filled p url bytes size now s u) (ok n t)
    → Rep t lru chain
after_add r = (Returns-ok r).1

one-Rep : Rep one (5 ∷ []) chain_one
unfolding cache_add
one-Rep = after_add (
    cache_add_lem empty_cache-Rep (at 5) key page (pos 15) 100 refl (omega arith)
      (memory 5 (omega arith)))

two-Rep : Rep two (9 ∷ 5 ∷ []) chain_two
unfolding cache_add
two-Rep = after_add (
    cache_add_lem one-Rep (at 9) other_key page (pos 4) 150 refl (omega arith)
      (record { not_null = omega arith; fresh = refl; for_url = refl; for_payload = refl }))

cache_add_example :
    Returns
      (λ n t.
        (n ≡ pos 0)
        × Rep t
            (7 ∷ trimmed one (5 ∷ []))
            (pushed (cache_hash other_key) 7 (trimmed_chain one (5 ∷ []) chain_one))
        × Filled 7 other_key (take 4 page) 4 160 one t)
      (cache_add (at 7) other_key page (pos 4) 160 one)
unfolding cache_add
cache_add_example =
    cache_add_lem one-Rep (at 7) other_key page (pos 4) 160 refl (omega arith)
      (record { not_null = omega arith; fresh = refl; for_url = refl; for_payload = refl })

-- The size limit is no part of what a cache stands for.
limited-Rep :
    {s : Cache} {lru : List Ptr} {chain : ℕ → List Ptr} (n : ℤ)
    → Rep s lru chain
    → Rep (record s { max_size = n }) lru chain
limited-Rep n r = record {
  list = record {
    live = r.list.live;
    no_null = r.list.no_null;
    distinct = r.list.distinct;
    head = r.list.head;
    tail = r.list.tail;
    prev = r.list.prev;
    next = r.list.next;
  };
  table = record {
    bucket = r.table.bucket;
    next = r.table.next;
    distinct = r.table.distinct;
    member = r.table.member;
  };
  size = r.size;
}

-- A cache that is full with its two entries, and no memory for the data.
abbrev full : Cache
full = record two { max_size = pos 2 }

cache_add_no_memory_example :
    Returns
      (λ n t.
        (n ≡ minus_one)
        × Rep t (trimmed full (9 ∷ 5 ∷ [])) (trimmed_chain full (9 ∷ 5 ∷ []) chain_two)
        × SameNodes full t)
      (cache_add (record { node = 7; url = true; payload = false }) other_key page (pos 4) 160 full)
cache_add_no_memory_example =
    cache_add_no_memory (limited-Rep (pos 2) two-Rep)
      (record { node = 7; url = true; payload = false }) other_key page (pos 4) 160 refl refl

add_get_example :
    Returns
      (λ p t.
        (p ≡ 5)
        × (t.url p ≡ key)
        × (t.payload p ≡ take 15 page)
        × (t.data_size p ≡ 15)
        × Rep t
            (5 ∷ trimmed empty_cache [])
            (pushed (cache_hash key) 5 (trimmed_chain empty_cache [] (λ _. []))))
      (and_then (cache_add (at 5) key page (pos 15) 100 empty_cache) (λ _. cache_get key 399))
add_get_example =
    add_get empty_cache-Rep (at 5) key page (pos 15) 100 399 refl (omega arith)
      (memory 5 (omega arith)) (omega arith)

created : cache_create true true true ≡ some empty_cache
unfolding cache_create
created = refl

malloc_fresh : MallocIsFresh (at 5) empty_cache
unfolding make_room
malloc_fresh = fresh_of_Returns (returns refl)

Reachable-WellFormed_example : WellFormed empty_cache
Reachable-WellFormed_example = Reachable-WellFormed (create true true true created)

calls_return_example :
    Returns (λ _ t. Reachable t) (cache_get key 100 empty_cache)
    × Returns (λ _ t. Reachable t) (cache_add (at 5) key page (pos 15) 100 empty_cache)
    × Returns (λ _ t. Reachable t) (cache_remove_expired 100 empty_cache)
calls_return_example =
    calls_return (create true true true created) key page (pos 15) 100 (at 5) (omega arith)
      malloc_fresh

cache_hash_example :
    (cache_hash key ≡ djb2 5381 key % hash_table_size) × (cache_hash key < hash_table_size)
cache_hash_example = cache_hash-djb2 key

-- At 420 the first page is 320 seconds old and goes, the second one is 270 seconds old and stays.
cache_remove_expired_example :
    Returns
      (λ _ t.
        Rep t (keep (is_young two 420) (9 ∷ 5 ∷ [])) (λ i. keep (is_young two 420) (chain_two i))
        × SameNodes two t)
      (cache_remove_expired 420 two)
cache_remove_expired_example = cache_remove_expired_lem two-Rep 420

expired : keep (is_young two 420) (9 ∷ 5 ∷ []) ≡ 9 ∷ []
unfolding cache_add keep
expired = refl

cache_destroy_example : Returns (λ _ t. (x : Ptr) → t.live x ≡ false) (cache_destroy two)
cache_destroy_example = cache_destroy_lem two-Rep

-- The page is found at 160; before it is read, another worker looks for the other page.
abbrev found_one : Cache
unfolding cache_add cache_get cache_hash bytes_eq
found_one = state_of (cache_get key 160 one)

abbrev missed_one : Cache
unfolding cache_add cache_get cache_hash bytes_eq
missed_one = state_of (cache_get other_key 170 found_one)

one-Reachable : Reachable one
unfolding cache_add
one-Reachable =
    call (create true true true created)
      (Safety.add (at 5) key page (pos 15) 100 (pos 0) (omega arith) malloc_fresh refl)

hit_one : cache_get key 160 one ≡ ok 5 found_one
unfolding cache_add cache_get cache_hash bytes_eq load cache_move_to_front
hit_one = refl

miss_one : cache_get other_key 170 found_one ≡ ok null missed_one
unfolding cache_add cache_get cache_hash bytes_eq load cache_move_to_front
miss_one = refl

hit_stays_example :
    (missed_one.live 5 ≡ true)
    × (missed_one.url 5 ≡ key)
    × (missed_one.payload 5 ≡ one.payload 5)
    × (missed_one.data_size 5 ≡ one.data_size 5)
hit_stays_example =
    hit_stays one-Reachable key 160 hit_one (omega arith)
      (then_get no_call other_key 170 null miss_one) (omega arith)

-- Two pages are stored, the first is found, and a third has no memory.
abbrev requests : List Request
requests =
    add (at 5) key page (pos 15) 100
    ∷ add (at 9) other_key page (pos 4) 150
    ∷ get key 160
    ∷ add (record { node = 7; url = false; payload = true }) key page (pos 4) 170
    ∷ get other_key 450
    ∷ expire 420
    ∷ []

requests-AreAllowed : AreAllowed requests empty_cache
unfolding cache_step cache_add cache_get cache_hash bytes_eq load cache_move_to_front make_room
    set_lru_next cache_remove_expired expire_buckets expire_chain drop_expired follow
requests-AreAllowed = (
  (omega arith, fresh_of_Returns (returns refl)),
  (
    (omega arith, fresh_of_Returns (returns refl)),
    (tt, ((omega arith, fresh_of_Returns (returns refl)), (tt, (tt, tt)))),
  ),
)

cache_run_example :
    Returns (λ answers _. answers ≡ spec_run requests []) (cache_run requests empty_cache)
cache_run_example = cache_run_lem true true true created requests requests-AreAllowed

-- What the list of entries answers.
spec_run_example :
    spec_run requests []
    ≡ added (pos 0)
      ∷ added (pos 0)
      ∷ found (some (record { url = key; payload = page; data_size = 15; stamp = 100 }))
      ∷ added minus_one
      ∷ found none
      ∷ swept
      ∷ []
unfolding spec_run spec_step lookup without bytes_eq
spec_run_example = refl
