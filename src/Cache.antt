-- ===== src/Cache.antt =====
-- src/components/cache.c and include/proxy/cache.h: nodes at addresses, in hash chains and in one
-- doubly linked list. Every function that takes the mutex holds it from its first to its last
-- access, so each is one step of the whole program. `now` is what `time(NULL)` answers.
pub mod Order
pub mod Rep
pub mod Front
pub mod Unlink
pub mod Add
pub mod Discard
pub mod Evict
pub mod Expire
pub mod Drop
pub mod Sweep
pub mod Destroy
pub mod Keep
pub mod Contract
pub mod Depth
pub mod Aging
pub mod Safety
pub mod Lifetime
pub mod Hash
mod Tests
pub mod Get
pub mod Neighbours
pub mod Spec
pub mod Recency
pub mod Refine
use mathlib.Core.Bool.{Bool, true, false, not, ◌&&◌, ◌||◌}
use proxy_server_in_c.Common.{
  ℕ, zero, suc, ◌+◌, ◌-◌, ◌*◌, ◌%◌, ◌^◌, List, [], ◌∷◌, ltb, leb, ◌==◌, if◌then◌else◌, Bytes,
  bytes_eq, length, take, Option, none, some,
}
use proxy_server_in_c.Common.Int.{ℤ, pos, minus_one, positive, incr, decr, pos_part, int_leb}
use proxy_server_in_c.Common.Run.{Run, ok, fault, out_of_fuel, Cmd, pure, ◌>>=◌, ◌>>◌}

abbrev pub cache_size : ℕ
cache_size = 1024

abbrev pub hash_table_size : ℕ
hash_table_size = 1024

abbrev pub cache_expiry_time : ℕ
cache_expiry_time = 300

abbrev pub Ptr : Type 0
Ptr = ℕ

abbrev pub null : Ptr
null = 0

abbrev pub update : {A : Type 0} → (ℕ → A) → ℕ → A → ℕ → A
update f p v q = if q == p then v else f q

-- `optimized_cache_t` with the heap that its nodes live in. Each field of `cache_node_t` is a map
-- from addresses; `live` says which addresses hold a node now.
pub record Cache : Type 0 where
  pub live : Ptr → Bool
  pub url : Ptr → Bytes
  pub payload : Ptr → Bytes
  pub data_size : Ptr → ℕ
  pub timestamp : Ptr → ℕ
  pub access_count : Ptr → ℕ
  pub next : Ptr → Ptr
  pub lru_prev : Ptr → Ptr
  pub lru_next : Ptr → Ptr
  pub hash_table : ℕ → Ptr
  pub lru_head : Ptr
  pub lru_tail : Ptr
  pub current_size : ℤ
  pub max_size : ℤ

-- `int c = *url++` sign-extends a `char`, and the unsigned sum wraps at 2^32.
abbrev pub char_to_unsigned : ℕ → ℕ
char_to_unsigned c = if ltb c 128 then c else c + (2 ^ 32 - 256)

-- The loop of `cache_hash`: `hash << 5` and both additions wrap at 2^32.
unfoldable pub hash_loop : ℕ → Bytes → ℕ
hash_loop hash [] = hash
hash_loop hash (c ∷ cs) =
    hash_loop ((((hash * 32 % 2 ^ 32) + hash) % 2 ^ 32 + char_to_unsigned c) % 2 ^ 32) cs

unfoldable pub cache_hash : Bytes → ℕ
unfolding hash_loop
cache_hash url = hash_loop 5381 url % hash_table_size

-- The cache that `cache_create` sets up.
abbrev pub empty_cache : Cache
empty_cache = record {
  live = λ _. false;
  url = λ _. [];
  payload = λ _. [];
  data_size = λ _. 0;
  timestamp = λ _. 0;
  access_count = λ _. 0;
  next = λ _. null;
  lru_prev = λ _. null;
  lru_next = λ _. null;
  hash_table = λ _. null;
  lru_head = null;
  lru_tail = null;
  current_size = pos 0;
  max_size = pos cache_size;
}

-- `cache_create`; `none` is `NULL`, when an allocation or the mutex fails.
unfoldable pub cache_create : (malloc_cache malloc_table mutex_init : Bool) → Option Cache
cache_create malloc_cache malloc_table mutex_init =
    if malloc_cache && malloc_table && mutex_init then some empty_cache else none

-- `p->field`, a fault where `p` holds no node.
unfoldable pub load : {A : Type 0} → (Cache → Ptr → A) → Ptr → Cmd Cache A
load field p s = if s.live p then ok (field s p) s else fault

-- `p->next = q` and so on.
unfoldable pub set_next : Ptr → Ptr → Cmd Cache (Unit {0})
set_next p q s = if s.live p then ok tt (record s { next = update s.next p q }) else fault

unfoldable pub set_lru_prev : Ptr → Ptr → Cmd Cache (Unit {0})
set_lru_prev p q s =
    if s.live p then ok tt (record s { lru_prev = update s.lru_prev p q }) else fault

unfoldable pub set_lru_next : Ptr → Ptr → Cmd Cache (Unit {0})
set_lru_next p q s =
    if s.live p then ok tt (record s { lru_next = update s.lru_next p q }) else fault

abbrev pub set_head : Ptr → Cmd Cache (Unit {0})
set_head p s = ok tt (record s { lru_head = p })

abbrev pub set_tail : Ptr → Cmd Cache (Unit {0})
set_tail p s = ok tt (record s { lru_tail = p })

-- Unlinks a node that is not the head from the list.
unlink : Ptr → Cmd Cache (Unit {0})
unlink node = do
  prev ← load (λ s. s.lru_prev) node
  if prev == null then pure tt else (do next ← load (λ s. s.lru_next) node; set_lru_next prev next)
  next ← load (λ s. s.lru_next) node
  prev ← load (λ s. s.lru_prev) node
  if next == null then set_tail prev else set_lru_prev next prev

-- `cache_move_to_front` for pointers that are not `NULL`.
unfoldable pub cache_move_to_front : Ptr → Cmd Cache (Unit {0})
unfolding unlink
cache_move_to_front node s =
    if node == s.lru_head
    then ok tt s
    else ((do
      unlink node
      set_lru_prev node null
      head ← (λ t. ok t.lru_head t)
      set_lru_next node head
      if head == null then set_tail node else set_lru_prev head node
      set_head node)
        s)

-- The loop of `cache_get`: the node that is returned, or `NULL`.
search_chain : ℕ → Bytes → (now : ℕ) → Ptr → Cmd Cache Ptr
search_chain zero url now node = λ _. out_of_fuel
search_chain (suc fuel) url now node = if node == null then pure null else do
  key ← load (λ s. s.url) node
  if bytes_eq key url
      then (do
        stamp ← load (λ s. s.timestamp) node
        if ltb (now - stamp) cache_expiry_time then pure node else pure null)
      else (do next ← load (λ s. s.next) node; search_chain fuel url now next)

-- `node->access_count++`, whose overflow after 2^31 hits on one entry is not modelled.
bump_access : Ptr → Cmd Cache (Unit {0})
bump_access p s =
    if s.live p
    then ok tt (record s { access_count = update s.access_count p (s.access_count p + 1) })
    else fault

-- A chain has at most as many nodes as the cache counts.
abbrev pub rounds : Cache → ℕ
rounds s = pos_part s.current_size + 1

-- `cache_get` for pointers that are not `NULL`: the node found, or `NULL`.
unfoldable pub cache_get : Bytes → (now : ℕ) → Cmd Cache Ptr
unfolding search_chain bump_access
cache_get url now s =
    (do
      node ← search_chain (rounds s) url now (s.hash_table (cache_hash url))
      if node == null
          then pure null
          else (do cache_move_to_front node; bump_access node; pure node))
      s

set_bucket : ℕ → Ptr → Cmd Cache (Unit {0})
set_bucket i p s = ok tt (record s { hash_table = update s.hash_table i p })

-- The loop of `cache_remove_lru`: unlinks `node` from the chain of bucket `i`.
unchain : ℕ → ℕ → (node current prev : Ptr) → Cmd Cache (Unit {0})
unchain zero i node current prev = λ _. out_of_fuel
unchain (suc fuel) i node current prev =
    if current == null
    then pure tt
    else (if current == node
        then (do
          next ← load (λ s. s.next) current
          if prev == null then set_bucket i next else set_next prev next)
        else (do next ← load (λ s. s.next) current; unchain fuel i node next current))

-- `free` of a node with its strings.
free_node : Ptr → Cmd Cache (Unit {0})
free_node p s = if s.live p then ok tt (record s { live = update s.live p false }) else fault

count_down : Cmd Cache (Unit {0})
count_down s = ok tt (record s { current_size = decr s.current_size })

-- The second half of `cache_remove_lru`, from the hash table on.
pub discard : ℕ → Ptr → Cmd Cache (Unit {0})
discard fuel node = do
  key ← load (λ s. s.url) node
  bucket ← (λ s. ok (s.hash_table (cache_hash key)) s)
  unchain fuel (cache_hash key) node bucket null
  free_node node
  count_down

-- `cache_remove_lru` for a pointer that is not `NULL`.
unfoldable pub cache_remove_lru : Cmd Cache (Unit {0})
unfolding set_bucket unchain free_node count_down discard
cache_remove_lru s =
    if s.lru_tail == null
    then ok tt s
    else ((do
      prev ← load (λ t. t.lru_prev) s.lru_tail
      if prev == null
          then (do set_head null; set_tail null)
          else (do set_lru_next prev null; set_tail prev)
      discard (rounds s) s.lru_tail)
        s)

-- What the three calls of `malloc` in `cache_add` answer: the address of the node or `NULL`, and
-- whether there is memory for the copies.
pub record Alloc : Type 0 where
  pub node : Ptr
  pub url : Bool
  pub payload : Bool

-- The new node, with its links into bucket `i` and in front of the list.
fill_node : Ptr → Bytes → Bytes → ℕ → ℕ → ℕ → Cache → Cache
fill_node p url bytes size now i s = record s {
  live = update s.live p true;
  url = update s.url p url;
  payload = update s.payload p bytes;
  data_size = update s.data_size p size;
  timestamp = update s.timestamp p now;
  access_count = update s.access_count p 1;
  next = update s.next p (s.hash_table i);
  hash_table = update s.hash_table i p;
  lru_prev = update s.lru_prev p null;
  lru_next = update s.lru_next p s.lru_head;
}

-- The second half of `cache_add`, when all memory is there.
pub insert_node : Ptr → Bytes → Bytes → ℕ → (now : ℕ) → Cmd Cache ℤ
unfolding fill_node set_lru_prev
insert_node p url bytes size now = do
  (λ s. ok tt (fill_node p url bytes size now (cache_hash url) s))
  head ← (λ s. ok s.lru_head s)
  if head == null then set_tail p else set_lru_prev head p
  set_head p
  (λ s. ok tt (record s { current_size = incr s.current_size }))
  pure (pos 0)

-- Its first half: room for one more entry.
unfoldable pub make_room : Cmd Cache (Unit {0})
make_room s = if int_leb s.max_size s.current_size then cache_remove_lru s else ok tt s

-- `cache_add` for pointers that are not `NULL`. `bytes` is the memory at `data`, and a copy of
-- more bytes than it holds is a fault.
unfoldable pub cache_add : Alloc → Bytes → Bytes → ℤ → (now : ℕ) → Cmd Cache ℤ
unfolding make_room insert_node
cache_add alloc url bytes size now s =
    if not (positive size)
    then ok minus_one s
    else ((do
      make_room
      if alloc.node == null || not alloc.url || not alloc.payload
          then pure minus_one
          else if ltb (length bytes) (pos_part size)
          then (λ _. fault)
          else insert_node alloc.node url (take (pos_part size) bytes) (pos_part size) now)
        s)
