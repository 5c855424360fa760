-- ===== src/Startup/Shutdown.antt =====
-- `proxy_server_shutdown`, part by part.
use mathlib.Core.Path.{subst, sym}
use proxy_server_in_c.Common.{ℕ, ◌≡◌, refl, true, false, List, ◌++◌, arith}
use proxy_server_in_c.Common.Run.{Cmd, Returns, returns, Returns-then, Returns-value}
use proxy_server_in_c.Cache.{Cache, Ptr}
use proxy_server_in_c.Cache.Order.{has}
use proxy_server_in_c.Cache.Destroy.{cache_destroy_lem}
use proxy_server_in_c.Cache.Expire.{cache_destroy}
use proxy_server_in_c.Cache.Rep.{Rep}
use proxy_server_in_c.ConnectionPool.{connection_pool_destroy}
use proxy_server_in_c.ConnectionPool.Invariant.{holds, occurs, occurs-append}
use proxy_server_in_c.ConnectionPool.Descriptors.{connection_pool_destroy_closes}
use proxy_server_in_c.Common.{◌+◌, arith}
use proxy_server_in_c.Common.Int.{positive, ℤ}
use proxy_server_in_c.Common.Run.{Returns-weaken}
use proxy_server_in_c.ThreadPool.{Queue, thread_pool_destroy}
use proxy_server_in_c.ThreadPool.Fifo.{IsQueue, sockets, thread_pool_destroy_lem}
use proxy_server_in_c.Startup.{
  Platform, windows, linux, Process, on_thread_pool, on_optimized_cache,
}
use proxy_server_in_c.Startup.Destroy.{
  platform_cleanup, shut_thread_pool, shut_cache, shut_connections, proxy_server_shutdown,
}
use proxy_server_in_c.Startup.Init.{IsUp}
use proxy_server_in_c.Startup.Modules.{with_pool, with_cache, with_connections}

-- Nothing that the modules took is left.
pub record IsDown (p : Process) : Type 0 where
  pub semaphore : p.semaphore ≡ false
  pub lock : p.lock ≡ false
  pub queue_mutex : p.queue_mutex ≡ false
  pub queue_condition : p.queue_condition ≡ false
  pub cache_mutex : p.cache_mutex ≡ false
  pub pool_mutex : p.pool_mutex ≡ false
  pub thread_pool_memory : p.thread_pool_memory ≡ false
  pub cache_memory : p.cache_memory ≡ false
  pub hash_table_memory : p.hash_table_memory ≡ false
  pub connections_memory : p.connections_memory ≡ false
  pub threads : p.threads ≡ 0
  pub thread_pool : p.has_thread_pool ≡ false
  pub optimized_cache : p.has_optimized_cache ≡ false
  pub connection_pool : p.has_connection_pool ≡ false
  pub tasks : (x : Ptr) → p.thread_pool.live x ≡ false
  pub nodes : (x : Ptr) → p.optimized_cache.live x ≡ false

pub on_thread_pool-Returns :
    {A : Type 0} {P : A → Queue → Type 0} (m : Cmd Queue A) (p : Process)
    → Returns P (m p.thread_pool)
    → Returns
        (λ a t. P a t.thread_pool × (t ≡ record p { thread_pool = t.thread_pool }))
        (on_thread_pool m p)
on_thread_pool-Returns m p r =
    let (a, q, e, good) = Returns-value r in rw (on_thread_pool, e) (returns (good, refl))

on_optimized_cache-Returns :
    {A : Type 0} {P : A → Cache → Type 0} (m : Cmd Cache A) (p : Process)
    → Returns P (m p.optimized_cache)
    → Returns
        (λ a t. P a t.optimized_cache × (t ≡ record p { optimized_cache = t.optimized_cache }))
        (on_optimized_cache m p)
on_optimized_cache-Returns m p r =
    let (a, q, e, good) = Returns-value r in rw (on_optimized_cache, e) (returns (good, refl))

shut_thread_pool_lem :
    (p : Process) {tasks : List Ptr}
    → IsQueue p.thread_pool tasks
    → ((x : Ptr) → p.thread_pool.live x ≡ has x tasks)
    → Returns
        (λ closed t.
          (closed ≡ sockets p.thread_pool.client_socket tasks)
          × ((x : Ptr) → t.thread_pool.live x ≡ false)
          × (t ≡ record p {
            thread_pool = t.thread_pool;
            threads = 0;
            queue_mutex = false;
            queue_condition = false;
            thread_pool_memory = false;
            has_thread_pool = false;
          }))
        (shut_thread_pool (record (with_pool p) { has_thread_pool = true }))
unfolding shut_thread_pool
shut_thread_pool_lem p q all =
    Returns-then
      (on_thread_pool-Returns thread_pool_destroy
        (record (with_pool p) { threads = 0; has_thread_pool = true }) (thread_pool_destroy_lem q))
      (λ closed t ((same, freed), e).
        rw e (returns (same, λ x. ground (arith, freed x, all x), refl)))

shut_cache_lem :
    (p : Process) {lru : List Ptr} {chain : ℕ → List Ptr}
    → Rep p.optimized_cache lru chain
    → Returns
        (λ _ t.
          ((x : Ptr) → t.optimized_cache.live x ≡ false)
          × (t ≡ record p {
            optimized_cache = t.optimized_cache;
            cache_mutex = false;
            cache_memory = false;
            hash_table_memory = false;
            has_optimized_cache = false;
          }))
        (shut_cache (record (with_cache p) { has_optimized_cache = true }))
unfolding shut_cache
shut_cache_lem p r =
    Returns-then
      (on_optimized_cache-Returns cache_destroy
        (record (with_cache p) { has_optimized_cache = true }) (cache_destroy_lem r))
      (λ _ t (freed, e). rw e (returns (freed, refl)))

-- The flags of a process that is up.
abbrev raised : Process → Process
raised p =
    record (with_connections
      (with_cache (with_pool (record p { semaphore = true; lock = true })))) {
        has_thread_pool = true;
        has_optimized_cache = true;
        has_connection_pool = true;
      }

IsUp-raised :
    {p : Process} {tasks lru : List Ptr} {chain : ℕ → List Ptr}
    → IsUp p tasks lru chain
    → p ≡ raised p
IsUp-raised {p} u = λ i. record p {
  semaphore = u.semaphore i;
  lock = u.lock i;
  queue_mutex = u.queue_mutex i;
  queue_condition = u.queue_condition i;
  cache_mutex = u.cache_mutex i;
  pool_mutex = u.pool_mutex i;
  thread_pool_memory = u.thread_pool_memory i;
  cache_memory = u.cache_memory i;
  hash_table_memory = u.hash_table_memory i;
  connections_memory = u.connections_memory i;
  threads = u.threads i;
  has_thread_pool = u.thread_pool i;
  has_optimized_cache = u.optimized_cache i;
  has_connection_pool = u.connection_pool i;
}

platform_cleanup_lem :
    (platform : Platform) (p : Process)
    → Returns
        (λ _ t. t ≡ record p { winsock_initialized = t.winsock_initialized })
        (platform_cleanup platform p)
unfolding platform_cleanup
platform_cleanup_lem windows p = returns refl
platform_cleanup_lem linux p = returns refl

raised_shutdown :
    (platform : Platform) {p : Process} {tasks lru : List Ptr} {chain : ℕ → List Ptr}
    → IsUp p tasks lru chain
    → Returns
        (λ closed t.
          (closed
            ≡ sockets p.thread_pool.client_socket tasks
              ++ connection_pool_destroy p.connection_pool)
          × IsDown t
          × (t.server_socket ≡ p.server_socket))
        (proxy_server_shutdown platform (raised p))
unfolding proxy_server_shutdown shut_connections platform_cleanup
raised_shutdown platform {p} {tasks} u =
    Returns-then (shut_thread_pool_lem (raised p) u.queue u.live) (λ clients t (same, no_task, e).
      rw e (
        Returns-then
          (shut_cache_lem
            (record (raised p) {
              thread_pool = t.thread_pool;
              threads = 0;
              queue_mutex = false;
              queue_condition = false;
              thread_pool_memory = false;
              has_thread_pool = false;
            })
            u.nodes)
          (λ _ v (no_node, f).
            rw (f, same)
              (Returns-then (platform_cleanup_lem platform (lowered t v)) (λ _ w g. rw g (
                returns (
                  refl,
                  record {
                    semaphore = refl;
                    lock = refl;
                    queue_mutex = refl;
                    queue_condition = refl;
                    cache_mutex = refl;
                    pool_mutex = refl;
                    thread_pool_memory = refl;
                    cache_memory = refl;
                    hash_table_memory = refl;
                    connections_memory = refl;
                    threads = refl;
                    thread_pool = refl;
                    optimized_cache = refl;
                    connection_pool = refl;
                    tasks = no_task;
                    nodes = no_node;
                  },
                  refl,
                )))))))
  where
    lowered : Process → Process → Process
    lowered t v = record p {
      semaphore = false;
      lock = false;
      queue_mutex = false;
      queue_condition = false;
      cache_mutex = false;
      pool_mutex = false;
      thread_pool_memory = false;
      cache_memory = false;
      hash_table_memory = false;
      connections_memory = false;
      threads = 0;
      has_thread_pool = false;
      has_optimized_cache = false;
      has_connection_pool = false;
      thread_pool = t.thread_pool;
      optimized_cache = v.optimized_cache;
    }

-- `proxy_server_shutdown` of a process whose modules are all there, with its workers about to end:
-- it closes the sockets of the clients in the queue, from the oldest on, and then those of the
-- pooled connections, each as often as it is there, and it gives back the four threads, each of the
-- four mutexes, the condition, the semaphore, each of the four structures and all memory of tasks
-- and cache entries, none of them twice. It leaves the listening socket as it is.
pub proxy_server_shutdown_lem :
    (platform : Platform) {p : Process} {tasks lru : List Ptr} {chain : ℕ → List Ptr}
    → IsUp p tasks lru chain
    → (fd : ℤ) → positive fd ≡ true
    → Returns
        (λ closed t.
          (closed
            ≡ sockets p.thread_pool.client_socket tasks
              ++ connection_pool_destroy p.connection_pool)
          × (occurs fd closed
              ≡ occurs fd (sockets p.thread_pool.client_socket tasks)
                + holds fd p.connection_pool.connections)
          × IsDown t
          × (t.server_socket ≡ p.server_socket))
        (proxy_server_shutdown platform p)
unfolding proxy_server_shutdown
proxy_server_shutdown_lem platform {p} {tasks} {lru} {chain} u fd live =
    let clients = sockets p.thread_pool.client_socket tasks in
    Returns-weaken
      (subst
        (λ q.
          Returns
            (λ closed t.
              (closed ≡ clients ++ connection_pool_destroy p.connection_pool)
              × IsDown t
              × (t.server_socket ≡ p.server_socket))
            (proxy_server_shutdown platform q))
        (sym (IsUp-raised u)) (raised_shutdown platform u))
      (λ closed t (same, down, kept_socket). (
        same,
        rw same (
            omega (
              arith,
              occurs-append fd clients (connection_pool_destroy p.connection_pool),
              connection_pool_destroy_closes p.connection_pool fd live,
            )),
        down,
        kept_socket,
      ))
