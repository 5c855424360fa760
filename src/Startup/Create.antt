-- ===== src/Startup/Create.antt =====
-- `proxy_server_init` of src/components/proxy_server.c, with `platform_init` of platform.c,
-- `thread_pool_create` of thread_pool.c and what `cache_create` and `connection_pool_create` take
-- and give back.
use proxy_server_in_c.Common.{Bool, true, false, not, Option, none, some, ltb, if◌then◌else◌}
use proxy_server_in_c.Common.Int.{ℤ, pos, minus_one}
use proxy_server_in_c.Common.Run.{ok, out_of_fuel, Cmd, pure, ◌>>=◌, ◌>>◌}
use proxy_server_in_c.Cache.{empty_cache}
use proxy_server_in_c.ThreadPool.{empty_queue}
use proxy_server_in_c.Threads.{num_worker_threads}
use proxy_server_in_c.Startup.{
  Platform, windows, linux, Process, acquire, release, create_threads, join_threads, Answers,
  empty_pool,
}

-- `platform_init`; the answer `false` is its exit.
unfoldable pub platform_init : Platform → (wsa_startup : Bool) → Cmd Process Bool
platform_init linux wsa_startup p = ok true p
platform_init windows wsa_startup p =
    if p.winsock_initialized
    then ok true p
    else if wsa_startup
    then ok true (record p { winsock_initialized = true })
    else ok false p

-- `thread_pool_create`: whether it returns a pool. Where a `pthread_join` does not come back, it
-- hangs.
unfoldable pub thread_pool_create : Answers → Cmd Process Bool
thread_pool_create a = if not a.malloc_pool then pure false else (do
  (λ p. acquire p.thread_pool_memory (record p { thread_pool_memory = true }))
  if not a.queue_mutex_init
      then (do
        (λ p. release p.thread_pool_memory (record p { thread_pool_memory = false }))
        pure false)
      else (do
        (λ p. acquire p.queue_mutex (record p { queue_mutex = true }))
        if not a.queue_condition_init
            then (do
              (λ p. release p.queue_mutex (record p { queue_mutex = false }))
              (λ p. release p.thread_pool_memory (record p { thread_pool_memory = false }))
              pure false)
            else (do
              (λ p. acquire p.queue_condition (record p { queue_condition = true }))
              if ltb a.created num_worker_threads
                  then (do
                    create_threads a.created
                    if a.joined then join_threads a.created else (λ p. out_of_fuel)
                    (λ p. release p.queue_mutex (record p { queue_mutex = false }))
                    (λ p. release p.queue_condition (record p { queue_condition = false }))
                    (λ p. release p.thread_pool_memory (record p { thread_pool_memory = false }))
                    pure false)
                  else (do
                    create_threads num_worker_threads
                    (λ p. ok tt (record p { thread_pool = empty_queue }))
                    pure true))))

-- `cache_create`, with what it takes and gives back.
unfoldable pub make_cache : Answers → Cmd Process Bool
make_cache a = if not a.malloc_cache then pure false else (do
  (λ p. acquire p.cache_memory (record p { cache_memory = true }))
  if not a.malloc_table
      then (do (λ p. release p.cache_memory (record p { cache_memory = false })); pure false)
      else (do
        (λ p. acquire p.hash_table_memory (record p { hash_table_memory = true }))
        if not a.cache_mutex_init
            then (do
              (λ p. release p.hash_table_memory (record p { hash_table_memory = false }))
              (λ p. release p.cache_memory (record p { cache_memory = false }))
              pure false)
            else (do
              (λ p. acquire p.cache_mutex (record p { cache_mutex = true }))
              (λ p. ok tt (record p { optimized_cache = empty_cache }))
              pure true)))

-- `connection_pool_create`, with what it takes and gives back.
unfoldable pub make_connections : Answers → Cmd Process Bool
make_connections a = if not a.malloc_connections then pure false else (do
  (λ p. acquire p.connections_memory (record p { connections_memory = true }))
  if not a.pool_mutex_init
      then (do
        (λ p. release p.connections_memory (record p { connections_memory = false }))
        pure false)
      else (do
        (λ p. acquire p.pool_mutex (record p { pool_mutex = true }))
        (λ p. ok tt (record p { connection_pool = empty_pool }))
        pure true))

-- `proxy_server_init`: what it returns, or `none` where `platform_init` exits.
unfoldable pub proxy_server_init : Platform → Answers → Cmd Process (Option ℤ)
unfolding platform_init thread_pool_create make_cache make_connections
proxy_server_init platform a = do
  networking ← platform_init platform a.wsa_startup
  if not networking then pure none else if not a.sem_init then pure (some minus_one) else (do
    (λ p. acquire p.semaphore (record p { semaphore = true }))
    if not a.lock_init then pure (some minus_one) else (do
      (λ p. acquire p.lock (record p { lock = true }))
      pool ← thread_pool_create a
      (λ p. ok tt (record p { has_thread_pool = pool }))
      if not pool then pure (some minus_one) else (do
        cache ← make_cache a
        (λ p. ok tt (record p { has_optimized_cache = cache }))
        if not cache then pure (some minus_one) else (do
          connections ← make_connections a
          (λ p. ok tt (record p { has_connection_pool = connections }))
          if not connections then pure (some minus_one) else pure (some (pos 0))))))
