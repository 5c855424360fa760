-- ===== src/Startup/Destroy.antt =====
-- `proxy_server_shutdown` of src/components/proxy_server.c and `platform_cleanup` of platform.c.
use proxy_server_in_c.Common.{false, not, List, [], ◌++◌, if◌then◌else◌}
use proxy_server_in_c.Common.Int.{ℤ}
use proxy_server_in_c.Common.Run.{ok, Cmd, pure, ◌>>=◌, ◌>>◌}
use proxy_server_in_c.Cache.Expire.{cache_destroy}
use proxy_server_in_c.ConnectionPool.{connection_pool_destroy}
use proxy_server_in_c.ThreadPool.{thread_pool_destroy}
use proxy_server_in_c.Threads.{num_worker_threads}
use proxy_server_in_c.Startup.{
  Platform, windows, linux, Process, release, join_threads, on_thread_pool, on_optimized_cache,
}

unfoldable pub platform_cleanup : Platform → Cmd Process (Unit {0})
platform_cleanup linux p = ok tt p
platform_cleanup windows p = ok tt (record p { winsock_initialized = false })

-- The three parts of `proxy_server_shutdown`, with the end of each of the functions they call: the
-- descriptors that are closed.
unfoldable pub shut_thread_pool : Cmd Process (List ℤ)
shut_thread_pool = do
  there ← (λ p. ok p.has_thread_pool p)
  if not there then pure [] else (do
    join_threads num_worker_threads
    closed ← on_thread_pool thread_pool_destroy
    (λ p. release p.queue_mutex (record p { queue_mutex = false }))
    (λ p. release p.queue_condition (record p { queue_condition = false }))
    (λ p. release p.thread_pool_memory (record p { thread_pool_memory = false }))
    (λ p. ok tt (record p { has_thread_pool = false }))
    pure closed)

unfoldable pub shut_cache : Cmd Process (Unit {0})
shut_cache = do
  there ← (λ p. ok p.has_optimized_cache p)
  if not there then pure tt else (do
    on_optimized_cache cache_destroy
    (λ p. release p.hash_table_memory (record p { hash_table_memory = false }))
    (λ p. release p.cache_mutex (record p { cache_mutex = false }))
    (λ p. release p.cache_memory (record p { cache_memory = false }))
    (λ p. ok tt (record p { has_optimized_cache = false })))

unfoldable pub shut_connections : Cmd Process (List ℤ)
shut_connections = do
  there ← (λ p. ok p.has_connection_pool p)
  if not there then pure [] else (do
    closed ← (λ p. ok (connection_pool_destroy p.connection_pool) p)
    (λ p. release p.pool_mutex (record p { pool_mutex = false }))
    (λ p. release p.connections_memory (record p { connections_memory = false }))
    (λ p. ok tt (record p { has_connection_pool = false }))
    pure closed)

-- `proxy_server_shutdown`.
unfoldable pub proxy_server_shutdown : Platform → Cmd Process (List ℤ)
unfolding shut_thread_pool shut_cache shut_connections platform_cleanup
proxy_server_shutdown platform = do
  clients ← shut_thread_pool
  shut_cache
  servers ← shut_connections
  (λ p. release p.semaphore (record p { semaphore = false }))
  (λ p. release p.lock (record p { lock = false }))
  platform_cleanup platform
  pure (clients ++ servers)
