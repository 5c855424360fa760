-- ===== src/Startup/Tests.antt =====
-- Lives of the process.
use proxy_server_in_c.Common.{◌≡◌, refl, true, false, [], ◌∷◌, ◌++◌, arith, if◌then◌else◌}
use proxy_server_in_c.Common.Int.{pos}
use proxy_server_in_c.Common.Run.{Returns}
use proxy_server_in_c.Cache.{Ptr, null, update}
use proxy_server_in_c.Cache.Rep.{empty_cache-Rep}
use proxy_server_in_c.Common.{◌+◌}
use proxy_server_in_c.ConnectionPool.Invariant.{occurs, holds}
use proxy_server_in_c.ConnectionPool.{connection_pool_destroy}
use proxy_server_in_c.ThreadPool.{Queue, empty_queue}
use proxy_server_in_c.Startup.{windows, Process, Answers, at_start}
use proxy_server_in_c.Startup.Destroy.{proxy_server_shutdown}
use proxy_server_in_c.Startup.Serve.{Bind}
use proxy_server_in_c.Startup.Init.{IsUp}
use proxy_server_in_c.Startup.Shutdown.{IsDown, proxy_server_shutdown_lem}

abbrev good : Answers
good = record {
  wsa_startup = true;
  sem_init = true;
  lock_init = true;
  malloc_pool = true;
  queue_mutex_init = true;
  queue_condition_init = true;
  created = 4;
  joined = true;
  malloc_cache = true;
  malloc_table = true;
  cache_mutex_init = true;
  malloc_connections = true;
  pool_mutex_init = true;
}

abbrev listening : Bind
listening = record { socket = pos 3; setsockopt = true; bind = true; listen = true }

-- There is memory for the first task in the queue.
abbrev one_address : Queue → Ptr
one_address q = if q.live 7 then null else 7

-- A process that is up, with the client 5 in its queue.
abbrev serving : Process
serving = record at_start {
  semaphore = true;
  lock = true;
  queue_mutex = true;
  queue_condition = true;
  cache_mutex = true;
  pool_mutex = true;
  thread_pool_memory = true;
  cache_memory = true;
  hash_table_memory = true;
  connections_memory = true;
  threads = 4;
  has_thread_pool = true;
  has_optimized_cache = true;
  has_connection_pool = true;
  thread_pool = record empty_queue {
    live = update (λ _. false) 7 true;
    client_socket = update (λ _. pos 0) 7 (pos 5);
    next = update (λ _. null) 7 null;
    task_queue_head = 7;
    task_queue_tail = 7;
    queue_size = pos 1;
  };
}

serving-IsUp : IsUp serving (7 ∷ []) [] (λ _. [])
serving-IsUp = record {
  semaphore = refl;
  lock = refl;
  queue_mutex = refl;
  queue_condition = refl;
  cache_mutex = refl;
  pool_mutex = refl;
  thread_pool_memory = refl;
  cache_memory = refl;
  hash_table_memory = refl;
  connections_memory = refl;
  threads = refl;
  thread_pool = refl;
  optimized_cache = refl;
  connection_pool = refl;
  queue = record {
    chain = (refl, omega arith, refl);
    tail = refl;
    size = refl;
    live = λ p h. ground arith;
    distinct = (refl, tt);
  };
  live = λ x. ground arith;
  nodes = empty_cache-Rep;
}

proxy_server_shutdown_example :
    Returns
      (λ closed t.
        (closed ≡ (pos 5 ∷ []) ++ connection_pool_destroy serving.connection_pool)
        × (occurs (pos 5) closed
            ≡ occurs (pos 5) (pos 5 ∷ []) + holds (pos 5) serving.connection_pool.connections)
        × IsDown t
        × (t.server_socket ≡ serving.server_socket))
      (proxy_server_shutdown windows serving)
proxy_server_shutdown_example = proxy_server_shutdown_lem windows serving-IsUp (pos 5) refl
