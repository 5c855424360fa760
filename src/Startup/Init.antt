-- ===== src/Startup/Init.antt =====
-- `proxy_server_init`.
use proxy_server_in_c.Common.{
  ℕ, ◌≡◌, refl, Bool, true, false, ◌&&◌, List, [], Option, none, some, arith, Bool-cases, inl, inr,
}
use proxy_server_in_c.Common.Int.{ℤ, pos, minus_one}
use proxy_server_in_c.Common.Run.{ok, Returns, returns}
use proxy_server_in_c.Cache.{Ptr}
use proxy_server_in_c.Cache.Order.{has}
use proxy_server_in_c.Cache.Rep.{Rep, empty_cache-Rep}
use proxy_server_in_c.ThreadPool.Fifo.{IsQueue}
use proxy_server_in_c.Threads.{num_worker_threads}
use proxy_server_in_c.Startup.{Platform, windows, linux, Process, Answers, empty_pool, at_start}
use proxy_server_in_c.Startup.Create.{platform_init, proxy_server_init}
use proxy_server_in_c.Startup.Modules.{
  pool_starts, cache_starts, connections_start, networking_starts, thread_pool_create_lem,
  make_cache_lem, make_connections_lem,
}

-- Everything that `proxy_server_init` starts is there; the queue holds the tasks in memory,
-- and the cache has these nodes.
pub record IsUp (p : Process) (tasks lru : List Ptr) (chain : ℕ → List Ptr) : Type 0 where
  pub semaphore : p.semaphore ≡ true
  pub lock : p.lock ≡ true
  pub queue_mutex : p.queue_mutex ≡ true
  pub queue_condition : p.queue_condition ≡ true
  pub cache_mutex : p.cache_mutex ≡ true
  pub pool_mutex : p.pool_mutex ≡ true
  pub thread_pool_memory : p.thread_pool_memory ≡ true
  pub cache_memory : p.cache_memory ≡ true
  pub hash_table_memory : p.hash_table_memory ≡ true
  pub connections_memory : p.connections_memory ≡ true
  pub threads : p.threads ≡ num_worker_threads
  pub thread_pool : p.has_thread_pool ≡ true
  pub optimized_cache : p.has_optimized_cache ≡ true
  pub connection_pool : p.has_connection_pool ≡ true
  pub queue : IsQueue p.thread_pool tasks
  pub live : (x : Ptr) → p.thread_pool.live x ≡ has x tasks
  pub nodes : Rep p.optimized_cache lru chain

abbrev pub all_start : Platform → Answers → Bool
all_start platform a =
    networking_starts platform a
    && a.sem_init
    && a.lock_init
    && pool_starts a
    && cache_starts a
    && connections_start a

-- What `proxy_server_init` returns, and when.
pub data Started (platform : Platform) (a : Answers) : Option ℤ → Process → Type 0 where
  up :
      {t : Process}
      → all_start platform a ≡ true
      → IsUp t [] [] (λ _. [])
      → t.connection_pool ≡ empty_pool
      → t.server_socket ≡ none
      → Started platform a (some (pos 0)) t
  failed : {t : Process} → all_start platform a ≡ false → Started platform a (some minus_one) t
  exited : {t : Process} → networking_starts platform a ≡ false → Started platform a none t

abbrev winsock_after : Platform → Answers → Bool
winsock_after windows a = a.wsa_startup
winsock_after linux a = false

platform_init_lem :
    (platform : Platform) (a : Answers)
    → platform_init platform a.wsa_startup at_start
      ≡ ok
          (networking_starts platform a)
          (record at_start { winsock_initialized = winsock_after platform a })
unfolding platform_init
platform_init_lem linux a = refl
platform_init_lem windows a = elim (Bool-cases a.wsa_startup) [
  | inl e ↦ rw e refl
  | inr e ↦ rw e refl
]

fresh-IsUp :
    {w : Bool}
    → IsUp
        (record at_start {
          winsock_initialized = w;
          semaphore = true;
          lock = true;
          queue_mutex = true;
          queue_condition = true;
          cache_mutex = true;
          pool_mutex = true;
          thread_pool_memory = true;
          cache_memory = true;
          hash_table_memory = true;
          connections_memory = true;
          threads = num_worker_threads;
          has_thread_pool = true;
          has_optimized_cache = true;
          has_connection_pool = true;
        })
        []
        []
        (λ _. [])
fresh-IsUp = record {
  semaphore = refl;
  lock = refl;
  queue_mutex = refl;
  queue_condition = refl;
  cache_mutex = refl;
  pool_mutex = refl;
  thread_pool_memory = refl;
  cache_memory = refl;
  hash_table_memory = refl;
  connections_memory = refl;
  threads = refl;
  thread_pool = refl;
  optimized_cache = refl;
  connection_pool = refl;
  queue = record {
    chain = refl;
    tail = refl;
    size = refl;
    live = λ p h. ground arith;
    distinct = tt;
  };
  live = λ x. refl;
  nodes = empty_cache-Rep;
}

init-Started :
    (platform : Platform) (a : Answers) (w : Bool)
    → a.joined ≡ true
    → platform_init platform a.wsa_startup at_start
      ≡ ok (networking_starts platform a) (record at_start { winsock_initialized = w })
    → Returns (Started platform a) (proxy_server_init platform a at_start)
unfolding proxy_server_init
init-Started platform a w joins init =
    rw (proxy_server_init, init)
      (elim (Bool-cases (networking_starts platform a)) [
        | inr e ↦ rw e (returns (exited e))
        | inl e ↦ elim (Bool-cases a.sem_init) [
          | inr f ↦ rw (e, f) (returns (failed (ground arith)))
          | inl f ↦ elim (Bool-cases a.lock_init) [
            | inr g ↦ rw (e, f, g) (returns (failed (ground arith)))
            | inl g ↦ elim (Bool-cases (pool_starts a)) [
              | inr h ↦
                  rw (e, f, g, thread_pool_create_lem a w joins, h)
                    (returns (failed (ground arith)))
              | inl h ↦ elim (Bool-cases (cache_starts a)) [
                | inr i ↦
                    rw (e, f, g, thread_pool_create_lem a w joins, h, make_cache_lem a w, i)
                      (returns (failed (ground arith)))
                | inl i ↦ elim (Bool-cases (connections_start a)) [
                  | inr j ↦
                      rw
                        (
                          e,
                          f,
                          g,
                          thread_pool_create_lem a w joins,
                          h,
                          make_cache_lem a w,
                          i,
                          make_connections_lem a w,
                          j,
                        )
                        (returns (failed (ground arith)))
                  | inl j ↦
                      rw
                        (
                          e,
                          f,
                          g,
                          thread_pool_create_lem a w joins,
                          h,
                          make_cache_lem a w,
                          i,
                          make_connections_lem a w,
                          j,
                        )
                        (returns (up (ground arith) fresh-IsUp refl refl))
                ]
              ]
            ]
          ]
        ]
      ])

-- `proxy_server_init` succeeds exactly when every call it makes does, and the process then has
-- every module; it exits when Winsock does not start, and else returns -1. The threads that
-- `thread_pool_create` joins have to end.
pub proxy_server_init_lem :
    (platform : Platform) (a : Answers)
    → a.joined ≡ true
    → Returns (Started platform a) (proxy_server_init platform a at_start)
proxy_server_init_lem platform a joins =
    init-Started platform a (winsock_after platform a) joins (platform_init_lem platform a)
