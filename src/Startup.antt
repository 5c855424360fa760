-- ===== src/Startup.antt =====
-- The life of the process: src/proxy_server.c, `proxy_server_init`, `proxy_server_start`,
-- `proxy_server_shutdown` and `create_server_socket` of src/components/proxy_server.c,
-- `thread_pool_create` of src/components/thread_pool.c, and `platform_init` and `platform_cleanup`
-- of src/components/platform.c. What the operating system answers is an argument.
pub mod Create
pub mod Destroy
pub mod Serve
pub mod Modules
pub mod Init
pub mod Shutdown
pub mod Accepts
pub mod Main
mod Tests
use proxy_server_in_c.Common.{
  ℕ, zero, suc, ◌+◌, ◌-◌, Bool, true, false, not, List, [], ◌∷◌, ◌++◌, Option, none, some, ◌==◌,
  ltb, if◌then◌else◌, Bytes, replicate,
}
use proxy_server_in_c.Common.Int.{ℤ, pos, minus_one, negative, int_eq}
use proxy_server_in_c.Common.Run.{Run, ok, fault, out_of_fuel, Cmd, pure, ◌>>=◌, ◌>>◌}
use proxy_server_in_c.Cache.{Cache, Ptr, empty_cache}
use proxy_server_in_c.Cache.Expire.{cache_destroy}
use proxy_server_in_c.ConnectionPool.{
  Pool, cleared, max_pool_size, connection_pool_create, connection_pool_destroy,
}
use proxy_server_in_c.ThreadPool.{Queue, empty_queue, thread_pool_destroy}
use proxy_server_in_c.Threads.{num_worker_threads}
use proxy_server_in_c.Accept.{accept_client, chosen_port}

pub data Platform : Type 0 where
  windows : Platform
  linux : Platform

-- The global variables, with the structures that they point at, and which mutexes, conditions,
-- semaphores and structures are there, each by its name in the source: the `malloc` of a structure
-- by the structure, of the hash table of the cache by its own. A global pointer is `NULL` where its
-- flag is false. `server_socket` is the local variable of `proxy_server_start`, while it is open.
pub record Process : Type 0 where
  pub winsock_initialized : Bool
  pub semaphore : Bool
  pub lock : Bool
  pub queue_mutex : Bool
  pub queue_condition : Bool
  pub cache_mutex : Bool
  pub pool_mutex : Bool
  pub thread_pool_memory : Bool
  pub cache_memory : Bool
  pub hash_table_memory : Bool
  pub connections_memory : Bool
  pub threads : ℕ
  pub has_thread_pool : Bool
  pub has_optimized_cache : Bool
  pub has_connection_pool : Bool
  pub thread_pool : Queue
  pub optimized_cache : Cache
  pub connection_pool : Pool
  pub server_socket : Option ℤ

-- To make one that is there already, or to destroy or free one that is not, is a fault: it is
-- undefined for a mutex, a condition or a semaphore, and loses or frees twice a structure.
abbrev pub acquire : (there : Bool) → Process → Run Process (Unit {0})
acquire there p = if there then fault else ok tt p

abbrev pub release : (there : Bool) → Process → Run Process (Unit {0})
release there p = if there then ok tt p else fault

-- `n` times `pthread_create`, and `n` times `pthread_join`, for threads that end.
abbrev pub create_threads : ℕ → Cmd Process (Unit {0})
create_threads n p = ok tt (record p { threads = p.threads + n })

abbrev pub join_threads : ℕ → Cmd Process (Unit {0})
join_threads n p = if ltb p.threads n then fault else ok tt (record p { threads = p.threads - n })

-- What `malloc`, `pthread_mutex_init` and so on answer to the calls of `proxy_server_init`;
-- `created` is how many threads `pthread_create` makes before it fails, and `joined` whether the
-- `pthread_join` of all of these comes back then.
pub record Answers : Type 0 where
  pub wsa_startup : Bool
  pub sem_init : Bool
  pub lock_init : Bool
  pub malloc_pool : Bool
  pub queue_mutex_init : Bool
  pub queue_condition_init : Bool
  pub created : ℕ
  pub joined : Bool
  pub malloc_cache : Bool
  pub malloc_table : Bool
  pub cache_mutex_init : Bool
  pub malloc_connections : Bool
  pub pool_mutex_init : Bool

-- An operation of a module on its structure.
abbrev pub on_thread_pool : {A : Type 0} → Cmd Queue A → Cmd Process A
on_thread_pool m p = elim (m p.thread_pool) [
  | ok a q ↦ ok a (record p { thread_pool = q })
  | fault ↦ fault
  | out_of_fuel ↦ out_of_fuel
]

abbrev pub on_optimized_cache : {A : Type 0} → Cmd Cache A → Cmd Process A
on_optimized_cache m p = elim (m p.optimized_cache) [
  | ok a c ↦ ok a (record p { optimized_cache = c })
  | fault ↦ fault
  | out_of_fuel ↦ out_of_fuel
]

abbrev pub empty_pool : Pool
empty_pool = record { connections = replicate max_pool_size cleared; pool_size = pos 0 }

-- The process before `main`.
abbrev pub at_start : Process
at_start = record {
  winsock_initialized = false;
  semaphore = false;
  lock = false;
  queue_mutex = false;
  queue_condition = false;
  cache_mutex = false;
  pool_mutex = false;
  thread_pool_memory = false;
  cache_memory = false;
  hash_table_memory = false;
  connections_memory = false;
  threads = 0;
  has_thread_pool = false;
  has_optimized_cache = false;
  has_connection_pool = false;
  thread_pool = empty_queue;
  optimized_cache = empty_cache;
  connection_pool = empty_pool;
  server_socket = none;
}
