-- ===== src/Startup/Modules.antt =====
-- The functions that make a module, on every answer of the system.
use proxy_server_in_c.Common.{
  ℕ, ◌+◌, ◌-◌, ◌≡◌, refl, Bool, true, false, not, ◌&&◌, ltb, if◌then◌else◌, arith, Bool-cases, inl,
  inr,
}
use proxy_server_in_c.Common.Run.{ok}
use proxy_server_in_c.Threads.{num_worker_threads}
use proxy_server_in_c.Startup.{Platform, windows, linux, Process, Answers, at_start}
use proxy_server_in_c.Startup.Create.{thread_pool_create, make_cache, make_connections}

-- The answers with which each module starts.
abbrev pub pool_starts : Answers → Bool
pool_starts a =
    a.malloc_pool
    && a.queue_mutex_init
    && a.queue_condition_init
    && not (ltb a.created num_worker_threads)

abbrev pub cache_starts : Answers → Bool
cache_starts a = a.malloc_cache && a.malloc_table && a.cache_mutex_init

abbrev pub connections_start : Answers → Bool
connections_start a = a.malloc_connections && a.pool_mutex_init

abbrev pub networking_starts : Platform → Answers → Bool
networking_starts linux a = true
networking_starts windows a = a.wsa_startup

-- The process after each part of `proxy_server_init`.
abbrev pub synchronized : (winsock : Bool) → Process
synchronized winsock = record at_start {
  winsock_initialized = winsock;
  semaphore = true;
  lock = true;
}

abbrev pub with_pool : Process → Process
with_pool p = record p {
  thread_pool_memory = true;
  queue_mutex = true;
  queue_condition = true;
  threads = num_worker_threads;
}

abbrev pub with_cache : Process → Process
with_cache p = record p { cache_memory = true; hash_table_memory = true; cache_mutex = true }

abbrev pub with_connections : Process → Process
with_connections p = record p { connections_memory = true; pool_mutex = true }

abbrev pub pooled : Bool → Process
pooled winsock = record (with_pool (synchronized winsock)) { has_thread_pool = true }

abbrev pub cached : Bool → Process
cached winsock = record (with_cache (pooled winsock)) { has_optimized_cache = true }

ltb_self : (n : ℕ) → ltb n n ≡ false
ltb_self n = ground arith

sub_self : (n : ℕ) → n - n ≡ 0
sub_self n = omega arith

-- `thread_pool_create` either takes everything or nothing.
pub thread_pool_create_lem :
    (a : Answers) (winsock : Bool)
    → a.joined ≡ true
    → thread_pool_create a (synchronized winsock) ≡ (
        if pool_starts a
        then ok true (with_pool (synchronized winsock))
        else ok false (synchronized winsock))
unfolding thread_pool_create
thread_pool_create_lem a winsock joins = elim (Bool-cases a.malloc_pool) [
  | inr e ↦ rw e refl
  | inl e ↦ elim (Bool-cases a.queue_mutex_init) [
    | inr f ↦ rw (e, f) refl
    | inl f ↦ elim (Bool-cases a.queue_condition_init) [
      | inr g ↦ rw (e, f, g) refl
      | inl g ↦ elim (Bool-cases (ltb a.created num_worker_threads)) [
        | inr h ↦ rw (e, f, g, h) refl
        | inl h ↦
            let all : 0 + a.created ≡ a.created = omega arith in
            rw (e, f, g, h, joins, all, ltb_self a.created, sub_self a.created) refl
      ]
    ]
  ]
]

pub make_cache_lem :
    (a : Answers) (winsock : Bool)
    → make_cache a (pooled winsock) ≡ (
        if cache_starts a then ok true (with_cache (pooled winsock)) else ok false (pooled winsock))
unfolding make_cache
make_cache_lem a winsock = elim (Bool-cases a.malloc_cache) [
  | inr e ↦ rw e refl
  | inl e ↦ elim (Bool-cases a.malloc_table) [
    | inr f ↦ rw (e, f) refl
    | inl f ↦ elim (Bool-cases a.cache_mutex_init) [
      | inr g ↦ rw (e, f, g) refl
      | inl g ↦ rw (e, f, g) refl
    ]
  ]
]

pub make_connections_lem :
    (a : Answers) (winsock : Bool)
    → make_connections a (cached winsock) ≡ (
        if connections_start a
        then ok true (with_connections (cached winsock))
        else ok false (cached winsock))
unfolding make_connections
make_connections_lem a winsock = elim (Bool-cases a.malloc_connections) [
  | inr e ↦ rw e refl
  | inl e ↦ elim (Bool-cases a.pool_mutex_init) [ inr f ↦ rw (e, f) refl | inl f ↦ rw (e, f) refl ]
]
