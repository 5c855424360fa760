-- ===== src/Lib.antt =====
-- A verification of the HTTP proxy server.
--
-- The program. `main` (src/proxy_server.c) starts an accept loop that hands client sockets to a pool
-- of worker threads. A worker runs `handle_client_request`: it validates and parses the request,
-- looks the path up in the shared cache, and else forwards the request over a connection from the
-- shared connection pool, sends the answer on, caches it and gives the connection back.
--
-- The files.
-- Common: Booleans, lists and C strings over native numbers, the C `int`, and `Run`, the results
-- of code that may fault (`fault`: undefined behaviour) or loop (`out_of_fuel`).
-- Cache: src/components/cache.c and include/proxy/cache.h. A `Cache` is the memory of all nodes,
-- one map from addresses for each field, with the table and the ends of the list; a function that
-- takes the mutex is one step. `Rep` says which list and which chains the pointers form. Its child
-- Cache/Expire models `cache_remove_expired` (which nothing calls) and `cache_destroy`. Cache/Spec
-- is the same cache without memory, as a list of entries, and Cache/Refine relates the two.
-- ConnectionPool: src/components/connection_pool.c. A `Pool` is the array of slots and the
-- counter; a call answers with the new pool and the descriptors that it closed.
-- HttpParser: src/components/http_parser.c and `struct ParsedRequest` of include/proxy_parse.h, on
-- byte lists. HttpParser/Memory has `ParsedRequest_create`, `ParsedRequest_parse` and
-- `ParsedRequest_destroy` again on a heap of blocks (`request_create`, `request_parse`,
-- `request_destroy`), with what `malloc` answers at each call as a parameter (`Malloc`).
-- Server: `send_error_response`, `forward_request_to_server` and `handle_client_request` of
-- src/components/proxy_server.c, on a `World` of the cache, the pool and what left the proxy.
-- What the network, the clock and `malloc` answer is the record `Net`. Server/Shared cuts
-- `forward_request_to_server` into pieces, each of which makes one use of the cache or the pool
-- (`move`), and lets any number of workers take theirs in any order (`Together`).
-- ThreadPool: the task queue of src/components/thread_pool.c as a linked list in memory, with
-- `thread_pool_add_task`, a worker's critical section (`worker_turn`) and what
-- `thread_pool_destroy` does once the workers have joined.
-- Threads: the workers, the condition variable and the semaphore of the same file, as a relation
-- `Step` between states of the pool (`System`) that the scheduler may run through in any order. A
-- section under `queue_mutex` is one step; a worker that waits is between two.
-- Accept: a round of the accept loop of `proxy_server_start`, and the port argument of `main`
-- (src/proxy_server.c).
-- Startup: `main` with its signal handler (src/proxy_server.c), `proxy_server_init`,
-- `proxy_server_start`, `proxy_server_shutdown` and `create_server_socket` of proxy_server.c,
-- `thread_pool_create` and the platform flag, on a `Process` that knows by name which mutexes,
-- conditions, semaphores and structures are there, and the listening socket.
-- Url: `parse_request_url` of src/components/proxy_server.c, which nothing calls.
-- Definitions keep the names of the C functions (`cache_get`, `connection_pool_return`,
-- `parsed_request_parse` for `ParsedRequest_parse`). Arguments that the source tests for `NULL` are
-- modelled as given; the tests that remain are those on values the program computes.
--
-- Bounds and fuel. The loops of the cache get one round more than the cache counts entries, which
-- is enough as a chain holds distinct live nodes; the header loop gets one round for each byte and
-- one more, and moves two bytes at least; the receive loop gets `MAX_RESPONSE_SIZE` rounds, and each
-- receives a byte at least; `thread_pool_destroy` gets one round more than the queue counts tasks.
-- `cache_hash` wraps at 2^32. An access count that passes 2^31 is not modelled.
--
-- A run of `main` is taken up to the signal that ends its loop, as a list of answers of `accept`.
--
-- Interleavings. The cache and the pool are touched under their mutexes, so a run of the program is
-- a sequence of whole calls, which `Reachable` of either module describes; so is the task queue,
-- where `Steps` runs the accept loop, the workers and the shutdown in any order, and `Reach` does the
-- same with the places at which each worker stands; `accepted` and `taken` read off such a history
-- which clients came into the queue and left it. `handle_client_request` is taken as one run; its
-- uses of the shared state are taken one by one in Server/Shared. A node that `cache_get` returned is
-- read after the mutex is released, which Cache/Lifetime and Server/Interleaved are about.
--
-- Not modelled: what the operating system does behind its calls (their answers are arguments), the
-- one-line wrappers of src/components/platform.c, and the vendored include/pthread.h. `Startup` runs
-- the main thread alone; when `pthread_join` returns is the matter of Threads/Shutdown and
-- Threads/Creation, and whether it does so after a failed `pthread_create` is an argument of `main`
-- (`joined`). `atoi` is taken as `(int) strtol(s, NULL, 10)` with a `long` of 64 bits.
mod Common
pub mod ConnectionPool
pub mod Cache
pub mod HttpParser
pub mod Server
pub mod ThreadPool
pub mod Threads
pub mod Accept
pub mod Url
pub mod Startup
