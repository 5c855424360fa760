-- ===== src/ConnectionPool.antt =====
-- src/components/connection_pool.c and include/proxy/connection_pool.h.
pub mod Descriptors
pub mod Invariant
mod Tests
pub mod Lease
pub mod RoundTrip
pub mod Reachable
use proxy_server_in_c.Common.{
  ℕ, ◌-◌, Bool, true, false, not, ◌&&◌, List, [], ◌∷◌, ◌++◌, Option, none, some, ltb, leb,
  if◌then◌else◌, Bytes, bytes_eq, take, replicate,
}
use proxy_server_in_c.Common.Int.{ℤ, pos, minus_one, positive, negative, int_eq, incr, decr}
use mathlib.Core.Option

abbrev pub max_pool_size : ℕ
max_pool_size = 20

abbrev pub connection_timeout : ℕ
connection_timeout = 30

-- `char host[256]` holds a C string of at most 255 bytes.
abbrev pub host_capacity : ℕ
host_capacity = 255

-- `connection_pool_entry_t`. `in_use` is only ever 0 or 1.
pub record Entry : Type 0 where
  pub socket_fd : ℤ
  pub host : Bytes
  pub port : ℤ
  pub last_used : ℕ
  pub in_use : Bool

-- `connection_pool_t`, less its mutex: each operation below is one critical section.
pub record Pool : Type 0 where
  pub connections : List Entry
  pub pool_size : ℤ

-- An entry after `memset(conn, 0, ...)` and `conn->socket_fd = -1`.
abbrev pub cleared : Entry
cleared = record { socket_fd = minus_one; host = []; port = pos 0; last_used = 0; in_use = false }

-- `connection_pool_create`; `none` is `NULL`. Neither outcome of the two calls that may fail is
-- the program's: `malloc` and `pthread_mutex_init`.
unfoldable pub connection_pool_create : (malloc mutex_init : Bool) → Option Pool
connection_pool_create malloc mutex_init =
    if malloc && mutex_init
    then some (record { connections = replicate max_pool_size cleared; pool_size = pos 0 })
    else none

-- What the operating system answers to one connection attempt.
pub record Dial : Type 0 where
  pub socket : ℤ
  pub resolved : Bool
  pub connected : Bool

-- `create_persistent_connection`: the descriptor or -1, and the descriptors it closed.
unfoldable pub create_persistent_connection : Dial → ℤ × List ℤ
create_persistent_connection d =
    if negative d.socket
    then (minus_one, [])
    else if not d.resolved
    then (minus_one, d.socket ∷ [])
    else if not d.connected
    then (minus_one, d.socket ∷ [])
    else (d.socket, [])

-- The test of the loop of `connection_pool_get`: an idle connection to this host and port.
unfoldable pub is_match : Bytes → ℤ → Entry → Bool
is_match host port e =
    positive e.socket_fd && not e.in_use && bytes_eq e.host host && int_eq e.port port

-- `now - last_used < CONNECTION_TIMEOUT` on a signed `time_t`: a clock that went back gives a
-- negative difference, which is below the bound as is the 0 of the native `-`.
unfoldable pub is_fresh : ℕ → Entry → Bool
is_fresh now e = ltb (now - e.last_used) connection_timeout

-- What the loop of `connection_pool_get` leaves: the descriptor that it returns, if any, the
-- array and the counter, and the descriptors that it closed, in order.
pub record Scan : Type 0 where
  pub hit : Option ℤ
  pub connections : List Entry
  pub pool_size : ℤ
  pub closed : List ℤ

unfoldable pub scan : Bytes → ℤ → ℕ → ℤ → List Entry → Scan
scan host port now size [] = record { hit = none; connections = []; pool_size = size; closed = [] }
scan host port now size (e ∷ es) =
    let skipped = scan host port now size es in
    let dropped = scan host port now (decr size) es in
    if is_match host port e
    then if is_fresh now e
      then record {
        hit = some e.socket_fd;
        connections = record e { in_use = true; last_used = now } ∷ es;
        pool_size = size;
        closed = [];
      }
      else record dropped {
        connections = cleared ∷ dropped.connections;
        closed = e.socket_fd ∷ dropped.closed;
      }
    else record skipped { connections = e ∷ skipped.connections }

-- The result of a call on the pool: the new pool, the value returned, the descriptors closed.
pub record Outcome : Type 0 where
  pub pool : Pool
  pub result : ℤ
  pub closed : List ℤ

-- `connection_pool_get` for pointers that are not `NULL`. `dial` is used only after the loop.
unfoldable pub connection_pool_get : Pool → Bytes → ℤ → (now : ℕ) → Dial → Outcome
connection_pool_get p host port now dial =
    let s = scan host port now p.pool_size p.connections in
    let p' : Pool = record { connections = s.connections; pool_size = s.pool_size } in
    elim s.hit [
      | some fd ↦ record { pool = p'; result = fd; closed = s.closed }
      | none ↦
          let (fd, closed) = create_persistent_connection dial in
          record { pool = p'; result = fd; closed = s.closed ++ closed }
    ]

-- The first loop of `connection_pool_return`: an entry that already holds the descriptor.
unfoldable pub mark_idle : ℤ → ℕ → List Entry → Option (List Entry)
mark_idle fd now [] = none
mark_idle fd now (e ∷ es) =
    if int_eq e.socket_fd fd
    then some (record e { in_use = false; last_used = now } ∷ es)
    else Option.map (◌∷◌ e) (mark_idle fd now es)

-- The second loop: the first free slot. `strncpy` into `host[256]` keeps 255 bytes.
unfoldable pub fill_slot : ℤ → Bytes → ℤ → ℕ → List Entry → Option (List Entry)
fill_slot fd host port now [] = none
fill_slot fd host port now (e ∷ es) =
    if positive e.socket_fd
    then Option.map (◌∷◌ e) (fill_slot fd host port now es)
    else some (
        record {
          socket_fd = fd;
          host = take host_capacity host;
          port = port;
          last_used = now;
          in_use = false;
        }
        ∷ es)

-- `connection_pool_return` for pointers that are not `NULL`: the new pool and the descriptors
-- that it closed.
unfoldable pub connection_pool_return :
    Pool → ℤ → Bytes → ℤ → (keep_alive : Bool) → (now : ℕ) → Pool × List ℤ
connection_pool_return p fd host port keep_alive now =
    if not (positive fd)
    then (p, [])
    else if not keep_alive
    then (p, fd ∷ [])
    else elim (mark_idle fd now p.connections) [
      | some cs ↦ (record p { connections = cs }, [])
      | none ↦ elim (fill_slot fd host port now p.connections) [
        | some cs ↦ (record { connections = cs; pool_size = incr p.pool_size }, [])
        | none ↦ (p, fd ∷ [])
      ]
    ]

-- The test of the loop of `connection_pool_cleanup`.
unfoldable pub is_stale : ℕ → Entry → Bool
is_stale now e = positive e.socket_fd && not e.in_use && leb connection_timeout (now - e.last_used)

-- Its loop, over the counter and the array: counter, array, descriptors closed.
unfoldable pub sweep : ℕ → ℤ → List Entry → ℤ × List Entry × List ℤ
sweep now size [] = (size, [], [])
sweep now size (e ∷ es) =
    let (n, cs, closed) = sweep now (if is_stale now e then decr size else size) es in
    if is_stale now e then (n, cleared ∷ cs, e.socket_fd ∷ closed) else (n, e ∷ cs, closed)

unfoldable pub connection_pool_cleanup : Pool → ℕ → Pool × List ℤ
connection_pool_cleanup p now =
    let (n, cs, closed) = sweep now p.pool_size p.connections in
    (record { connections = cs; pool_size = n }, closed)

-- `connection_pool_destroy`: the descriptors that it closes, before the pool is freed.
unfoldable pub close_all : List Entry → List ℤ
close_all [] = []
close_all (e ∷ es) =
    let rest = close_all es in if positive e.socket_fd then e.socket_fd ∷ rest else rest

unfoldable pub connection_pool_destroy : Pool → List ℤ
connection_pool_destroy p = close_all p.connections
