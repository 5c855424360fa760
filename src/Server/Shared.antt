-- ===== src/Server/Shared.antt =====
-- Several workers in `forward_request_to_server` at once (src/components/proxy_server.c): the pieces
-- between two uses of the shared cache and pool, taken in any order.
use proxy_server_in_c.Common.{
  ℕ, suc, Bool, true, false, not, ◌≡◌, ◌<◌, Option, none, some, ◌==◌, ltb, if◌then◌else◌, Bytes, [],
  take, length, ◌∷◌,
}
use proxy_server_in_c.Common.Int.{ℤ, pos, minus_one, negative}
use proxy_server_in_c.Common.Run.{ok, fault, Cmd, pure, ◌>>=◌, ◌>>◌}
use proxy_server_in_c.Cache.{Cache, Ptr, null, cache_size, update, cache_create, cache_get}
use proxy_server_in_c.Cache.Aging.{MallocIsFresh}
use proxy_server_in_c.ConnectionPool.{Pool, connection_pool_create}
use proxy_server_in_c.Server.{
  World, Net, to_client, closed, to_server, emit, on_cache, max_request_size, printed, actual_path,
  cache_key, request_text, receive, connect, give_back, pass_on, send_cached,
}

-- Where a worker stands. `found` is what `node` held when the worker was given it, which no move
-- reads, and `age` counts the calls of `cache_get` and `cache_add` that others have made since.
pub data Phase : Type 0 where
  looking_up : (method : Option Bytes) (path host : Bytes) (port : ℤ) → Phase
  sending : (node : Ptr) (found : Bytes) (age : ℕ) → Phase
  asking : (method : Option Bytes) (path host : Bytes) (port : ℤ) → Phase
  storing : (path reply : Bytes) (server : ℤ) (host : Bytes) (port : ℤ) → Phase
  returning : (reply : Bytes) (server : ℤ) (host : Bytes) (port : ℤ) → Phase
  done : (result : ℤ) → Phase

-- The bytes that `send(client_socket, cached->data, cached->data_size, 0)` reads.
abbrev pub held : Cache → Ptr → Bytes
held c p = take (c.data_size p) (c.payload p)

-- From the answer of `connect` to the next use of shared state.
unfoldable pub exchange :
    Net → Option Bytes → (path host : Bytes) → ℤ → (server : ℤ) → Cmd World Phase
unfolding printed actual_path request_text receive
exchange net method path host port server =
    if negative server then pure (done minus_one) else elim method [
      | none ↦ (λ _. fault)
      | some m ↦ (do
        text ← printed max_request_size (request_text m (actual_path path) host)
        if not net.sends then (do emit (closed server); pure (done minus_one)) else (do
          emit (to_server server text)
          reply ← receive net
          elim reply [
            | none ↦ (do emit (closed server); pure (done minus_one))
            | some bytes ↦ pure (storing path bytes server host port)
          ]))
    ]

-- One worker goes on to its next use of the cache or the pool, and through it.
unfoldable pub move : Net → Phase → Cmd World Phase
unfolding cache_key send_cached connect exchange pass_on give_back
move net (looking_up method path host port) = do
  node ← on_cache (cache_get (cache_key path) net.looked_up)
  (λ w.
      pure
        (if node == null then asking method path host port else sending node (held w.cache node) 0)
        w)
move net (sending node found age) = do send_cached node; pure (done (pos 0))
move net (asking method path host port) = do
  server ← connect net host port
  exchange net method path host port server
move net (storing path reply server host port) = do
  pass_on net path reply
  pure (returning reply server host port)
move net (returning reply server host port) = do
  give_back net server host port
  pure (done (if ltb 0 (length reply) then pos 0 else minus_one))
move net (done result) = pure (done result)

-- A call of `cache_get` or `cache_add` is made.
abbrev pub touches : Phase → Bool
touches (looking_up method path host port) = true
touches (sending node found age) = false
touches (asking method path host port) = false
touches (storing path reply server host port) = true
touches (returning reply server host port) = false
touches (done result) = false

abbrev pub older : Phase → Phase
older (looking_up method path host port) = looking_up method path host port
older (sending node found age) = sending node found (suc age)
older (asking method path host port) = asking method path host port
older (storing path reply server host port) = storing path reply server host port
older (returning reply server host port) = returning reply server host port
older (done result) = done result

-- A worker that sends a node sends the client what it found.
abbrev pub Sends : Phase → World → World → Type 0
Sends (looking_up method path host port) w v = Unit
Sends (sending node found age) w v = v.trace ≡ to_client found ∷ w.trace
Sends (asking method path host port) w v = Unit
Sends (storing path reply server host port) w v = Unit
Sends (returning reply server host port) w v = Unit
Sends (done result) w v = Unit

pub record Workers : Type 0 where
  pub world : World
  pub phase : ℕ → Phase

-- Worker `i` has moved to `p`, which left `w`.
abbrev pub moved : Workers → (i : ℕ) → Phase → World → Workers
moved s i p w = record {
  world = w;
  phase = λ j. if j == i then p else if touches (s.phase i) then older (s.phase j) else s.phase j;
}

-- What a move relies on: a worker that reads a node does so before the others have made 1024 calls,
-- and `malloc` gives no address in use.
abbrev pub IsInTime : Net → Phase → World → Type 0
IsInTime net (looking_up method path host port) w = Unit
IsInTime net (sending node found age) w = age < cache_size
IsInTime net (asking method path host port) w = Unit
IsInTime net (storing path reply server host port) w = MallocIsFresh net.alloc w.cache
IsInTime net (returning reply server host port) w = Unit
IsInTime net (done result) w = Unit

-- What the workers can do together, from the start of the program on. A worker begins with a method
-- as `validate_http_request` lets it through and a host name that fits its buffer.
pub data Together : Workers → Type 0 where
  start :
      (a b c d e : Bool) {cache : Cache} {pool : Pool}
      → cache_create a b c ≡ some cache
      → connection_pool_create d e ≡ some pool
      → Together (record {
        world = record { cache = cache; pool = pool; trace = [] };
        phase = λ _. done (pos 0);
      })
  begin :
      {s : Workers}
      → Together s
      → (i : ℕ) {result : ℤ} → s.phase i ≡ done result
      → (method path host : Bytes) (port : ℤ) → length method < 8
      → length host < 256
      → Together (record s { phase = update s.phase i (looking_up (some method) path host port) })
  go :
      {s : Workers}
      → Together s
      → (i : ℕ) (net : Net) {p : Phase} {w : World} → IsInTime net (s.phase i) s.world
      → move net (s.phase i) s.world ≡ ok p w
      → Together (moved s i p w)
