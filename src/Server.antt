-- ===== src/Server.antt =====
-- src/components/proxy_server.c and include/proxy/proxy_server.h: one request, from the client's
-- bytes to the answer. What the network, the clock and `malloc` answer is a parameter, `Net`.
pub mod Receive
pub mod Sound
pub mod Hit
pub mod Texts
pub mod Handle
pub mod Errors
pub mod Shared
pub mod Moves
pub mod Interleaved
pub mod Alone
mod Tests
use proxy_server_in_c.Common.{
  ℕ, zero, suc, ◌+◌, ◌-◌, ◌*◌, ◌/◌, ◌%◌, Bool, true, false, not, ◌&&◌, ◌||◌, List, [], ◌∷◌, ◌++◌,
  Option, none, some, ltb, leb, ◌==◌, if◌then◌else◌, Bytes, codes, length, take, drop,
}
use proxy_server_in_c.Common.Int.{ℤ, pos, minus_one, positive, negative}
use proxy_server_in_c.Common.Run.{Run, ok, fault, out_of_fuel, Cmd, pure, ◌>>=◌, ◌>>◌}
use proxy_server_in_c.Common.CString.{c_str, starts_with, strchr, strstr, atoi}
use proxy_server_in_c.Cache.{Cache, Ptr, null, Alloc, load, cache_get, cache_add}
use proxy_server_in_c.ConnectionPool.{
  Pool, Dial, connection_pool_get, connection_pool_return, create_persistent_connection,
}
use proxy_server_in_c.HttpParser.{
  ParsedRequest, parsed_request_create, parsed_request_parse, validate_http_request,
  extract_host_port, crlf,
}

abbrev pub max_request_size : ℕ
max_request_size = 4096

abbrev pub max_response_size : ℕ
max_response_size = 1048576

-- The decimal digits of a number, in front of `rest`: what `%d` prints.
unfoldable pub decimal_loop : ℕ → ℕ → Bytes → Bytes
decimal_loop zero n rest = rest
decimal_loop (suc fuel) n rest = elim (ltb n 10) [
  | true ↦ (n + b'0') ∷ rest
  | false ↦ decimal_loop fuel (n / 10) ((n % 10 + b'0') ∷ rest)
]

unfoldable pub decimal : ℕ → Bytes
unfolding decimal_loop
decimal n = decimal_loop (suc n) n []

-- The two parts of an error answer: the head up to the empty line, and the page.
unfoldable pub error_head : ℕ → Bytes → (content_length : ℕ) → Bytes
error_head code message content_length =
    codes "HTTP/1.1 "
    ++ decimal code
    ++ (b' ' ∷ message)
    ++ crlf
    ++ codes "Content-Type: text/html"
    ++ crlf
    ++ codes "Content-Length: "
    ++ decimal content_length
    ++ crlf
    ++ codes "Connection: close"
    ++ crlf
    ++ crlf

unfoldable pub error_page : ℕ → Bytes → Bytes
error_page code message =
    codes "<html><body><h1>" ++ decimal code ++ (b' ' ∷ message) ++ codes "</h1></body></html>"

-- What `send` reads after an `snprintf` into a buffer of `size` bytes: a text that is longer than
-- the buffer makes it read past the end.
unfoldable pub printed : {S : Type 0} → (size : ℕ) → Bytes → Cmd S Bytes
printed size text s =
    if ltb (length text) size
    then ok text s
    else if length text == size
    then ok (take (size - 1) text ++ 0 ∷ []) s
    else fault

-- What leaves the proxy: bytes to the client, bytes to a server, a descriptor that is closed.
pub data Event : Type 0 where
  to_client : Bytes → Event
  to_server : ℤ → Bytes → Event
  closed : ℤ → Event

-- The state that the workers share, and what has left the proxy, newest first.
pub record World : Type 0 where
  pub cache : Cache
  pub pool : Pool
  pub trace : List Event

-- What one request learns from its surroundings. `malloc` is for the first allocation of
-- `ParsedRequest_parse`, and `parse_memory` for all others that it makes, which it does not test and
-- writes to: they come after everything that makes it fail. `request` is what `recv` gave from the client,
-- `none` an error or the end. `recv i` is the answer to the i-th `recv` from the server: `none` for
-- an error or the end, or at least one byte, of which as many are taken as there is room for.
pub record Net : Type 0 where
  pub request : Option Bytes
  pub calloc : Bool
  pub malloc : Bool
  pub parse_memory : Bool
  pub looked_up : ℕ
  pub asked : ℕ
  pub dial : Dial
  pub redial : Dial
  pub sends : Bool
  pub recv : ℕ → Option (ℕ × Bytes)
  pub alloc : Alloc
  pub stored : ℕ
  pub returned : ℕ

abbrev pub emit : Event → Cmd World (Unit {0})
emit e w = ok tt (record w { trace = e ∷ w.trace })

abbrev pub on_cache : {A : Type 0} → Cmd Cache A → Cmd World A
on_cache m w = elim (m w.cache) [
  | ok a c ↦ ok a (record w { cache = c })
  | fault ↦ fault
  | out_of_fuel ↦ out_of_fuel
]

abbrev pub close_events : List ℤ → List Event → List Event
close_events [] trace = trace
close_events (fd ∷ fds) trace = close_events fds (closed fd ∷ trace)

-- `send_error_response`, with the Content-Length of the source.
unfoldable pub send_error_response : ℕ → Bytes → Cmd World (Unit {0})
unfolding error_head error_page printed
send_error_response code message = do
  text ←
      printed 1024 (error_head code message (39 + length message + 20) ++ error_page code message)
  emit (to_client text)

-- The path for the request line: `char actual_path[256] = "/"` and what is copied into it.
unfoldable pub actual_path : Bytes → Bytes
actual_path path = elim (strstr (codes "http://") path) [
  | some _ ↦ elim (strchr b'/' (drop 7 path)) [
    | some (_, start) ↦ take 255 start
    | none ↦ codes "/"
  ]
  | none ↦ if starts_with (codes "/") path then take 255 path else codes "/"
]

-- `snprintf(cache_key, 512, "%s", request->path)`
unfoldable pub cache_key : Bytes → Bytes
cache_key path = take 511 path

unfoldable pub request_text : (method path host : Bytes) → Bytes
request_text method path host =
    method
    ++ (b' ' ∷ path)
    ++ codes " HTTP/1.1"
    ++ crlf
    ++ codes "Host: "
    ++ host
    ++ crlf
    ++ codes "User-Agent: ProxyServer/1.0"
    ++ crlf
    ++ codes "Connection: close"
    ++ crlf
    ++ crlf

-- `strstr(response_buffer, "\r\n\r\n")`, on at least four bytes.
unfoldable pub is_complete : Bytes → Bool
is_complete received = elim (strstr (crlf ++ crlf) (c_str received)) [
  | some _ ↦ leb 4 (length received)
  | none ↦ false
]

-- What `recv` leaves in the buffer behind the bytes that are there.
unfoldable pub extended : Bytes → ℕ × Bytes → Bytes
extended received (c, more) = received ++ take (max_response_size - length received - 1) (c ∷ more)

-- The receive loop: the bytes received, or `none` where it gives up without any. The outer `none`
-- means that the fuel ran out.
unfoldable pub receive_loop :
    ℕ
    → (ℕ → Option (ℕ × Bytes))
    → (i : ℕ) → (received : Bytes) → (header_end_found : Bool) → Option (Option Bytes)
unfolding is_complete extended
receive_loop zero recv i received found = none
receive_loop (suc fuel) recv i received found =
    elim (ltb (length received) (max_response_size - 1)) [
      | false ↦ some (some received)
      | true ↦ elim (recv i) [
        | none ↦ some (if ltb 0 (length received) then some received else none)
        | some chunk ↦
            let now = extended received chunk in
            let seen = not found && is_complete now in
            elim (seen && ltb (length now) 2048 || (found || seen) && ltb 1024 (length now)) [
              | true ↦ some (some now)
              | false ↦ receive_loop fuel recv (suc i) now (found || seen)
            ]
      ]
    ]

pub receive : Net → Cmd World (Option Bytes)
unfolding receive_loop
receive net w = elim (receive_loop max_response_size net.recv 0 [] false) [
  | none ↦ out_of_fuel
  | some reply ↦ ok reply w
]

-- The server's descriptor: from the pool, or from a second attempt where the first one failed.
unfoldable pub connect : Net → Bytes → ℤ → Cmd World ℤ
connect net host port w =
    let got = connection_pool_get w.pool host port net.asked net.dial in
    let again = create_persistent_connection net.redial in
    let w' = record w { pool = got.pool; trace = close_events got.closed w.trace } in
    if negative got.result
    then ok again.0 (record w' { trace = close_events again.1 w'.trace })
    else ok got.result w'

-- `connection_pool_return(connection_pool, server_socket, host, port, 1)`
unfoldable pub give_back : Net → ℤ → Bytes → ℤ → Cmd World (Unit {0})
give_back net server host port w =
    let out = connection_pool_return w.pool server host port true net.returned in
    ok tt (record w { pool = out.0; trace = close_events out.1 w.trace })

-- The answer goes to the client and into the cache.
unfoldable pub pass_on : Net → (path reply : Bytes) → Cmd World (Unit {0})
unfolding cache_key
pass_on net path reply = if length reply == 0 then pure tt else do
  emit (to_client reply)
  on_cache (cache_add net.alloc (cache_key path) reply (pos (length reply)) net.stored)
  pure tt

-- `forward_request_to_server` behind the look-up: the server is asked.
unfoldable pub fetch : Net → Option Bytes → (path host : Bytes) → ℤ → Cmd World ℤ
unfolding printed actual_path request_text receive connect give_back pass_on
fetch net method path host port = do
  server ← connect net host port
  if negative server then pure minus_one else elim method [
    | none ↦ (λ _. fault)
    | some m ↦ (do
      text ← printed max_request_size (request_text m (actual_path path) host)
      if not net.sends then (do emit (closed server); pure minus_one) else (do
        emit (to_server server text)
        reply ← receive net
        elim reply [
          | none ↦ (do emit (closed server); pure minus_one)
          | some bytes ↦ (do
            pass_on net path bytes
            give_back net server host port
            pure (if ltb 0 (length bytes) then pos 0 else minus_one))
        ]))
  ]

-- `send(client_socket, cached->data, cached->data_size, 0)`
unfoldable pub send_cached : Ptr → Cmd World (Unit {0})
send_cached node = do
  bytes ← on_cache (load (λ s p. take (s.data_size p) (s.payload p)) node)
  emit (to_client bytes)

-- `forward_request_to_server`. A host that does not fit `char host[256]` and a path that is `NULL`
-- are faults.
unfoldable pub forward_request_to_server : Net → ParsedRequest → (client_socket : ℤ) → Cmd World ℤ
unfolding fetch send_cached cache_key
forward_request_to_server net request client_socket =
    if not (positive client_socket) then pure minus_one else elim request.host [
      | none ↦ pure minus_one
      | some header ↦
          let target = extract_host_port header in
          if leb 256 (length target.0) then (λ _. fault) else elim request.path [
            | none ↦ (λ _. fault)
            | some path ↦ (do
              node ← on_cache (cache_get (cache_key path) net.looked_up)
              if node == null
                  then fetch net request.method path target.0 target.1
                  else (do send_cached node; pure (pos 0)))
          ]
    ]

-- `handle_client_request` once the bytes are in `request_buffer`.
unfoldable pub answer : Net → Bytes → (client_socket : ℤ) → Cmd World (Unit {0})
unfolding send_error_response forward_request_to_server
answer net buffer client_socket =
    if not (validate_http_request (c_str buffer) (pos (length buffer)))
    then send_error_response 400 (codes "Bad Request")
    else if not net.calloc
    then send_error_response 500 (codes "Internal Server Error")
    else elim (parsed_request_parse net.malloc parsed_request_create buffer (pos (length buffer))) [
      | none ↦ (λ _. out_of_fuel)
      | some (request, n) ↦
          if negative n
          then send_error_response 400 (codes "Bad Request")
          else if not net.parse_memory
          then (λ _. fault)
          else (do
            sent ← forward_request_to_server net request client_socket
            if negative sent then send_error_response 502 (codes "Bad Gateway") else pure tt)
    ]

-- `handle_client_request`: every branch ends by closing the client's socket.
unfoldable pub handle_client_request : Net → (client_socket : ℤ) → Cmd World (Unit {0})
unfolding answer
handle_client_request net client_socket = elim net.request [
  | none ↦ emit (closed client_socket)
  | some bytes ↦
      let buffer = take (max_request_size - 1) bytes in
      if length buffer == 0
      then emit (closed client_socket)
      else (do answer net buffer client_socket; emit (closed client_socket))
]
