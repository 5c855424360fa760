-- ===== src/Server/Tests.antt =====
-- Runs of proxy_server.c, and the theorems at them.
use proxy_server_in_c.Common.{
  ℕ, bytes_eq, zero, suc, ◌-◌, ◌≡◌, refl, true, inr, Option, none, some, Bytes, List, [], ◌∷◌, ◌++◌,
  codes, length, take, replicate, arith,
}
use proxy_server_in_c.Common.Int.{pos}
use proxy_server_in_c.Common.Run.{
  Run, and_then, ok, fault, out_of_fuel, Returns, returns, Returns-value,
}
use proxy_server_in_c.Common.CString.{c_str, strstr, strchr, case_eq}
use proxy_server_in_c.Cache.{empty_cache, cache_create, make_room}
use proxy_server_in_c.Cache.Aging.{fresh_of_Returns, MallocIsFresh}
use proxy_server_in_c.Cache.Safety.{Reachable-WellFormed}
use proxy_server_in_c.Cache.Safety
use proxy_server_in_c.ConnectionPool.{
  connection_pool_get, scan, is_match, create_persistent_connection, Pool, cleared, max_pool_size,
  Dial, connection_pool_create,
}
use proxy_server_in_c.ConnectionPool.Reachable.{Reachable-IsValid}
use proxy_server_in_c.ConnectionPool.Reachable
use proxy_server_in_c.HttpParser.{
  ParsedRequest, parsed_request_parse, parsed_request_create, crlf, extract_host_port,
}
use proxy_server_in_c.Server.{
  pass_on, forward_request_to_server, World, Net, Event, to_client, closed, handle_client_request,
  max_request_size,
}
use proxy_server_in_c.Server.Hit.{pass_on-forward_request_to_server}
use proxy_server_in_c.Cache.Rep.{empty_cache-Rep}
use proxy_server_in_c.Cache.Contract.{HasMemory}
use proxy_server_in_c.Cache.{update, load, cache_move_to_front, cache_get, cache_add, cache_hash}
use proxy_server_in_c.Cache.Aging.{fresh_of_Returns, WellFormed}
use proxy_server_in_c.ConnectionPool.Invariant.{IsValid}
use proxy_server_in_c.Server.Shared
use proxy_server_in_c.Server.Shared.{
  Phase, looking_up, asking, done, IsInTime, move, Workers, Sends, moved, Together, begin, go,
}
use proxy_server_in_c.Server.Interleaved.{Together_go}
use proxy_server_in_c.Server.Sound.{IsSound}
use proxy_server_in_c.Server.Handle.{IsServable, handle_client_request_lem}

abbrev no_connections : Pool
no_connections = record { connections = replicate max_pool_size cleared; pool_size = pos 0 }

abbrev start : World
start = record { cache = empty_cache; pool = no_connections; trace = [] }

cache_created : cache_create true true true ≡ some empty_cache
unfolding cache_create
cache_created = refl

pool_created : connection_pool_create true true ≡ some no_connections
unfolding connection_pool_create
pool_created = refl

start-IsSound : IsSound start
start-IsSound = record {
  cache = Reachable-WellFormed (Safety.create true true true cache_created);
  pool = Reachable-IsValid (Reachable.create true true pool_created);
}

abbrev request_bytes : Bytes
request_bytes = codes "GET /a HTTP/1.1" ++ crlf ++ codes "Host: b" ++ crlf ++ crlf

abbrev dial_seven : Dial
dial_seven = record { socket = pos 7; resolved = true; connected = true }

abbrev one_piece : ℕ → Option (ℕ × Bytes)
one_piece zero = some (b'H', codes "TTP/1.1 200 OK" ++ crlf ++ crlf)
one_piece (suc i) = none

abbrev net : Net
net = record {
  request = some request_bytes;
  calloc = true;
  parse_memory = true;
  malloc = true;
  looked_up = 100;
  asked = 100;
  dial = dial_seven;
  redial = dial_seven;
  sends = true;
  recv = one_piece;
  alloc = record { node = 5; url = true; payload = true };
  stored = 101;
  returned = 101;
}

abbrev parsed : ParsedRequest
parsed = record {
  method = some (codes "GET");
  protocol = none;
  host = some (codes "b");
  port = some (codes "80");
  path = some (codes "/a");
  version = some (codes "HTTP/1.1");
  buf = some request_bytes;
  buflen = length request_bytes;
}

parses :
    parsed_request_parse true parsed_request_create
      (take (max_request_size - 1) request_bytes)
      (pos (length (take (max_request_size - 1) request_bytes)))
    ≡ some (parsed, pos 0)
unfolding parsed_request_parse strstr c_str strchr case_eq
parses = refl

parsed-IsServable : IsServable parsed
unfolding extract_host_port strchr
parsed-IsServable = record {
  path = codes "/a";
  has_path = refl;
  short_host = inr (codes "b", refl, omega arith);
}

start_fresh : MallocIsFresh net.alloc empty_cache
unfolding make_room
start_fresh = fresh_of_Returns (returns refl)

handle_client_request_example :
    Returns
      (λ _ v. IsSound v × (t : List Event) × (v.trace ≡ closed (pos 4) ∷ t))
      (handle_client_request net (pos 4) start)
handle_client_request_example =
    handle_client_request_lem net (pos 4) start-IsSound start_fresh refl parses
      (inr (refl, parsed-IsServable))

memory_for_one : HasMemory net.alloc empty_cache []
memory_for_one = record { not_null = omega arith; fresh = refl; for_url = refl; for_payload = refl }

abbrev later : Net
later = record net { looked_up = 200 }

pass_on-forward_request_to_server_example :
    Returns
      (λ n v.
        (n ≡ pos 0)
        × (v.trace ≡ to_client (codes "ok") ∷ to_client (codes "ok") ∷ [])
        × (v.pool ≡ no_connections))
      (and_then
        (pass_on net (codes "/a") (codes "ok") start)
        (λ _. forward_request_to_server later parsed (pos 6)))
unfolding extract_host_port strchr
pass_on-forward_request_to_server_example =
    pass_on-forward_request_to_server parsed refl (omega arith) refl empty_cache-Rep net later
      (codes "ok") (pos 6) (omega arith) memory_for_one refl (omega arith)

-- The first worker has asked the server and stored the page; the second one has found it.
abbrev page_request : Phase
page_request = looking_up (some (codes "GET")) (codes "/a") (codes "b") (pos 80)

abbrev after : Run World Phase → Workers → ℕ → Workers
after (ok p w) s i = moved s i p w
after fault s i = s
after out_of_fuel s i = s

abbrev step : ℕ → Net → Workers → Workers
step i n s = after (move n (s.phase i) s.world) s i

abbrev begun : Workers
begun = record { world = start; phase = update (λ _. done (pos 0)) 0 page_request }

abbrev both : Workers
both = record begun { phase = update begun.phase 1 page_request }

both-Together : Together both
both-Together =
    begin
      (begin (Shared.start true true true true true cache_created pool_created) 0 refl (codes "GET")
        (codes "/a") (codes "b") (pos 80) (omega arith) (omega arith))
      1 refl (codes "GET") (codes "/a") (codes "b") (pos 80) (omega arith) (omega arith)

step-Together :
    {s : Workers}
    → Together s
    → (i : ℕ) (n : Net) → IsInTime n (s.phase i) s.world
    → Together (step i n s)
step-Together {s} t i n time =
    let (p, w, e, _) = Returns-value (Together_go t i n time) in rw e (go t i n time e)

abbrev asked : Workers
asked = step 0 net both

abbrev received : Workers
received = step 0 net asked

abbrev stored : Workers
stored = step 0 net received

abbrev found : Workers
found = step 1 later stored

asked-Together : Together asked
asked-Together = step-Together both-Together 0 net tt

received-Together : Together received
unfolding move cache_get
received-Together = step-Together asked-Together 0 net tt

stored-Together : Together stored
unfolding move cache_get connection_pool_get scan is_match create_persistent_connection strstr c_str
    make_room
stored-Together = step-Together received-Together 0 net (fresh_of_Returns (returns refl))

found-Together : Together found
unfolding move cache_get connection_pool_get scan is_match create_persistent_connection strstr c_str
    cache_add
found-Together = step-Together stored-Together 1 later tt

in_time : IsInTime net (found.phase 1) found.world
unfolding move cache_get connection_pool_get scan is_match create_persistent_connection strstr c_str
    cache_add cache_hash bytes_eq load cache_move_to_front
in_time = omega arith

Together_go_example :
    Returns
      (λ p w.
        Together (moved found 1 p w)
        × WellFormed w.cache
        × IsValid w.pool
        × Sends (found.phase 1) found.world w)
      (move net (found.phase 1) found.world)
Together_go_example = Together_go found-Together 1 net in_time
