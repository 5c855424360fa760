-- ===== src/ConnectionPool/Tests.antt =====
-- Runs of connection_pool.c, and the theorems at them.
use proxy_server_in_c.Common.{
  ◌+◌, ◌≡◌, ◌≢◌, refl, true, false, ◌&&◌, [], ◌∷◌, ◌==◌, arith, Bytes, codes, bytes_eq, inl, ◌⊎◌,
  some, if◌then◌else◌, Any, replicate,
}
use proxy_server_in_c.Common.Int.{ℤ, pos, minus_one, negative, int_eq}
use proxy_server_in_c.ConnectionPool.{
  Entry, Pool, cleared, max_pool_size, Dial, create_persistent_connection, connection_pool_create,
  connection_pool_get, connection_pool_return, scan, mark_idle, fill_slot, is_match, is_fresh,
}
use proxy_server_in_c.ConnectionPool.Invariant.{holds, occurs, IsValid}
use proxy_server_in_c.ConnectionPool.Reachable.{
  Reachable, create, call, get, return, Reachable-IsValid,
}
use proxy_server_in_c.ConnectionPool.Descriptors.{
  TimedOut, create_persistent_connection_owned, connection_pool_get_conserves,
  connection_pool_return_conserves,
}
use proxy_server_in_c.ConnectionPool.Lease.{
  Usable, connection_pool_get_lem, connection_pool_get_exclusive,
}
use proxy_server_in_c.ConnectionPool.RoundTrip.{return_get, return_keeps_address}

abbrev site : Bytes
site = codes "example.org"

abbrev other_site : Bytes
other_site = codes "www.example.org"

abbrev dialled : ℤ → Dial
dialled fd = record { socket = fd; resolved = true; connected = true }

abbrev empty_pool : Pool
empty_pool = record { connections = replicate max_pool_size cleared; pool_size = pos 0 }

abbrev slot : Entry
slot = record { socket_fd = pos 7; host = site; port = pos 80; last_used = 100; in_use = false }

abbrev one_idle : Pool
one_idle = record { connections = slot ∷ replicate 19 cleared; pool_size = pos 1 }

empty_pool-IsValid : IsValid empty_pool
empty_pool-IsValid = record { slots = refl; counted = refl; unique = λ fd q. ground arith }

stored : (connection_pool_return empty_pool (pos 7) site (pos 80) true 100).0 ≡ one_idle
unfolding connection_pool_return mark_idle fill_slot
stored = refl

created : connection_pool_create true true ≡ some empty_pool
unfolding connection_pool_create
created = refl

reached : Reachable one_idle
reached = rw (← stored) (call (create true true created) (return (pos 7) site (pos 80) true 100))

one_idle-IsValid : IsValid one_idle
one_idle-IsValid = Reachable-IsValid reached

slot-Usable : Usable site (pos 80) 120 slot
slot-Usable = record {
  live = refl;
  idle = refl;
  to_host = refl;
  to_port = refl;
  recent = omega arith;
}

Reachable-IsValid_example :
    IsValid (connection_pool_get one_idle site (pos 80) 120 (dialled (pos 9))).pool
Reachable-IsValid_example =
    Reachable-IsValid (call reached (get site (pos 80) 120 (dialled (pos 9))))

unresolved : Dial
unresolved = record { socket = pos 7; resolved = false; connected = true }

create_persistent_connection_owned_example :
    ((create_persistent_connection unresolved).0 ≡ minus_one)
      × ((create_persistent_connection unresolved).1
          ≡ (if negative unresolved.socket then [] else unresolved.socket ∷ []))
    ⊎ ((create_persistent_connection unresolved).0 ≡ unresolved.socket)
      × ((create_persistent_connection unresolved).1 ≡ [])
      × (negative unresolved.socket ≡ false)
      × (unresolved.resolved ≡ true)
      × (unresolved.connected ≡ true)
create_persistent_connection_owned_example = create_persistent_connection_owned unresolved

-- The connection of `one_idle` has timed out at 130, and is closed.
connection_pool_get_conserves_example :
    (holds
          (pos 7)
          (connection_pool_get one_idle site (pos 80) 130 (dialled (pos 9))).pool.connections
        + occurs (pos 7) (connection_pool_get one_idle site (pos 80) 130 (dialled (pos 9))).closed
      ≡ holds (pos 7) one_idle.connections)
    × (occurs (pos 7) (connection_pool_get one_idle site (pos 80) 130 (dialled (pos 9))).closed ≢ 0
        → Any (TimedOut site (pos 80) 130 (pos 7)) one_idle.connections)
connection_pool_get_conserves_example =
    connection_pool_get_conserves one_idle site (pos 80) 130 (dialled (pos 9)) (pos 7) refl
      (λ e. ground arith)

connection_pool_return_conserves_example :
    (holds (pos 8) (connection_pool_return one_idle (pos 8) site (pos 80) true 110).0.connections
        + occurs (pos 8) (connection_pool_return one_idle (pos 8) site (pos 80) true 110).1
      ≡ holds (pos 8) one_idle.connections
        + (if (int_eq (pos 8) (pos 8) && (holds (pos 8) one_idle.connections == 0)) then 1 else 0))
    × (((connection_pool_return one_idle (pos 8) site (pos 80) true 110).1 ≡ [])
        ⊎ (connection_pool_return one_idle (pos 8) site (pos 80) true 110 ≡ (one_idle, pos 8 ∷ []))
          × (holds (pos 8) one_idle.connections ≡ 0))
connection_pool_return_conserves_example =
    connection_pool_return_conserves one_idle (pos 8) site (pos 80) 110 (pos 8) refl refl

connection_pool_get_lem_example :
    Any
      (λ e.
        Usable other_site (pos 80) 120 e
        × (e.socket_fd
            ≡ (connection_pool_get one_idle other_site (pos 80) 120 (dialled (pos 9))).result))
      one_idle.connections
    ⊎ (¬ Any (Usable other_site (pos 80) 120) one_idle.connections)
      × ((connection_pool_get one_idle other_site (pos 80) 120 (dialled (pos 9))).result
          ≡ (create_persistent_connection (dialled (pos 9))).0)
connection_pool_get_lem_example =
    connection_pool_get_lem other_site (pos 80) 120 one_idle (dialled (pos 9))

abbrev leased : Pool
leased = record {
  connections = record slot { in_use = true; last_used = 120 } ∷ replicate 19 cleared;
  pool_size = pos 1;
}

got :
    ((connection_pool_get one_idle site (pos 80) 120 (dialled (pos 9))).pool ≡ leased)
    × ((connection_pool_get one_idle site (pos 80) 120 (dialled (pos 9))).result ≡ pos 7)
unfolding connection_pool_get scan is_match is_fresh bytes_eq
got = (refl, refl)

connection_pool_get_exclusive_example :
    (connection_pool_get leased site (pos 80) 121 (dialled (pos 9))).result ≢ pos 7
connection_pool_get_exclusive_example =
    connection_pool_get_exclusive one_idle-IsValid site site (pos 80) (pos 80) 120 121
      (dialled (pos 9)) (dialled (pos 9)) (inl slot-Usable) got.0 got.1 (λ e. ground arith)

return_get_example :
    Any (λ e. Usable site (pos 80) 120 e × (e.socket_fd ≡ pos 7)) one_idle.connections
    × Any
        (λ e.
          Usable site (pos 80) 120 e
          × (e.socket_fd
              ≡ (connection_pool_get one_idle site (pos 80) 120 (dialled (pos 9))).result))
        one_idle.connections
return_get_example =
    return_get empty_pool-IsValid (pos 7) site (pos 80) 100 120 (dialled (pos 9)) refl refl
      (omega arith) (omega arith) (omega arith) stored

abbrev renewed : Pool
renewed = record {
  connections = record slot { last_used = 110 } ∷ replicate 19 cleared;
  pool_size = pos 1;
}

stored_again : (connection_pool_return one_idle (pos 7) other_site (pos 80) true 110).0 ≡ renewed
unfolding connection_pool_return mark_idle
stored_again = refl

-- A new connection to example.com with the number 7 is offered to example.org.
return_keeps_address_example :
    Any (λ e. Usable site (pos 80) 120 e × (e.socket_fd ≡ pos 7)) renewed.connections
return_keeps_address_example =
    return_keeps_address one_idle-IsValid (pos 7) site other_site (pos 80) (pos 80) 110 120 refl
      (inl (refl, refl, refl)) (omega arith) stored_again
