-- ===== src/ConnectionPool/RoundTrip.antt =====
-- `connection_pool_return` and `connection_pool_cleanup`, seen by the next `connection_pool_get`.
use proxy_server_in_c.Common.{
  ℕ, ◌-◌, ◌≤◌, ◌<◌, ◌≡◌, refl, true, false, List, [], ◌∷◌, some, arith, length, Bytes, Option-cases,
  Bool-cases, inl, inr, take_of_length-le, Any,
}
use proxy_server_in_c.Common.Int.{ℤ, positive, int_eq_iff, decr}
use proxy_server_in_c.ConnectionPool.{
  Entry, Pool, cleared, max_pool_size, connection_timeout, host_capacity, Dial, connection_pool_get,
  connection_pool_return, connection_pool_cleanup, is_match, is_fresh, is_stale, sweep, scan,
  mark_idle, fill_slot,
}
use proxy_server_in_c.ConnectionPool.Invariant.{
  live_count, holds, IsValid, mark_idle-none, mark_idle-some, fill_slot-none,
}
use proxy_server_in_c.ConnectionPool.Lease.{Usable, Any-weaken, connection_pool_get_reuses}

Any-holds :
    (fd : ℤ) (host : Bytes) (port : ℤ) (es : List Entry)
    → Any (λ e. (e.socket_fd ≡ fd) × (e.host ≡ host) × (e.port ≡ port)) es
    → 1 ≤ holds fd es
Any-holds fd host port [] a = absurd a
Any-holds fd host port (e ∷ es) (inl q) = ground (arith, (int_eq_iff e.socket_fd fd).1 q.0)
Any-holds fd host port (e ∷ es) (inr a) = ground (arith, Any-holds fd host port es a)

module _ (fd : ℤ) (host : Bytes) (port : ℤ) (stored now : ℕ) where
  module _ (live : positive fd ≡ true) (recent : now - stored < connection_timeout) where
    fill_slot-Usable :
        (es : List Entry) {cs : List Entry}
        → length host ≤ host_capacity
        → fill_slot fd host port stored es ≡ some cs
        → Any (λ e. Usable host port now e × (e.socket_fd ≡ fd)) cs
    unfolding fill_slot
    fill_slot-Usable [] short h = absurd (ground arith)
    fill_slot-Usable (e ∷ es) {cs} short h = elim (Bool-cases (positive e.socket_fd)) [
      | inr q ↦
          let c : cs
              ≡ record {
                socket_fd = fd;
                host = host;
                port = port;
                last_used = stored;
                in_use = false;
              }
                ∷ es =
            ground (arith, take_of_length-le host_capacity host short) in
          rw c (
            inl (
              record { live = live; idle = refl; to_host = refl; to_port = refl; recent = recent },
              refl,
            ))
      | inl q ↦ elim (Option-cases (fill_slot fd host port stored es)) [
        | inl r ↦ absurd (ground arith)
        | inr (ds, r) ↦
            let c : cs ≡ e ∷ ds = ground arith in rw c (inr (fill_slot-Usable es short r))
      ]
    ]

    mark_idle-Usable :
        (es : List Entry) {cs : List Entry}
        → Any (λ e. (e.socket_fd ≡ fd) × (e.host ≡ host) × (e.port ≡ port)) es
        → holds fd es ≤ 1
        → mark_idle fd stored es ≡ some cs
        → Any (λ e. Usable host port now e × (e.socket_fd ≡ fd)) cs
    unfolding mark_idle
    mark_idle-Usable [] a one h = absurd a
    mark_idle-Usable (e ∷ es) {cs} (inl (same, to_host, to_port)) one h =
        let c : cs ≡ record e { in_use = false; last_used = stored } ∷ es =
          ground (arith, int_eq_iff e.socket_fd fd) in
        rw c (
          inl (
            record {
              live = ground arith;
              idle = refl;
              to_host = to_host;
              to_port = to_port;
              recent = recent;
            },
            same,
          ))
    mark_idle-Usable (e ∷ es) {cs} (inr a) one h = elim (Option-cases (mark_idle fd stored es)) [
      | inl r ↦ absurd (ground (arith, mark_idle-none fd stored es r, Any-holds fd host port es a))
      | inr (ds, r) ↦
          let c : cs ≡ e ∷ ds = ground (arith, Any-holds fd host port es a) in
          rw c (inr (mark_idle-Usable es a (ground arith) r))
    ]

module _ (host : Bytes) (port : ℤ) (now : ℕ) where
  -- The counter plays no part in the search.
  scan_any_size :
      (m n : ℤ) (es : List Entry) → (scan host port now m es).hit ≡ (scan host port now n es).hit
  unfolding scan
  scan_any_size m n [] = refl
  scan_any_size m n (e ∷ es) =
      ground (arith, scan_any_size m n es, scan_any_size (decr m) (decr n) es)

  stale-not_fresh : (e : Entry) → is_stale now e ≡ true → is_fresh now e ≡ false
  unfolding is_stale is_fresh
  stale-not_fresh e h = ground arith

  cleared-no_match : is_match host port cleared ≡ false
  unfolding is_match
  cleared-no_match = refl

  scan-sweep :
      (m n k : ℤ) (es : List Entry)
      → (scan host port now m (sweep now n es).1).hit ≡ (scan host port now k es).hit
  unfolding scan sweep
  scan-sweep m n k [] = refl
  scan-sweep m n k (e ∷ es) = ground (
    arith,
    stale-not_fresh e,
    cleared-no_match,
    scan-sweep m (decr n) k es,
    scan-sweep m (decr n) (decr k) es,
    scan-sweep m n k es,
    scan-sweep (decr m) n (decr k) es,
  )

-- A kept-alive connection can be got again: a descriptor that no slot holds, returned at `stored`
-- to a valid pool with a free slot for a host name that fits the slot, is offered by the pool to
-- that host and port for the next 30 seconds, and so `connection_pool_get` then dials no one but
-- returns a pooled connection to that host and port.
pub return_get :
    {p : Pool}
    → IsValid p
    → (fd : ℤ) (host : Bytes) (port : ℤ) (stored now : ℕ) (dial : Dial) → positive fd ≡ true
    → holds fd p.connections ≡ 0
    → live_count p.connections < max_pool_size
    → length host ≤ host_capacity
    → now - stored < connection_timeout
    → {q : Pool} → (connection_pool_return p fd host port true stored).0 ≡ q
    → Any (λ e. Usable host port now e × (e.socket_fd ≡ fd)) q.connections
      × Any
          (λ e.
            Usable host port now e
            × (e.socket_fd ≡ (connection_pool_get q host port now dial).result))
          q.connections
unfolding connection_pool_return
return_get {p} v fd host port stored now dial live absent room short recent {q} eq = (
  found,
  connection_pool_get_reuses host port now q dial (Any-weaken host port now fd q.connections found),
)
  where
    found : Any (λ e. Usable host port now e × (e.socket_fd ≡ fd)) q.connections
    found = elim (Option-cases (mark_idle fd stored p.connections)) [
      | inr (cs, m) ↦ absurd (omega (arith, mark_idle-some fd stored p.connections m))
      | inl m ↦ elim (Option-cases (fill_slot fd host port stored p.connections)) [
        | inl f ↦ absurd (omega (arith, fill_slot-none fd host port stored live p.connections f))
        | inr (cs, f) ↦
            let c : q.connections ≡ cs = ground arith in
            rw c (fill_slot-Usable fd host port stored now live recent p.connections short f)
      ]
    ]

-- A clean-up changes nothing that a `connection_pool_get` at the same time could tell: it returns
-- the same descriptor for every host and port, found in the pool or dialled.
pub cleanup_get :
    (p : Pool) (host : Bytes) (port : ℤ) (now : ℕ) (dial : Dial)
    → (connection_pool_get (connection_pool_cleanup p now).0 host port now dial).result
      ≡ (connection_pool_get p host port now dial).result
unfolding connection_pool_get connection_pool_cleanup
cleanup_get p host port now dial = ground (
  arith,
  scan-sweep host port now (sweep now p.pool_size p.connections).0 p.pool_size p.pool_size
      p.connections,
)

-- A descriptor that a slot already holds keeps the slot's host and port, whatever host and port it
-- is returned for: the pool offers it to the old host and port for the next 30 seconds.
pub return_keeps_address :
    {p : Pool}
    → IsValid p
    → (fd : ℤ) (host host' : Bytes) (port port' : ℤ) (stored now : ℕ) → positive fd ≡ true
    → Any (λ e. (e.socket_fd ≡ fd) × (e.host ≡ host) × (e.port ≡ port)) p.connections
    → now - stored < connection_timeout
    → {q : Pool} → (connection_pool_return p fd host' port' true stored).0 ≡ q
    → Any (λ e. Usable host port now e × (e.socket_fd ≡ fd)) q.connections
unfolding connection_pool_return
return_keeps_address {p} v fd host host' port port' stored now live a recent {q} eq =
    elim (Option-cases (mark_idle fd stored p.connections)) [
      | inl m ↦ absurd (
          omega (
            arith,
            mark_idle-none fd stored p.connections m,
            Any-holds fd host port p.connections a,
          ))
      | inr (cs, m) ↦
          let c : q.connections ≡ cs = ground arith in
          rw c (
            mark_idle-Usable fd host port stored now live recent p.connections a (v.unique fd live)
              m)
    ]
