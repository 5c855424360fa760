-- ===== src/ConnectionPool/Descriptors.antt =====
-- Who owns a descriptor, call by call of connection_pool.c.
use proxy_server_in_c.Common.{
  ℕ, ◌+◌, ◌≡◌, ◌≢◌, refl, true, false, List, [], ◌∷◌, if◌then◌else◌, ◌==◌, ◌&&◌, arith, Bytes,
  Option-cases, Bool-cases, ◌⊎◌, inl, inr, Any, ◌-◌, ◌≤◌, bytes_eq_iff,
}
use proxy_server_in_c.Common.Int.{ℤ, minus_one, positive, negative, int_eq, int_eq_iff, decr}
use proxy_server_in_c.ConnectionPool.{
  connection_timeout, is_match, is_fresh, Entry, Pool, Dial, create_persistent_connection,
  connection_pool_get, connection_pool_return, connection_pool_destroy, close_all, scan, mark_idle,
  fill_slot,
}
use proxy_server_in_c.ConnectionPool.Invariant.{
  holds, occurs, occurs-append, scan-holds, mark_idle-SameSlots, mark_idle-none, mark_idle-some,
  holds-fill_slot,
}

-- A connection attempt either fails with -1, having closed the socket that it opened (if `socket`
-- gave one), or the name resolved, the connect went through, and the open socket is returned and
-- nothing was closed.
pub create_persistent_connection_owned :
    (d : Dial)
    → ((create_persistent_connection d).0 ≡ minus_one)
        × ((create_persistent_connection d).1 ≡ (if negative d.socket then [] else d.socket ∷ []))
      ⊎ ((create_persistent_connection d).0 ≡ d.socket)
        × ((create_persistent_connection d).1 ≡ [])
        × (negative d.socket ≡ false)
        × (d.resolved ≡ true)
        × (d.connected ≡ true)
unfolding create_persistent_connection
create_persistent_connection_owned d = elim (Bool-cases (negative d.socket)) [
  | inl n ↦ inl (ground arith, ground arith)
  | inr n ↦ elim (Bool-cases d.resolved) [
    | inr r ↦ inl (ground arith, ground arith)
    | inl r ↦ elim (Bool-cases d.connected) [
      | inr c ↦ inl (ground arith, ground arith)
      | inl c ↦ inr (ground arith, ground arith, n, r, c)
    ]
  ]
]

dial_closes_own :
    (d : Dial) (fd : ℤ) → fd ≢ d.socket → occurs fd (create_persistent_connection d).1 ≡ 0
unfolding create_persistent_connection
dial_closes_own d fd ne = ground (arith, int_eq_iff d.socket fd)

-- An idle connection to this host and port that has not been used for 30 seconds.
pub record TimedOut (host : Bytes) (port : ℤ) (now : ℕ) (fd : ℤ) (e : Entry) : Type 0 where
  pub is_it : e.socket_fd ≡ fd
  pub idle : e.in_use ≡ false
  pub to_host : e.host ≡ host
  pub to_port : e.port ≡ port
  pub old : connection_timeout ≤ now - e.last_used

scan_closes :
    (host : Bytes) (port : ℤ) (now : ℕ) (fd size : ℤ) (es : List Entry)
    → occurs fd (scan host port now size es).closed ≢ 0
    → Any (TimedOut host port now fd) es
unfolding scan is_match is_fresh
scan_closes host port now fd size [] h = absurd (h refl)
scan_closes host port now fd size (e ∷ es) h = elim (Bool-cases (is_match host port e)) [
  | inr m ↦ inr (scan_closes host port now fd size es (ground arith))
  | inl m ↦ elim (Bool-cases (is_fresh now e)) [
    | inl f ↦ absurd (ground arith)
    | inr f ↦ elim (Bool-cases (int_eq e.socket_fd fd)) [
      | inl it ↦ inl (record {
        is_it = (int_eq_iff e.socket_fd fd).0 it;
        idle = ground arith;
        to_host = ground (arith, (bytes_eq_iff e.host host).0);
        to_port = ground (arith, (int_eq_iff e.port port).0);
        old = ground arith;
      })
      | inr other ↦ inr (scan_closes host port now fd (decr size) es (ground arith))
    ]
  ]
]

-- Every open descriptor other than the one being dialled stands as often in the pool before
-- `connection_pool_get` as it stands in the pool and among the closed ones after it. One that is
-- closed belonged to an idle connection to this very host and port that had not been used for 30
-- seconds.
pub connection_pool_get_conserves :
    (p : Pool) (host : Bytes) (port : ℤ) (now : ℕ) (dial : Dial) (fd : ℤ)
    → positive fd ≡ true
    → fd ≢ dial.socket
    → (holds fd (connection_pool_get p host port now dial).pool.connections
          + occurs fd (connection_pool_get p host port now dial).closed
        ≡ holds fd p.connections)
      × (occurs fd (connection_pool_get p host port now dial).closed ≢ 0
          → Any (TimedOut host port now fd) p.connections)
unfolding connection_pool_get
connection_pool_get_conserves p host port now dial fd h ne =
    let s = scan host port now p.pool_size p.connections in
    let dialled = dial_closes_own dial fd ne in
    let all = occurs-append fd s.closed (create_persistent_connection dial).1 in
    (
      ground (arith, scan-holds host port now fd p.pool_size p.connections h, dialled, all),
      λ closes.
          scan_closes host port now fd p.pool_size p.connections (ground (arith, dialled, all)),
    )

-- `connection_pool_return` of an open descriptor with keep-alive: if no slot holds it yet, it is
-- afterwards in exactly one more slot or closed once; if a slot holds it, nothing is closed and the
-- pool holds the same descriptors as before. It closes nothing else, and where it closes the
-- descriptor, it leaves the pool as it is.
pub connection_pool_return_conserves :
    (p : Pool) (fd : ℤ) (host : Bytes) (port : ℤ) (now : ℕ) (g : ℤ)
    → positive fd ≡ true
    → positive g ≡ true
    → (holds g (connection_pool_return p fd host port true now).0.connections
          + occurs g (connection_pool_return p fd host port true now).1
        ≡ holds g p.connections + (if (int_eq fd g && (holds fd p.connections == 0)) then 1 else 0))
      × (((connection_pool_return p fd host port true now).1 ≡ [])
          ⊎ (connection_pool_return p fd host port true now ≡ (p, fd ∷ []))
            × (holds fd p.connections ≡ 0))
unfolding connection_pool_return
connection_pool_return_conserves p fd host port now g hf hg =
    elim (Option-cases (mark_idle fd now p.connections)) [
      | inr (cs, m) ↦
          let same = mark_idle-SameSlots fd now p.connections m in
          rw (hf, m) (ground (arith, same.same g, mark_idle-some fd now p.connections m), inl refl)
      | inl m ↦ elim (Option-cases (fill_slot fd host port now p.connections)) [
        | inl f ↦
            let absent = mark_idle-none fd now p.connections m in
            rw (hf, m, f) (ground (arith, absent, int_eq_iff fd g), inr (refl, absent))
        | inr (cs, f) ↦
            rw (hf, m, f)
              (
                ground (
                  arith,
                  mark_idle-none fd now p.connections m,
                  holds-fill_slot fd host port now hf g p.connections hg f,
                ),
                inl refl,
              )
      ]
    ]

close_all-holds :
    (fd : ℤ) → positive fd ≡ true → (es : List Entry) → occurs fd (close_all es) ≡ holds fd es
unfolding close_all
close_all-holds fd h [] = refl
close_all-holds fd h (e ∷ es) = ground (arith, close_all-holds fd h es, int_eq_iff e.socket_fd fd)

-- `connection_pool_destroy` closes each open descriptor as often as the array holds it.
pub connection_pool_destroy_closes :
    (p : Pool) (fd : ℤ)
    → positive fd ≡ true
    → occurs fd (connection_pool_destroy p) ≡ holds fd p.connections
unfolding connection_pool_destroy
connection_pool_destroy_closes p fd h = close_all-holds fd h p.connections
