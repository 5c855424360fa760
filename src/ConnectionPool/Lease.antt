-- ===== src/ConnectionPool/Lease.antt =====
-- What `connection_pool_get` hands out, and to whom.
use proxy_server_in_c.Common.{
  ℕ, ◌-◌, ◌≤◌, ◌<◌, ◌≡◌, ◌≢◌, ◌⊎◌, refl, true, false, List, [], ◌∷◌, some, arith, Bytes,
  bytes_eq_iff, Option-cases, Bool-cases, inl, inr, Any,
}
use proxy_server_in_c.Common.Int.{ℤ, positive, int_eq_iff, decr}
use proxy_server_in_c.ConnectionPool.{
  Entry, Pool, connection_timeout, Dial, create_persistent_connection, connection_pool_get,
  is_match, is_fresh, scan,
}
use proxy_server_in_c.ConnectionPool.Invariant.{holds, IsValid}

-- An open, idle connection to the host and port that was used less than 30 seconds ago.
pub record Usable (host : Bytes) (port : ℤ) (now : ℕ) (e : Entry) : Type 0 where
  pub live : positive e.socket_fd ≡ true
  pub idle : e.in_use ≡ false
  pub to_host : e.host ≡ host
  pub to_port : e.port ≡ port
  pub recent : now - e.last_used < connection_timeout

module _ (host : Bytes) (port : ℤ) (now : ℕ) where
  Usable-match : (e : Entry) → Usable host port now e → is_match host port e ≡ true
  unfolding is_match
  Usable-match e u = ground (arith, (bytes_eq_iff e.host host).1, (int_eq_iff e.port port).1)

  Usable-fresh : (e : Entry) → Usable host port now e → is_fresh now e ≡ true
  unfolding is_fresh
  Usable-fresh e u = ground arith

  match-Usable :
      (e : Entry) → is_match host port e ≡ true → is_fresh now e ≡ true → Usable host port now e
  unfolding is_match is_fresh
  match-Usable e m f = record {
    live = ground arith;
    idle = ground arith;
    to_host = ground (arith, (bytes_eq_iff e.host host).0);
    to_port = ground (arith, (int_eq_iff e.port port).0);
    recent = ground arith;
  }

  pub scan_sound :
      (size : ℤ) (es : List Entry) {fd : ℤ}
      → (scan host port now size es).hit ≡ some fd
      → Any (λ e. Usable host port now e × (e.socket_fd ≡ fd)) es
  unfolding scan
  scan_sound size [] h = ground arith
  scan_sound size (e ∷ es) h = elim (Bool-cases (is_match host port e)) [
    | inr m ↦ inr (scan_sound size es (ground arith))
    | inl m ↦ elim (Bool-cases (is_fresh now e)) [
      | inl f ↦ inl (match-Usable e m f, ground arith)
      | inr f ↦ inr (scan_sound (decr size) es (ground arith))
    ]
  ]

  pub scan_complete :
      (size : ℤ) (es : List Entry)
      → Any (Usable host port now) es
      → (fd : ℤ) × ((scan host port now size es).hit ≡ some fd)
  unfolding scan
  scan_complete size [] a = absurd a
  scan_complete size (e ∷ es) (inl u) =
      (e.socket_fd, ground (arith, Usable-match e u, Usable-fresh e u))
  scan_complete size (e ∷ es) (inr a) = elim (Bool-cases (is_match host port e)) [
    | inr m ↦ let (fd, q) = scan_complete size es a in (fd, ground arith)
    | inl m ↦ elim (Bool-cases (is_fresh now e)) [
      | inl f ↦ (e.socket_fd, ground arith)
      | inr f ↦ let (fd, q) = scan_complete (decr size) es a in (fd, ground arith)
    ]
  ]

  pub Any-weaken :
      (fd : ℤ) (es : List Entry)
      → Any (λ e. Usable host port now e × (e.socket_fd ≡ fd)) es
      → Any (Usable host port now) es
  Any-weaken fd [] a = a
  Any-weaken fd (e ∷ es) (inl u) = inl u.0
  Any-weaken fd (e ∷ es) (inr a) = inr (Any-weaken fd es a)

  -- If the pool has a usable connection, `connection_pool_get` returns the descriptor of one.
  pub connection_pool_get_reuses :
      (p : Pool) (dial : Dial)
      → Any (Usable host port now) p.connections
      → Any
          (λ e.
            Usable host port now e
            × (e.socket_fd ≡ (connection_pool_get p host port now dial).result))
          p.connections
  unfolding connection_pool_get
  connection_pool_get_reuses p dial a =
      let (fd, q) = scan_complete p.pool_size p.connections a in
      rw (connection_pool_get, q) (scan_sound p.pool_size p.connections q)

  -- The answer of `connection_pool_get` is the descriptor of a usable connection of the pool, or
  -- the pool has none and it is the outcome of a new connection attempt.
  pub connection_pool_get_lem :
      (p : Pool) (dial : Dial)
      → Any
          (λ e.
            Usable host port now e
            × (e.socket_fd ≡ (connection_pool_get p host port now dial).result))
          p.connections
        ⊎ (¬ Any (Usable host port now) p.connections)
          × ((connection_pool_get p host port now dial).result
              ≡ (create_persistent_connection dial).0)
  unfolding connection_pool_get
  connection_pool_get_lem p dial =
      elim (Option-cases (scan host port now p.pool_size p.connections).hit) [
        | inl q ↦ inr (
          λ a. let (fd, some_hit) = scan_complete p.pool_size p.connections a in ground arith,
          rw (connection_pool_get, q) refl,
        )
        | inr (fd, q) ↦ inl (rw (connection_pool_get, q) (scan_sound p.pool_size p.connections q))
      ]

-- Every slot that holds the descriptor is marked as in use.
abbrev pub Leased : ℤ → List Entry → Type 0
Leased fd [] = Unit {0}
Leased fd (e ∷ es) = (e.socket_fd ≡ fd → e.in_use ≡ true) × Leased fd es

Leased-of_absent : (fd : ℤ) (es : List Entry) → holds fd es ≡ 0 → Leased fd es
Leased-of_absent fd [] h = tt
Leased-of_absent fd (e ∷ es) h =
    (λ q. ground (arith, (int_eq_iff e.socket_fd fd).1), Leased-of_absent fd es (ground arith))

holds_of_hit :
    (host : Bytes) (port : ℤ) (now : ℕ) (size fd : ℤ) (es : List Entry)
    → (scan host port now size es).hit ≡ some fd
    → 1 ≤ holds fd es
unfolding scan
holds_of_hit host port now size fd [] h = ground arith
holds_of_hit host port now size fd (e ∷ es) h = ground (
  arith,
  holds_of_hit host port now size fd es,
  holds_of_hit host port now (decr size) fd es,
  (int_eq_iff e.socket_fd fd).1,
)

scan-Leased :
    (host : Bytes) (port : ℤ) (now : ℕ) (size fd : ℤ) (es : List Entry)
    → (scan host port now size es).hit ≡ some fd
    → positive fd ≡ true
    → holds fd es ≤ 1
    → Leased fd (scan host port now size es).connections
unfolding scan
scan-Leased host port now size fd [] h q one = tt
scan-Leased host port now size fd (e ∷ es) h q one = elim (Bool-cases (is_match host port e)) [
  | inr m ↦ rw m (
    λ p. ground (arith, (int_eq_iff e.socket_fd fd).1, holds_of_hit host port now size fd es),
    scan-Leased host port now size fd es (ground arith) q (ground arith),
  )
  | inl m ↦ elim (Bool-cases (is_fresh now e)) [
    | inl f ↦
        rw (m, f)
          (λ p. refl, Leased-of_absent fd es (ground (arith, (int_eq_iff e.socket_fd fd).1)))
    | inr f ↦
        rw (m, f)
          (
            λ p. ground arith,
            scan-Leased host port now (decr size) fd es (ground arith) q (ground arith),
          )
  ]
]

Leased-no_hit :
    (host : Bytes) (port : ℤ) (now : ℕ) (size fd : ℤ) (es : List Entry)
    → Leased fd es
    → (scan host port now size es).hit ≢ some fd
unfolding scan is_match
Leased-no_hit host port now size fd [] l h = ground arith
Leased-no_hit host port now size fd (e ∷ es) l h = ground (
  arith,
  l.0,
  Leased-no_hit host port now size fd es l.1,
  Leased-no_hit host port now (decr size) fd es l.1,
)

hit_of_Usable :
    (p : Pool) (host : Bytes) (port : ℤ) (now : ℕ) (dial : Dial)
    → Any (Usable host port now) p.connections
    → (scan host port now p.pool_size p.connections).hit
      ≡ some (connection_pool_get p host port now dial).result
unfolding connection_pool_get
hit_of_Usable p host port now dial a =
    let (fd, q) = scan_complete host port now p.pool_size p.connections a in ground arith

positive_of_hit :
    (host : Bytes) (port : ℤ) (now : ℕ) (size fd : ℤ) (es : List Entry)
    → (scan host port now size es).hit ≡ some fd
    → positive fd ≡ true
unfolding scan is_match
positive_of_hit host port now size fd [] h = ground arith
positive_of_hit host port now size fd (e ∷ es) h = ground (
  arith,
  positive_of_hit host port now size fd es,
  positive_of_hit host port now (decr size) fd es,
)

pub get_connections :
    (p : Pool) (host : Bytes) (port : ℤ) (now : ℕ) (dial : Dial)
    → (connection_pool_get p host port now dial).pool.connections
      ≡ (scan host port now p.pool_size p.connections).connections
unfolding connection_pool_get
get_connections p host port now dial = ground arith

no_hit-ne :
    (p : Pool) (host : Bytes) (port : ℤ) (now : ℕ) (dial : Dial) (fd : ℤ)
    → positive fd ≡ true
    → (scan host port now p.pool_size p.connections).hit ≢ some fd
    → dial.socket ≢ fd
    → (connection_pool_get p host port now dial).result ≢ fd
unfolding connection_pool_get create_persistent_connection
no_hit-ne p host port now dial fd h miss ne r = ground (arith, miss, ne)

-- A pooled descriptor is leased to one caller: when `connection_pool_get` has found a usable
-- connection in a valid pool and left the pool `q`, the next call on `q` does not return the same
-- descriptor, whatever host, port and time it asks for, unless the system itself hands that
-- number out anew in `socket`.
pub connection_pool_get_exclusive :
    {p : Pool}
    → IsValid p
    → (host host' : Bytes) (port port' : ℤ) (now now' : ℕ) (dial dial' : Dial)
    → Any (Usable host port now) p.connections
    → {q : Pool} {fd : ℤ} → (connection_pool_get p host port now dial).pool ≡ q
    → (connection_pool_get p host port now dial).result ≡ fd
    → dial'.socket ≢ fd
    → (connection_pool_get q host' port' now' dial').result ≢ fd
connection_pool_get_exclusive {p} v host host' port port' now now' dial dial' a {q} {fd} eq er ne =
    no_hit-ne q host' port' now' dial' fd live
      (Leased-no_hit host' port' now' q.pool_size fd q.connections (
        rw (← eq, get_connections p host port now dial)
          (scan-Leased host port now p.pool_size fd p.connections hit live (v.unique fd live))))
      ne
  where
    hit : (scan host port now p.pool_size p.connections).hit ≡ some fd
    hit = rw (← er) (hit_of_Usable p host port now dial a)

    live : positive fd ≡ true
    live = positive_of_hit host port now p.pool_size fd p.connections hit
