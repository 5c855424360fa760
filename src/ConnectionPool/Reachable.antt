-- ===== src/ConnectionPool/Reachable.antt =====
-- Pools as the calls of connection_pool.c leave them, from `connection_pool_create` on.
use proxy_server_in_c.Common.{
  ℕ, ◌≡◌, Bool, true, List, none, some, arith, Bytes, Option-cases, Bool-cases, inl, inr,
}
use proxy_server_in_c.Common.Int.{ℤ, positive, int_eq_iff, incr}
use proxy_server_in_c.ConnectionPool.{
  Entry, Pool, Dial, connection_pool_create, connection_pool_get, connection_pool_return,
  connection_pool_cleanup, mark_idle, fill_slot,
}
use proxy_server_in_c.ConnectionPool.Invariant.{
  IsValid, length-scan, scan-counted, scan-holds, mark_idle-SameSlots, mark_idle-none,
  length-fill_slot, live_count-fill_slot, holds-fill_slot, length-sweep, sweep-counted, sweep-holds,
}

pub connection_pool_create-IsValid :
    (malloc mutex_init : Bool) {p : Pool}
    → connection_pool_create malloc mutex_init ≡ some p
    → IsValid p
unfolding connection_pool_create
connection_pool_create-IsValid malloc mutex_init h = record {
  slots = ground arith;
  counted = ground arith;
  unique = λ fd q. ground arith;
}

module _ {p : Pool} (v : IsValid p) where
  pub connection_pool_get-IsValid :
      (host : Bytes) (port : ℤ) (now : ℕ) (dial : Dial)
      → IsValid (connection_pool_get p host port now dial).pool
  unfolding connection_pool_get
  connection_pool_get-IsValid host port now dial = record {
    slots = ground (arith, length-scan host port now p.pool_size p.connections);
    counted = ground (arith, scan-counted host port now 0 p.pool_size p.connections);
    unique = λ fd q.
        ground (arith, scan-holds host port now fd p.pool_size p.connections q, v.unique fd q);
  }

  pub connection_pool_cleanup-IsValid : (now : ℕ) → IsValid (connection_pool_cleanup p now).0
  unfolding connection_pool_cleanup
  connection_pool_cleanup-IsValid now = record {
    slots = ground (arith, length-sweep now p.pool_size p.connections);
    counted = ground (arith, sweep-counted now 0 p.pool_size p.connections);
    unique = λ fd q. ground (arith, sweep-holds now fd p.pool_size p.connections q, v.unique fd q);
  }

  filled-IsValid :
      (fd : ℤ) (host : Bytes) (port : ℤ) (now : ℕ) {cs : List Entry}
      → positive fd ≡ true
      → mark_idle fd now p.connections ≡ none
      → fill_slot fd host port now p.connections ≡ some cs
      → IsValid (record { connections = cs; pool_size = incr p.pool_size })
  filled-IsValid fd host port now q absent f = record {
    slots = ground (arith, length-fill_slot fd host port now q p.connections f);
    counted = ground (arith, live_count-fill_slot fd host port now q p.connections f);
    unique = λ g r. ground (
      arith,
      holds-fill_slot fd host port now q g p.connections r f,
      v.unique g r,
      int_eq_iff fd g,
      mark_idle-none fd now p.connections absent,
    );
  }

  pub connection_pool_return-IsValid :
      (fd : ℤ) (host : Bytes) (port : ℤ) (keep_alive : Bool) (now : ℕ)
      → IsValid (connection_pool_return p fd host port keep_alive now).0
  unfolding connection_pool_return
  connection_pool_return-IsValid fd host port keep_alive now = elim (Bool-cases (positive fd)) [
    | inr q ↦ rw q v
    | inl q ↦ elim (Bool-cases keep_alive) [
      | inr k ↦ rw (q, k) v
      | inl k ↦ elim (Option-cases (mark_idle fd now p.connections)) [
        | inr (cs, m) ↦
            let same = mark_idle-SameSlots fd now p.connections m in
            rw (q, k, m)
              (record {
                slots = ground (arith, same.slots);
                counted = ground (arith, same.live);
                unique = λ g r. ground (arith, same.same g, v.unique g r);
              })
        | inl m ↦ elim (Option-cases (fill_slot fd host port now p.connections)) [
          | inl f ↦ rw (q, k, m, f) v
          | inr (cs, f) ↦ rw (q, k, m, f) (filled-IsValid fd host port now q m f)
        ]
      ]
    ]
  ]

-- One call on the pool.
pub data Call (p : Pool) : Pool → Type 0 where
  get :
      (host : Bytes) (port : ℤ) (now : ℕ) (dial : Dial)
      → Call p (connection_pool_get p host port now dial).pool
  return :
      (fd : ℤ) (host : Bytes) (port : ℤ) (keep_alive : Bool) (now : ℕ)
      → Call p (connection_pool_return p fd host port keep_alive now).0
  cleanup : (now : ℕ) → Call p (connection_pool_cleanup p now).0

pub data Reachable : Pool → Type 0 where
  create :
      (malloc mutex_init : Bool) {p : Pool}
      → connection_pool_create malloc mutex_init ≡ some p
      → Reachable p
  call : {p q : Pool} → Reachable p → Call p q → Reachable q

Call-IsValid : {p q : Pool} → Call p q → IsValid p → IsValid q
Call-IsValid (get host port now dial) v = connection_pool_get-IsValid v host port now dial
Call-IsValid (return fd host port keep_alive now) v =
    connection_pool_return-IsValid v fd host port keep_alive now
Call-IsValid (cleanup now) v = connection_pool_cleanup-IsValid v now

-- Every pool that the calls of its four operations can produce has 20 slots, a `pool_size` that counts
-- exactly the slots with an open descriptor, and no open descriptor in two slots.
pub Reachable-IsValid : {p : Pool} → Reachable p → IsValid p
Reachable-IsValid (create malloc mutex_init h) = connection_pool_create-IsValid malloc mutex_init h
Reachable-IsValid (call r c) = Call-IsValid c (Reachable-IsValid r)
