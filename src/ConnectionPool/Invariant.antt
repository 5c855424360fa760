-- ===== src/ConnectionPool/Invariant.antt =====
-- The well-formedness of a pool, and what each loop of connection_pool.c does to it.
use proxy_server_in_c.Common.{
  ℕ, ◌+◌, ◌++◌, ◌≤◌, ◌≡◌, refl, true, List, [], ◌∷◌, none, some, if◌then◌else◌, arith, length,
  Bytes, Option-cases, inl, inr,
}
use proxy_server_in_c.Common.Int.{ℤ, pos, positive, int_eq, int_eq_iff, decr, decr_succ}
use proxy_server_in_c.ConnectionPool.{
  Entry, Pool, max_pool_size, scan, is_match, mark_idle, fill_slot, is_stale, sweep,
}

-- The entries that hold an open connection.
abbrev pub live_count : List Entry → ℕ
live_count [] = 0
live_count (e ∷ es) = (if positive e.socket_fd then 1 else 0) + live_count es

-- How often a descriptor stands in the array, and in a list of descriptors.
abbrev pub holds : ℤ → List Entry → ℕ
holds fd [] = 0
holds fd (e ∷ es) = (if int_eq e.socket_fd fd then 1 else 0) + holds fd es

abbrev pub occurs : ℤ → List ℤ → ℕ
occurs fd [] = 0
occurs fd (a ∷ l) = (if int_eq a fd then 1 else 0) + occurs fd l

pub occurs-append : (fd : ℤ) (xs ys : List ℤ) → occurs fd (xs ++ ys) ≡ occurs fd xs + occurs fd ys
occurs-append fd [] ys = omega arith
occurs-append fd (x ∷ xs) ys = omega (arith, occurs-append fd xs ys)

pub record IsValid (p : Pool) : Type 0 where
  pub slots : length p.connections ≡ max_pool_size
  pub counted : p.pool_size ≡ pos (live_count p.connections)
  pub unique : (fd : ℤ) → positive fd ≡ true → holds fd p.connections ≤ 1

module _ (host : Bytes) (port : ℤ) (now : ℕ) where
  pub length-scan :
      (size : ℤ) (es : List Entry) → length (scan host port now size es).connections ≡ length es
  unfolding scan
  length-scan size [] = refl
  length-scan size (e ∷ es) = ground (arith, length-scan size es, length-scan (decr size) es)

  pub scan-counted :
      (n : ℕ) (size : ℤ) (es : List Entry)
      → size ≡ pos (live_count es + n)
      → (scan host port now size es).pool_size
        ≡ pos (live_count (scan host port now size es).connections + n)
  unfolding scan is_match
  scan-counted n size [] h = h
  scan-counted n size (e ∷ es) h = ground (
    arith,
    scan-counted n (decr size) es,
    scan-counted (n + 1) size es,
    scan-counted n size es,
    decr_succ (live_count es + n),
  )

  pub scan-holds :
      (fd size : ℤ) (es : List Entry)
      → positive fd ≡ true
      → holds fd (scan host port now size es).connections
          + occurs fd (scan host port now size es).closed
        ≡ holds fd es
  unfolding scan
  scan-holds fd size [] h = refl
  scan-holds fd size (e ∷ es) h =
      ground (arith, scan-holds fd size es h, scan-holds fd (decr size) es h)

-- What an array that stands for another keeps of it: its length, its live entries, its descriptors.
pub record SameSlots (es cs : List Entry) : Type 0 where
  pub slots : length cs ≡ length es
  pub live : live_count cs ≡ live_count es
  pub same : (fd : ℤ) → holds fd cs ≡ holds fd es

pub mark_idle-SameSlots :
    (fd : ℤ) (now : ℕ) (es : List Entry) {cs : List Entry}
    → mark_idle fd now es ≡ some cs
    → SameSlots es cs
unfolding mark_idle
mark_idle-SameSlots fd now [] h = ground arith
mark_idle-SameSlots fd now (e ∷ es) h = elim (Option-cases (mark_idle fd now es)) [
  | inl q ↦ record { slots = ground arith; live = ground arith; same = λ f. ground arith }
  | inr (ds, q) ↦
      let ih = mark_idle-SameSlots fd now es q in
      record {
        slots = ground (arith, ih.slots);
        live = ground (arith, ih.live);
        same = λ f. ground (arith, ih.same f);
      }
]

-- The loop misses exactly the descriptors that the array does not hold.
pub mark_idle-none :
    (fd : ℤ) (now : ℕ) (es : List Entry) → mark_idle fd now es ≡ none → holds fd es ≡ 0
unfolding mark_idle
mark_idle-none fd now [] h = refl
mark_idle-none fd now (e ∷ es) h = ground (arith, mark_idle-none fd now es)

pub mark_idle-some :
    (fd : ℤ) (now : ℕ) (es : List Entry) {cs : List Entry}
    → mark_idle fd now es ≡ some cs
    → 1 ≤ holds fd es
unfolding mark_idle
mark_idle-some fd now [] h = ground arith
mark_idle-some fd now (e ∷ es) h = elim (Option-cases (mark_idle fd now es)) [
  | inl q ↦ ground arith
  | inr (ds, q) ↦ ground (arith, mark_idle-some fd now es q)
]

module _ (fd : ℤ) (host : Bytes) (port : ℤ) (now : ℕ) (fd_pos : positive fd ≡ true) where
  pub length-fill_slot :
      (es : List Entry) {cs : List Entry}
      → fill_slot fd host port now es ≡ some cs
      → length cs ≡ length es
  unfolding fill_slot
  length-fill_slot [] h = ground arith
  length-fill_slot (e ∷ es) h = elim (Option-cases (fill_slot fd host port now es)) [
    | inl q ↦ ground arith
    | inr (ds, q) ↦ ground (arith, length-fill_slot es q)
  ]

  pub live_count-fill_slot :
      (es : List Entry) {cs : List Entry}
      → fill_slot fd host port now es ≡ some cs
      → live_count cs ≡ live_count es + 1
  unfolding fill_slot
  live_count-fill_slot [] h = ground arith
  live_count-fill_slot (e ∷ es) h = elim (Option-cases (fill_slot fd host port now es)) [
    | inl q ↦ ground arith
    | inr (ds, q) ↦ ground (arith, live_count-fill_slot es q)
  ]

  pub holds-fill_slot :
      (g : ℤ) (es : List Entry) {cs : List Entry}
      → positive g ≡ true
      → fill_slot fd host port now es ≡ some cs
      → holds g cs ≡ (if int_eq fd g then 1 else 0) + holds g es
  unfolding fill_slot
  holds-fill_slot g [] hg h = ground arith
  holds-fill_slot g (e ∷ es) hg h = elim (Option-cases (fill_slot fd host port now es)) [
    | inl q ↦ ground (arith, (int_eq_iff e.socket_fd g).0)
    | inr (ds, q) ↦ ground (arith, holds-fill_slot g es hg q, (int_eq_iff e.socket_fd g).0)
  ]

  -- The loop fails only on an array with no free slot.
  pub fill_slot-none :
      (es : List Entry) → fill_slot fd host port now es ≡ none → live_count es ≡ length es
  unfolding fill_slot
  fill_slot-none [] h = refl
  fill_slot-none (e ∷ es) h = ground (arith, fill_slot-none es)

module _ (now : ℕ) where
  pub length-sweep : (size : ℤ) (es : List Entry) → length (sweep now size es).1 ≡ length es
  unfolding sweep
  length-sweep size [] = refl
  length-sweep size (e ∷ es) = ground (arith, length-sweep size es, length-sweep (decr size) es)

  pub sweep-counted :
      (n : ℕ) (size : ℤ) (es : List Entry)
      → size ≡ pos (live_count es + n)
      → (sweep now size es).0 ≡ pos (live_count (sweep now size es).1 + n)
  unfolding sweep is_stale
  sweep-counted n size [] h = h
  sweep-counted n size (e ∷ es) h = ground (
    arith,
    sweep-counted n (decr size) es,
    sweep-counted (n + 1) size es,
    sweep-counted n size es,
    decr_succ (live_count es + n),
  )

  pub sweep-holds :
      (fd size : ℤ) (es : List Entry)
      → positive fd ≡ true
      → holds fd (sweep now size es).1 + occurs fd (sweep now size es).2 ≡ holds fd es
  unfolding sweep
  sweep-holds fd size [] h = refl
  sweep-holds fd size (e ∷ es) h =
      ground (arith, sweep-holds fd size es h, sweep-holds fd (decr size) es h)
