-- ===== src/Cache/Add.antt =====
-- `cache_add`: the new node, room for it, and the bound on the size.
use proxy_server_in_c.Common.{
  ℕ, ◌≡◌, ◌≢◌, refl, true, false, List, [], ◌∷◌, ◌==◌, if◌then◌else◌, arith, ◌⊎◌, inl, inr,
  Bool-cases, Bytes,
}
use proxy_server_in_c.Common.Int.{pos, incr}
use proxy_server_in_c.Common.Run.{Returns, returns, Returns-weaken}
use proxy_server_in_c.Cache.{Cache, Ptr, null, cache_hash, set_lru_prev, fill_node, insert_node}
use proxy_server_in_c.Cache.Order.{has, first}
use proxy_server_in_c.Cache.Neighbours.{before_start, last_start, before-first}
use proxy_server_in_c.Cache.Rep.{IsList, IsTable, Rep}

-- The chains with `p` in front of bucket `i`.
abbrev pub pushed : ℕ → Ptr → (ℕ → List Ptr) → ℕ → List Ptr
pushed i p chain j = if i == j then p ∷ chain j else chain j

-- What the new node holds, and that every other node holds what it did.
pub record Filled (p : Ptr) (url bytes : Bytes) (size now : ℕ) (s t : Cache) : Type 0 where
  pub key : t.url p ≡ url
  pub copy : t.payload p ≡ bytes
  pub copied : t.data_size p ≡ size
  pub stamp : t.timestamp p ≡ now
  pub keys : (x : Ptr) → x ≢ p → t.url x ≡ s.url x
  pub copies : (x : Ptr) → x ≢ p → t.payload x ≡ s.payload x
  pub sizes : (x : Ptr) → x ≢ p → t.data_size x ≡ s.data_size x
  pub stamps : (x : Ptr) → x ≢ p → t.timestamp x ≡ s.timestamp x
  pub max_size : t.max_size ≡ s.max_size

first_null :
    (l : List Ptr) → has 0 l ≡ false → (l ≡ []) ⊎ ((first l ≢ 0) × (has (first l) l ≡ true))
first_null [] h = inl refl
first_null (a ∷ l) h = inr (ground arith, ground arith)

first_mem : (l : List Ptr) → first l ≢ 0 → has (first l) l ≡ true
first_mem [] h = absurd (h refl)
first_mem (a ∷ l) h = ground arith

module _ {s : Cache} {lru : List Ptr} {chain : ℕ → List Ptr} (r : Rep s lru chain) (p : Ptr)
    (fresh : s.live p ≡ false) (nz : p ≢ null) (url bytes : Bytes) (size now : ℕ) where
  new : has p lru ≡ false
  new = ground (arith, r.list.live p)

  new_here : (i : ℕ) → has p (chain i) ≡ false
  new_here i = ground (arith, r.table.member i p, new)

  live_head :
      (s.lru_head == null) ≡ false → (if s.lru_head == p then true else s.live s.lru_head) ≡ true
  live_head z = ground (arith, r.list.live s.lru_head, first_mem lru, r.list.head)

  -- The links of the list after the insertion, whichever way the old head was.
  record Linked (t : Cache) : Type 0 where
    live : (x : Ptr) → t.live x ≡ (if x == p then true else s.live x)
    keyed : (x : Ptr) → t.url x ≡ (if x == p then url else s.url x)
    head : t.lru_head ≡ p
    tail : t.lru_tail ≡ (if s.lru_head == null then p else s.lru_tail)
    next : (x : Ptr) → t.lru_next x ≡ (if x == p then s.lru_head else s.lru_next x)
    prev :
        (x : Ptr)
        → x ≢ null
        → t.lru_prev x ≡ (if x == s.lru_head then p else if x == p then null else s.lru_prev x)
    chained : (x : Ptr) → t.next x ≡ (if x == p then s.hash_table (cache_hash url) else s.next x)
    bucket : (i : ℕ) → t.hash_table i ≡ (if i == cache_hash url then p else s.hash_table i)
    count : t.current_size ≡ incr s.current_size

  -- The final state, but for the two links that depend on the old head.
  inserted : Ptr → (Ptr → Ptr) → Cache
  unfolding fill_node
  inserted tail prev = record (fill_node p url bytes size now (cache_hash url) s) {
    lru_prev = prev;
    lru_head = p;
    lru_tail = tail;
    current_size = incr s.current_size;
  }

  inserted-Linked :
      (tail : Ptr) (prev : Ptr → Ptr)
      → tail ≡ (if s.lru_head == null then p else s.lru_tail)
      → ((x : Ptr)
          → x ≢ null
          → prev x ≡ (if x == s.lru_head then p else if x == p then null else s.lru_prev x))
      → Linked (inserted tail prev)
  unfolding inserted
  inserted-Linked tail prev et ep = record {
    live = λ x. refl;
    keyed = λ x. refl;
    head = refl;
    tail = et;
    next = λ x. refl;
    prev = ep;
    chained = λ x. refl;
    bucket = λ i. refl;
    count = refl;
  }

  inserted-Filled :
      (tail : Ptr) (prev : Ptr → Ptr) → Filled p url bytes size now s (inserted tail prev)
  unfolding inserted
  inserted-Filled tail prev = record {
    key = ground arith;
    copy = ground arith;
    copied = ground arith;
    stamp = ground arith;
    keys = λ x ne. ground arith;
    copies = λ x ne. ground arith;
    sizes = λ x ne. ground arith;
    stamps = λ x ne. ground arith;
    max_size = refl;
  }

  insert_node-Linked :
      Returns
        (λ n t. (n ≡ pos 0) × Linked t × Filled p url bytes size now s t)
        (insert_node p url bytes size now s)
  unfolding insert_node set_lru_prev inserted
  insert_node-Linked = elim (Bool-cases (s.lru_head == null)) [
    | inl z ↦ rw z (
        returns
          (refl, inserted-Linked p _ (ground arith) (λ x n. ground arith), inserted-Filled p _))
    | inr z ↦
        rw (z, live_head z)
          (returns (
            refl,
            inserted-Linked s.lru_tail _ (ground arith) (λ x n. ground arith),
            inserted-Filled s.lru_tail _,
          ))
  ]

  Linked-IsList : {t : Cache} → Linked t → IsList t (p ∷ lru)
  Linked-IsList {t} k =
      let is = r.list in
      record {
        live = λ x. ground (arith, k.live x, is.live x);
        no_null = ground (arith, is.no_null);
        distinct = (new, is.distinct);
        head = k.head;
        tail = ground (
          arith,
          k.tail,
          is.tail,
          is.head,
          first_null lru is.no_null,
          last_start p 0 lru (first lru),
        );
        prev = λ x h. ground (
          arith,
          k.prev x,
          is.prev x,
          is.head,
          is.no_null,
          new,
          before-first p lru x,
          before_start p 0 lru x,
        );
        next = λ x h. ground (arith, k.next x, is.next x, is.head, new);
      }

  Linked-IsTable : {t : Cache} → Linked t → IsTable t (p ∷ lru) (pushed (cache_hash url) p chain)
  Linked-IsTable {t} k = record {
    bucket = λ i. ground (arith, k.bucket i, r.table.bucket i);
    next = λ i x h.
        ground (arith, k.chained x, r.table.next i x, r.table.bucket i, r.table.member i p, new);
    distinct = λ i. elim (Bool-cases (cache_hash url == i)) [
      | inl e ↦ rw e (new_here i, r.table.distinct i)
      | inr e ↦ rw e (r.table.distinct i)
    ];
    member = λ i x.
        let here = k.keyed x in
        elim (Bool-cases (x == p)) [
          | inl e ↦ let q : t.url x ≡ url = ground arith in rw q (ground (arith, new_here i, new))
          | inr e ↦
              let q : t.url x ≡ s.url x = ground arith in rw q (ground (arith, r.table.member i x))
        ];
  }

  -- With memory for everything, the new node goes in front of the list and of its chain.
  pub insert_node-Rep :
      Returns
        (λ n t.
          (n ≡ pos 0)
          × Rep t (p ∷ lru) (pushed (cache_hash url) p chain)
          × Filled p url bytes size now s t)
        (insert_node p url bytes size now s)
  insert_node-Rep = Returns-weaken insert_node-Linked (λ n t (e, k, f). (
    e,
    record {
      list = Linked-IsList k;
      table = Linked-IsTable k;
      size = ground (arith, k.count, r.size);
    },
    f,
  ))
