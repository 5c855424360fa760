-- ===== src/Cache/Discard.antt =====
-- `discard`, the second half of `cache_remove_lru`: a node leaves its hash chain and is freed.
use proxy_server_in_c.Common.{
  ℕ, zero, suc, ◌<◌, ◌≡◌, ◌≢◌, refl, Bool, true, false, List, [], ◌∷◌, ◌==◌, if◌then◌else◌, arith,
  length, inl, inr, Bool-cases,
}
use proxy_server_in_c.Common.Int.{ℤ}
use proxy_server_in_c.Common.Run.{ok, Returns, returns}
use proxy_server_in_c.Cache.{
  Cache, Ptr, null, update, cache_hash, load, set_next, set_bucket, unchain, free_node, count_down,
  discard, rounds,
}
use proxy_server_in_c.Cache.Order.{has, Distinct, first, last, after, before, before_inner}
use proxy_server_in_c.Cache.Neighbours.{before-first}
use proxy_server_in_c.Cache.Rep.{Rep, SameNodes, live_of_mem, ne_null_of_mem}
use proxy_server_in_c.Cache.Get.{chain_links, length-chain-lt}
use proxy_server_in_c.Cache.Unlink.{Unlinked}

module _ (s : Cache) (i : ℕ) (p : Ptr) where
  -- What the loop writes: one link, or the head of the chain.
  abbrev unchained : Ptr → Ptr → Cache
  unchained d q =
      if d == null
      then record s { hash_table = update s.hash_table i q }
      else record s { next = update s.next d q }

  unchain_lem :
      (fuel : ℕ) (d : Ptr) (c : List Ptr)
      → length c < fuel
      → Distinct c
      → ((x : Ptr) → has x c ≡ true → (s.live x ≡ true) × (x ≢ null) × (s.next x ≡ after c x))
      → (d ≢ null → s.live d ≡ true)
      → has p c ≡ true
      → unchain fuel i p (first c) d s ≡ ok tt (unchained (before d c p) (after c p))
  unfolding unchain load set_next set_bucket
  unchain_lem zero d c h dis links live_d mem = absurd (omega arith)
  unchain_lem (suc fuel) d [] h dis links live_d mem = absurd (ground arith)
  unchain_lem (suc fuel) d (a ∷ c) h dis links live_d mem =
      let (live, nz, next) = links a (ground arith) in
      let nz' : (a == null) ≡ false = ground arith in
      let next' : s.next a ≡ first c = ground arith in
      elim (Bool-cases (a == p)) [
        | inl e ↦ elim (Bool-cases (d == null)) [
          | inl z ↦ rw (nz', e, live, z, set_bucket, next')
          | inr z ↦ rw (nz', e, live, z, live_d (λ q. ground arith), next')
        ]
        | inr e ↦
            rw (nz', e, live, next')
              (unchain_lem fuel a c (omega arith) dis.1
                (λ x x_in. let (l, n, f) = links x (ground arith) in (l, n, ground (arith, dis.0)))
                (λ _. live) (ground arith))
      ]

-- The node at the end of the list has nothing after it.
pub last_mem : (a : Ptr) (l : List Ptr) → has (last a l) (a ∷ l) ≡ true
last_mem a [] = ground arith
last_mem a (b ∷ l) = ground (arith, last_mem b l)

pub after-last : (d : Ptr) (l : List Ptr) → Distinct l → after l (last d l) ≡ 0
after-last d [] h = refl
after-last d (a ∷ []) h = ground arith
after-last d (a ∷ b ∷ l) h = ground (arith, after-last a (b ∷ l) h.1, last_mem b l)

pub last_in : (l : List Ptr) → last 0 l ≢ 0 → has (last 0 l) l ≡ true
last_in [] h = absurd (h refl)
last_in (a ∷ l) h = last_mem a l

pub same_nodes :
    {s : Cache} {live : Ptr → Bool} {next lru_prev lru_next : Ptr → Ptr} {table : ℕ → Ptr}
    {head tail : Ptr} {size : ℤ}
    → SameNodes s (record s {
      live = live;
      next = next;
      lru_prev = lru_prev;
      lru_next = lru_next;
      hash_table = table;
      lru_head = head;
      lru_tail = tail;
      current_size = size;
    })
same_nodes = record {
  url = refl;
  payload = refl;
  data_size = refl;
  timestamp = refl;
  max_size = refl;
}

module _ {s : Cache} {lru : List Ptr} {chain : ℕ → List Ptr} (r : Rep s lru chain) (p : Ptr)
    (mem : has p lru ≡ true) where
  abbrev pub home : ℕ
  home = cache_hash (s.url p)

  -- A node with none before it in its chain is the head of its bucket, and no other is.
  pub at_head : (before 0 (chain home) p == null) ≡ (s.hash_table home == p)
  at_head = ground (
    arith,
    r.table.bucket home,
    r.table.member home p,
    r.table.member home 0,
    r.list.no_null,
    before_inner (chain home) p,
    before-first 0 (chain home) p,
    ne_null_of_mem r.list p mem,
  )

  -- After the writes to the list, `discard` does the rest.
  pub discard-Unlinked :
      (head tail : Ptr) (next prev : Ptr → Ptr)
      → head ≡ (if s.lru_head == p then after lru p else s.lru_head)
      → tail ≡ (if after lru p == null then before 0 lru p else s.lru_tail)
      → ((x : Ptr)
          → x ≢ null
          → x ≢ p
          → next x ≡ (if before 0 lru p == x then after lru p else s.lru_next x))
      → ((x : Ptr)
          → x ≢ null
          → x ≢ p
          → prev x ≡ (if after lru p == x then before 0 lru p else s.lru_prev x))
      → Returns
          (λ _ t. Unlinked p s lru chain t × SameNodes s t)
          (discard
            (rounds s)
            p
            (record s { lru_head = head; lru_tail = tail; lru_next = next; lru_prev = prev }))
  unfolding discard load free_node count_down
  discard-Unlinked head tail next prev eh et en ep =
      let s1 : Cache = record s {
        lru_head = head;
        lru_tail = tail;
        lru_next = next;
        lru_prev = prev;
      } in
      let walked =
        unchain_lem s1 home p (rounds s) 0 (chain home) (length-chain-lt r home)
          (r.table.distinct home) (chain_links r home) (λ z. absurd (z refl))
          (ground (arith, r.table.member home p)) in
      rw (live_of_mem r.list p mem, r.table.bucket home, walked)
        (elim (Bool-cases (before 0 (chain home) p == null)) [
          | inl z ↦
              rw (z, live_of_mem r.list p mem)
                (returns (
                  record {
                    live = λ x. refl;
                    url = refl;
                    head = eh;
                    tail = et;
                    next = en;
                    prev = ep;
                    chained = λ x nz ne. ground arith;
                    bucket = λ i. ground (arith, at_head);
                    size = refl;
                  },
                  same_nodes,
                ))
          | inr z ↦
              rw (z, live_of_mem r.list p mem)
                (returns (
                  record {
                    live = λ x. refl;
                    url = refl;
                    head = eh;
                    tail = et;
                    next = en;
                    prev = ep;
                    chained = λ x nz ne. ground arith;
                    bucket = λ i. ground (arith, at_head);
                    size = refl;
                  },
                  same_nodes,
                ))
        ])
