-- ===== src/Cache/Get.antt =====
-- `cache_get`: the search of a hash chain, and what the caller is given.
use mathlib.Core.Path.{subst}
use proxy_server_in_c.Common.{
  ◌∙◌, ℕ, zero, suc, ◌-◌, ◌≤◌, ◌<◌, ◌≡◌, ◌≢◌, refl, sym, ap, true, false, List, [], ◌∷◌, ◌==◌, ltb,
  if◌then◌else◌, arith, length, ◌⊎◌, inl, inr, Bool-cases, Bytes, bytes_eq, bytes_eq_iff,
}
use proxy_server_in_c.Common.Run.{ok, Returns, returns, Returns-then}
use proxy_server_in_c.Cache.{
  Cache, Ptr, null, cache_hash, cache_expiry_time, load, search_chain, bump_access, rounds,
  cache_get,
}
use proxy_server_in_c.Cache.Order.{
  has, Distinct, first, after, remove, has-remove_ne, length-remove,
}
use proxy_server_in_c.Cache.Rep.{Rep, SameNodes, live_of_mem, ne_null_of_mem}
use proxy_server_in_c.Cache.Front.{SameTable, cache_move_to_front_lem}

-- The first node of a chain with this URL, or null.
abbrev pub first_with : (Ptr → Bytes) → Bytes → List Ptr → Ptr
first_with key url [] = 0
first_with key url (a ∷ l) = if bytes_eq (key a) url then a else first_with key url l

has-cons : (a x : Ptr) (c : List Ptr) → has x c ≡ true → has x (a ∷ c) ≡ true
has-cons a x c h = ground arith

-- Distinct addresses that all stand in `l` are at most as many.
length-le_of_subset :
    (c l : List Ptr)
    → Distinct c
    → ((x : Ptr) → has x c ≡ true → has x l ≡ true)
    → length c ≤ length l
length-le_of_subset [] l d sub = omega arith
length-le_of_subset (a ∷ c) l d sub =
    omega
      (arith, length-remove a l (sub a (ground arith)), length-le_of_subset c (remove a l) d.1 rest)
  where
    rest : (x : Ptr) → has x c ≡ true → has x (remove a l) ≡ true
    rest x h = ground (arith, sub x, has-remove_ne x a l)

module _ {s : Cache} {lru : List Ptr} {chain : ℕ → List Ptr} (r : Rep s lru chain) where
  pub chain_mem : (i : ℕ) (x : Ptr) → has x (chain i) ≡ true → has x lru ≡ true
  chain_mem i x h = ground (arith, r.table.member i x)

  -- The nodes of a chain can be followed.
  pub chain_links :
      (i : ℕ) (x : Ptr)
      → has x (chain i) ≡ true
      → (s.live x ≡ true) × (x ≢ null) × (s.next x ≡ after (chain i) x)
  chain_links i x h = (
    live_of_mem r.list x (chain_mem i x h),
    ne_null_of_mem r.list x (chain_mem i x h),
    r.table.next i x h,
  )

  pub length-chain-lt : (i : ℕ) → length (chain i) < rounds s
  length-chain-lt i =
      ground (arith, r.size, length-le_of_subset (chain i) lru (r.table.distinct i) (chain_mem i))

module _ (s : Cache) (url : Bytes) (now : ℕ) where
  -- What the search answers.
  abbrev pub found : List Ptr → Ptr
  found c =
      let p = first_with s.url url c in
      if p == null then null else if ltb (now - s.timestamp p) cache_expiry_time then p else null

  search_chain_lem :
      (fuel : ℕ) (c : List Ptr)
      → length c < fuel
      → Distinct c
      → ((x : Ptr) → has x c ≡ true → (s.live x ≡ true) × (x ≢ null) × (s.next x ≡ after c x))
      → search_chain fuel url now (first c) s ≡ ok (found c) s
  unfolding search_chain load
  search_chain_lem zero c h d links = absurd (omega arith)
  search_chain_lem (suc fuel) [] h d links = refl
  search_chain_lem (suc fuel) (a ∷ c) h d links =
      let (live, nz, next) = links a (ground arith) in
      let nz' : (a == null) ≡ false = ground arith in
      elim (Bool-cases (bytes_eq (s.url a) url)) [
        | inl e ↦ elim (Bool-cases (ltb (now - s.timestamp a) cache_expiry_time)) [
          | inl t ↦ rw (nz', live, e, nz', live, t)
          | inr t ↦ rw (nz', live, e, nz', live, t)
        ]
        | inr e ↦
            let next' : s.next a ≡ first c = ground arith in
            rw (nz', live, e, live, next')
              (search_chain_lem fuel c (omega arith) d.1
                (λ x x_in. let (l, n, f) = links x (ground arith) in (l, n, ground (arith, d.0))))
      ]

Rep-bump :
    {s : Cache} {lru : List Ptr} {chain : ℕ → List Ptr} (count : Ptr → ℕ)
    → Rep s lru chain
    → Rep (record s { access_count = count }) lru chain
Rep-bump count r = record {
  list = record {
    live = r.list.live;
    no_null = r.list.no_null;
    distinct = r.list.distinct;
    head = r.list.head;
    tail = r.list.tail;
    prev = r.list.prev;
    next = r.list.next;
  };
  table = record {
    bucket = r.table.bucket;
    next = r.table.next;
    distinct = r.table.distinct;
    member = r.table.member;
  };
  size = r.size;
}

SameNodes-front : {s t u : Cache} → SameTable s t → SameNodes t u → SameNodes s u
SameNodes-front a b = record {
  url = b.url ∙ a.url;
  payload = b.payload ∙ a.payload;
  data_size = b.data_size ∙ a.data_size;
  timestamp = b.timestamp ∙ a.timestamp;
  max_size = b.max_size ∙ a.max_size;
}

module _ {s : Cache} {lru : List Ptr} {chain : ℕ → List Ptr} (r : Rep s lru chain) where
  bump_access-Rep :
      (p : Ptr)
      → has p lru ≡ true
      → Returns (λ _ t. Rep t lru chain × SameNodes s t) (bump_access p s)
  unfolding bump_access
  bump_access-Rep p h = rw (live_of_mem r.list p h) (
      returns (
        Rep-bump _ r,
        record { url = refl; payload = refl; data_size = refl; timestamp = refl; max_size = refl },
      ))

module _ {s : Cache} {lru : List Ptr} {chain : ℕ → List Ptr} (r : Rep s lru chain) where
  search-found :
      (url : Bytes) (now : ℕ)
      → search_chain (rounds s) url now (s.hash_table (cache_hash url)) s
        ≡ ok (found s url now (chain (cache_hash url))) s
  search-found url now = rw (r.table.bucket (cache_hash url)) (
      search_chain_lem s url now (rounds s) (chain (cache_hash url))
        (length-chain-lt r (cache_hash url)) (r.table.distinct (cache_hash url))
        (chain_links r (cache_hash url)))

  first_with-mem :
      (url : Bytes) (c : List Ptr)
      → first_with s.url url c ≢ null
      → (has (first_with s.url url c) c ≡ true) × (s.url (first_with s.url url c) ≡ url)
  first_with-mem url [] h = absurd (h refl)
  first_with-mem url (a ∷ c) h = elim (Bool-cases (bytes_eq (s.url a) url)) [
    | inl e ↦ rw e (ground arith, (bytes_eq_iff (s.url a) url).0 e)
    | inr e ↦
        let step : first_with s.url url (a ∷ c) ≡ first_with s.url url c = rw e in
        let ih = first_with-mem url c (λ z. h (step ∙ z)) in
        (subst (λ x. has x (a ∷ c) ≡ true) (sym step) (has-cons a _ c ih.0), ap s.url step ∙ ih.1)
  ]

  first_with-absent :
      (url : Bytes) (c : List Ptr)
      → ((x : Ptr) → has x c ≡ true → s.url x ≢ url)
      → first_with s.url url c ≡ null
  first_with-absent url [] h = refl
  first_with-absent url (a ∷ c) h = ground (
    arith,
    h a,
    (bytes_eq_iff (s.url a) url).0,
    first_with-absent url c (λ x m. h x (ground arith)),
  )

  -- The newest node for a URL: the first with it in the chain of its hash.
  abbrev pub newest : Bytes → Ptr
  newest url = first_with s.url url (chain (cache_hash url))

  -- A hit: if the newest node for the URL is less than 300 seconds old, `cache_get` returns it, a
  -- live node with this very URL, and makes it the most recently used one; the order of the
  -- others, the chains and the contents of all nodes stay as they are. Nothing faults, and the
  -- search ends.
  pub cache_get_hit :
      (url : Bytes) (now : ℕ)
      → newest url ≢ null
      → now - s.timestamp (newest url) < cache_expiry_time
      → Returns
          (λ p t.
            (p ≡ newest url)
            × (has p lru ≡ true)
            × (s.url p ≡ url)
            × Rep t (p ∷ remove p lru) chain
            × SameNodes s t)
          (cache_get url now s)
  unfolding cache_get
  cache_get_hit url now cached young =
      let hit : found s url now (chain (cache_hash url)) ≡ newest url = ground arith in
      let (in_chain, key) = first_with-mem url (chain (cache_hash url)) cached in
      let mem = chain_mem r (cache_hash url) (newest url) in_chain in
      let not_null : (newest url == null) ≡ false = ground arith in
      rw (search-found url now, hit, not_null)
        (Returns-then (cache_move_to_front_lem r (newest url) mem) (λ _ t (rep, same).
          Returns-then (bump_access-Rep rep (newest url) (ground arith))
            (λ _ u (rep', nodes). returns (refl, mem, key, rep', SameNodes-front same nodes))))

  pub miss_of_found :
      (url : Bytes) (now : ℕ)
      → found s url now (chain (cache_hash url)) ≡ null
      → cache_get url now s ≡ ok null s
  unfolding cache_get
  miss_of_found url now miss = rw (search-found url now, miss)

  -- A miss: if no live node has the URL, or the newest one is 300 seconds old or more, the result
  -- is `NULL` and the cache is exactly as it was; nothing faults, and the search ends.
  cache_get_miss :
      (url : Bytes) (now : ℕ)
      → ((x : Ptr) → has x lru ≡ true → s.url x ≢ url)
        ⊎ (cache_expiry_time ≤ now - s.timestamp (newest url))
      → cache_get url now s ≡ ok null s
  cache_get_miss url now why =
      let miss : found s url now (chain (cache_hash url)) ≡ null = elim why [
        | inl absent ↦
            let gone =
              first_with-absent url (chain (cache_hash url))
                (λ x m. absent x (chain_mem r (cache_hash url) x m)) in
            rw gone
        | inr old ↦ ground arith
      ] in
      miss_of_found url now miss
