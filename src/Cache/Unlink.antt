-- ===== src/Cache/Unlink.antt =====
-- The writes that take a node out of the list and out of its chain.
use proxy_server_in_c.Common.{
  ℕ, ◌≡◌, ◌≢◌, true, false, ◌&&◌, List, ◌==◌, if◌then◌else◌, arith, length, inl, inr, Bool-cases,
}
use proxy_server_in_c.Common.Int.{decr, decr_succ}
use proxy_server_in_c.Cache.{Cache, Ptr, null, cache_hash}
use proxy_server_in_c.Cache.Order.{
  has, first, after, before, remove, has-remove_ne, has-remove_self, Distinct-remove, length-remove,
  remove_absent, mem-remove, before_mem,
}
use proxy_server_in_c.Cache.Neighbours.{
  after-remove, before-remove, last-remove, first-remove, first-remove_self,
}
use proxy_server_in_c.Cache.Rep.{IsList, IsTable, Rep, ne_null_of_mem}

-- The state after the writes that unlink `p`, pointwise.
pub record Unlinked (p : Ptr) (s : Cache) (lru : List Ptr) (chain : ℕ → List Ptr) (t : Cache)
    : Type 0 where
  pub live : (x : Ptr) → t.live x ≡ (if x == p then false else s.live x)
  pub url : t.url ≡ s.url
  pub head : t.lru_head ≡ (if s.lru_head == p then after lru p else s.lru_head)
  pub tail : t.lru_tail ≡ (if after lru p == null then before 0 lru p else s.lru_tail)
  pub next :
      (x : Ptr)
      → x ≢ null
      → x ≢ p
      → t.lru_next x ≡ (if before 0 lru p == x then after lru p else s.lru_next x)
  pub prev :
      (x : Ptr)
      → x ≢ null
      → x ≢ p
      → t.lru_prev x ≡ (if after lru p == x then before 0 lru p else s.lru_prev x)
  pub chained :
      (x : Ptr)
      → x ≢ null
      → x ≢ p
      → t.next x ≡ (
          if before 0 (chain (cache_hash (s.url p))) p == x
          then after (chain (cache_hash (s.url p))) p
          else s.next x)
  pub bucket :
      (i : ℕ)
      → t.hash_table i ≡ (
          if (i == cache_hash (s.url p)) && (s.hash_table i == p)
          then after (chain (cache_hash (s.url p))) p
          else s.hash_table i)
  pub size : t.current_size ≡ decr s.current_size

module _ {s : Cache} {lru : List Ptr} {chain : ℕ → List Ptr} (r : Rep s lru chain) (p : Ptr)
    (mem : has p lru ≡ true) {t : Cache} (u : Unlinked p s lru chain t) where
  nz : p ≢ null
  nz = ne_null_of_mem r.list p mem

  Unlinked-IsList : IsList t (remove p lru)
  Unlinked-IsList =
      let is = r.list in
      record {
        live = λ x.
            ground (
              arith,
              u.live x,
              is.live x,
              has-remove_ne x p lru,
              has-remove_self p lru is.distinct,
            );
        no_null = ground (arith, is.no_null, has-remove_ne 0 p lru, nz);
        distinct = Distinct-remove p lru is.distinct;
        head = ground (arith, u.head, is.head, first-remove p lru, first-remove_self p lru, nz);
        tail = ground (arith, u.tail, is.tail, last-remove 0 p lru is.no_null mem);
        prev = λ x h.
            let (other, x_in) = mem-remove x p lru is.distinct h in
            ground (
              arith,
              u.prev x (ne_null_of_mem is x x_in) other,
              is.prev x x_in,
              before-remove 0 p x lru is.distinct is.no_null other x_in mem,
            );
        next = λ x h.
            let (other, x_in) = mem-remove x p lru is.distinct h in
            ground (
              arith,
              u.next x (ne_null_of_mem is x x_in) other,
              is.next x x_in,
              after-remove 0 p x lru is.distinct is.no_null other (ne_null_of_mem is x x_in) x_in
                  mem,
            );
      }

  abbrev home : ℕ
  home = cache_hash (s.url p)

  in_home : has p (chain home) ≡ true
  in_home = ground (arith, r.table.member home p)

  not_elsewhere : (i : ℕ) → i ≢ home → has p (chain i) ≡ false
  not_elsewhere i ne = ground (arith, r.table.member i p)

  chain-no_null : (i : ℕ) → has 0 (chain i) ≡ false
  chain-no_null i = ground (arith, r.table.member i 0, r.list.no_null)

  chain_in :
      (i : ℕ) (x : Ptr) → has x (chain i) ≡ true → (has x lru ≡ true) × (cache_hash (s.url x) ≡ i)
  chain_in i x h = (ground (arith, r.table.member i x), ground (arith, r.table.member i x))

  bucket_home : t.hash_table home ≡ first (remove p (chain home))
  bucket_home = ground (
    arith,
    u.bucket home,
    r.table.bucket home,
    first-remove p (chain home),
    first-remove_self p (chain home),
    nz,
  )

  next_home :
      (x : Ptr) → has x (remove p (chain home)) ≡ true → t.next x ≡ after (remove p (chain home)) x
  next_home x h =
      let (other, x_in) = mem-remove x p (chain home) (r.table.distinct home) h in
      let x_nz = ne_null_of_mem r.list x (chain_in home x x_in).0 in
      ground (
        arith,
        u.chained x x_nz other,
        r.table.next home x x_in,
        after-remove 0 p x (chain home) (r.table.distinct home) (chain-no_null home) other x_nz x_in
            in_home,
      )

  next_elsewhere :
      (i : ℕ) → i ≢ home → (x : Ptr) → has x (chain i) ≡ true → t.next x ≡ after (chain i) x
  next_elsewhere i ne x h =
      let (x_in, key) = chain_in i x h in
      let other : x ≢ p = λ e. ground (arith, not_elsewhere i ne) in
      let apart : before 0 (chain home) p ≢ x = λ e.
        ground
          (arith, before_mem 0 (chain home) p, chain_in home x, ne_null_of_mem r.list x x_in) in
      ground (arith, u.chained x (ne_null_of_mem r.list x x_in) other, r.table.next i x h, apart)

  Unlinked-IsTable : IsTable t (remove p lru) (λ i. remove p (chain i))
  Unlinked-IsTable = record {
    bucket = λ i. elim (Bool-cases (i == home)) [
      | inl e ↦ let q : i ≡ home = ground arith in rw q bucket_home
      | inr e ↦
          ground (arith, u.bucket i, r.table.bucket i, remove_absent p (chain i), not_elsewhere i)
    ];
    next = λ i x h. elim (Bool-cases (i == home)) [
      | inl e ↦ let q : i ≡ home = ground arith in rw q (next_home x (rw q at h))
      | inr e ↦
          let ne : i ≢ home = λ q. ground arith in
          let same = remove_absent p (chain i) (not_elsewhere i ne) in
          rw same (next_elsewhere i ne x (rw same at h))
    ];
    distinct = λ i. Distinct-remove p (chain i) (r.table.distinct i);
    member = λ i x. elim (Bool-cases (x == p)) [
      | inl e ↦ ground (
        arith,
        has-remove_self p (chain i) (r.table.distinct i),
        has-remove_self p lru r.list.distinct,
      )
      | inr e ↦
          ground (arith, r.table.member i x, has-remove_ne x p (chain i), has-remove_ne x p lru)
    ];
  }

  pub Unlinked-Rep : Rep t (remove p lru) (λ i. remove p (chain i))
  Unlinked-Rep = record {
    list = Unlinked-IsList;
    table = Unlinked-IsTable;
    size =
        ground (arith, u.size, r.size, length-remove p lru mem, decr_succ (length (remove p lru)));
  }
