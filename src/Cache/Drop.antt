-- ===== src/Cache/Drop.antt =====
-- `drop_expired`: the writes that unlink one node, at its place in the chain.
use proxy_server_in_c.Common.{
  ℕ, ◌≡◌, ◌≢◌, refl, true, false, List, ◌==◌, if◌then◌else◌, arith, inl, inr, Bool-cases,
}
use proxy_server_in_c.Common.Int.{decr}
use proxy_server_in_c.Common.Run.{ok, Returns, returns}
use proxy_server_in_c.Cache.{
  Cache, Ptr, null, update, cache_hash, load, set_next, set_lru_next, set_lru_prev, set_bucket,
  free_node, count_down,
}
use proxy_server_in_c.Cache.Order.{has, before, before_inner, before_mem, before_other, after_mem}
use proxy_server_in_c.Cache.Neighbours.{before-first}
use proxy_server_in_c.Cache.Rep.{Rep, SameNodes, live_of_mem, ne_null_of_mem}
use proxy_server_in_c.Cache.Unlink.{Unlinked}
use proxy_server_in_c.Cache.Discard.{same_nodes, at_head}
use proxy_server_in_c.Cache.Expire.{drop_expired}

module _ {s : Cache} {lru : List Ptr} {chain : ℕ → List Ptr} (r : Rep s lru chain) (p : Ptr)
    (mem : has p lru ≡ true) where
  abbrev home : ℕ
  home = cache_hash (s.url p)

  live : s.live p ≡ true
  live = live_of_mem r.list p mem

  -- The neighbours in the list, where they are not null, are live and other nodes.
  list_head : (s.lru_prev p == null) ≡ (s.lru_head == p)
  list_head = ground (
    arith,
    r.list.head,
    r.list.prev p mem,
    r.list.no_null,
    before_inner lru p,
    before-first 0 lru p,
    ne_null_of_mem r.list p mem,
  )

  prev_live : (s.lru_prev p == null) ≡ false → s.live (s.lru_prev p) ≡ true
  prev_live a = ground (arith, r.list.live (s.lru_prev p), r.list.prev p mem, before_mem 0 lru p)

  next_live : (s.lru_next p == null) ≡ false → s.live (s.lru_next p) ≡ true
  next_live a = ground (arith, r.list.live (s.lru_next p), r.list.next p mem, after_mem lru p)

  chain_prev_live :
      (before 0 (chain home) p == null) ≡ false → s.live (before 0 (chain home) p) ≡ true
  chain_prev_live a = ground (
    arith,
    r.list.live (before 0 (chain home) p),
    before_mem 0 (chain home) p,
    r.table.member home (before 0 (chain home) p),
  )

  prev_ne : s.lru_prev p ≢ p
  prev_ne e =
      ground
        (arith, r.list.prev p mem, before_other lru p (ne_null_of_mem r.list p mem) r.list.distinct)

  -- The state after the writes.
  abbrev dropped : Cache
  dropped =
      let d = before 0 (chain home) p in
      record s {
        live = update s.live p false;
        hash_table = if d == null then update s.hash_table home (s.next p) else s.hash_table;
        next = if d == null then s.next else update s.next d (s.next p);
        lru_head = if s.lru_prev p == null then s.lru_next p else s.lru_head;
        lru_next =
            if s.lru_prev p == null
            then s.lru_next
            else update s.lru_next (s.lru_prev p) (s.lru_next p);
        lru_tail = if s.lru_next p == null then s.lru_prev p else s.lru_tail;
        lru_prev =
            if s.lru_next p == null
            then s.lru_prev
            else update s.lru_prev (s.lru_next p) (s.lru_prev p);
        current_size = decr s.current_size;
      }

  drop_expired-dropped : drop_expired home p (before 0 (chain home) p) s ≡ ok tt dropped
  unfolding drop_expired load set_next set_lru_next set_lru_prev set_bucket free_node count_down
  drop_expired-dropped =
      let other : (p == s.lru_prev p) ≡ false = ground (arith, prev_ne) in
      elim (Bool-cases (before 0 (chain home) p == null)) [
        | inl a ↦ elim (Bool-cases (s.lru_prev p == null)) [
          | inl b ↦ elim (Bool-cases (s.lru_next p == null)) [
            | inl c ↦ simp (live, a, b, c)
            | inr c ↦ simp (live, a, b, c, next_live c)
          ]
          | inr b ↦ elim (Bool-cases (s.lru_next p == null)) [
            | inl c ↦ simp (live, a, b, prev_live b, other, c)
            | inr c ↦ simp (live, a, b, prev_live b, other, c, next_live c)
          ]
        ]
        | inr a ↦ elim (Bool-cases (s.lru_prev p == null)) [
          | inl b ↦ elim (Bool-cases (s.lru_next p == null)) [
            | inl c ↦ simp (live, a, chain_prev_live a, b, c)
            | inr c ↦ simp (live, a, chain_prev_live a, b, c, next_live c)
          ]
          | inr b ↦ elim (Bool-cases (s.lru_next p == null)) [
            | inl c ↦ simp (live, a, chain_prev_live a, b, prev_live b, other, c)
            | inr c ↦ simp (live, a, chain_prev_live a, b, prev_live b, other, c, next_live c)
          ]
        ]
      ]

  dropped-Unlinked : Unlinked p s lru chain dropped
  dropped-Unlinked = record {
    live = λ x. refl;
    url = refl;
    head = ground (arith, list_head, r.list.next p mem);
    tail = ground (arith, r.list.next p mem, r.list.prev p mem);
    next = λ x nz ne. ground (arith, r.list.next p mem, r.list.prev p mem);
    prev = λ x nz ne. ground (arith, r.list.next p mem, r.list.prev p mem);
    chained = λ x nz ne. ground (arith, r.table.next home p, r.table.member home p);
    bucket = λ i. ground (arith, at_head r p mem, r.table.next home p, r.table.member home p);
    size = refl;
  }

  -- `drop_expired` at the place of the node in its chain faults nowhere, and takes out exactly it.
  pub drop_expired-Unlinked :
      Returns
        (λ _ t. Unlinked p s lru chain t × SameNodes s t)
        (drop_expired home p (before 0 (chain home) p) s)
  drop_expired-Unlinked = rw drop_expired-dropped (returns (dropped-Unlinked, same_dropped))
    where
      same_dropped : SameNodes s dropped
      same_dropped = same_nodes
