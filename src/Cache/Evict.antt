-- ===== src/Cache/Evict.antt =====
-- `cache_remove_lru`: the tail of the list, and what is left.
use mathlib.Core.Path.{fun_ext, subst}
use proxy_server_in_c.Common.{
  ℕ, ◌≡◌, ◌≢◌, refl, true, false, List, ◌==◌, arith, inl, inr, Bool-cases,
}
use proxy_server_in_c.Common.Run.{ok, Returns, returns, Returns-weaken}
use proxy_server_in_c.Cache.{Cache, Ptr, null, update, load, set_lru_next, cache_remove_lru}
use proxy_server_in_c.Cache.Order.{
  has, last, after, before, remove, before_inner, before_mem, remove_absent,
}
use proxy_server_in_c.Cache.Neighbours.{before-first}
use proxy_server_in_c.Cache.Rep.{Rep, SameNodes, live_of_mem, ne_null_of_mem}
use proxy_server_in_c.Cache.Unlink.{Unlinked-Rep}
use proxy_server_in_c.Cache.Discard.{after-last, last_in, discard-Unlinked}

module _ {s : Cache} {lru : List Ptr} {chain : ℕ → List Ptr} (r : Rep s lru chain) where
  prev_is_live :
      (p : Ptr) → has p lru ≡ true → (s.lru_prev p == null) ≡ false → s.live (s.lru_prev p) ≡ true
  prev_is_live p mem a =
      ground (arith, r.list.live (s.lru_prev p), r.list.prev p mem, before_mem 0 lru p)

  abbrev Evicted : Cache → Type 0
  Evicted t = Rep t (remove (last 0 lru) lru) (λ i. remove (last 0 lru) (chain i)) × SameNodes s t

  evict_empty : (s.lru_tail == null) ≡ true → Evicted s
  evict_empty z =
      let none_last : last 0 lru ≡ 0 = ground (arith, r.list.tail) in
      let no_zero : (i : ℕ) → has 0 (chain i) ≡ false =
        λ i. ground (arith, r.table.member i 0, r.list.no_null) in
      let same : ◌≡◌ {A = ℕ → List Ptr} (λ i. remove 0 (chain i)) chain =
        fun_ext (λ i. remove_absent 0 (chain i) (no_zero i)) in
      rw (none_last, remove_absent 0 lru r.list.no_null, same)
        (
          r,
          record {
            url = refl;
            payload = refl;
            data_size = refl;
            timestamp = refl;
            max_size = refl;
          },
        )

  -- The last node is live, and nothing stands after it.
  tail_mem : (s.lru_tail == null) ≡ false → has s.lru_tail lru ≡ true
  tail_mem z = ground (arith, r.list.tail, last_in lru)

  after_tail : after lru s.lru_tail ≡ 0
  after_tail = rw r.list.tail (after-last 0 lru r.list.distinct)

  -- The list of one node has that node as its head.
  alone :
      (p : Ptr)
      → has p lru ≡ true
      → (s.lru_prev p == null) ≡ true
      → (s.lru_head ≡ p) × (before 0 lru p ≡ 0)
  alone p mem a = (
    ground (arith, r.list.head, r.list.prev p mem, before_inner lru p, r.list.no_null),
    ground (arith, r.list.prev p mem),
  )

  not_alone : (p : Ptr) → has p lru ≡ true → (s.lru_prev p == null) ≡ false → s.lru_head ≢ p
  not_alone p mem a e =
      ground
        (arith, r.list.head, r.list.prev p mem, before-first 0 lru p, ne_null_of_mem r.list p mem)

  evict_tail :
      (s.lru_tail == null) ≡ false
      → Returns
          (λ _ t. Rep t (remove s.lru_tail lru) (λ i. remove s.lru_tail (chain i)) × SameNodes s t)
          (cache_remove_lru s)
  unfolding cache_remove_lru load set_lru_next
  evict_tail z =
      let p = s.lru_tail in
      let mem = tail_mem z in
      let live = live_of_mem r.list p mem in
      elim (Bool-cases (s.lru_prev p == null)) [
        | inl a ↦
            let (first_one, none_before) = alone p mem a in
            rw (z, live, a)
              (Returns-weaken
                (discard-Unlinked r p mem 0 0 s.lru_next s.lru_prev (ground (arith, after_tail))
                  (ground (arith, after_tail)) (λ x nz ne. ground (arith, after_tail))
                  (λ x nz ne. ground (arith, after_tail)))
                (λ _ t (u, n). (Unlinked-Rep r p mem u, n)))
        | inr a ↦
            let before_it = r.list.prev p mem in
            rw (z, live, a, prev_is_live p mem a)
              (Returns-weaken
                (discard-Unlinked r p mem s.lru_head (s.lru_prev p)
                  (update s.lru_next (s.lru_prev p) null) s.lru_prev
                  (ground (arith, not_alone p mem a)) (ground (arith, after_tail))
                  (λ x nz ne. ground (arith, after_tail)) (λ x nz ne. ground (arith, after_tail)))
                (λ _ t (u, n). (Unlinked-Rep r p mem u, n)))
      ]

cache_remove_lru_empty : (s : Cache) → (s.lru_tail == null) ≡ true → cache_remove_lru s ≡ ok tt s
unfolding cache_remove_lru
cache_remove_lru_empty s z = rw z

-- `cache_remove_lru` faults nowhere and its walk ends. It drops and frees exactly the least
-- recently used node, from the list and from its chain; the other nodes keep their order, chains
-- and contents. On an empty cache it changes nothing.
pub cache_remove_lru_lem :
    {s : Cache} {lru : List Ptr} {chain : ℕ → List Ptr}
    → Rep s lru chain
    → Returns
        (λ _ t.
          Rep t (remove (last 0 lru) lru) (λ i. remove (last 0 lru) (chain i)) × SameNodes s t)
        (cache_remove_lru s)
cache_remove_lru_lem {s} {lru} {chain} r = elim (Bool-cases (s.lru_tail == null)) [
  | inl z ↦ rw (cache_remove_lru_empty s z) (returns (evict_empty r z))
  | inr z ↦
      subst
        (λ p.
          Returns (λ _ t. Rep t (remove p lru) (λ i. remove p (chain i)) × SameNodes s t)
            (cache_remove_lru s))
        r.list.tail (evict_tail r z)
]
