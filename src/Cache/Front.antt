-- ===== src/Cache/Front.antt =====
-- `cache_move_to_front` on a cache in memory.
use proxy_server_in_c.Common.{
  ◌∙◌, ℕ, ◌≡◌, ◌≢◌, refl, true, false, List, [], ◌∷◌, ◌==◌, if◌then◌else◌, arith, inl, inr,
  Bool-cases,
}
use proxy_server_in_c.Common.Run.{Returns, returns, Returns-weaken}
use proxy_server_in_c.Cache.{
  Cache, Ptr, null, load, set_lru_next, set_lru_prev, cache_move_to_front,
}
use proxy_server_in_c.Cache.Order.{
  has, first, after, before, remove, has-remove_ne, has-remove_self, Distinct-remove, length-remove,
  before_other,
}
use proxy_server_in_c.Cache.Neighbours.{
  before_start, before-first, last_start, first-remove, after-remove, before-remove, last-remove,
}
use proxy_server_in_c.Cache.Rep.{
  IsList, IsTable, Rep, live_of_mem, ne_null_of_mem, head_mem, next_mem, prev_mem,
}

-- The fields that the links of the list are not.
pub record SameTable (s t : Cache) : Type 0 where
  pub live : t.live ≡ s.live
  pub url : t.url ≡ s.url
  pub payload : t.payload ≡ s.payload
  pub data_size : t.data_size ≡ s.data_size
  pub timestamp : t.timestamp ≡ s.timestamp
  pub chained : t.next ≡ s.next
  pub buckets : t.hash_table ≡ s.hash_table
  pub size : t.current_size ≡ s.current_size
  pub max_size : t.max_size ≡ s.max_size

-- The links after the writes, pointwise.
record Moved (p : Ptr) (s t : Cache) : Type 0 where
  same : SameTable s t
  head : t.lru_head ≡ p
  tail : t.lru_tail ≡ (if s.lru_next p == null then s.lru_prev p else s.lru_tail)
  next :
      (x : Ptr)
      → t.lru_next x
        ≡ (if x == p then s.lru_head else if x == s.lru_prev p then s.lru_next p else s.lru_next x)
  prev :
      (x : Ptr)
      → x ≢ null
      → t.lru_prev x ≡ (
          if x == s.lru_head
          then p
          else if x == p
          then null
          else if x == s.lru_next p
          then s.lru_prev p
          else s.lru_prev x)

same_links :
    {s : Cache} (prev next : Ptr → Ptr) (head tail : Ptr)
    → SameTable s (record s { lru_prev = prev; lru_next = next; lru_head = head; lru_tail = tail })
same_links prev next head tail = record {
  live = refl;
  url = refl;
  payload = refl;
  data_size = refl;
  timestamp = refl;
  chained = refl;
  buckets = refl;
  size = refl;
  max_size = refl;
}

module _ {s : Cache} {lru : List Ptr} (is : IsList s lru) (p : Ptr) (mem : has p lru ≡ true)
    (ne : s.lru_head ≢ p) where
  -- What the code tests and reads on the way.
  record Facts : Type 0 where
    not_head : (p == s.lru_head) ≡ false
    live : s.live p ≡ true
    has_prev : (s.lru_prev p == null) ≡ false
    live_prev : s.live (s.lru_prev p) ≡ true
    prev_other : (p == s.lru_prev p) ≡ false
    has_head : (s.lru_head == null) ≡ false
    live_head : s.live s.lru_head ≡ true

  facts : Facts
  facts =
      let prev_in = prev_mem is p mem ne in
      let head_in = head_mem is p mem in
      record {
        not_head = ground arith;
        live = live_of_mem is p mem;
        has_prev = ground (arith, ne_null_of_mem is (s.lru_prev p) prev_in);
        live_prev = live_of_mem is (s.lru_prev p) prev_in;
        prev_other =
            ground (arith, is.prev p mem, before_other lru p (ne_null_of_mem is p mem) is.distinct);
        has_head = ground (arith, ne_null_of_mem is s.lru_head head_in);
        live_head = live_of_mem is s.lru_head head_in;
      }

  live_next : (s.lru_next p == null) ≡ false → s.live (s.lru_next p) ≡ true
  live_next z = elim (next_mem is p mem) [
    | inl e ↦ absurd (ground arith)
    | inr i ↦ live_of_mem is (s.lru_next p) i
  ]

  cache_move_to_front-Moved : Returns (λ _ t. Moved p s t) (cache_move_to_front p s)
  unfolding cache_move_to_front load set_lru_next set_lru_prev
  cache_move_to_front-Moved = elim (Bool-cases (s.lru_next p == null)) [
    | inl z ↦
        rw
          (
            not_head, live, has_prev, live, live_prev, live, prev_other, live, z, live, live,
            has_head, live_head,
          )
          (returns (record {
            same = same_links _ _ _ _;
            head = refl;
            tail = rw z;
            next = λ x. refl;
            prev = λ x nx. ground arith;
          }))
    | inr z ↦
        rw
          (
            not_head,
            live,
            has_prev,
            live,
            live_prev,
            live,
            prev_other,
            live,
            z,
            live_next z,
            live,
            live,
            has_head,
            live_head,
          )
          (returns (record {
            same = same_links _ _ _ _;
            head = refl;
            tail = rw z;
            next = λ x. refl;
            prev = λ x nx. refl;
          }))
  ]
    where
      open facts use {not_head, live, has_prev, live_prev, prev_other, has_head, live_head}

  first_other : first lru ≢ p
  first_other e = ne (is.head ∙ e)

  Moved-prev :
      {t : Cache}
      → Moved p s t
      → (x : Ptr) → has x lru ≡ true
      → x ≢ p
      → t.lru_prev x ≡ before p (remove p lru) x
  Moved-prev {t} m x h other = elim (Bool-cases (first lru == x)) [
    | inl e ↦ ground (
      arith,
      is.head,
      m.prev x (ne_null_of_mem is x h),
      first-remove p lru first_other,
      before-first p (remove p lru) x,
      ne_null_of_mem is x h,
    )
    | inr e ↦ ground (
      arith,
      is.head,
      is.prev p mem,
      is.next p mem,
      is.prev x h,
      m.prev x (ne_null_of_mem is x h),
      before-remove p p x lru is.distinct is.no_null other h mem,
      before_start p 0 lru p first_other,
      before_start p 0 lru x,
    )
  ]

  Moved-next :
      {t : Cache}
      → Moved p s t
      → (x : Ptr) → has x lru ≡ true
      → x ≢ p
      → t.lru_next x ≡ after (remove p lru) x
  Moved-next {t} m x h other = ground (
    arith,
    is.prev p mem,
    is.next p mem,
    is.next x h,
    m.next x,
    ne_null_of_mem is x h,
    after-remove 0 p x lru is.distinct is.no_null other (ne_null_of_mem is x h) h mem,
  )

  Moved-IsList : {t : Cache} → Moved p s t → IsList t (p ∷ remove p lru)
  Moved-IsList {t} m = record {
    live = λ x. ground (arith, is.live x, has-remove_ne x p lru);
    no_null = ground (arith, ne_null_of_mem is p mem, is.no_null, has-remove_ne 0 p lru);
    distinct = (has-remove_self p lru is.distinct, Distinct-remove p lru is.distinct);
    head = m.head;
    tail = ground (
      arith,
      is.prev p mem,
      is.next p mem,
      is.tail,
      m.tail,
      last-remove p p lru is.no_null mem,
      before_start p 0 lru p first_other,
      last_start p 0 lru p mem,
    );
    prev = λ x h.
        ground (
          arith,
          m.prev x,
          is.head,
          Moved-prev m x,
          has-remove_ne x p lru,
          ne_null_of_mem is p mem,
        );
    next = λ x h. ground (
      arith,
      m.next x,
      is.head,
      Moved-next m x,
      has-remove_ne x p lru,
      first-remove p lru first_other,
    );
  }

  Moved-IsTable :
      {t : Cache} {chain : ℕ → List Ptr}
      → Moved p s t
      → IsTable s lru chain
      → IsTable t (p ∷ remove p lru) chain
  Moved-IsTable {t} m tab = record {
    bucket = λ i. ground (arith, tab.bucket i);
    next = λ i x h. ground (arith, tab.next i x);
    distinct = tab.distinct;
    member = λ i x. ground (arith, tab.member i x, has-remove_ne x p lru);
  }

Rep-front :
    {s : Cache} {lru : List Ptr} {chain : ℕ → List Ptr}
    → Rep s lru chain
    → s.lru_head ≡ first lru
    → (p : Ptr) → has p lru ≡ true
    → s.lru_head ≡ p
    → Rep s (p ∷ remove p lru) chain
unfolding remove
Rep-front {s} {lru = []} r h p mem e = absurd (ground arith)
Rep-front {s} {lru = a ∷ l} {chain} r h p mem e =
    let same : p ∷ remove p (a ∷ l) ≡ a ∷ l = ground arith in rw same r

-- `cache_move_to_front` of a node in the cache faults nowhere, makes the node the most recently
-- used one, keeps the order of the others and every chain, and touches no node's contents.
pub cache_move_to_front_lem :
    {s : Cache} {lru : List Ptr} {chain : ℕ → List Ptr}
    → Rep s lru chain
    → (p : Ptr) → has p lru ≡ true
    → Returns (λ _ t. Rep t (p ∷ remove p lru) chain × SameTable s t) (cache_move_to_front p s)
unfolding cache_move_to_front
cache_move_to_front_lem {s} {lru} {chain} r p mem = elim (Bool-cases (p == s.lru_head)) [
  | inl e ↦ rw e (returns (Rep-front r r.list.head p mem (ground arith), same_links _ _ _ _))
  | inr e ↦
      let other : s.lru_head ≢ p = λ q. ground arith in
      Returns-weaken (cache_move_to_front-Moved r.list p mem other) (λ _ t m. (
        record {
          list = Moved-IsList r.list p mem other m;
          table = Moved-IsTable r.list p mem other m r.table;
          size = ground (arith, r.size, length-remove p lru mem, m.same.size);
        },
        m.same,
      ))
]
