-- ===== src/Cache/Rep.antt =====
-- What a cache in memory stands for: its nodes from the most to the least recently used one, and
-- the chain of each bucket.
use proxy_server_in_c.Common.{
  ◌∙◌, ℕ, ◌≡◌, ◌≢◌, refl, true, false, ◌&&◌, List, [], ◌∷◌, ◌==◌, arith, length, ◌⊎◌,
}
use proxy_server_in_c.Common.Int.{pos}
use proxy_server_in_c.Common.Run.{ok}
use proxy_server_in_c.Cache.{Cache, Ptr, cache_hash, load, null, empty_cache}
use proxy_server_in_c.Cache.Order.{
  has, Distinct, first, last, after, before, after_mem, before_inner,
}

-- The doubly linked list runs through the distinct live nodes `lru`.
pub record IsList (s : Cache) (lru : List Ptr) : Type 0 where
  pub live : (p : Ptr) → s.live p ≡ has p lru
  pub no_null : has 0 lru ≡ false
  pub distinct : Distinct lru
  pub head : s.lru_head ≡ first lru
  pub tail : s.lru_tail ≡ last 0 lru
  pub prev : (p : Ptr) → has p lru ≡ true → s.lru_prev p ≡ before 0 lru p
  pub next : (p : Ptr) → has p lru ≡ true → s.lru_next p ≡ after lru p

-- Bucket `i` chains exactly the live nodes whose URL hashes to `i`.
pub record IsTable (s : Cache) (lru : List Ptr) (chain : ℕ → List Ptr) : Type 0 where
  pub bucket : (i : ℕ) → s.hash_table i ≡ first (chain i)
  pub next : (i : ℕ) (p : Ptr) → has p (chain i) ≡ true → s.next p ≡ after (chain i) p
  pub distinct : (i : ℕ) → Distinct (chain i)
  pub member : (i : ℕ) (p : Ptr) → has p (chain i) ≡ (has p lru && (cache_hash (s.url p) == i))

pub record Rep (s : Cache) (lru : List Ptr) (chain : ℕ → List Ptr) : Type 0 where
  pub list : IsList s lru
  pub table : IsTable s lru chain
  pub size : s.current_size ≡ pos (length lru)

-- The contents of a node.
pub record SameNodes (s t : Cache) : Type 0 where
  pub url : t.url ≡ s.url
  pub payload : t.payload ≡ s.payload
  pub data_size : t.data_size ≡ s.data_size
  pub timestamp : t.timestamp ≡ s.timestamp
  pub max_size : t.max_size ≡ s.max_size

pub load_live :
    {A : Type 0} (field : Cache → Ptr → A) (p : Ptr) {s : Cache}
    → s.live p ≡ true
    → load field p s ≡ ok (field s p) s
unfolding load
load_live field p h = rw h

pub empty_cache-Rep : Rep empty_cache [] (λ _. [])
empty_cache-Rep = record {
  list = record {
    live = λ p. refl;
    no_null = refl;
    distinct = tt;
    head = refl;
    tail = refl;
    prev = λ p h. refl;
    next = λ p h. refl;
  };
  table = record {
    bucket = λ i. refl;
    next = λ i p h. refl;
    distinct = λ i. tt;
    member = λ i p. refl;
  };
  size = refl;
}

module _ {s : Cache} {lru : List Ptr} (is : IsList s lru) where
  pub live_of_mem : (p : Ptr) → has p lru ≡ true → s.live p ≡ true
  live_of_mem p h = is.live p ∙ h

  pub ne_null_of_mem : (p : Ptr) → has p lru ≡ true → p ≢ null
  ne_null_of_mem p h e = ground (arith, is.no_null)

  pub head_mem : (p : Ptr) → has p lru ≡ true → has s.lru_head lru ≡ true
  head_mem p h = first_mem lru p h is.head
    where
      first_mem :
          (l : List Ptr) (p : Ptr) → has p l ≡ true → s.lru_head ≡ first l → has s.lru_head l ≡ true
      first_mem [] p h e = ground arith
      first_mem (a ∷ l) p h e = ground arith

  -- The neighbours that the links name are live, or null.
  pub next_mem :
      (p : Ptr) → has p lru ≡ true → (s.lru_next p ≡ null) ⊎ (has (s.lru_next p) lru ≡ true)
  next_mem p h = ground (arith, is.next p h, after_mem lru p)

  pub prev_mem : (p : Ptr) → has p lru ≡ true → s.lru_head ≢ p → has (s.lru_prev p) lru ≡ true
  prev_mem p h ne = rw (is.prev p h) (before_inner lru p h (λ e. ne (is.head ∙ e)))
