-- ===== src/Cache/Contract.antt =====
-- What `cache_add` and `cache_get` promise together: the answers of `cache_add` on every branch,
-- the bound on the size, and that what was added is found again.
use proxy_server_in_c.Common.{
  ◌∙◌, ℕ, ◌-◌, ◌≤◌, ◌<◌, ◌≡◌, ◌≢◌, refl, sym, true, false, not, ◌||◌, List, ◌∷◌, ◌==◌, ltb,
  if◌then◌else◌, arith, length, take, inl, inr, Bool-cases, Bytes, bytes_eq_refl,
}
use proxy_server_in_c.Common.Int.{ℤ, pos, minus_one, positive, pos_part, int_leb}
use proxy_server_in_c.Common.Run.{and_then, ok, Returns, returns, Returns-weaken, Returns-then}
use proxy_server_in_c.Cache.{
  Cache, Ptr, null, cache_hash, cache_expiry_time, Alloc, make_room, cache_add, cache_get,
}
use proxy_server_in_c.Cache.Order.{has, last, remove}
use proxy_server_in_c.Cache.Rep.{Rep, SameNodes}
use proxy_server_in_c.Cache.Get.{newest, cache_get_hit}
use proxy_server_in_c.Cache.Evict.{cache_remove_lru_lem}
use proxy_server_in_c.Cache.Add.{pushed, Filled, insert_node-Rep}

-- The list and the chains once there is room: a full cache loses its least recently used node.
abbrev pub trimmed : Cache → List Ptr → List Ptr
trimmed s lru = if int_leb s.max_size s.current_size then remove (last 0 lru) lru else lru

abbrev pub trimmed_chain : Cache → List Ptr → (ℕ → List Ptr) → ℕ → List Ptr
trimmed_chain s lru chain =
    if int_leb s.max_size s.current_size then (λ i. remove (last 0 lru) (chain i)) else chain

Filled-after :
    {p : Ptr} {url bytes : Bytes} {size now : ℕ} {s t u : Cache}
    → SameNodes s t
    → Filled p url bytes size now t u
    → Filled p url bytes size now s u
Filled-after {s} {t} n f = record {
  key = f.key;
  copy = f.copy;
  copied = f.copied;
  stamp = f.stamp;
  keys = λ x ne. ground (arith, f.keys x ne);
  copies = λ x ne. ground (arith, f.copies x ne);
  sizes = λ x ne. ground (arith, f.sizes x ne);
  stamps = λ x ne. ground (arith, f.stamps x ne);
  max_size = f.max_size ∙ n.max_size;
}

-- All of the memory that `cache_add` asks for is there, at an address that is not in use.
pub record HasMemory (alloc : Alloc) (s : Cache) (lru : List Ptr) : Type 0 where
  pub not_null : alloc.node ≢ null
  pub fresh : has alloc.node (trimmed s lru) ≡ false
  pub for_url : alloc.url ≡ true
  pub for_payload : alloc.payload ≡ true

module _ {s : Cache} {lru : List Ptr} {chain : ℕ → List Ptr} (r : Rep s lru chain) where
  pub make_room_lem :
      Returns
        (λ _ t. Rep t (trimmed s lru) (trimmed_chain s lru chain) × SameNodes s t)
        (make_room s)
  unfolding make_room
  make_room_lem = elim (Bool-cases (int_leb s.max_size s.current_size)) [
    | inl full ↦ rw full (cache_remove_lru_lem r)
    | inr room ↦ rw room (
        returns (
          r,
          record {
            url = refl;
            payload = refl;
            data_size = refl;
            timestamp = refl;
            max_size = refl;
          },
        ))
  ]

  -- `cache_add` of a positive number of readable bytes, given memory: nothing faults, the result is 0, a full
  -- cache loses exactly its least recently used entry and no other cache loses any, and the new
  -- entry stands in front, with copies of the URL and of the first `size` bytes and with the
  -- current time, while every other entry keeps its contents.
  pub cache_add_lem :
      (alloc : Alloc) (url bytes : Bytes) (size : ℤ) (now : ℕ)
      → positive size ≡ true
      → pos_part size ≤ length bytes
      → HasMemory alloc s lru
      → Returns
          (λ n t.
            (n ≡ pos 0)
            × Rep t
                (alloc.node ∷ trimmed s lru)
                (pushed (cache_hash url) alloc.node (trimmed_chain s lru chain))
            × Filled alloc.node url (take (pos_part size) bytes) (pos_part size) now s t)
          (cache_add alloc url bytes size now s)
  unfolding cache_add
  cache_add_lem alloc url bytes size now sized readable m =
      let no_failure : (alloc.node == null || not alloc.url || not alloc.payload) ≡ false =
        ground (arith, m.not_null, m.for_url, m.for_payload) in
      let enough : ltb (length bytes) (pos_part size) ≡ false = ground arith in
      rw sized (
        Returns-then make_room_lem (λ _ t (rep, same).
          rw (no_failure, enough)
            (Returns-weaken
              (insert_node-Rep rep alloc.node (rep.list.live alloc.node ∙ m.fresh) m.not_null url
                (take (pos_part size) bytes) (pos_part size) now)
              (λ n u (e, rep', f). (e, rep', Filled-after same f)))))

  -- `cache_add` of a positive number of bytes when `malloc` fails: the result is -1, and a full
  -- cache has lost its least recently used entry all the same; no other entry goes or changes.
  pub cache_add_no_memory :
      (alloc : Alloc) (url bytes : Bytes) (size : ℤ) (now : ℕ)
      → positive size ≡ true
      → (alloc.node == null || not alloc.url || not alloc.payload) ≡ true
      → Returns
          (λ n t.
            (n ≡ minus_one) × Rep t (trimmed s lru) (trimmed_chain s lru chain) × SameNodes s t)
          (cache_add alloc url bytes size now s)
  unfolding cache_add
  cache_add_no_memory alloc url bytes size now sized fails =
      rw sized
        (Returns-then make_room_lem (λ _ t (rep, same). rw fails (returns (refl, rep, same))))

-- A size that is not positive is refused, and the cache is exactly as it was.
pub cache_add_no_size :
    (s : Cache) (alloc : Alloc) (url bytes : Bytes) (size : ℤ) (now : ℕ)
    → positive size ≡ false
    → cache_add alloc url bytes size now s ≡ ok minus_one s
unfolding cache_add
cache_add_no_size s alloc url bytes size now unsized = rw unsized

-- What `cache_add` has stored, `cache_get` finds: on any well-formed cache, given memory and
-- `size` readable bytes, the next call for the same URL within 300 seconds returns the new node, which holds copies of the URL
-- and of the `size` bytes that were given, and the cache stays well formed.
pub add_get :
    {s : Cache} {lru : List Ptr} {chain : ℕ → List Ptr}
    → Rep s lru chain
    → (alloc : Alloc) (url bytes : Bytes) (size : ℤ) (stored now : ℕ) → positive size ≡ true
    → pos_part size ≤ length bytes
    → HasMemory alloc s lru
    → now - stored < cache_expiry_time
    → Returns
        (λ p t.
          (p ≡ alloc.node)
          × (t.url p ≡ url)
          × (t.payload p ≡ take (pos_part size) bytes)
          × (t.data_size p ≡ pos_part size)
          × Rep t
              (alloc.node ∷ trimmed s lru)
              (pushed (cache_hash url) alloc.node (trimmed_chain s lru chain)))
        (and_then (cache_add alloc url bytes size stored s) (λ _. cache_get url now))
unfolding remove
add_get {s} {lru} {chain} r alloc url bytes size stored now sized readable m young =
    Returns-then (cache_add_lem r alloc url bytes size stored sized readable m) (λ _ t (_, rep, f).
      let it : newest rep url ≡ alloc.node = ground (arith, f.key, bytes_eq_refl url) in
      Returns-weaken
        (cache_get_hit rep url now (λ z. m.not_null (sym it ∙ z)) (rw (it, f.stamp) young))
        (λ p u (e, mem, key, rep', n).
          let q : p ≡ alloc.node = e ∙ it in
          let front : p ∷ remove p (alloc.node ∷ trimmed s lru) ≡ alloc.node ∷ trimmed s lru =
            ground arith in
          (
            q,
            ground (arith, n.url),
            ground (arith, n.payload, f.copy),
            ground (arith, n.data_size, f.copied),
            rw (← front) rep',
          )))
