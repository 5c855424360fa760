-- ===== src/Cache/Aging.antt =====
-- Well-formed caches, and what becomes of the entries of one in a call of `cache_get` or `cache_add`.
use proxy_server_in_c.Common.{
  ◌⊎◌, ◌∙◌, ℕ, ◌-◌, ◌≤◌, ◌<◌, ◌≡◌, ◌≢◌, ◌+◌, ap, true, refl, sym, false, not, ◌||◌, List, [], ◌∷◌,
  ◌==◌, ltb, arith, length, inl, inr, Bool-cases, Bytes,
}
use proxy_server_in_c.Common.Int.{ℤ, pos, positive, pos_part}
use proxy_server_in_c.Common.Run.{ok, Returns, returns, Returns-weaken, Returns-value, Returns-at}
use proxy_server_in_c.Cache.{
  Cache, Ptr, null, cache_size, cache_hash, cache_expiry_time, Alloc, make_room, cache_add,
  cache_get,
}
use proxy_server_in_c.Cache.Order.{has, last, remove, length-remove}
use proxy_server_in_c.Cache.Rep.{Rep}
use proxy_server_in_c.Cache.Get.{newest, cache_get_hit, miss_of_found}
use proxy_server_in_c.Cache.Discard.{last_mem}
use proxy_server_in_c.Cache.Add.{pushed}
use proxy_server_in_c.Cache.Contract.{
  trimmed, trimmed_chain, HasMemory, make_room_lem, cache_add_lem, cache_add_no_memory,
  cache_add_no_size,
}
use proxy_server_in_c.Common.Int.{int_leb}
use proxy_server_in_c.Cache.Depth.{position, position-front, position-evict}

-- The links and chains are in order, and there are at most 1024 entries.
pub record WellFormed (s : Cache) : Type 0 where
  pub lru : List Ptr
  pub chain : ℕ → List Ptr
  pub rep : Rep s lru chain
  pub bounded : length lru ≤ cache_size
  pub max_size : s.max_size ≡ pos cache_size

-- `malloc` answers `NULL` or an address that holds no node when it is called. That is after
-- `make_room`, of which this says nothing else: it holds of every answer where `make_room` faults.
pub record MallocIsFresh (alloc : Alloc) (s : Cache) : Type 0 where
  pub fresh : (t : Cache) → make_room s ≡ ok tt t → t.live alloc.node ≡ false

pub fresh_of_Returns :
    {alloc : Alloc} {s : Cache}
    → Returns (λ _ t. t.live alloc.node ≡ false) (make_room s)
    → MallocIsFresh alloc s
fresh_of_Returns r = record { fresh = λ t e. Returns-at r e }

-- Every entry of `s` with less than 1023 before it has sunk by one place at most, and its node holds
-- what it held.
pub record IsAged {s t : Cache} (w : WellFormed s) (v : WellFormed t) : Type 0 where
  pub stays :
      (p : Ptr)
      → has p w.lru ≡ true
      → position p w.lru + 1 < cache_size
      → (has p v.lru ≡ true)
        × (position p v.lru ≤ position p w.lru + 1)
        × (t.url p ≡ s.url p)
        × (t.payload p ≡ s.payload p)
        × (t.data_size p ≡ s.data_size p)

-- After `make_room` there is room.
trimmed_bound :
    (s : Cache) (lru : List Ptr)
    → s.current_size ≡ pos (length lru)
    → s.max_size ≡ pos cache_size
    → length lru ≤ cache_size
    → length (trimmed s lru) < cache_size
trimmed_bound s [] size max bound = ground arith
trimmed_bound s (a ∷ l) size max bound =
    ground (arith, length-remove (last a l) (a ∷ l) (last_mem a l))

module _ {s : Cache} (w : WellFormed s) where
  pub unchanged : IsAged w w
  unchanged = record { stays = λ p m deep. (m, omega arith, refl, refl, refl) }

  -- A hit comes to the front.
  pub cache_get-IsFirst :
      (url : Bytes) (now : ℕ)
      → Returns
          (λ p t.
            (v : WellFormed t) × IsAged w v
            × ((p ≡ null) ⊎ ((has p v.lru ≡ true) × (position p v.lru ≡ 0))))
          (cache_get url now s)
  cache_get-IsFirst url now = elim (Bool-cases (newest w.rep url == null)) [
    | inl z ↦ rw (miss_of_found w.rep url now (ground arith)) (returns (w, unchanged, inl refl))
    | inr z ↦ elim (Bool-cases (ltb (now - s.timestamp (newest w.rep url)) cache_expiry_time)) [
      | inl y ↦
          Returns-weaken (cache_get_hit w.rep url now (λ q. ground arith) (ground arith))
            (λ p t (_, mem, _, rep, same). (
              record {
                lru = p ∷ remove p w.lru;
                chain = w.chain;
                rep = rep;
                bounded = omega (arith, length-remove p w.lru mem, w.bounded);
                max_size = same.max_size ∙ w.max_size;
              },
              record {
                stays = λ x m deep.
                    let (there, up) = position-front x p w.lru m in
                    (
                      there,
                      up,
                      ap (λ f. f x) same.url,
                      ap (λ f. f x) same.payload,
                      ap (λ f. f x) same.data_size,
                    );
              },
              inr (ground arith, ground arith),
            ))
      | inr y ↦ rw (miss_of_found w.rep url now (ground arith)) (returns (w, unchanged, inl refl))
    ]
  ]

  pub cache_get-IsAged :
      (url : Bytes) (now : ℕ)
      → Returns (λ _ t. (v : WellFormed t) × IsAged w v) (cache_get url now s)
  cache_get-IsAged url now =
      Returns-weaken (cache_get-IsFirst url now) (λ _ t (v, aged, _). (v, aged))

  pub room : length (trimmed s w.lru) < cache_size
  room = trimmed_bound s w.lru w.rep.size w.max_size w.bounded

  spared :
      (p : Ptr)
      → has p w.lru ≡ true
      → position p w.lru + 1 < cache_size
      → (has p (trimmed s w.lru) ≡ true) × (position p (trimmed s w.lru) ≤ position p w.lru)
  spared p m deep = elim (Bool-cases (int_leb s.max_size s.current_size)) [
    | inr room ↦ rw room (m, omega arith)
    | inl full ↦ rw full (
        position-evict p w.lru w.rep.list.distinct m
          (ground (arith, rw (w.max_size, w.rep.size) at full, deep)))
  ]

  pub fresh_address :
      (alloc : Alloc) → MallocIsFresh alloc s → has alloc.node (trimmed s w.lru) ≡ false
  fresh_address alloc m =
      let (_, t, e, q) = Returns-value (make_room_lem w.rep) in
      sym (q.0.list.live alloc.node) ∙ m.fresh t e

  pub cache_add-IsAged :
      (alloc : Alloc) (url bytes : Bytes) (size : ℤ) (now : ℕ)
      → pos_part size ≤ length bytes
      → MallocIsFresh alloc s
      → Returns (λ _ t. (v : WellFormed t) × IsAged w v) (cache_add alloc url bytes size now s)
  cache_add-IsAged alloc url bytes size now readable m = elim (Bool-cases (positive size)) [
    | inr z ↦ rw (cache_add_no_size s alloc url bytes size now z) (returns (w, unchanged))
    | inl z ↦ elim (Bool-cases (alloc.node == null || not alloc.url || not alloc.payload)) [
      | inl fails ↦
          Returns-weaken (cache_add_no_memory w.rep alloc url bytes size now z fails)
            (λ n t (_, rep, same). (
              record {
                lru = trimmed s w.lru;
                chain = trimmed_chain s w.lru w.chain;
                rep = rep;
                bounded = omega (arith, room);
                max_size = same.max_size ∙ w.max_size;
              },
              record {
                stays = λ x m deep.
                    let (there, up) = spared x m deep in
                    (
                      there,
                      omega (arith, up),
                      ap (λ f. f x) same.url,
                      ap (λ f. f x) same.payload,
                      ap (λ f. f x) same.data_size,
                    );
              },
            ))
      | inr there ↦
          let memory : HasMemory alloc s w.lru = record {
            not_null = λ q. ground arith;
            fresh = fresh_address alloc m;
            for_url = ground arith;
            for_payload = ground arith;
          } in
          Returns-weaken (cache_add_lem w.rep alloc url bytes size now z readable memory)
            (λ n t (_, rep, f). (
              record {
                lru = alloc.node ∷ trimmed s w.lru;
                chain = pushed (cache_hash url) alloc.node (trimmed_chain s w.lru w.chain);
                rep = rep;
                bounded = omega (arith, room);
                max_size = f.max_size ∙ w.max_size;
              },
              record {
                stays = λ x m deep.
                    let (there, up) = spared x m deep in
                    let ne : x ≢ alloc.node = λ e. ground (arith, memory.fresh, there) in
                    (
                      ground (arith, there),
                      ground (arith, up),
                      f.keys x ne,
                      f.copies x ne,
                      f.sizes x ne,
                    );
              },
            ))
    ]
  ]
