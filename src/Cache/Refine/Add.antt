-- ===== src/Cache/Refine/Add.antt =====
-- `cache_add` against the list of entries.
use proxy_server_in_c.Common.{
  ◌∙◌, sym, ℕ, ◌≡◌, ◌≢◌, refl, ap, true, false, List, ◌∷◌, ◌==◌, leb, arith, length, take, inl, inr,
  Bool-cases, Bytes, bytes_eq, bytes_eq_iff,
}
use proxy_server_in_c.Common.Int.{ℤ, positive, pos_part, int_leb}
use proxy_server_in_c.Common.Run.{Returns, returns, Returns-then, Returns-value}
use proxy_server_in_c.Cache.{Cache, Ptr, cache_size, cache_hash, Alloc}
use proxy_server_in_c.Cache.Order.{has, last, remove}
use proxy_server_in_c.Cache.Rep.{SameNodes}
use proxy_server_in_c.Cache.Keep.{keep}
use proxy_server_in_c.Cache.Add.{pushed, Filled}
use proxy_server_in_c.Cache.Contract.{
  trimmed, trimmed_chain, HasMemory, make_room_lem, cache_add_lem, cache_add_no_memory,
  cache_add_no_size,
}
use proxy_server_in_c.Cache.Aging.{WellFormed, room, fresh_address}
use proxy_server_in_c.Cache.Spec.{
  Entry, add, added, drop_last, vacate, lacks_memory, spec_step, contents, cache_step,
}
use proxy_server_in_c.Cache.Recency.{
  entries, has_url, entries_ext, length-entries, keep_ext, keep-remove_comm, drop_last-entries,
}
use proxy_server_in_c.Cache.Refine.{Refines, Follows, IsAllowed, entries-same}

module _ {s : Cache} {l : List Entry} (r : Refines s l) where
  trimmed-agrees :
      (url : Bytes)
      → keep (has_url s.url url) (trimmed s r.wf.lru)
        ≡ keep (has_url s.url url) (trimmed_chain s r.wf.lru r.wf.chain (cache_hash url))
  trimmed-agrees url = elim (Bool-cases (int_leb s.max_size s.current_size)) [
    | inl full ↦ rw full (
        keep-remove_comm (has_url s.url url) (last 0 r.wf.lru) r.wf.lru
        ∙ ap (remove (last 0 r.wf.lru)) (r.agrees url)
        ∙ sym
            (keep-remove_comm (has_url s.url url) (last 0 r.wf.lru) (r.wf.chain (cache_hash url))))
    | inr space ↦ rw space (r.agrees url)
  ]

  trimmed-view : entries (contents s) (trimmed s r.wf.lru) ≡ vacate l
  trimmed-view =
      let lengths : length l ≡ length r.wf.lru =
        rw (← r.view) (length-entries (contents s) r.wf.lru) in
      let same : int_leb s.max_size s.current_size ≡ leb cache_size (length l) =
        rw (r.wf.max_size, r.wf.rep.size, lengths) refl in
      elim (Bool-cases (leb cache_size (length l))) [
        | inl full ↦
            rw (same, full)
              (sym (drop_last-entries s r.wf.lru r.wf.rep.list.distinct) ∙ ap drop_last r.view)
        | inr space ↦ rw (same, space) r.view
      ]

  add_failed :
      {t : Cache} (w : WellFormed t)
      → w.lru ≡ trimmed s r.wf.lru
      → w.chain ≡ trimmed_chain s r.wf.lru r.wf.chain
      → SameNodes s t
      → Refines t (vacate l)
  add_failed w list chains same = record {
    wf = w;
    agrees = λ url. rw (same.url, list, chains) (trimmed-agrees url);
    view = rw list (entries-same (trimmed s r.wf.lru) same ∙ trimmed-view);
  }

  module _ (p : Ptr) (url bytes : Bytes) (size now : ℕ) {t : Cache}
      (f : Filled p url bytes size now s t) (fresh : has p (trimmed s r.wf.lru) ≡ false) where
    chain_fresh : (i : ℕ) → has p (trimmed_chain s r.wf.lru r.wf.chain i) ≡ false
    chain_fresh i =
        let (_, u, _, (rep, _)) = Returns-value (make_room_lem r.wf.rep) in
        ground (arith, rep.table.member i p)

    -- The nodes that were there before have the URLs that they had.
    keep-others :
        (u : Bytes) (c : List Ptr)
        → has p c ≡ false
        → keep (has_url t.url u) c ≡ keep (has_url s.url u) c
    keep-others u c absent =
        keep_ext (has_url t.url u) (has_url s.url u) c
          (λ x m. let ne : x ≢ p = λ e. ground arith in ap (λ k. bytes_eq k u) (f.keys x ne))

    olds :
        (u : Bytes)
        → keep (has_url t.url u) (trimmed s r.wf.lru)
          ≡ keep (has_url t.url u) (trimmed_chain s r.wf.lru r.wf.chain (cache_hash u))
    olds u =
        keep-others u (trimmed s r.wf.lru) fresh
        ∙ trimmed-agrees u
        ∙ sym (keep-others u _ (chain_fresh (cache_hash u)))

    filled-agrees :
        (w : WellFormed t)
        → w.lru ≡ p ∷ trimmed s r.wf.lru
        → w.chain ≡ pushed (cache_hash url) p (trimmed_chain s r.wf.lru r.wf.chain)
        → (u : Bytes)
        → keep (has_url t.url u) w.lru ≡ keep (has_url t.url u) (w.chain (cache_hash u))
    unfolding keep
    filled-agrees w list chains u = elim (Bool-cases (bytes_eq (t.url p) u)) [
      | inl e ↦
          let q : url ≡ u = sym f.key ∙ (bytes_eq_iff (t.url p) u).0 e in
          let here : (cache_hash url == cache_hash u) ≡ true = rw q (ground arith) in
          rw (list, chains, here, keep, e) (ap (λ c. p ∷ c) (olds u))
      | inr e ↦ elim (Bool-cases (cache_hash url == cache_hash u)) [
        | inl here ↦ rw (list, chains, here, keep, e) (olds u)
        | inr there ↦ rw (list, chains, there, keep, e) (olds u)
      ]
    ]

    filled-entry :
        contents t p ≡ record { url = url; payload = bytes; data_size = size; stamp = now }
    filled-entry = rw (f.key, f.copy, f.copied, f.stamp) refl

    filled-rest : entries (contents t) (trimmed s r.wf.lru) ≡ vacate l
    filled-rest =
        entries_ext (contents t) (contents s) (trimmed s r.wf.lru) (λ x m.
          let ne : x ≢ p = λ e. ground arith in
          rw (f.keys x ne, f.copies x ne, f.sizes x ne, f.stamps x ne) refl)
        ∙ trimmed-view

module _ {s : Cache} {l : List Entry} (r : Refines s l) where
  added-Refines :
      (alloc : Alloc) (url bytes : Bytes) (size now : ℕ)
      → HasMemory alloc s r.wf.lru
      → {t : Cache} (w : WellFormed t) → w.lru ≡ alloc.node ∷ trimmed s r.wf.lru
      → w.chain ≡ pushed (cache_hash url) alloc.node (trimmed_chain s r.wf.lru r.wf.chain)
      → Filled alloc.node url bytes size now s t
      → Refines t (record { url = url; payload = bytes; data_size = size; stamp = now } ∷ vacate l)
  unfolding entries
  added-Refines alloc url bytes size now memory {t} w list chains f = record {
    wf = w;
    agrees = filled-agrees r alloc.node url bytes size now f memory.fresh w list chains;
    view =
        ap (entries (contents t)) list
        ∙ ap (λ e. e ∷ entries (contents t) (trimmed s r.wf.lru))
            (filled-entry r alloc.node url bytes size now f memory.fresh)
        ∙ ap (λ m. record { url = url; payload = bytes; data_size = size; stamp = now } ∷ m)
            (filled-rest r alloc.node url bytes size now f memory.fresh);
  }

  pub add-Refines :
      (alloc : Alloc) (url bytes : Bytes) (size : ℤ) (now : ℕ)
      → IsAllowed (add alloc url bytes size now) s
      → Returns
          (Follows (add alloc url bytes size now) l)
          (cache_step (add alloc url bytes size now) s)
  unfolding cache_step spec_step
  add-Refines alloc url bytes size now (readable, m) = elim (Bool-cases (positive size)) [
    | inr z ↦ rw (cache_add_no_size s alloc url bytes size now z) (returns (rw z refl, rw z r))
    | inl z ↦ elim (Bool-cases (lacks_memory alloc)) [
      | inl fails ↦
          Returns-then (cache_add_no_memory r.wf.rep alloc url bytes size now z fails)
            (λ n t (e, rep, same).
              let w : WellFormed t = record {
                lru = trimmed s r.wf.lru;
                chain = trimmed_chain s r.wf.lru r.wf.chain;
                rep = rep;
                bounded = omega (arith, room r.wf);
                max_size = same.max_size ∙ r.wf.max_size;
              } in
              returns (rw (z, fails) (ap added e), rw (z, fails) (add_failed r w refl refl same)))
      | inr there ↦
          let memory : HasMemory alloc s r.wf.lru = record {
            not_null = λ q. ground arith;
            fresh = fresh_address r.wf alloc m;
            for_url = ground arith;
            for_payload = ground arith;
          } in
          Returns-then (cache_add_lem r.wf.rep alloc url bytes size now z readable memory)
            (λ n t (e, rep, f).
              let w : WellFormed t = record {
                lru = alloc.node ∷ trimmed s r.wf.lru;
                chain = pushed (cache_hash url) alloc.node (trimmed_chain s r.wf.lru r.wf.chain);
                rep = rep;
                bounded = omega (arith, room r.wf);
                max_size = f.max_size ∙ r.wf.max_size;
              } in
              returns (
                rw (z, there) (ap added e),
                rw (z, there)
                    (added-Refines alloc url (take (pos_part size) bytes) (pos_part size) now memory
                      w refl refl f),
              ))
    ]
  ]
