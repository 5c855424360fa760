-- ===== src/Cache/Refine.antt =====
-- src/components/cache.c against the list of entries of Cache/Spec.antt: what a cache stands for, and
-- `cache_get`.
pub mod Add
pub mod Runs
use mathlib.Core.Path.{fun_ext}
use proxy_server_in_c.Common.{
  ◌∙◌, sym, ℕ, ◌+◌, ◌-◌, ◌≤◌, ◌<◌, ◌≡◌, ◌≢◌, refl, ap, Bool, true, false, not, ◌||◌, List, [], ◌∷◌,
  ◌==◌, ltb, leb, if◌then◌else◌, arith, length, take, Option, none, some, inl, inr, Bool-cases,
  Bytes, bytes_eq, bytes_eq_iff,
}
use proxy_server_in_c.Common.Int.{ℤ, pos, positive, pos_part, int_leb}
use proxy_server_in_c.Common.Run.{
  Run, ok, fault, out_of_fuel, and_then, Returns, returns, Returns-weaken, Returns-then,
  Returns-value,
}
use proxy_server_in_c.Cache.{
  Cache, Ptr, null, cache_size, cache_hash, cache_expiry_time, empty_cache, Alloc, cache_create,
  cache_add, cache_get,
}
use proxy_server_in_c.Cache.Order.{has, last, remove, length-remove}
use proxy_server_in_c.Cache.Rep.{SameNodes, empty_cache-Rep}
use proxy_server_in_c.Cache.Get.{first_with, newest, cache_get_hit, miss_of_found}
use proxy_server_in_c.Cache.Get
use proxy_server_in_c.Cache.Keep.{keep, length-keep-le}
use proxy_server_in_c.Cache.Sweep.{is_young, cache_remove_expired_lem}
use proxy_server_in_c.Cache.Add.{pushed, Filled}
use proxy_server_in_c.Cache.Contract.{
  trimmed, trimmed_chain, HasMemory, make_room_lem, cache_add_lem, cache_add_no_memory,
  cache_add_no_size,
}
use proxy_server_in_c.Cache.Aging.{WellFormed, MallocIsFresh, room, fresh_address}
use proxy_server_in_c.Cache.Spec.{
  Entry, Request, get, add, expire, Answer, found, added, swept, lookup, without, drop_last, vacate,
  drop_old, lacks_memory, spec_step, spec_run, contents, answer_at, cache_step, cache_run,
}
use proxy_server_in_c.Cache.Recency.{
  entries, has_url, entries_ext, length-entries, keep_ext, keep_comm, keep-remove_comm, keep-front,
  first_with-keep, lookup-entries, without-entries, drop_last-entries, drop_old-entries,
}

-- What the program sees to: `data` holds `size` bytes, and `malloc` gives no address in use.
abbrev pub IsAllowed : Request → Cache → Type 0
IsAllowed (get url now) s = Unit
IsAllowed (add alloc url bytes size now) s = (pos_part size ≤ length bytes) × MallocIsFresh alloc s
IsAllowed (expire now) s = Unit

-- A well-formed cache that stands for the list of entries `l`. The nodes with one URL stand in the
-- same order in the list and in the chain of its bucket.
pub record Refines (s : Cache) (l : List Entry) : Type 0 where
  pub wf : WellFormed s
  pub agrees :
      (url : Bytes)
      → keep (has_url s.url url) wf.lru ≡ keep (has_url s.url url) (wf.chain (cache_hash url))
  pub view : entries (contents s) wf.lru ≡ l

-- The answer and the cache are what the list of entries says.
abbrev pub Follows : Request → List Entry → Answer → Cache → Type 0
Follows q l a t = (a ≡ (spec_step q l).0) × Refines t (spec_step q l).1

pub contents-same : {s t : Cache} → SameNodes s t → contents t ≡ contents s
contents-same n = rw (n.url, n.payload, n.data_size, n.timestamp) refl

pub entries-same :
    {s t : Cache} (l : List Ptr) → SameNodes s t → entries (contents t) l ≡ entries (contents s) l
entries-same {s} {t} l n = ap (λ f. entries f l) (contents-same n)

module _ {s : Cache} {l : List Entry} (r : Refines s l) where
  newest-lru : (url : Bytes) → newest r.wf.rep url ≡ first_with s.url url r.wf.lru
  newest-lru url =
      sym (first_with-keep s.url url (r.wf.chain (cache_hash url)))
      ∙ ap (first_with s.url url) (sym (r.agrees url))
      ∙ first_with-keep s.url url r.wf.lru

  lookup-found :
      (url : Bytes) (now : ℕ) → lookup url now l ≡ answer_at s (Get.found s url now r.wf.lru)
  lookup-found url now = rw (← r.view) (lookup-entries s url now r.wf.lru r.wf.rep.list.no_null)

  found_same :
      (url : Bytes) (now : ℕ)
      → Get.found s url now (r.wf.chain (cache_hash url)) ≡ Get.found s url now r.wf.lru
  found_same url now = rw (newest-lru url) refl

  get_miss :
      (url : Bytes) (now : ℕ)
      → Get.found s url now r.wf.lru ≡ null
      → Returns (Follows (get url now) l) (cache_step (get url now) s)
  unfolding cache_step spec_step
  get_miss url now miss =
      let absent : lookup url now l ≡ none = rw (lookup-found url now, miss) refl in
      let gone = miss_of_found r.wf.rep url now (found_same url now ∙ miss) in
      rw gone (returns (rw absent refl, rw absent r))

  -- What a hit leaves: its node in front of the list.
  hit-Refines :
      (url : Bytes) (p : Ptr) {t : Cache}
      → first_with s.url url r.wf.lru ≡ p
      → p ≢ null
      → (w : WellFormed t) → w.lru ≡ p ∷ remove p r.wf.lru
      → w.chain ≡ r.wf.chain
      → SameNodes s t
      → Refines t (contents s p ∷ without url l)
  unfolding entries
  hit-Refines url p {t} it nz w front chains same = record {
    wf = w;
    agrees = λ other.
        rw (same.url, front, chains) (keep-front s.url url other p r.wf.lru it nz ∙ r.agrees other);
    view =
        ap (entries (contents t)) front
        ∙ entries-same (p ∷ remove p r.wf.lru) same
        ∙ ap (λ m. contents s p ∷ m)
            (sym (without-entries s url p r.wf.lru it nz) ∙ ap (without url) r.view);
  }

  get_hit :
      (url : Bytes) (now : ℕ) (p : Ptr)
      → first_with s.url url r.wf.lru ≡ p
      → p ≢ null
      → now - s.timestamp p < cache_expiry_time
      → Returns (Follows (get url now) l) (cache_step (get url now) s)
  unfolding cache_step spec_step
  get_hit url now p it nz young =
      let q : newest r.wf.rep url ≡ p = newest-lru url ∙ it in
      let hit : lookup url now l ≡ some (contents s p) = rw (lookup-found url now) (ground arith) in
      Returns-then (cache_get_hit r.wf.rep url now (λ z. nz (sym q ∙ z)) (rw q young))
        (λ p' t (e, mem, key, rep, same).
          let e' : p' ≡ p = e ∙ q in
          let nz' : (p == null) ≡ false = ground arith in
          let entry : contents t p ≡ contents s p = ap (λ f. f p) (contents-same same) in
          let w : WellFormed t = record {
            lru = p' ∷ remove p' r.wf.lru;
            chain = r.wf.chain;
            rep = rep;
            bounded = omega (arith, length-remove p' r.wf.lru mem, r.wf.bounded);
            max_size = same.max_size ∙ r.wf.max_size;
          } in
          returns (
            rw (hit, e', nz') (ap (λ x. found (some x)) entry),
            rw hit (hit-Refines url p it nz w (rw e' refl) refl same),
          ))

  pub get-Refines :
      (url : Bytes) (now : ℕ) → Returns (Follows (get url now) l) (cache_step (get url now) s)
  get-Refines url now = elim (Bool-cases (first_with s.url url r.wf.lru == null)) [
    | inl z ↦ get_miss url now (ground arith)
    | inr z ↦
        elim (Bool-cases
          (ltb (now - s.timestamp (first_with s.url url r.wf.lru)) cache_expiry_time)) [
            | inl y ↦ get_hit url now _ refl (λ q. ground arith) (ground arith)
            | inr y ↦ get_miss url now (ground arith)
          ]
  ]
