-- ===== src/Cache/Refine/Runs.antt =====
-- Runs of requests against the list of entries.
use proxy_server_in_c.Common.{◌∙◌, sym, ℕ, ◌≡◌, refl, ap, Bool, List, [], ◌∷◌, arith, some}
use proxy_server_in_c.Common.Run.{
  Run, ok, fault, out_of_fuel, Returns, returns, Returns-then, Returns-value,
}
use proxy_server_in_c.Cache.{Cache, cache_hash, empty_cache, cache_create}
use proxy_server_in_c.Cache.Keep.{keep, length-keep-le}
use proxy_server_in_c.Cache.Sweep.{is_young, cache_remove_expired_lem}
use proxy_server_in_c.Cache.Rep.{empty_cache-Rep}
use proxy_server_in_c.Cache.Spec.{
  Entry, Request, get, add, expire, drop_old, spec_step, spec_run, cache_step, cache_run,
}
use proxy_server_in_c.Cache.Recency.{entries, has_url, keep_comm, drop_old-entries}
use proxy_server_in_c.Cache.Refine.{Refines, Follows, IsAllowed, entries-same, get-Refines}
use proxy_server_in_c.Cache.Refine.Add.{add-Refines}

module _ {s : Cache} {l : List Entry} (r : Refines s l) where
  expire-Refines : (now : ℕ) → Returns (Follows (expire now) l) (cache_step (expire now) s)
  unfolding cache_step spec_step
  expire-Refines now = Returns-then (cache_remove_expired_lem r.wf.rep now) (λ _ t (rep, same).
      let young = is_young s now in
      returns (
        refl,
        record {
          wf = record {
            lru = keep young r.wf.lru;
            chain = λ i. keep young (r.wf.chain i);
            rep = rep;
            bounded = omega (arith, length-keep-le young r.wf.lru, r.wf.bounded);
            max_size = same.max_size ∙ r.wf.max_size;
          };
          agrees = λ url. rw same.url (
              keep_comm (has_url s.url url) young r.wf.lru
              ∙ ap (keep young) (r.agrees url)
              ∙ sym (keep_comm (has_url s.url url) young (r.wf.chain (cache_hash url))));
          view =
              entries-same (keep young r.wf.lru) same
              ∙ sym (drop_old-entries s now r.wf.lru)
              ∙ ap (drop_old now) r.view;
        },
      ))

  pub step-Refines : (q : Request) → IsAllowed q s → Returns (Follows q l) (cache_step q s)
  step-Refines (get url now) allowed = get-Refines r url now
  step-Refines (add alloc url bytes size now) allowed =
      add-Refines r alloc url bytes size now allowed
  step-Refines (expire now) allowed = expire-Refines now

-- `P` of the cache that a run leaves, if it leaves one.
abbrev pub Leaves : {A : Type 0} → (Cache → Type 0) → Run Cache A → Type 0
Leaves P (ok a s) = P s
Leaves P fault = Unit
Leaves P out_of_fuel = Unit

-- Each request is allowed when its turn comes.
abbrev pub AreAllowed : List Request → Cache → Type 0
AreAllowed [] s = Unit
AreAllowed (q ∷ qs) s = IsAllowed q s × Leaves (AreAllowed qs) (cache_step q s)

cache_run-Refines :
    (qs : List Request) {s : Cache} {l : List Entry}
    → Refines s l
    → AreAllowed qs s
    → Returns (λ answers _. answers ≡ spec_run qs l) (cache_run qs s)
unfolding cache_run spec_run
cache_run-Refines [] r allowed = returns refl
cache_run-Refines (q ∷ qs) {s} {l} r (now, later) =
    let (a, t, e, (same, r')) = Returns-value (step-Refines r q now) in
    rw e (
      Returns-then (cache_run-Refines qs r' (rw e at later))
        (λ rest u e'. returns (rw (same, e') refl)))

-- The cache in memory answers like one list of entries in the order of their last use. Any run of
-- `cache_get`, `cache_add` and `cache_remove_expired` on a cache that `cache_create` has made, where
-- `malloc` gives no address in use and `data` holds `size` bytes, returns, and its answers are those
-- of the list from the empty one on: a look-up finds the most recently used entry with the URL, if
-- it is younger than 300 seconds, and brings it to the front; a full list loses its last entry
-- before a new one goes in front; expiry drops the entries of 300 seconds or more. The answer of a
-- look-up is the URL, the data, the size and the time stamp that its node holds when it is returned.
pub cache_run_lem :
    (malloc_cache malloc_table mutex_init : Bool) {s : Cache}
    → cache_create malloc_cache malloc_table mutex_init ≡ some s
    → (qs : List Request) → AreAllowed qs s
    → Returns (λ answers _. answers ≡ spec_run qs []) (cache_run qs s)
unfolding cache_create entries keep
cache_run_lem m t x {s} h qs allowed =
    let e : s ≡ empty_cache = ground arith in
    cache_run-Refines qs
      (rw e (record {
        wf = record {
          lru = [];
          chain = λ _. [];
          rep = empty_cache-Rep;
          bounded = omega arith;
          max_size = refl;
        };
        agrees = λ url. refl;
        view = refl;
      }))
      allowed
