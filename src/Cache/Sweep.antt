-- ===== src/Cache/Sweep.antt =====
-- `cache_remove_expired` on a cache in memory.
use mathlib.Core.List.{append_assoc}
use mathlib.Core.Path.{fun_ext, subst}
use proxy_server_in_c.Common.{
  ℕ, zero, suc, ◌+◌, ◌-◌, ◌<◌, ◌≡◌, ◌∙◌, sym, ap, refl, Bool, true, false, not, List, [], ◌∷◌, ◌++◌,
  ◌==◌, leb, arith, length, inl, inr, Bool-cases,
}
use proxy_server_in_c.Common.Run.{ok, Returns, returns, Returns-then, Returns-weaken}
use proxy_server_in_c.Cache.{
  Cache, Ptr, null, cache_hash, cache_expiry_time, hash_table_size, load, rounds,
}
use proxy_server_in_c.Cache.Order.{has, Distinct, first, last, before, remove, mem-remove}
use proxy_server_in_c.Cache.Rep.{Rep, SameNodes, load_live}
use proxy_server_in_c.Cache.Get.{chain_links, length-chain-lt}
use proxy_server_in_c.Cache.Hash.{cache_hash-djb2}
use proxy_server_in_c.Cache.Discard.{same_nodes}
use proxy_server_in_c.Cache.Unlink.{Unlinked-Rep}
use proxy_server_in_c.Cache.Expire.{
  drop_expired, follow, expire_chain, expire_buckets, cache_remove_expired,
}
use proxy_server_in_c.Cache.Drop.{drop_expired-Unlinked}
use proxy_server_in_c.Cache.Keep.{
  keep, keep-remove, keep_all, has-append, split_absent, before-split, remove-split, after-split,
  last-append, last-has, after_mid,
}

-- Stored less than 300 seconds ago.
abbrev pub is_young : Cache → (now : ℕ) → Ptr → Bool
is_young s now x = not (leb cache_expiry_time (now - s.timestamp x))

module _ {s : Cache} {lru : List Ptr} {chain : ℕ → List Ptr} (r : Rep s lru chain) (i : ℕ)
    (rest : List Ptr) where
  -- Where the loop goes on behind `pre`.
  follow-split :
      (pre : List Ptr) → chain i ≡ pre ++ rest → follow i (last 0 pre) s ≡ ok (first rest) s
  unfolding follow load
  follow-split [] e = rw (r.table.bucket i, e) refl
  follow-split (a ∷ pre) e =
      let p = last a pre in
      let d : Distinct (a ∷ pre ++ rest) = rw e at (r.table.distinct i) in
      let mem : has p (chain i) ≡ true =
        rw e (ground (arith, has-append p (a ∷ pre) rest, last-has a pre)) in
      let (live, nz, next) = chain_links r i p mem in
      let nz' : (p == null) ≡ false = ground arith in
      let next' : s.next p ≡ first rest = next ∙ rw e (after-split a pre rest d) in
      rw (nz', live, next') refl

SameNodes-trans : {s t u : Cache} → SameNodes s t → SameNodes t u → SameNodes s u
SameNodes-trans a b = record {
  url = b.url ∙ a.url;
  payload = b.payload ∙ a.payload;
  data_size = b.data_size ∙ a.data_size;
  timestamp = b.timestamp ∙ a.timestamp;
  max_size = b.max_size ∙ a.max_size;
}

-- The state of the loops before bucket `k`, against the cache that they started with.
record IsSwept (now : ℕ) (s : Cache) (all_lru : List Ptr) (all_chains : ℕ → List Ptr) (k : ℕ)
    (t : Cache) : Type 0 where
  lru : List Ptr
  chain : ℕ → List Ptr
  rep : Rep t lru chain
  same : SameNodes s t
  kept : keep (is_young s now) lru ≡ keep (is_young s now) all_lru
  chains : (j : ℕ) → keep (is_young s now) (chain j) ≡ keep (is_young s now) (all_chains j)
  swept : (x : Ptr) → has x lru ≡ true → cache_hash (s.url x) < k → is_young s now x ≡ true

module _ {now : ℕ} {s : Cache} {all_lru : List Ptr} {all_chains : ℕ → List Ptr} where
  -- An expired node is dropped at its place in the chain.
  drop_expired-IsSwept :
      (k i : ℕ) (p : Ptr) {t : Cache} (w : IsSwept now s all_lru all_chains k t)
      → has p (w.chain i) ≡ true
      → is_young s now p ≡ false
      → Returns
          (λ _ u. (v : IsSwept now s all_lru all_chains k u) × (v.chain i ≡ remove p (w.chain i)))
          (drop_expired i p (before 0 (w.chain i) p) t)
  drop_expired-IsSwept k i p {t} w mem old =
      let young = is_young s now in
      let in_lru : has p w.lru ≡ true = ground (arith, w.rep.table.member i p) in
      let home : cache_hash (t.url p) ≡ i = ground (arith, w.rep.table.member i p) in
      subst
        (λ j.
          Returns
            (λ _ u. (v : IsSwept now s all_lru all_chains k u) × (v.chain j ≡ remove p (w.chain j)))
            (drop_expired j p (before 0 (w.chain j) p) t))
        home
        (Returns-weaken (drop_expired-Unlinked w.rep p in_lru) (λ _ u (un, same). (
          record {
            lru = remove p w.lru;
            chain = λ j. remove p (w.chain j);
            rep = Unlinked-Rep w.rep p in_lru un;
            same = SameNodes-trans w.same same;
            kept = keep-remove young p w.lru old ∙ w.kept;
            chains = λ j. keep-remove young p (w.chain j) old ∙ w.chains j;
            swept = λ x m h. w.swept x (mem-remove x p w.lru w.rep.list.distinct m).1 h;
          },
          refl,
        )))

  -- The loop over the chain of bucket `i`, behind `pre`.
  expire_chain-IsSwept :
      (fuel i : ℕ) (t : Cache) (w : IsSwept now s all_lru all_chains i t) (pre rest : List Ptr)
      → w.chain i ≡ pre ++ rest
      → ((x : Ptr) → has x pre ≡ true → is_young s now x ≡ true)
      → length rest < fuel
      → Returns
          (λ _ u. IsSwept now s all_lru all_chains (suc i) u)
          (expire_chain fuel now i (first rest) (last 0 pre) t)
  unfolding expire_chain
  expire_chain-IsSwept zero i t w pre rest e young enough = absurd (omega arith)
  expire_chain-IsSwept (suc fuel) i t w pre [] e young enough = returns (record {
    lru = w.lru;
    chain = w.chain;
    rep = w.rep;
    same = w.same;
    kept = w.kept;
    chains = w.chains;
    swept = λ x m h. elim (Bool-cases (cache_hash (s.url x) == i)) [
      | inl here ↦
          let url : t.url x ≡ s.url x = ap (λ f. f x) w.same.url in
          let in_chain : has x (w.chain i) ≡ true = ground (arith, w.rep.table.member i x, url) in
          young x (ground (arith, rw e at in_chain, has-append x pre []))
      | inr elsewhere ↦ w.swept x m (ground arith)
    ];
  })
  expire_chain-IsSwept (suc fuel) i t w pre (p ∷ rest) e young enough =
      let mem : has p (w.chain i) ≡ true = rw e (ground (arith, has-append p pre (p ∷ rest))) in
      let (live, nz, next) = chain_links w.rep i p mem in
      let nz' : (p == null) ≡ false = ground arith in
      let d : Distinct (pre ++ p ∷ rest) = rw e at (w.rep.table.distinct i) in
      let absent = split_absent p pre rest d in
      let before_it : before 0 (w.chain i) p ≡ last 0 pre =
        rw e (before-split 0 p pre rest absent) in
      let next' : t.next p ≡ first rest = next ∙ rw e (after_mid p pre rest absent) in
      let stamp : t.timestamp p ≡ s.timestamp p = ap (λ f. f p) w.same.timestamp in
      elim (Bool-cases (leb cache_expiry_time (now - s.timestamp p))) [
        | inl old ↦
            rw (expire_chain, nz', load_live (λ c. c.timestamp) p {s = t} live, stamp, old)
              (Returns-then (rw before_it at (drop_expired-IsSwept i i p w mem (ground arith)))
                (λ _ u (v, c).
                  let left : v.chain i ≡ pre ++ rest = c ∙ rw e (remove-split p pre rest absent) in
                  rw (follow-split v.rep i rest pre left)
                    (expire_chain-IsSwept fuel i u v pre rest left young (omega arith))))
        | inr fresh ↦
            rw
              (
                expire_chain,
                nz',
                load_live (λ c. c.timestamp) p {s = t} live,
                stamp,
                fresh,
                load_live (λ c. c.next) p {s = t} live,
                next',
              )
              (rw (last-append 0 p pre) at (
                expire_chain-IsSwept fuel i t w (pre ++ p ∷ []) rest
                  (e ∙ sym (append_assoc pre (p ∷ []) rest))
                  (λ x m. ground (arith, young x, has-append x pre (p ∷ []))) (omega arith)))
      ]

  -- The loop over the buckets.
  expire_buckets-IsSwept :
      (k i : ℕ) {t : Cache}
      → IsSwept now s all_lru all_chains i t
      → k + i ≡ hash_table_size
      → Returns
          (λ _ u. IsSwept now s all_lru all_chains hash_table_size u)
          (expire_buckets k i now t)
  unfolding expire_buckets
  expire_buckets-IsSwept zero i w e =
      let q : i ≡ hash_table_size = omega arith in rw (← q) (returns w)
  expire_buckets-IsSwept (suc k) i {t} w e =
      Returns-then
        (rw (← w.rep.table.bucket i) at (
          expire_chain-IsSwept (rounds t) i t w [] (w.chain i) refl (λ x m. ground arith)
            (length-chain-lt w.rep i)))
        (λ _ u v. expire_buckets-IsSwept k (suc i) v (omega arith))

-- What is left is exactly what was young.
IsSwept-Rep :
    {now : ℕ} {s t : Cache} {lru : List Ptr} {chain : ℕ → List Ptr}
    → IsSwept now s lru chain hash_table_size t
    → Rep t (keep (is_young s now) lru) (λ i. keep (is_young s now) (chain i)) × SameNodes s t
IsSwept-Rep {now} {s} {t} {lru} {chain} w =
    let young = is_young s now in
    let all : (x : Ptr) → has x w.lru ≡ true → young x ≡ true =
      λ x m. w.swept x m (cache_hash-djb2 (s.url x)).1 in
    let in_lru : (i : ℕ) (x : Ptr) → has x (w.chain i) ≡ true → has x w.lru ≡ true =
      λ i x m. ground (arith, w.rep.table.member i x) in
    let kept : w.lru ≡ keep young lru = sym (keep_all young w.lru all) ∙ w.kept in
    let chains : w.chain ≡ (λ i. keep young (chain i)) =
      fun_ext (λ i. sym (keep_all young (w.chain i) (λ x m. all x (in_lru i x m))) ∙ w.chains i) in
    (rw (← kept, ← chains) w.rep, w.same)

-- `cache_remove_expired` on any well-formed cache faults nowhere and ends. It drops and frees
-- exactly the entries that are 300 seconds old or more, from the list and from their chains; the
-- others keep their order in the list and in every chain, and their contents.
pub cache_remove_expired_lem :
    {s : Cache} {lru : List Ptr} {chain : ℕ → List Ptr}
    → Rep s lru chain
    → (now : ℕ)
    → Returns
        (λ _ t.
          Rep t (keep (is_young s now) lru) (λ i. keep (is_young s now) (chain i)) × SameNodes s t)
        (cache_remove_expired now s)
unfolding cache_remove_expired
cache_remove_expired_lem {s} {lru} {chain} r now =
    Returns-weaken
      (expire_buckets-IsSwept hash_table_size 0
        (record {
          lru = lru;
          chain = chain;
          rep = r;
          same = same_nodes {s = s};
          kept = refl;
          chains = λ j. refl;
          swept = λ x m h. absurd (omega arith);
        })
        refl)
      (λ _ t w. IsSwept-Rep w)
