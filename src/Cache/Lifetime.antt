-- ===== src/Cache/Lifetime.antt =====
-- How long the node that `cache_get` returns may be used: `forward_request_to_server` reads it after
-- the mutex is released, while other workers go on calling.
use proxy_server_in_c.Common.{
  ◌∙◌, ℕ, zero, suc, ◌+◌, ◌-◌, ◌≤◌, ◌<◌, ◌≡◌, ◌≢◌, sym, ap, true, ◌∷◌, ◌==◌, ltb, arith, length,
  inl, inr, Bool-cases, Bytes,
}
use proxy_server_in_c.Common.Int.{ℤ, pos_part}
use proxy_server_in_c.Common.Run.{ok, Returns-ok}
use proxy_server_in_c.Cache.{
  Cache, Ptr, null, cache_size, cache_expiry_time, Alloc, cache_add, cache_get,
}
use proxy_server_in_c.Cache.Order.{has, remove, length-remove}
use proxy_server_in_c.Cache.Rep.{live_of_mem}
use proxy_server_in_c.Cache.Get.{newest, cache_get_hit, miss_of_found}
use proxy_server_in_c.Cache.Depth.{position}
use proxy_server_in_c.Cache.Aging.{
  WellFormed, MallocIsFresh, IsAged, cache_get-IsAged, cache_add-IsAged,
}
use proxy_server_in_c.Cache.Safety.{Reachable, Reachable-WellFormed}

-- `n` calls of the workers, of `cache_get` or `cache_add`.
pub data Calls (s : Cache) : ℕ → Cache → Type 0 where
  no_call : Calls s zero s
  then_get :
      {n : ℕ} {t u : Cache}
      → Calls s n t
      → (url : Bytes) (now : ℕ) (p : Ptr) → cache_get url now t ≡ ok p u
      → Calls s (suc n) u
  then_add :
      {n : ℕ} {t u : Cache}
      → Calls s n t
      → (alloc : Alloc) (url bytes : Bytes) (size : ℤ) (now : ℕ) (k : ℤ)
      → pos_part size ≤ length bytes
      → MallocIsFresh alloc t
      → cache_add alloc url bytes size now t ≡ ok k u
      → Calls s (suc n) u

-- The node holds in `t` what it held in `s`, with at most `n` entries before it.
record IsKept (s t : Cache) (p : Ptr) (n : ℕ) : Type 0 where
  wf : WellFormed t
  there : has p wf.lru ≡ true
  depth : position p wf.lru ≤ n
  url : t.url p ≡ s.url p
  payload : t.payload p ≡ s.payload p
  data_size : t.data_size p ≡ s.data_size p

IsKept-call :
    {s t u : Cache} {p : Ptr} {n : ℕ} (k : IsKept s t p n) (v : WellFormed u)
    → IsAged k.wf v
    → n + 1 < cache_size
    → IsKept s u p (suc n)
IsKept-call {p = p} k v aged room =
    let (there, depth, url, payload, data_size) = aged.stays p k.there (omega (arith, k.depth)) in
    record {
      wf = v;
      there = there;
      depth = omega (arith, depth, k.depth);
      url = url ∙ k.url;
      payload = payload ∙ k.payload;
      data_size = data_size ∙ k.data_size;
    }

Calls-IsKept :
    {s t u : Cache} {p : Ptr} {n : ℕ}
    → IsKept s t p 0
    → Calls t n u
    → n < cache_size
    → IsKept s u p n
Calls-IsKept k no_call few = k
Calls-IsKept k (then_get calls url now q e) few =
    let l = Calls-IsKept k calls (omega arith) in
    let (v, aged) = Returns-ok (rw e at (cache_get-IsAged l.wf url now)) in
    IsKept-call l v aged (omega arith)
Calls-IsKept k (then_add calls alloc url bytes size now m readable fresh e) few =
    let l = Calls-IsKept k calls (omega arith) in
    let (v, aged) =
      Returns-ok (rw e at (cache_add-IsAged l.wf alloc url bytes size now readable fresh)) in
    IsKept-call l v aged (omega arith)

null_of_ok : {p q : Ptr} {s t : Cache} → ok p s ≡ ok q t → p ≡ q
null_of_ok e = ground (arith, e)

-- A result that is not null is a fresh entry.
hit_of_ok :
    {s t : Cache} (w : WellFormed s) (url : Bytes) (now : ℕ) {p : Ptr}
    → cache_get url now s ≡ ok p t
    → p ≢ null
    → (newest w.rep url ≢ null) × (now - s.timestamp (newest w.rep url) < cache_expiry_time)
hit_of_ok {s} w url now e nz = elim (Bool-cases (newest w.rep url == null)) [
  | inl z ↦ absurd (nz (sym (null_of_ok (rw (miss_of_found w.rep url now (ground arith)) at e))))
  | inr z ↦ elim (Bool-cases (ltb (now - s.timestamp (newest w.rep url)) cache_expiry_time)) [
    | inl y ↦ (λ q. ground arith, ground arith)
    | inr y ↦ absurd (nz (sym (null_of_ok (rw (miss_of_found w.rep url now (ground arith)) at e))))
  ]
]

-- The node that `cache_get` has returned outlives the next 1023 calls of `cache_get` and
-- `cache_add`, whatever they are: it stays allocated, under the same URL and with the same data, if
-- `malloc` gives no address in use and `data` holds `size` bytes. So a worker that reads it after the
-- mutex is released reads valid memory as long as the others make no more calls than that in
-- between.
pub hit_stays :
    {s t u : Cache}
    → Reachable s
    → (url : Bytes) (now : ℕ) {p : Ptr} → cache_get url now s ≡ ok p t
    → p ≢ null
    → {n : ℕ} → Calls t n u
    → n < cache_size
    → (u.live p ≡ true)
      × (u.url p ≡ url)
      × (u.payload p ≡ s.payload p)
      × (u.data_size p ≡ s.data_size p)
hit_stays {s} {t} r url now {p} e nz calls few =
    let w = Reachable-WellFormed r in
    let (cached, young) = hit_of_ok w url now e nz in
    let (_, mem, key, rep, same) =
      Returns-ok (rw e at (cache_get_hit w.rep url now cached young)) in
    let first : IsKept s t p 0 = record {
      wf = record {
        lru = p ∷ remove p w.lru;
        chain = w.chain;
        rep = rep;
        bounded = omega (arith, length-remove p w.lru mem, w.bounded);
        max_size = same.max_size ∙ w.max_size;
      };
      there = ground arith;
      depth = ground arith;
      url = ap (λ f. f p) same.url;
      payload = ap (λ f. f p) same.payload;
      data_size = ap (λ f. f p) same.data_size;
    } in
    let k = Calls-IsKept first calls few in
    (live_of_mem k.wf.rep.list p k.there, k.url ∙ key, k.payload, k.data_size)
