-- ===== src/HttpParser/Stored.antt =====
-- `ParsedRequest_parse` in memory, step by step.
use proxy_server_in_c.Common.{
  ℕ, zero, suc, ◌+◌, ◌≡◌, ◌≢◌, refl, ◌∙◌, Bool, true, false, List, [], ◌∷◌, Option, none, some,
  ◌==◌, arith, inl, inr, Bool-cases, Option-cases, Bytes, ap, length, drop,
}
use proxy_server_in_c.Common.CString.{c_str, strstr, strtok}
use proxy_server_in_c.Common.Run.{Returns, returns, Returns-then, Returns-weaken}
use proxy_server_in_c.Cache.{Ptr, null}
use proxy_server_in_c.HttpParser.{ParsedRequest, or_keep, host_value, header_loop, crlf}
use proxy_server_in_c.HttpParser.Memory.{
  Heap, Site, Malloc, Fields, free, store_request_line, store_host, for_struct, for_buf,
  for_request_line, for_method, for_path, for_version, for_header_line, for_host, for_port,
}
use proxy_server_in_c.HttpParser.Owned.{IsOwned, IsFresh}
use proxy_server_in_c.HttpParser.Blocks.{Added, allocate-copy, free_lem}
use proxy_server_in_c.HttpParser.Holds.{
  Holds, owned, view, view-Added, store_found-Holds, store-Holds, method_slot, path_slot,
  version_slot, host_slot,
}

-- The calls whose answer the source does not test.
abbrev pub untested : Site → Bool
untested for_struct = false
untested for_buf = false
untested for_request_line = true
untested for_method = true
untested for_path = true
untested for_version = true
untested for_header_line = true
untested for_host = true
untested for_port = true

-- `malloc` answers them with memory.
abbrev pub IsSpared : Malloc → Type 0
IsSpared malloc = (site : Site) → untested site ≡ true → (l : List Ptr) → malloc site l ≢ null

pub view-text : (s t : Heap) (r : Fields) → t.text ≡ s.text → view t r ≡ view s r
view-text s t r e = rw e refl

module _ {pr : Ptr} {others : List Ptr} {r : Fields} {q : ParsedRequest} {s : Heap} where
  pub tmp-Holds :
      {p : Ptr} {t : Heap} {bytes : Bytes}
      → Holds pr others null r q s
      → IsOwned t (owned pr others p r)
      → Added s t p bytes
      → t.fields ≡ s.fields
      → Holds pr others p r q t
  tmp-Holds h o a e = record {
    blocks = o;
    struct = ap (λ f. f pr) e ∙ h.struct;
    says = view-Added r h.blocks a ∙ h.says;
    not_null = h.not_null;
  }

  -- The block that was in use for a while is freed.
  pub free-Holds :
      (p : Ptr)
      → p ≢ null
      → Holds pr others p r q s
      → Returns (λ _ t. Holds pr others null r q t) (free p s)
  free-Holds p nz h = Returns-weaken (free_lem [] _ p h.blocks nz) (λ _ t (o, text, fields).
      record {
        blocks = o;
        struct = ap (λ f. f pr) fields ∙ h.struct;
        says = view-text s t r text ∙ h.says;
        not_null = h.not_null;
      })

module _ (malloc : Malloc) (fresh : IsFresh malloc) (spared : IsSpared malloc) {pr : Ptr}
    {others : List Ptr} where
  pub store_request_line-Holds :
      (line : Bytes) {r : Fields} {q : ParsedRequest} {s : Heap}
      → Holds pr others null r q s
      → r.method ≡ null
      → r.path ≡ null
      → r.version ≡ null
      → Returns
          (λ _ t.
            (method : Ptr) × (path : Ptr) × (version : Ptr) × Holds pr others null
              (record r { method = method; path = path; version = version })
              (record q {
                method = or_keep (strtok line).0 q.method;
                path = or_keep (strtok (strtok line).1).0 q.path;
                version = or_keep (strtok (strtok (strtok line).1).1).0 q.version;
              })
              t)
          (store_request_line malloc pr line s)
  unfolding store_request_line
  store_request_line-Holds line {r} {q} {s} h no_method no_path no_version =
      allocate-copy malloc fresh for_request_line s [] _ line _
        (spared for_request_line refl s.live) h.blocks
        (λ p t o a e.
          Returns-then
            (store_found-Holds malloc fresh (tmp-Holds h o a e) method_slot for_method
              (spared for_method refl t.live) no_method (strtok line).0)
            (λ _ t1 (m, h1).
              Returns-then
                (store_found-Holds malloc fresh h1 path_slot for_path (spared for_path refl t1.live)
                  no_path (strtok (strtok line).1).0)
                (λ _ t2 (n, h2).
                  Returns-then
                    (store_found-Holds malloc fresh h2 version_slot for_version
                      (spared for_version refl t2.live) no_version
                      (strtok (strtok (strtok line).1).1).0)
                    (λ _ t3 (v, h3).
                      Returns-weaken (free-Holds p a.not_null h3) (λ _ t4 h4. (m, n, v, h4))))))

  -- No Host header: the field keeps what it had.
  no_host :
      {r : Fields} {q : ParsedRequest} {s : Heap} {host : Option Bytes}
      → host ≡ none
      → Holds pr others null r q s
      → (p : Ptr) × Holds pr others null
          (record r { host = p })
          (record q { host = or_keep host q.host })
          s
  no_host {r} e h = (r.host, rw e h)

  pub store_host-Holds :
      (fuel : ℕ) (rest : Bytes) {r : Fields} {q : ParsedRequest} {s : Heap} {host : Option Bytes}
      → Holds pr others null r q s
      → r.host ≡ null
      → header_loop fuel rest ≡ some host
      → Returns
          (λ _ t.
            (p : Ptr) × Holds pr others null
              (record r { host = p })
              (record q { host = or_keep host q.host })
              t)
          (store_host fuel malloc pr rest s)
  unfolding store_host header_loop
  store_host-Holds zero rest h empty e = absurd (ground arith)
  store_host-Holds (suc fuel) [] {r} {q} {s} {host} h empty e =
      returns (no_host (ground (arith, e)) h)
  store_host-Holds (suc fuel) (c ∷ rest) {r} {q} {s} {host} h empty e =
      elim (Option-cases (strstr crlf (c_str (c ∷ rest)))) [
        | inl f ↦
            rw (store_host, f) (returns (no_host (ground (arith, rw (header_loop, f) at e)) h))
        | inr ((line, tail), f) ↦ elim (Bool-cases (length line == 0)) [
          | inl z ↦
              rw (store_host, f, z)
                (returns (no_host (ground (arith, rw (header_loop, f, z) at e)) h))
          | inr z ↦
              rw (store_host, f, z)
                (allocate-copy malloc fresh for_header_line s [] _ line _
                  (spared for_header_line refl s.live) h.blocks
                  (λ p t o a es.
                    let h' = tmp-Holds h o a es in
                    elim (Option-cases (host_value line)) [
                      | inr (v, g) ↦
                          let found : host ≡ some v =
                            ground (arith, rw (header_loop, f, z, g) at e) in
                          rw g (
                            Returns-then
                              (store-Holds malloc fresh h' host_slot for_host
                                (spared for_host refl t.live) empty v)
                              (λ _ t1 (m, h1).
                                Returns-then (free-Holds p a.not_null h1)
                                  (λ _ t2 h2. returns (m, rw found h2))))
                      | inl g ↦ rw g (
                          Returns-then (free-Holds p a.not_null h') (λ _ t2 h2.
                            store_host-Holds fuel (drop (length line + 2) (c ∷ rest)) h2 empty
                              (rw (header_loop, f, z, g) at e)))
                    ]))
        ]
      ]
