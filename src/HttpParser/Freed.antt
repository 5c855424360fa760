-- ===== src/HttpParser/Freed.antt =====
-- The life of a parsed request: created, parsed into, destroyed.
use proxy_server_in_c.Common.{
  ◌≤◌, ◌≡◌, ◌≢◌, refl, true, false, not, List, [], ◌∷◌, Option, none, some, ◌==◌, if◌then◌else◌,
  arith, inl, inr, Bool-cases, Bytes, length, ◌⊎◌,
}
use proxy_server_in_c.Common.Int.{ℤ, pos_part}
use proxy_server_in_c.Common.Run.{
  Returns, returns, Returns-then, Returns-weaken, Cmd, pure, ◌>>=◌, ◌>>◌,
}
use proxy_server_in_c.Cache.{Ptr, null}
use proxy_server_in_c.Cache.Order.{has, Distinct}
use proxy_server_in_c.HttpParser.{ParsedRequest, parsed_request_parse, parsed_request_create}
use proxy_server_in_c.HttpParser.Memory.{
  Heap, Malloc, Fields, no_fields, allocate, load_fields, set_fields, for_struct, for_buf,
  request_create, request_parse, request_destroy,
}
use proxy_server_in_c.HttpParser.Owned.{named, IsOwned, IsFresh}
use proxy_server_in_c.HttpParser.Blocks.{allocate_lem, free_lem, free_field_lem}
use proxy_server_in_c.HttpParser.Holds.{Holds, owned, struct_mem}
use proxy_server_in_c.HttpParser.Stored.{IsSpared}
use proxy_server_in_c.HttpParser.Read.{request_parse_lem}

all_named :
    {t : Heap} {others : List Ptr}
    → IsOwned t (null ∷ null ∷ null ∷ null ∷ null ∷ null ∷ null ∷ null ∷ null ∷ others)
    → IsOwned t others
all_named o = record { distinct = o.distinct; no_null = o.no_null; apart = o.apart; same = o.same }

module _ {pr : Ptr} {others : List Ptr} where
  pub request_destroy_lem :
      {r : Fields} {q : ParsedRequest} {s : Heap}
      → Holds pr others null r q s
      → Returns (λ _ t. IsOwned t others) (request_destroy pr s)
  unfolding request_destroy load_fields
  request_destroy_lem {r} {q} {s} h =
      let nz : (pr == null) ≡ false = ground (arith, h.not_null) in
      rw (nz, struct_mem h, h.struct)
        (Returns-then (free_field_lem (null ∷ []) _ r.buf h.blocks) (λ _ t1 (o1, _, _).
          (Returns-then (free_field_lem (null ∷ null ∷ []) _ r.method o1) (λ _ t2 (o2, _, _).
            (Returns-then (free_field_lem (null ∷ null ∷ null ∷ []) _ r.protocol o2)
              (λ _ t3 (o3, _, _).
                (Returns-then (free_field_lem (null ∷ null ∷ null ∷ null ∷ []) _ r.host o3)
                  (λ _ t4 (o4, _, _).
                    (Returns-then
                      (free_field_lem (null ∷ null ∷ null ∷ null ∷ null ∷ []) _ r.port o4)
                      (λ _ t5 (o5, _, _).
                        (Returns-then
                          (free_field_lem (null ∷ null ∷ null ∷ null ∷ null ∷ null ∷ []) _ r.path
                            o5)
                          (λ _ t6 (o6, _, _).
                            (Returns-then
                              (free_field_lem (null ∷ null ∷ null ∷ null ∷ null ∷ null ∷ null ∷ [])
                                _ r.version o6)
                              (λ _ t7 (o7, _, _).
                                (Returns-weaken
                                  (free_lem
                                    (null ∷ null ∷ null ∷ null ∷ null ∷ null ∷ null ∷ null ∷ [])
                                    others pr o7 h.not_null)
                                  (λ _ t (o, _, _). all_named o))))))))))))))))

named_all : (l : List Ptr) → has null l ≡ false → named l ≡ l
named_all [] h = refl
named_all (a ∷ l) h =
    let nz : (a == null) ≡ false = ground arith in rw (nz, named_all l (ground arith)) refl

request_create-Holds :
    (malloc : Malloc) (s : Heap)
    → IsFresh malloc
    → Distinct s.live
    → has null s.live ≡ false
    → malloc for_struct s.live ≢ null
    → Returns
        (λ pr t.
          (pr ≡ malloc for_struct s.live)
          × (t.live ≡ pr ∷ s.live)
          × Holds pr s.live null no_fields parsed_request_create t)
        (request_create malloc s)
unfolding request_create set_fields
request_create-Holds malloc s fresh d nn nz =
    let p = malloc for_struct s.live in
    let here : (p == p) ≡ true = ground arith in
    let nz' : (p == null) ≡ false = ground arith in
    let all = named_all s.live nn in
    let new = fresh for_struct s.live in
    let blocks : (t : Heap) → t.live ≡ p ∷ s.live → IsOwned t (owned p s.live null no_fields) =
      λ t e. record {
        distinct = rw e (new, d);
        no_null = rw e (ground (arith, nn));
        apart = rw (nz', all) (new, d);
        same = λ x. rw (e, nz', all) refl;
      } in
    rw (allocate_lem malloc fresh for_struct s 1 nz, nz', here)
      (returns (
        refl,
        refl,
        record { blocks = blocks _ refl; struct = rw here refl; says = refl; not_null = nz },
      ))

-- What `handle_client_request` does with a parsed request, but for its use: `none` where there is no
-- memory for the struct, and what the parser has returned.
unfoldable pub parse_and_destroy : Malloc → (memory : Bytes) → (buflen : ℤ) → Cmd Heap (Option ℤ)
unfolding request_create request_parse request_destroy
parse_and_destroy malloc memory buflen = do
  pr ← request_create malloc
  if pr == null
      then pure none
      else (do n ← request_parse malloc pr memory buflen; request_destroy pr; pure (some n))

not_null_then :
    {A : Type 0} {P : A → Heap → Type 0} (p : Ptr) (m k : Cmd Heap A) (s : Heap)
    → p ≢ null
    → Returns P (k s)
    → Returns P ((if p == null then m else k) s)
not_null_then p m k s nz r = let nz' : (p == null) ≡ false = ground arith in rw nz' r

-- `ParsedRequest_create`, then `ParsedRequest_parse` and `ParsedRequest_destroy`, on every input, when
-- `malloc` gives no address in use and the calls of it that the source does not test succeed: the
-- run returns, so that nothing is freed twice, and exactly those blocks are in use again that were
-- before, so that nothing is lost, whether the request parses or not. Either there was no memory for
-- the struct, or the parser has returned what it returns on byte lists.
pub parse_and_destroy_lem :
    (malloc : Malloc) (s : Heap) (memory : Bytes) (buflen : ℤ)
    → IsFresh malloc
    → IsSpared malloc
    → Distinct s.live
    → has null s.live ≡ false
    → pos_part buflen ≤ length memory
    → Returns
        (λ a t.
          ((x : Ptr) → has x t.live ≡ has x s.live)
          × ((a ≡ none)
              ⊎ ((n : ℤ) × (q : ParsedRequest) × (a ≡ some n)
                  × (parsed_request_parse
                        (not (malloc for_buf (malloc for_struct s.live ∷ s.live) == null))
                        parsed_request_create
                        memory
                        buflen
                      ≡ some (q, n)))))
        (parse_and_destroy malloc memory buflen s)
unfolding parse_and_destroy
parse_and_destroy_lem malloc s memory buflen fresh spared d nn readable =
    elim (Bool-cases (malloc for_struct s.live == null)) [
      | inl fails ↦ rw (allocate, fails) (returns (λ x. refl, inl refl))
      | inr there ↦
          Returns-then (request_create-Holds malloc s fresh d nn (λ q. ground arith))
            (λ pr t (e, live, h). not_null_then pr _ _ t h.not_null (
              Returns-then (request_parse_lem malloc fresh spared memory buflen h readable)
                (λ n u (r, q, h', parsed). Returns-then (request_destroy_lem h') (λ _ v o. returns (
                  (λ x. rw (named_all s.live nn) at (o.same x)),
                  inr (n, q, refl, rw (live, e) at parsed),
                )))))
    ]
