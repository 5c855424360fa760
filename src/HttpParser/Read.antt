-- ===== src/HttpParser/Read.antt =====
-- `ParsedRequest_parse` in memory against the same function on byte lists.
use proxy_server_in_c.Common.{
  ℕ, ◌+◌, ◌≤◌, ◌≡◌, ◌≢◌, refl, true, false, not, List, [], ◌∷◌, some, ◌==◌, arith, inl, inr,
  Bool-cases, Option-cases, Bytes, length, take, drop, codes, ltb, leb, length-take-le,
}
use proxy_server_in_c.Common.Int.{ℤ, positive, pos_part}
use proxy_server_in_c.Common.CString.{c_str, strstr}
use proxy_server_in_c.Common.Run.{Returns, returns, Returns-then, Returns-weaken}
use proxy_server_in_c.Cache.{Ptr, null, update}
use proxy_server_in_c.Cache.Order.{has}
use proxy_server_in_c.HttpParser.{
  ParsedRequest, crlf, parse_block, parsed_request_parse, parsed_request_create,
}
use proxy_server_in_c.HttpParser.Total.{header_loop_total, length-drop-le}
use proxy_server_in_c.HttpParser.Memory.{
  Heap, Malloc, Fields, no_fields, allocate, copy_to, load_text, load_fields, set_fields, for_buf,
  for_port, parse_rest, request_parse,
}
use proxy_server_in_c.HttpParser.Owned.{IsOwned, IsFresh, IsOwned-add}
use proxy_server_in_c.HttpParser.Holds.{Holds, store-Holds, struct_mem, port_slot}
use proxy_server_in_c.HttpParser.Stored.{IsSpared, store_request_line-Holds, store_host-Holds}

abbrev pub with_buf : Ptr → ℕ → Fields
with_buf p n = record no_fields { buf = p; buflen = n }

abbrev pub read_buf : Bytes → ℕ → ParsedRequest
read_buf block n = record parsed_request_create { buf = some block; buflen = n }

IsOwned-live : {s t : Heap} {l : List Ptr} → t.live ≡ s.live → IsOwned s l → IsOwned t l
IsOwned-live e o = record {
  distinct = rw e o.distinct;
  no_null = rw e o.no_null;
  apart = o.apart;
  same = λ x. rw e (o.same x);
}

module _ (malloc : Malloc) (fresh : IsFresh malloc) (spared : IsSpared malloc) {pr : Ptr}
    {others : List Ptr} where
  parse_rest-Holds :
      (p : Ptr) (n : ℕ) (block : Bytes) {s : Heap}
      → Holds pr others null (with_buf p n) (read_buf block n) s
      → Returns
          (λ m t.
            (r : Fields) × (q : ParsedRequest) × Holds pr others null r q t
            × (parse_block (length block + 1) (read_buf block n) block ≡ some (q, m)))
          (parse_rest malloc pr block s)
  unfolding load_fields parse_rest parse_block
  parse_rest-Holds p n block {s} h = elim (Option-cases (strstr crlf (c_str block))) [
    | inl e ↦ rw (parse_rest, e) (returns (_, _, h, rw (parse_block, e) refl))
    | inr ((line, tail), e) ↦
        let (host, found) =
          header_loop_total (length block + 1) (drop (length line + 2) block)
            (omega (arith, length-drop-le (length line + 2) block)) in
        rw (parse_rest, e)
          (Returns-then (store_request_line-Holds malloc fresh spared line h refl refl refl)
            (λ _ t1 (method, path, version, h1).
              Returns-then
                (store_host-Holds malloc fresh spared (length block + 1)
                  (drop (length line + 2) block) h1 refl found)
                (λ _ t2 (a, h2).
                  rw (struct_mem h2, h2.struct)
                    (Returns-then
                      (store-Holds malloc fresh h2 port_slot for_port (spared for_port refl t2.live)
                        refl (codes "80"))
                      (λ _ t3 (b, h3). returns (_, _, h3, rw (parse_block, e, found) refl))))))
  ]

  -- The field is written although it is `NULL`.
  no_buf :
      {s : Heap} {f : Ptr → Fields}
      → Holds pr others null no_fields parsed_request_create s
      → f ≡ update s.fields pr (record (s.fields pr) { buf = null })
      → Holds pr others null no_fields parsed_request_create (record s { fields = f })
  no_buf h e =
      let here : (pr == pr) ≡ true = ground arith in
      record {
        blocks = IsOwned-live refl h.blocks;
        struct = rw (e, here, h.struct) refl;
        says = h.says;
        not_null = h.not_null;
      }

  -- The copy of the buffer.
  buf-Holds :
      (n : ℕ) (block : Bytes) {s t : Heap}
      → Holds pr others null no_fields parsed_request_create s
      → malloc for_buf s.live ≢ null
      → t.live ≡ malloc for_buf s.live ∷ s.live
      → t.text ≡ update s.text (malloc for_buf s.live) block
      → t.fields pr ≡ with_buf (malloc for_buf s.live) n
      → Holds pr others null (with_buf (malloc for_buf s.live) n) (read_buf block n) t
  buf-Holds n block {s} {t} h nz live text fields =
      let p = malloc for_buf s.live in
      let here : (p == p) ≡ true = ground arith in
      let nz' : (p == null) ≡ false = ground arith in
      record {
        blocks = IsOwned-add (null ∷ []) _ p h.blocks (fresh for_buf s.live) nz live;
        struct = fields;
        says = rw (nz', text, here) refl;
        not_null = h.not_null;
      }

  -- `ParsedRequest_parse` on a struct in memory that is all 0, when `malloc` gives no address in use
  -- and the calls of it that the source does not test succeed, and `buf` holds `buflen` bytes: it
  -- returns, no block is written past its end or used after its release, the number it returns and
  -- the strings and the length that the struct then holds are those of the same function on byte
  -- lists, and the only blocks in use that were not in use before are the strings of the struct,
  -- each of them in a block of its own.
  pub request_parse_lem :
      (memory : Bytes) (buflen : ℤ) {s : Heap}
      → Holds pr others null no_fields parsed_request_create s
      → pos_part buflen ≤ length memory
      → Returns
          (λ m t.
            (r : Fields) × (q : ParsedRequest) × Holds pr others null r q t
            × (parsed_request_parse
                  (not (malloc for_buf s.live == null))
                  parsed_request_create
                  memory
                  buflen
                ≡ some (q, m)))
          (request_parse malloc pr memory buflen s)
  unfolding request_parse parsed_request_parse set_fields copy_to load_text allocate
  request_parse_lem memory buflen {s} h readable = elim (Bool-cases (positive buflen)) [
    | inr z ↦ rw z (returns (_, _, h, refl))
    | inl z ↦ elim (Bool-cases (malloc for_buf s.live == null)) [
      | inl fails ↦
          rw (z, fails, struct_mem h)
            (returns (no_fields, parsed_request_create, no_buf h refl, refl))
      | inr there ↦
          let n = pos_part buflen in
          let block = take n memory in
          let p = malloc for_buf s.live in
          let here : (p == p) ≡ true = ground arith in
          let here' : (pr == pr) ≡ true = ground arith in
          let struct : has pr (p ∷ s.live) ≡ true = ground (arith, struct_mem h) in
          let enough : ltb (length memory) n ≡ false = ground arith in
          let fits : leb (length block + 1) (n + 1) ≡ true =
            ground (arith, length-take-le n memory) in
          rw (z, there, struct, there, enough, here, fits, struct, here)
            (Returns-weaken
              (parse_rest-Holds p n block
                (buf-Holds n block h (λ q. ground arith) refl refl (rw (here', h.struct) refl)))
              (λ m t (r, q, h', e). (r, q, h', e)))
    ]
  ]
