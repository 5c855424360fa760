-- ===== src/HttpParser/RoundTrip.antt =====
-- `ParsedRequest_unparse_headers`, followed by `ParsedRequest_parse`.
use mathlib.Core.List.{append_assoc}
use proxy_server_in_c.Common.{
  ℕ, zero, suc, ◌+◌, ◌≤◌, ◌<◌, ◌≡◌, ◌∙◌, refl, ap, true, [], ◌∷◌, ◌++◌, none, some, Bytes, codes,
  length, take, take_of_length-le, length-append, arith,
}
use proxy_server_in_c.Common.Int.{pos, positive}
use proxy_server_in_c.HttpParser.{
  ParsedRequest, parsed_request_create, crlf, header_loop, parsed_request_parse,
  parsed_request_unparse_headers,
}
use proxy_server_in_c.HttpParser.Parse.{IsWord, request_line, parse_block_reads, find_line}

-- The text of a request with no header.
abbrev pub bare_request : Bytes → Bytes → Bytes → Bytes
bare_request method path version = request_line method path version ++ (13 ∷ 10 ∷ 13 ∷ 10 ∷ [])

unparse-bare :
    (q : ParsedRequest) {method path version : Bytes}
    → q.method ≡ some method
    → q.path ≡ some path
    → q.version ≡ some version
    → (room : ℕ) → length (bare_request method path version) ≤ room
    → parsed_request_unparse_headers q (suc room) ≡ bare_request method path version
unfolding parsed_request_unparse_headers
unparse-bare q {method} {path} {version} em ep ev room fits =
    let line : (method ++ (b' ' ∷ path)) ++ (b' ' ∷ version) ≡ request_line method path version =
      append_assoc method (b' ' ∷ path) (b' ' ∷ version) in
    let whole : (((method ++ (b' ' ∷ path)) ++ (b' ' ∷ version)) ++ crlf) ++ crlf
        ≡ bare_request method path version =
      append_assoc ((method ++ (b' ' ∷ path)) ++ (b' ' ∷ version)) crlf crlf
      ∙ ap (λ x. x ++ (13 ∷ 10 ∷ 13 ∷ 10 ∷ [])) line in
    rw (em, ep, ev)
      (ap (take room) whole ∙ take_of_length-le room (bare_request method path version) fits)

no_header : (fuel : ℕ) → 0 < fuel → header_loop fuel (13 ∷ 10 ∷ []) ≡ some none
unfolding header_loop
no_header zero h = absurd (omega arith)
no_header (suc fuel) h = rw (header_loop, find_line [] [] (tt, tt)) refl

-- `ParsedRequest_unparse_headers`, which include/proxy_parse.h says to print the headers without the
-- request line, prints the request line without the headers: what it prints of a request that has a
-- method, a path and a version, none empty or with a space or a line end, into a buffer with room
-- for it, `ParsedRequest_parse` reads as a request with this method, path and version, with no host,
-- whatever host the request had, and with port 80.
pub unparse_parse :
    (q : ParsedRequest) (method path version : Bytes)
    → q.method ≡ some method
    → q.path ≡ some path
    → q.version ≡ some version
    → IsWord method
    → IsWord path
    → IsWord version
    → (room : ℕ) → length (bare_request method path version) ≤ room
    → parsed_request_parse true parsed_request_create
        (parsed_request_unparse_headers q (suc room))
        (pos (length (bare_request method path version)))
      ≡ some (
        record {
          method = q.method;
          protocol = none;
          host = none;
          port = some (codes "80");
          path = q.path;
          version = q.version;
          buf = some (parsed_request_unparse_headers q (suc room));
          buflen = length (bare_request method path version);
        },
        pos 0,
      )
unfolding parsed_request_parse
unparse_parse q method path version em ep ev m p v room fits =
    let block = bare_request method path version in
    let some_bytes : positive (pos (length block)) ≡ true =
      ground (arith, length-append (request_line method path version) (13 ∷ 10 ∷ 13 ∷ 10 ∷ [])) in
    let start : ParsedRequest = record parsed_request_create {
      buf = some block;
      buflen = length block;
    } in
    rw
      (
        unparse-bare q em ep ev room fits,
        em,
        ep,
        ev,
        some_bytes,
        take_of_length-le (length block) block (omega arith),
      )
      (parse_block_reads (length block + 1) start method path version (13 ∷ 10 ∷ []) m p v
        (no_header (length block + 1) (omega arith)))
