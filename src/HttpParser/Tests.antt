-- ===== src/HttpParser/Tests.antt =====
-- Runs of http_parser.c, and the theorems at them.
use proxy_server_in_c.Common.{
  ℕ, List, not, ◌==◌, ◌⊎◌, ◌+◌, ◌<◌, ◌≤◌, ◌≡◌, ap, refl, true, false, ◌&&◌, [], ◌∷◌, ◌++◌, none,
  some, if◌then◌else◌, Bytes, codes, length, arith, Any,
}
use proxy_server_in_c.Common.Int.{ℤ, pos, positive, int_leb}
use proxy_server_in_c.Common.CString.{
  starts_with, c_str, strstr, atoi, strchr, case_eq, skip_spaces,
}
use proxy_server_in_c.HttpParser.{
  ParsedRequest, parsed_request_create, host_value, parsed_request_parse, validate_http_request,
  extract_host_port, parsed_request_unparse_headers,
}
use proxy_server_in_c.Common.Run.{Returns}
use proxy_server_in_c.Cache.{Ptr, null}
use proxy_server_in_c.Cache.Order.{has}
use proxy_server_in_c.HttpParser.Memory.{
  Heap, Malloc, Fields, no_fields, for_struct, for_buf, request_parse,
}
use proxy_server_in_c.HttpParser.Owned.{IsFresh}
use proxy_server_in_c.HttpParser.Holds.{Holds}
use proxy_server_in_c.HttpParser.Stored.{IsSpared}
use proxy_server_in_c.HttpParser.Method.{validated_method}
use proxy_server_in_c.HttpParser.Read.{request_parse_lem}
use proxy_server_in_c.HttpParser.Freed.{parse_and_destroy, parse_and_destroy_lem}
use proxy_server_in_c.HttpParser.Host.{methods, extract_host_port_split}
use proxy_server_in_c.HttpParser.RoundTrip.{bare_request, unparse_parse}
use proxy_server_in_c.HttpParser.Parse.{parsed_request_parse_reads, print_lines, request_line}
use proxy_server_in_c.HttpParser.Total.{parsed_request_parse_total}

abbrev get : Bytes
get = codes "GET"

abbrev root : Bytes
root = codes "/"

abbrev version : Bytes
version = codes "HTTP/1.1"

abbrev accept : Bytes
accept = codes "Accept: */*"

abbrev host_line : Bytes
host_line = codes "hOST:  example.org:8080"

abbrev site : Bytes
site = codes "example.org:8080"

abbrev request : Bytes
request =
    request_line get root version
    ++ (13 ∷ 10 ∷ print_lines (accept ∷ []) (host_line ++ (13 ∷ 10 ∷ 13 ∷ 10 ∷ [])))

found : host_value host_line ≡ some site
unfolding host_value case_eq skip_spaces strchr
found = refl

passed : host_value accept ≡ none
unfolding host_value case_eq skip_spaces strchr
passed = refl

parsed_request_parse_reads_example :
    parsed_request_parse true parsed_request_create (request ++ []) (pos (length request))
    ≡ some (
      record {
        method = some get;
        protocol = none;
        host = some site;
        port = some (codes "80");
        path = some root;
        version = some version;
        buf = some request;
        buflen = length request;
      },
      pos 0,
    )
parsed_request_parse_reads_example =
    parsed_request_parse_reads get root version host_line site (13 ∷ 10 ∷ []) [] (accept ∷ [])
      (record { not_empty = λ e. cc e; no_space = omega arith; is_line = omega arith })
      (record { not_empty = λ e. cc e; no_space = omega arith; is_line = omega arith })
      (record { not_empty = λ e. cc e; no_space = omega arith; is_line = omega arith })
      (record { is_line = omega arith; not_empty = λ e. cc e; other = passed }, tt) (omega arith)
      found refl

parsed_request_parse_total_example :
    (q : ParsedRequest) × (n : ℤ) × (parsed_request_parse true parsed_request_create request (pos 4)
      ≡ some (q, n))
parsed_request_parse_total_example =
    parsed_request_parse_total true parsed_request_create request (pos 4)

extract_host_port_split_example :
    (extract_host_port (codes "example.org") ≡ (codes "example.org", pos 80))
    × (extract_host_port (codes "example.org" ++ b':' ∷ codes "8080") ≡ (
      codes "example.org",
      (if positive (atoi (codes "8080")) && int_leb (atoi (codes "8080")) (pos 65535)
          then atoi (codes "8080")
          else pos 80),
    ))
    × ((n : ℕ) × ((extract_host_port (codes "example.org" ++ b':' ∷ codes "8080")).1 ≡ pos n)
        × (1 ≤ n)
        × (n ≤ 65535))
extract_host_port_split_example =
    extract_host_port_split (codes "example.org") (codes "8080") (omega arith)

-- A number that does not fit an `int` wraps.
wrapped_port : atoi (codes "4294975376") ≡ pos 8080
unfolding atoi
wrapped_port = refl

-- An IPv6 literal is cut at its first colon.
ipv6_host : extract_host_port (codes "[::1]:8080") ≡ (codes "[", pos 80)
unfolding extract_host_port strchr atoi
ipv6_host = refl

abbrev parsed : ParsedRequest
parsed = record parsed_request_create {
  method = some get;
  path = some root;
  version = some version;
}

unparse_parse_example :
    parsed_request_parse true parsed_request_create
      (parsed_request_unparse_headers parsed 200)
      (pos (length (bare_request get root version)))
    ≡ some (
      record {
        method = some get;
        protocol = none;
        host = none;
        port = some (codes "80");
        path = some root;
        version = some version;
        buf = some (parsed_request_unparse_headers parsed 200);
        buflen = length (bare_request get root version);
      },
      pos 0,
    )
unparse_parse_example =
    unparse_parse parsed get root version refl refl refl
      (record { not_empty = λ e. cc e; no_space = omega arith; is_line = omega arith })
      (record { not_empty = λ e. cc e; no_space = omega arith; is_line = omega arith })
      (record { not_empty = λ e. cc e; no_space = omega arith; is_line = omega arith }) 199
      (omega arith)

-- An allocator that never fails: an address beyond all those in use.
abbrev beyond : List Ptr → Ptr
beyond [] = 1
beyond (p ∷ l) = beyond l + p

abbrev generous : Malloc
generous _ l = beyond l

beyond_pos : (l : List Ptr) → 0 < beyond l
beyond_pos [] = omega arith
beyond_pos (p ∷ l) = omega (arith, beyond_pos l)

has-beyond : (l : List Ptr) (n : ℕ) → has (beyond l + n) l ≡ false
has-beyond [] n = refl
has-beyond (p ∷ l) n =
    let far = beyond_pos l in
    let e : beyond l + p + n ≡ beyond l + (p + n) = omega arith in
    let apart : (p == beyond l + p + n) ≡ false = ground arith in
    rw (apart, ap (λ m. has m l) e) (has-beyond l (p + n))

generous-IsFresh : IsFresh generous
generous-IsFresh site l = let e : beyond l + 0 ≡ beyond l = omega arith in rw e at (has-beyond l 0)

generous-IsSpared : IsSpared generous
generous-IsSpared site u l z = omega (arith, beyond_pos l)

-- One block is in use; the struct stands at 8 when it has been created.
abbrev heap : Heap
heap = record { live = 7 ∷ []; size = λ _. 0; text = λ _. []; fields = λ _. no_fields }

abbrev created : Heap
created = record heap { live = 8 ∷ 7 ∷ [] }

created-Holds : Holds 8 (7 ∷ []) 0 no_fields parsed_request_create created
created-Holds = record {
  blocks = record {
    distinct = (refl, (refl, tt));
    no_null = refl;
    apart = (refl, (refl, tt));
    same = λ x. refl;
  };
  struct = refl;
  says = refl;
  not_null = omega arith;
}

request_parse_example :
    Returns
      (λ m t.
        (r : Fields) × (q : ParsedRequest) × Holds 8 (7 ∷ []) null r q t
        × (parsed_request_parse true parsed_request_create request (pos (length request))
            ≡ some (q, m)))
      (request_parse generous 8 request (pos (length request)) created)
request_parse_example =
    request_parse_lem generous generous-IsFresh generous-IsSpared request (pos (length request))
      created-Holds (omega arith)

parse_and_destroy_example :
    Returns
      (λ a t.
        ((x : Ptr) → has x t.live ≡ has x (7 ∷ []))
        × ((a ≡ none)
            ⊎ ((n : ℤ) × (q : ParsedRequest) × (a ≡ some n)
                × (parsed_request_parse
                      (not (generous for_buf (generous for_struct (7 ∷ []) ∷ 7 ∷ []) == null))
                      parsed_request_create
                      request
                      (pos (length request))
                    ≡ some (q, n)))))
      (parse_and_destroy generous request (pos (length request)) heap)
parse_and_destroy_example =
    parse_and_destroy_lem generous heap request (pos (length request)) generous-IsFresh
      generous-IsSpared (refl, tt) refl (omega arith)

abbrev plain : Bytes
plain = codes "DELETE /a HTTP/1.1" ++ (13 ∷ 10 ∷ 13 ∷ 10 ∷ [])

abbrev plain_parsed : ParsedRequest
plain_parsed = record parsed_request_create {
  method = some (codes "DELETE");
  path = some (codes "/a");
  version = some (codes "HTTP/1.1");
  port = some (codes "80");
  buf = some plain;
  buflen = length plain;
}

plain_valid : validate_http_request (c_str plain) (pos (length plain)) ≡ true
unfolding validate_http_request c_str starts_with
plain_valid = refl

plain_parses :
    parsed_request_parse true parsed_request_create plain (pos (length plain))
    ≡ some (plain_parsed, pos 0)
unfolding parsed_request_parse c_str strstr
plain_parses = refl

validated_method_example : Any (λ m. plain_parsed.method ≡ some m) methods
validated_method_example = validated_method true plain plain_valid plain_parses refl
