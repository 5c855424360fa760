-- ===== src/HttpParser.antt =====
-- src/components/http_parser.c, with the struct of include/proxy_parse.h.
pub mod Host
pub mod Total
pub mod Parse
pub mod RoundTrip
pub mod Method
pub mod Memory
pub mod Owned
pub mod Blocks
pub mod Holds
pub mod Stored
pub mod Read
pub mod Freed
mod Tests
use Prim.Native.Nat.{zero, suc}
use proxy_server_in_c.Common.{
  ℕ, ◌+◌, Bool, true, false, not, ◌||◌, List, [], ◌∷◌, ◌++◌, Option, none, some, ◌==◌,
  if◌then◌else◌, leb, Bytes, bytes_eq, codes, length, take, drop,
}
use proxy_server_in_c.Common.Int.{ℤ, pos, negsuc, minus_one, positive, pos_part, int_leb}
use proxy_server_in_c.Common.CString.{
  c_str, starts_with, strchr, strstr, skip_spaces, strtok, case_eq, atoi,
}

-- `struct ParsedRequest`; a `none` is `NULL`. The fields of the header list, which the program
-- leaves at 0, are left out.
pub record ParsedRequest : Type 0 where
  pub method : Option Bytes
  pub protocol : Option Bytes
  pub host : Option Bytes
  pub port : Option Bytes
  pub path : Option Bytes
  pub version : Option Bytes
  pub buf : Option Bytes
  pub buflen : ℕ

-- `ParsedRequest_create`, when `calloc` succeeds.
abbrev pub parsed_request_create : ParsedRequest
parsed_request_create = record {
  method = none;
  protocol = none;
  host = none;
  port = none;
  path = none;
  version = none;
  buf = none;
  buflen = 0;
}

abbrev pub crlf : Bytes
crlf = 13 ∷ 10 ∷ []

-- A field that is overwritten only by a value that was found.
abbrev pub or_keep : Option Bytes → Option Bytes → Option Bytes
or_keep none old = old
or_keep (some v) old = some v

-- The value of a header line whose name is `Host`, in any case of its letters.
unfoldable pub host_value : Bytes → Option Bytes
host_value line = elim (strchr b':' line) [
  | none ↦ none
  | some (name, rest) ↦
      if case_eq name (codes "Host") then some (skip_spaces (drop 1 rest)) else none
]

-- The header loop, from `current_pos` on. The block goes on behind a NUL byte, where `strstr`
-- finds nothing. `none` means that no Host header was found, or, for the outer `none`, that the
-- fuel ran out.
unfoldable pub header_loop : ℕ → Bytes → Option (Option Bytes)
unfolding host_value
header_loop zero rest = none
header_loop (suc fuel) [] = some none
header_loop (suc fuel) (c ∷ rest) = elim (strstr crlf (c_str (c ∷ rest))) [
  | none ↦ some none
  | some (line, _) ↦ if length line == 0 then some none else elim (host_value line) [
    | some value ↦ some (some value)
    | none ↦ header_loop fuel (drop (length line + 2) (c ∷ rest))
  ]
]

-- What `ParsedRequest_parse` does once `buf` is stored: the request line, the headers, the port.
-- The outer `none` means that the fuel ran out.
unfoldable pub parse_block : ℕ → ParsedRequest → Bytes → Option (ParsedRequest × ℤ)
unfolding strtok header_loop
parse_block fuel p block = elim (strstr crlf (c_str block)) [
  | none ↦ some (p, minus_one)
  | some (line, _) ↦
      let (method, rest) = strtok line in
      let (path, rest') = strtok rest in
      let (version, _) = strtok rest' in
      elim (header_loop fuel (drop (length line + 2) block)) [
        | none ↦ none
        | some host ↦ some (
          record p {
            method = or_keep method p.method;
            path = or_keep path p.path;
            version = or_keep version p.version;
            host = or_keep host p.host;
            port = or_keep p.port (some (codes "80"));
          },
          pos 0,
        )
      ]
]

-- `ParsedRequest_parse` for pointers that are not `NULL`. `malloc` says whether the copy of the
-- buffer was allocated. The later allocations, which the source does not test, succeed here; where
-- one fails, `request_parse` of HttpParser/Memory and `answer` of Server fault.
unfoldable pub parsed_request_parse :
    (malloc : Bool) → ParsedRequest → Bytes → (buflen : ℤ) → Option (ParsedRequest × ℤ)
unfolding parse_block
parsed_request_parse malloc p memory buflen =
    if not (positive buflen)
    then some (p, minus_one)
    else if not malloc
    then some (record p { buf = none }, minus_one)
    else let block = take (pos_part buflen) memory in
      parse_block (length block + 1) (record p { buf = some block; buflen = pos_part buflen }) block

-- `validate_http_request` for a pointer that is not `NULL`.
unfoldable pub validate_http_request : Bytes → (length : ℤ) → Bool
validate_http_request request length =
    if not (positive length)
    then false
    else starts_with (codes "GET ") request
      || starts_with (codes "POST ") request
      || starts_with (codes "PUT ") request
      || starts_with (codes "DELETE ") request
      || starts_with (codes "HEAD ") request

-- `extract_host_port` for pointers that are not `NULL`: the host and the port. It writes the host
-- and a NUL behind it into the caller's buffer, whose size it does not know.
unfoldable pub extract_host_port : Bytes → Bytes × ℤ
extract_host_port header = elim (strchr b':' header) [
  | none ↦ (header, pos 80)
  | some (host, rest) ↦
      let port = atoi (drop 1 rest) in
      (host, (if not (positive port) || not (int_leb port (pos 65535)) then pos 80 else port))
]

-- What `ParsedRequest_unparse_headers` prints; the caller's buffer takes its first `buflen - 1`
-- bytes.
abbrev pub or_default : Option Bytes → Bytes → Bytes
or_default none d = d
or_default (some v) d = v

unfoldable pub parsed_request_unparse_headers : ParsedRequest → (buflen : ℕ) → Bytes
parsed_request_unparse_headers p zero = []
parsed_request_unparse_headers p (suc room) = take room (
    or_default p.method (codes "GET")
    ++ (b' ' ∷ or_default p.path (codes "/"))
    ++ (b' ' ∷ or_default p.version (codes "HTTP/1.1"))
    ++ crlf
    ++ crlf)

-- `ParsedHeader_set`, which stores nothing and returns 0, and `ParsedHeader_get`, which returns
-- `NULL`.
abbrev pub parsed_header_set : ParsedRequest → (key value : Bytes) → ParsedRequest × ℤ
parsed_header_set p key value = (p, pos 0)

abbrev pub parsed_header_get : ParsedRequest → (key : Bytes) → Option Bytes
parsed_header_get p key = none
