-- ===== src/Url.antt =====
-- `parse_request_url`, which nothing calls, of src/components/proxy_server.c.
pub mod Parts
mod Tests
use proxy_server_in_c.Common.{
  Bool, true, Option, none, some, ltb, if◌then◌else◌, Bytes, codes, length, drop,
}
use proxy_server_in_c.Common.Int.{ℤ, pos}
use proxy_server_in_c.Common.CString.{starts_with, strchr, atoi}

-- `!path_start || port_start < path_start`, for the `host` that stands before `port_start`.
unfoldable pub is_port_first : (host start : Bytes) → Bool
is_port_first host start = elim (strchr b'/' start) [
  | none ↦ true
  | some (before, _) ↦ ltb (length host) (length before)
]

-- The path, if one is there.
unfoldable pub path_of : Bytes → Bytes
path_of start = elim (strchr b'/' start) [ none ↦ codes "/" | some (_, path) ↦ path ]

-- The branches with no port.
unfoldable pub without_port : Bytes → Bytes × ℤ × Bytes
without_port start = elim (strchr b'/' start) [
  | none ↦ (start, pos 80, codes "/")
  | some (host, path) ↦ (host, pos 80, path)
]

-- From the search for the separators on.
unfoldable pub split_url : Bytes → Bytes × ℤ × Bytes
unfolding is_port_first path_of without_port
split_url start = elim (strchr b':' start) [
  | none ↦ without_port start
  | some (host, rest) ↦
      if is_port_first host start
      then (host, atoi (drop 1 rest), path_of start)
      else without_port start
]

-- `parse_request_url` for pointers that are not `NULL`: host, port and path, which it writes into
-- buffers whose sizes it does not know.
unfoldable pub parse_request_url : Bytes → Bytes × ℤ × Bytes
unfolding split_url
parse_request_url url = split_url (if starts_with (codes "http://") url then drop 7 url else url)
