-- ===== src/HttpParser/Memory.antt =====
-- The memory behind src/components/http_parser.c: the blocks that `ParsedRequest_create` and
-- `ParsedRequest_parse` allocate, and `ParsedRequest_destroy`, which frees them.
use proxy_server_in_c.Common.{
  ℕ, zero, suc, ◌+◌, Bool, true, false, not, ◌&&◌, List, [], ◌∷◌, Option, none, some, ◌==◌,
  if◌then◌else◌, leb, ltb, Bytes, codes, length, take, drop,
}
use proxy_server_in_c.Common.Int.{ℤ, pos, minus_one, positive, pos_part}
use proxy_server_in_c.Common.Run.{ok, fault, out_of_fuel, Cmd, pure, ◌>>=◌, ◌>>◌}
use proxy_server_in_c.Common.CString.{c_str, strstr, strtok}
use proxy_server_in_c.Cache.{Ptr, null, update}
use proxy_server_in_c.Cache.Order.{has, remove}
use proxy_server_in_c.HttpParser.{crlf, host_value}

-- `struct ParsedRequest` in memory: its strings are addresses.
pub record Fields : Type 0 where
  pub buf : Ptr
  pub method : Ptr
  pub protocol : Ptr
  pub host : Ptr
  pub port : Ptr
  pub path : Ptr
  pub version : Ptr
  pub buflen : ℕ

-- The addresses of the blocks in use, the size and the string of each, and the structs.
pub record Heap : Type 0 where
  pub live : List Ptr
  pub size : Ptr → ℕ
  pub text : Ptr → Bytes
  pub fields : Ptr → Fields

-- The calls of `malloc` and `calloc`.
pub data Site : Type 0 where
  for_struct for_buf for_request_line for_method for_path for_version : Site
  for_header_line for_host for_port : Site

-- What they answer, when these addresses are in use.
abbrev pub Malloc : Type 0
Malloc = Site → List Ptr → Ptr

abbrev pub no_fields : Fields
no_fields = record {
  buf = null;
  method = null;
  protocol = null;
  host = null;
  port = null;
  path = null;
  version = null;
  buflen = 0;
}

unfoldable pub allocate : Malloc → Site → (size : ℕ) → Cmd Heap Ptr
allocate malloc site size s =
    let p = malloc site s.live in
    if p == null
    then ok null s
    else ok p (record s { live = p ∷ s.live; size = update s.size p size })

-- `strcpy(p, bytes)`, or `memcpy` with a NUL behind: a fault where `p` is no block, or too small.
unfoldable pub copy_to : Ptr → Bytes → Cmd Heap (Unit {0})
copy_to p bytes s =
    if has p s.live && leb (length bytes + 1) (s.size p)
    then ok tt (record s { text = update s.text p bytes })
    else fault

unfoldable pub load_text : Ptr → Cmd Heap Bytes
load_text p s = if has p s.live then ok (s.text p) s else fault

-- `free(p)`: a second `free` of one block is a fault.
unfoldable pub free : Ptr → Cmd Heap (Unit {0})
free p s = if has p s.live then ok tt (record s { live = remove p s.live }) else fault

unfoldable pub load_fields : Ptr → Cmd Heap Fields
load_fields pr s = if has pr s.live then ok (s.fields pr) s else fault

unfoldable pub set_fields : Ptr → (Fields → Fields) → Cmd Heap (Unit {0})
set_fields pr f s =
    if has pr s.live
    then ok tt (record s { fields = update s.fields pr (f (s.fields pr)) })
    else fault

-- `ParsedRequest_create`: the struct, all of it 0, or `NULL`.
unfoldable pub request_create : Malloc → Cmd Heap Ptr
unfolding allocate set_fields
request_create malloc = do
  pr ← allocate malloc for_struct 1
  if pr == null then pure null else (do set_fields pr (λ _. no_fields); pure pr)

-- `parse->f = malloc(strlen(text) + 1); strcpy(parse->f, text)`
unfoldable pub store :
    Malloc → Site → (pr : Ptr) → (Ptr → Fields → Fields) → Bytes → Cmd Heap (Unit {0})
unfolding allocate set_fields copy_to
store malloc site pr set text = do
  p ← allocate malloc site (length text + 1)
  set_fields pr (set p)
  copy_to p text

-- A token that `strtok` has found is stored.
unfoldable pub store_found :
    Malloc → Site → (pr : Ptr) → (Ptr → Fields → Fields) → Option Bytes → Cmd Heap (Unit {0})
unfolding store
store_found malloc site pr set none = pure tt
store_found malloc site pr set (some text) = store malloc site pr set text

-- The three tokens of the request line, which is copied first and freed after.
unfoldable pub store_request_line : Malloc → (pr : Ptr) → (line : Bytes) → Cmd Heap (Unit {0})
unfolding allocate copy_to load_text free store_found
store_request_line malloc pr line = do
  request_line ← allocate malloc for_request_line (length line + 1)
  copy_to request_line line
  text ← load_text request_line
  store_found malloc for_method pr (λ p r. record r { method = p }) (strtok text).0
  store_found malloc for_path pr (λ p r. record r { path = p }) (strtok (strtok text).1).0
  store_found malloc for_version pr (λ p r. record r { version = p })
      (strtok (strtok (strtok text).1).1).0
  free request_line

abbrev pub is_some : Option Bytes → Bool
is_some none = false
is_some (some v) = true

-- The header loop from `current_pos` on: each line is copied and freed, and the first Host header
-- is stored.
unfoldable pub store_host : ℕ → Malloc → (pr : Ptr) → Bytes → Cmd Heap (Unit {0})
unfolding allocate copy_to load_text free store_found
store_host zero malloc pr rest = λ _. out_of_fuel
store_host (suc fuel) malloc pr [] = pure tt
store_host (suc fuel) malloc pr (c ∷ rest) = elim (strstr crlf (c_str (c ∷ rest))) [
  | none ↦ pure tt
  | some (line, _) ↦ if length line == 0 then pure tt else (do
    header_line ← allocate malloc for_header_line (length line + 1)
    copy_to header_line line
    text ← load_text header_line
    store_found malloc for_host pr (λ p r. record r { host = p }) (host_value text)
    free header_line
    if is_some (host_value text)
        then pure tt
        else store_host fuel malloc pr (drop (length line + 2) (c ∷ rest)))
]

-- What follows the copy of the buffer in `ParsedRequest_parse`.
unfoldable pub parse_rest : Malloc → (pr : Ptr) → (block : Bytes) → Cmd Heap ℤ
unfolding load_fields store store_request_line store_host
parse_rest malloc pr block = elim (strstr crlf (c_str block)) [
  | none ↦ pure minus_one
  | some (line, _) ↦ (do
    store_request_line malloc pr line
    store_host (length block + 1) malloc pr (drop (length line + 2) block)
    r ← load_fields pr
    if r.port == null
        then store malloc for_port pr (λ p r. record r { port = p }) (codes "80")
        else pure tt
    pure (pos 0))
]

-- `ParsedRequest_parse` for pointers that are not `NULL`. `memory` is the memory at `buf`.
unfoldable pub request_parse : Malloc → (pr : Ptr) → (memory : Bytes) → (buflen : ℤ) → Cmd Heap ℤ
unfolding allocate copy_to load_text set_fields parse_rest
request_parse malloc pr memory buflen = if not (positive buflen) then pure minus_one else (do
  buf ← allocate malloc for_buf (pos_part buflen + 1)
  set_fields pr (λ r. record r { buf = buf })
  if buf == null
      then pure minus_one
      else if ltb (length memory) (pos_part buflen)
      then (λ _. fault)
      else (do
        copy_to buf (take (pos_part buflen) memory)
        set_fields pr (λ r. record r { buflen = pos_part buflen })
        block ← load_text buf
        parse_rest malloc pr block))

-- `if (p) free(p);`
unfoldable pub free_field : Ptr → Cmd Heap (Unit {0})
unfolding free
free_field p = if p == null then pure tt else free p

-- `ParsedRequest_destroy`.
unfoldable pub request_destroy : (pr : Ptr) → Cmd Heap (Unit {0})
unfolding load_fields free_field free
request_destroy pr = if pr == null then pure tt else (do
  r ← load_fields pr
  free_field r.buf
  free_field r.method
  free_field r.protocol
  free_field r.host
  free_field r.port
  free_field r.path
  free_field r.version
  free pr)
