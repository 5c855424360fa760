-- ===== src/HttpParser/Parse.antt =====
-- `ParsedRequest_parse`, on a request laid out as one.
use proxy_server_in_c.Common.{
  ℕ, zero, suc, ◌+◌, ◌<◌, ◌≡◌, ◌≢◌, refl, ap, ◌∙◌, true, false, List, [], ◌∷◌, ◌++◌, Option, none,
  some, ◌==◌, Bytes, codes, length, drop, length-append, take-append, All, arith,
}
use proxy_server_in_c.Common.Int.{pos, positive}
use proxy_server_in_c.Common.CString.{
  c_str, strchr, strstr, strtok, Every, c_str-append, Every-append, strstr_line, strtok_word,
  strtok_end,
}
use proxy_server_in_c.HttpParser.{
  ParsedRequest, parsed_request_create, crlf, or_keep, host_value, header_loop, parse_block,
  parsed_request_parse,
}

-- A line of text: no NUL and no carriage return.
abbrev pub IsLine : Bytes → Type 0
IsLine s = Every (λ c. c ≢ 0) s × Every (λ c. c ≢ 13) s

-- A header line that names another header.
pub record OtherHeader (line : Bytes) : Type 0 where
  pub is_line : IsLine line
  pub not_empty : line ≢ []
  pub other : host_value line ≡ none

abbrev pub print_lines : List Bytes → Bytes → Bytes
print_lines [] tail = tail
print_lines (line ∷ lines) tail = line ++ (13 ∷ 10 ∷ print_lines lines tail)

drop-append : {A : Type 0} (xs ys : List A) → drop (length xs) (xs ++ ys) ≡ ys
drop-append [] ys = refl
drop-append (x ∷ xs) ys = drop-append xs ys

drop-line : (line tail : Bytes) → drop (length line + 2) (line ++ (13 ∷ 10 ∷ tail)) ≡ tail
drop-line [] tail = refl
drop-line (c ∷ line) tail =
    let e : length (c ∷ line) + 2 ≡ suc (length line + 2) = omega arith in
    rw e (drop-line line tail)

c_str-crlf : (tail : Bytes) → c_str (13 ∷ 10 ∷ tail) ≡ 13 ∷ 10 ∷ c_str tail
unfolding c_str
c_str-crlf tail = refl

pub find_line :
    (line tail : Bytes)
    → IsLine line
    → strstr crlf (c_str (line ++ (13 ∷ 10 ∷ tail))) ≡ some (line, 13 ∷ 10 ∷ c_str tail)
find_line line tail (text, one) =
    rw (c_str-append line (13 ∷ 10 ∷ tail) text, c_str-crlf tail)
      (strstr_line line (c_str tail) one)

-- Lines that name other headers are passed over, and the first Host header is found.
host_value_empty : {value : Bytes} → ¬ (host_value [] ≡ some value)
unfolding host_value strchr
host_value_empty h = ground arith

shorter :
    (line rest : Bytes) (fuel : ℕ)
    → length (line ++ (13 ∷ 10 ∷ rest)) < suc fuel
    → length rest < fuel
shorter line rest fuel h = omega (arith, length-append line (13 ∷ 10 ∷ rest))

header_loop_finds :
    (fuel : ℕ) (lines : List Bytes) (line tail : Bytes) {value : Bytes}
    → All OtherHeader lines
    → IsLine line
    → host_value line ≡ some value
    → length (print_lines lines (line ++ (13 ∷ 10 ∷ tail))) < fuel
    → header_loop fuel (print_lines lines (line ++ (13 ∷ 10 ∷ tail))) ≡ some (some value)
unfolding header_loop
header_loop_finds zero lines line tail others text found h = absurd (omega arith)
header_loop_finds (suc fuel) [] [] tail others text found h = absurd (host_value_empty found)
header_loop_finds (suc fuel) [] (c ∷ line) tail others text found h =
    let some_text : (length (c ∷ line) == 0) ≡ false = ground arith in
    rw (header_loop, find_line (c ∷ line) tail text, some_text, found)
header_loop_finds (suc fuel) ([] ∷ lines) line tail others text found h =
    absurd (others.0.not_empty refl)
header_loop_finds (suc fuel) ((c ∷ other) ∷ lines) line tail others text found h =
    let some_text : (length (c ∷ other) == 0) ≡ false = ground arith in
    rw
      (
        header_loop,
        find_line (c ∷ other) (print_lines lines (line ++ (13 ∷ 10 ∷ tail))) others.0.is_line,
        some_text,
        others.0.other,
        drop-line (c ∷ other) (print_lines lines (line ++ (13 ∷ 10 ∷ tail))),
      )
      (header_loop_finds fuel lines line tail others.1 text found
        (shorter (c ∷ other) (print_lines lines (line ++ (13 ∷ 10 ∷ tail))) fuel h))

-- A word of a request line.
pub record IsWord (w : Bytes) : Type 0 where
  pub not_empty : w ≢ []
  pub no_space : Every (λ c. c ≢ b' ') w
  pub is_line : IsLine w

abbrev pub request_line : Bytes → Bytes → Bytes → Bytes
request_line method path version = method ++ (b' ' ∷ (path ++ (b' ' ∷ version)))

request_line-IsLine :
    {method path version : Bytes}
    → IsWord method
    → IsWord path
    → IsWord version
    → IsLine (request_line method path version)
request_line-IsLine {method} {path} {version} m p v = (
  Every-append _ method _ m.is_line.0
      (λ q. ground arith, Every-append _ path _ p.is_line.0 (λ q. ground arith, v.is_line.0)),
  Every-append _ method _ m.is_line.1
      (λ q. ground arith, Every-append _ path _ p.is_line.1 (λ q. ground arith, v.is_line.1)),
)

pub parse_block_reads :
    (fuel : ℕ) (q : ParsedRequest) (method path version rest : Bytes) {host : Option Bytes}
    → IsWord method
    → IsWord path
    → IsWord version
    → header_loop fuel rest ≡ some host
    → parse_block fuel q (request_line method path version ++ (13 ∷ 10 ∷ rest))
      ≡ some (
        record q {
          method = some method;
          path = some path;
          version = some version;
          host = or_keep host q.host;
          port = or_keep q.port (some (codes "80"));
        },
        pos 0,
      )
unfolding parse_block
parse_block_reads fuel q method path version rest m p v found =
    let line = request_line method path version in
    let word : strtok line ≡ (some method, path ++ (b' ' ∷ version)) =
      strtok_word method (path ++ (b' ' ∷ version)) m.not_empty m.no_space in
    rw (
      parse_block,
      find_line line rest (request_line-IsLine m p v),
      drop-line line rest,
      found,
      word,
      strtok_word path version p.not_empty p.no_space,
      strtok_end version v.not_empty v.no_space,
    )

-- What `ParsedRequest_parse` makes of a request that is laid out as one: method, path and version
-- are the three words of the first line, the host is the value of the first Host header, whatever
-- headers stand before it and whatever bytes behind it, and the port is 80.
pub parsed_request_parse_reads :
    (method path version line value tail more : Bytes) (lines : List Bytes)
    → IsWord method
    → IsWord path
    → IsWord version
    → All OtherHeader lines
    → IsLine line
    → host_value line ≡ some value
    → {block : Bytes}
    → block
      ≡ request_line method path version ++ (13 ∷ 10 ∷ print_lines lines (line ++ (13 ∷ 10 ∷ tail)))
    → parsed_request_parse true parsed_request_create (block ++ more) (pos (length block))
      ≡ some (
        record {
          method = some method;
          protocol = none;
          host = some value;
          port = some (codes "80");
          path = some path;
          version = some version;
          buf = some block;
          buflen = length block;
        },
        pos 0,
      )
unfolding parsed_request_parse
parsed_request_parse_reads method path version line value tail more lines m p v others text found
      {block} e =
    let rest = print_lines lines (line ++ (13 ∷ 10 ∷ tail)) in
    let first_line = request_line method path version in
    let size : length block ≡ length first_line + (length rest + 2) =
      ap length e ∙ (length-append first_line (13 ∷ 10 ∷ rest) ∙ omega arith) in
    let some_bytes : positive (pos (length block)) ≡ true = ground arith in
    let host =
      header_loop_finds (length block + 1) lines line tail others text found (omega arith) in
    let start : ParsedRequest = record parsed_request_create {
      buf = some block;
      buflen = length block;
    } in
    rw (some_bytes, take-append block more)
      (ap (parse_block (length block + 1) start) e
        ∙ parse_block_reads (length block + 1) start method path version rest m p v host)
