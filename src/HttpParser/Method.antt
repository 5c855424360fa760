-- ===== src/HttpParser/Method.antt =====
-- A request that `validate_http_request` lets through, parsed by `ParsedRequest_parse`.

use mathlib.Core.List.{append_assoc}
use proxy_server_in_c.Common.{
  ℕ, ◌==◌, ◌+◌, ◌≡◌, ◌≢◌, refl, ◌∙◌, ap, Bool, not, ◌&&◌, true, false, List, [], ◌∷◌, ◌++◌, none,
  some, inl, inr, Bytes, length, drop, arith, Any, All, Option-cases, take_of_length-le,
}
use proxy_server_in_c.Common.Int.{ℤ, pos, minus_one, negative}
use proxy_server_in_c.Common.CString.{c_str, strstr, strtok, Every, Every-append, strtok_word}
use proxy_server_in_c.HttpParser.{
  ParsedRequest, parsed_request_create, or_keep, crlf, header_loop, parse_block,
  parsed_request_parse, validate_http_request,
}
use proxy_server_in_c.HttpParser.Host.{methods, validate_http_request_iff}

-- A name that neither a space nor a line end can break.
pub record IsToken (m : Bytes) : Type 0 where
  pub not_empty : m ≢ []
  pub no_space : Every (λ c. c ≢ b' ') m
  pub no_return : Every (λ c. c ≢ 13) m

-- What stands before the first line end of a text keeps what the text begins with.
strstr_begins :
    (w rest : Bytes) {line tail : Bytes}
    → Every (λ c. c ≢ 13) w
    → strstr crlf (w ++ rest) ≡ some (line, tail)
    → (more : Bytes) × (line ≡ w ++ more)
unfolding strstr
strstr_begins [] rest {line} h e = (line, refl)
strstr_begins (c ∷ w) rest {line} {tail} h e = elim (Option-cases (strstr crlf (w ++ rest))) [
  | inl f ↦
      let other : (13 == c) ≡ false = ground (arith, h.0) in
      absurd (ground (arith, rw (strstr, other, f) at e))
  | inr ((before, behind), f) ↦
      let other : (13 == c) ≡ false = ground (arith, h.0) in
      let (more, g) = strstr_begins w rest h.1 f in
      let q : line ≡ c ∷ before = ground (arith, rw (strstr, other, f) at e) in
      (more, q ∙ ap (λ l. c ∷ l) g)
]

first_token :
    (block m rest : Bytes) {line tail : Bytes}
    → IsToken m
    → c_str block ≡ (m ++ b' ' ∷ []) ++ rest
    → strstr crlf (c_str block) ≡ some (line, tail)
    → (strtok line).0 ≡ some m
first_token block m rest {line = line} t e f =
    let text : Every (λ c. c ≢ 13) (m ++ b' ' ∷ []) =
      Every-append _ m (b' ' ∷ []) t.no_return (omega arith, tt) in
    let (more, g) = strstr_begins (m ++ b' ' ∷ []) rest text (rw e at f) in
    let split : line ≡ m ++ (b' ' ∷ more) = g ∙ append_assoc m (b' ' ∷ []) more in
    rw (split, strtok_word m more t.not_empty t.no_space) refl

abbrev lacks : ℕ → Bytes → Bool
lacks c [] = true
lacks c (a ∷ s) = not (a == c) && lacks c s

lacks_sound : (c : ℕ) (s : Bytes) → lacks c s ≡ true → Every (λ a. a ≢ c) s
lacks_sound c [] h = tt
lacks_sound c (a ∷ s) h = ((λ e. ground arith), lacks_sound c s (ground arith))

token : (c : ℕ) (m : Bytes) → lacks b' ' (c ∷ m) ≡ true → lacks 13 (c ∷ m) ≡ true → IsToken (c ∷ m)
token c m spaces returns = record {
  not_empty = λ e. ground arith;
  no_space = lacks_sound b' ' (c ∷ m) spaces;
  no_return = lacks_sound 13 (c ∷ m) returns;
}

methods-AreTokens : All IsToken methods
methods-AreTokens = (
  token _ _ refl refl,
  (token _ _ refl refl, (token _ _ refl refl, (token _ _ refl refl, (token _ _ refl refl, tt)))),
)

module _ (block : Bytes) {line tail : Bytes}
    (first_line : strstr crlf (c_str block) ≡ some (line, tail)) (request : ParsedRequest)
    (method : request.method ≡ or_keep (strtok line).0 none) where
  first_method :
      (ms : List Bytes)
      → All IsToken ms
      → Any (λ m. (rest : Bytes) × (c_str block ≡ (m ++ b' ' ∷ []) ++ rest)) ms
      → Any (λ m. request.method ≡ some m) ms
  first_method [] tokens a = a
  first_method (m ∷ ms) tokens (inl (rest, e)) =
      inl (method ∙ ap (λ o. or_keep o none) (first_token block m rest tokens.0 e first_line))
  first_method (m ∷ ms) tokens (inr a) = inr (first_method ms tokens.1 a)

parsed_method :
    (block : Bytes) (n : ℕ) {request : ParsedRequest} {result : ℤ}
    → Any (λ m. (rest : Bytes) × (c_str block ≡ (m ++ b' ' ∷ []) ++ rest)) methods
    → parse_block
        (length block + 1)
        (record parsed_request_create { buf = some block; buflen = n })
        block
      ≡ some (request, result)
    → negative result ≡ false
    → Any (λ m. request.method ≡ some m) methods
unfolding parse_block
parsed_method block n {request} {result} begins parsed fine =
    elim (Option-cases (strstr crlf (c_str block))) [
      | inl e ↦
          let q : result ≡ minus_one = ground (arith, rw (parse_block, e) at parsed) in
          absurd (ground (arith, rw q at fine))
      | inr ((line, tail), e) ↦
          elim (Option-cases (header_loop (length block + 1) (drop (length line + 2) block))) [
            | inl f ↦ absurd (ground (arith, rw (parse_block, e, f) at parsed))
            | inr (host, f) ↦
                let q = rw (parse_block, e, f) at parsed in
                first_method block e request (ground (arith, q)) methods methods-AreTokens begins
          ]
    ]

-- A request that `validate_http_request` lets through and that `ParsedRequest_parse` then reads
-- without an error has one of the methods GET, POST, PUT, DELETE and HEAD.
pub validated_method :
    (malloc : Bool) (block : Bytes) {request : ParsedRequest} {n : ℤ}
    → validate_http_request (c_str block) (pos (length block)) ≡ true
    → parsed_request_parse malloc parsed_request_create block (pos (length block))
      ≡ some (request, n)
    → negative n ≡ false
    → Any (λ m. request.method ≡ some m) methods
unfolding parsed_request_parse
validated_method false block {request} {n} valid parsed fine =
    let (sized, _) = (validate_http_request_iff (c_str block) (pos (length block))).0 valid in
    let q : n ≡ minus_one = ground (arith, rw (parsed_request_parse, sized) at parsed) in
    absurd (ground (arith, rw q at fine))
validated_method true block {request} {n} valid parsed fine =
    let (sized, begins) = (validate_http_request_iff (c_str block) (pos (length block))).0 valid in
    let whole = take_of_length-le (length block) block (omega arith) in
    parsed_method block (length block) begins (rw (parsed_request_parse, sized, whole) at parsed)
      fine
