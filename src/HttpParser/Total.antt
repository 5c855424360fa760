-- ===== src/HttpParser/Total.antt =====
-- `ParsedRequest_parse` ends: the header loop and its rounds.
use proxy_server_in_c.Common.{
  ℕ, zero, suc, ◌+◌, ◌≤◌, ◌<◌, ◌≡◌, refl, Bool, List, [], ◌∷◌, Option, none, some, ◌==◌, Bytes,
  length, take, drop, arith, Option-cases, Bool-cases, inl, inr,
}
use proxy_server_in_c.Common.Int.{ℤ, minus_one, positive, pos_part}
use proxy_server_in_c.Common.CString.{c_str, strstr}
use proxy_server_in_c.HttpParser.{
  ParsedRequest, crlf, host_value, header_loop, parse_block, parsed_request_parse,
}

pub length-drop-le : {A : Type 0} (n : ℕ) (xs : List A) → length (drop n xs) ≤ length xs
length-drop-le zero xs = omega arith
length-drop-le (suc n) [] = omega arith
length-drop-le (suc n) (x ∷ xs) = omega (arith, length-drop-le n xs)

length-drop_two :
    {A : Type 0} (n : ℕ) (x : A) (xs : List A) → length (drop (n + 2) (x ∷ xs)) ≤ length xs
length-drop_two n x xs =
    let e : n + 2 ≡ suc (n + 1) = omega arith in rw e (length-drop-le (n + 1) xs)

pub header_loop_total :
    (fuel : ℕ) (rest : Bytes)
    → length rest < fuel
    → (host : Option Bytes) × (header_loop fuel rest ≡ some host)
unfolding header_loop
header_loop_total zero rest h = absurd (omega arith)
header_loop_total (suc fuel) [] h = (none, refl)
header_loop_total (suc fuel) (c ∷ rest) h = elim (Option-cases (strstr crlf (c_str (c ∷ rest)))) [
  | inl e ↦ rw (header_loop, e) (none, refl)
  | inr ((line, tail), e) ↦ elim (Bool-cases (length line == 0)) [
    | inl z ↦ rw (header_loop, e, z) (none, refl)
    | inr z ↦ elim (Option-cases (host_value line)) [
      | inr (v, f) ↦ rw (header_loop, e, z, f) (some v, refl)
      | inl f ↦
          rw (header_loop, e, z, f)
            (header_loop_total fuel (drop (length line + 2) (c ∷ rest))
              (omega (arith, length-drop_two (length line) c rest)))
    ]
  ]
]

parse_block_total :
    (fuel : ℕ) (p : ParsedRequest) (block : Bytes)
    → length block < fuel
    → (q : ParsedRequest) × (n : ℤ) × (parse_block fuel p block ≡ some (q, n))
unfolding parse_block
parse_block_total fuel p block h = elim (Option-cases (strstr crlf (c_str block))) [
  | inl e ↦ rw (parse_block, e) (p, minus_one, refl)
  | inr ((line, tail), e) ↦
      let (host, f) =
        header_loop_total fuel (drop (length line + 2) block)
          (omega (arith, length-drop-le (length line + 2) block)) in
      rw (parse_block, e, f) (_, _, refl)
]

-- `ParsedRequest_parse` ends on every input: the rounds that the model gives its header loop are
-- enough.
pub parsed_request_parse_total :
    (malloc : Bool) (p : ParsedRequest) (memory : Bytes) (buflen : ℤ)
    → (q : ParsedRequest) × (n : ℤ) × (parsed_request_parse malloc p memory buflen ≡ some (q, n))
unfolding parsed_request_parse
parsed_request_parse_total malloc p memory buflen = elim (Bool-cases (positive buflen)) [
  | inr e ↦ rw e (p, minus_one, refl)
  | inl e ↦ elim (Bool-cases malloc) [
    | inr f ↦ rw (e, f) (record p { buf = none }, minus_one, refl)
    | inl f ↦
        rw (e, f)
          (parse_block_total (length (take (pos_part buflen) memory) + 1)
            (record p { buf = some (take (pos_part buflen) memory); buflen = pos_part buflen })
            (take (pos_part buflen) memory) (omega arith))
  ]
]
