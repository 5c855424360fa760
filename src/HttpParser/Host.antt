-- ===== src/HttpParser/Host.antt =====
-- `validate_http_request` and `extract_host_port`.
use proxy_server_in_c.Common.{
  ℕ, ◌≤◌, ◌≡◌, ◌≢◌, ◌↔◌, refl, Bool, true, false, not, ◌||◌, ◌&&◌, List, [], ◌∷◌, ◌++◌,
  if◌then◌else◌, Bytes, codes, drop, arith, Option-cases, Bool-cases, inl, inr, Any,
}
use proxy_server_in_c.Common.Int.{ℤ, pos, negsuc, positive, int_leb}
use proxy_server_in_c.Common.CString.{
  starts_with, strchr, atoi, Every, starts_with_iff, strchr_line, strchr_absent,
}
use proxy_server_in_c.HttpParser.{validate_http_request, extract_host_port}

abbrev pub methods : List Bytes
methods = codes "GET" ∷ codes "POST" ∷ codes "PUT" ∷ codes "DELETE" ∷ codes "HEAD" ∷ []

-- The tests of `validate_http_request`, one for each method.
begins : Bytes → List Bytes → Bool
begins request [] = false
begins request (m ∷ ms) = starts_with (m ++ b' ' ∷ []) request || begins request ms

abbrev Begins : Bytes → List Bytes → Type 0
Begins request ms = Any (λ m. (rest : Bytes) × (request ≡ (m ++ b' ' ∷ []) ++ rest)) ms

begins_sound : (request : Bytes) (ms : List Bytes) → begins request ms ≡ true → Begins request ms
unfolding begins
begins_sound request [] h = absurd (ground arith)
begins_sound request (m ∷ ms) h = elim (Bool-cases (starts_with (m ++ b' ' ∷ []) request)) [
  | inl e ↦ inl ((starts_with_iff (m ++ b' ' ∷ []) request).0 e)
  | inr e ↦ inr (begins_sound request ms (ground arith))
]

begins_complete : (request : Bytes) (ms : List Bytes) → Begins request ms → begins request ms ≡ true
unfolding begins
begins_complete request [] a = absurd a
begins_complete request (m ∷ ms) (inl w) = rw ((starts_with_iff (m ++ b' ' ∷ []) request).1 w)
begins_complete request (m ∷ ms) (inr a) = ground (arith, begins_complete request ms a)

validate-begins :
    (request : Bytes) (length : ℤ)
    → validate_http_request request length ≡ (positive length && begins request methods)
unfolding validate_http_request begins
validate-begins request length = ground arith

-- A request is valid exactly when its length is positive and it begins with one of the five
-- methods and a space.
pub validate_http_request_iff :
    (request : Bytes) (length : ℤ)
    → (validate_http_request request length ≡ true) ↔ (
        (positive length ≡ true)
        × Any (λ m. (rest : Bytes) × (request ≡ (m ++ b' ' ∷ []) ++ rest)) methods)
validate_http_request_iff request length = (
  λ h. (
    ground (arith, validate-begins request length),
    begins_sound request methods (ground (arith, validate-begins request length)),
  ),
  λ (h, a). ground (arith, validate-begins request length, begins_complete request methods a),
)

port_of : (port : ℤ) → ℤ
port_of port = if not (positive port) || not (int_leb port (pos 65535)) then pos 80 else port

port_of_range : (port : ℤ) → (n : ℕ) × (port_of port ≡ pos n) × (1 ≤ n) × (n ≤ 65535)
unfolding port_of
port_of_range (negsuc n) = (80, refl, omega arith, omega arith)
port_of_range (pos n) = elim (Bool-cases (positive (pos n) && int_leb (pos n) (pos 65535))) [
  | inl e ↦ (n, ground arith, ground arith, ground arith)
  | inr e ↦ (80, ground arith, omega arith, omega arith)
]

module _ (header : Bytes) where
  -- Whatever the header says, the port is one that TCP has.
  extract_host_port_range : (n : ℕ) × ((extract_host_port header).1 ≡ pos n) × (1 ≤ n) × (n ≤ 65535)
  unfolding extract_host_port port_of
  extract_host_port_range = elim (Option-cases (strchr b':' header)) [
    | inl e ↦ rw (extract_host_port, e) (80, refl, omega arith, omega arith)
    | inr ((host, rest), e) ↦ rw (extract_host_port, e) (port_of_range (atoi (drop 1 rest)))
  ]

-- A header with no colon names a host on port 80. One with a colon names the host before the first
-- colon, on the port that `atoi` reads behind it if that is from 1 to 65535, and else on port 80;
-- so the port is always one that TCP has.
pub extract_host_port_split :
    (host port : Bytes)
    → Every (λ c. c ≢ b':') host
    → (extract_host_port host ≡ (host, pos 80))
      × (extract_host_port (host ++ b':' ∷ port) ≡ (
        host,
        (if positive (atoi port) && int_leb (atoi port) (pos 65535) then atoi port else pos 80),
      ))
      × ((n : ℕ) × ((extract_host_port (host ++ b':' ∷ port)).1 ≡ pos n) × (1 ≤ n) × (n ≤ 65535))
unfolding extract_host_port
extract_host_port_split host port plain = (
  rw (extract_host_port, strchr_absent b':' host plain),
  rw (extract_host_port, strchr_line b':' host port plain) (ground arith),
  extract_host_port_range (host ++ b':' ∷ port),
)
