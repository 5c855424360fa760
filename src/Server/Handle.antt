-- ===== src/Server/Handle.antt =====
-- `handle_client_request`, on every branch.
use proxy_server_in_c.Common.{
  ◌-◌, ◌≤◌, ◌<◌, ◌≡◌, refl, true, none, Any, All, [], ◌⊎◌, inl, inr, some, ◌==◌, Bytes, List, ◌∷◌,
  length, take, arith, Bool-cases,
}
use proxy_server_in_c.HttpParser.Host.{methods}
use proxy_server_in_c.HttpParser.Method.{validated_method}
use proxy_server_in_c.HttpParser.{
  extract_host_port, validate_http_request, parsed_request_parse, parsed_request_create,
  ParsedRequest,
}
use proxy_server_in_c.Common.CString.{c_str}
use proxy_server_in_c.Common.Int.{ℤ, pos, negative}
use proxy_server_in_c.Common.Run.{Returns, returns, Returns-then, Returns-weaken}
use proxy_server_in_c.Cache.Aging.{MallocIsFresh}
use proxy_server_in_c.Server.{
  World, Net, Event, closed, answer, handle_client_request, max_request_size,
}
use proxy_server_in_c.Server.Texts.{bad_request, internal_error, bad_gateway}
use proxy_server_in_c.Server.Sound.{IsSound, IsPrintable, forward-IsSound}

kept : {w v : World} → IsSound w → v.cache ≡ w.cache → v.pool ≡ w.pool → IsSound v
kept s c q = record { cache = rw c s.cache; pool = rw q s.pool }

-- What the program does not see to, for no text to overflow: a path, and a host name that fits the
-- buffer.
pub record IsServable (request : ParsedRequest) : Type 0 where
  pub path : Bytes
  pub has_path : request.path ≡ some path
  pub short_host :
      (request.host ≡ none)
      ⊎ ((header : Bytes) × (request.host ≡ some header)
          × (length (extract_host_port header).0 < 256))

short_method :
    {request : ParsedRequest} (ms : List Bytes)
    → All (λ m. length m ≤ 7) ms
    → Any (λ m. request.method ≡ some m) ms
    → IsServable request
    → IsPrintable request
short_method [] short a v = absurd a
short_method (m ∷ ms) short (inl e) v = record {
  method = m;
  path = v.path;
  has_method = e;
  has_path = v.has_path;
  short_method = short.0;
  short_host = v.short_host;
}
short_method (m ∷ ms) short (inr a) v = short_method ms short.1 a v

short_methods : All (λ m. length m ≤ 7) methods
short_methods = (omega arith, (omega arith, (omega arith, (omega arith, (omega arith, tt)))))

module _ (net : Net) (client_socket : ℤ) {w : World} (s : IsSound w) (buffer : Bytes)
    {request : ParsedRequest} {n : ℤ} where
  answer-IsSound :
      MallocIsFresh net.alloc w.cache
      → parsed_request_parse net.malloc parsed_request_create buffer (pos (length buffer))
        ≡ some (request, n)
      → (negative n ≡ true) ⊎ (net.parse_memory ≡ true) × IsServable request
      → Returns (λ _ v. IsSound v) (answer net buffer client_socket w)
  unfolding answer
  answer-IsSound m parsed p =
      elim (Bool-cases (validate_http_request (c_str buffer) (pos (length buffer)))) [
        | inr e ↦ rw e (Returns-weaken (bad_request w) (λ _ v (c, q). kept s c q))
        | inl e ↦ elim (Bool-cases net.calloc) [
          | inr f ↦ rw (e, f) (Returns-weaken (internal_error w) (λ _ v (c, q). kept s c q))
          | inl f ↦ elim (Bool-cases (negative n)) [
            | inl g ↦
                rw (e, f, parsed, g) (Returns-weaken (bad_request w) (λ _ v (c, q). kept s c q))
            | inr g ↦ elim p [
              | inl g' ↦ absurd (ground arith)
              | inr (memory, servable) ↦
                  let printable =
                    short_method methods short_methods
                      (validated_method net.malloc buffer e parsed g) servable in
                  rw (e, f, parsed, g, memory)
                    (Returns-then (forward-IsSound net request client_socket s m printable)
                      (λ sent v sound. elim (Bool-cases (negative sent)) [
                        | inl h ↦
                            rw h (Returns-weaken (bad_gateway v) (λ _ u (c, q). kept sound c q))
                        | inr h ↦ rw h (returns sound)
                      ]))
            ]
          ]
        ]
      ]

-- On a well-formed cache and a valid pool, and once `recv` has answered with bytes,
-- `handle_client_request` returns, whatever the server does and whichever of the tested allocations
-- fail, if `malloc` gives no address in use and, where the request parses, the allocations that
-- `ParsedRequest_parse` does not test succeed and the request has a path and no Host header or one
-- with a host name of less than 256 bytes. It leaves the cache well formed and the pool valid, and
-- the last thing it does is to close the client's socket.
pub handle_client_request_lem :
    (net : Net) (client_socket : ℤ) {w : World}
    → IsSound w
    → MallocIsFresh net.alloc w.cache
    → {bytes : Bytes} {request : ParsedRequest} {n : ℤ} → net.request ≡ some bytes
    → parsed_request_parse net.malloc parsed_request_create
        (take (max_request_size - 1) bytes)
        (pos (length (take (max_request_size - 1) bytes)))
      ≡ some (request, n)
    → (negative n ≡ true) ⊎ (net.parse_memory ≡ true) × IsServable request
    → Returns
        (λ _ v. IsSound v × (t : List Event) × (v.trace ≡ closed client_socket ∷ t))
        (handle_client_request net client_socket w)
unfolding handle_client_request
handle_client_request_lem net client_socket {w} s m {bytes} r parsed p =
    elim (Bool-cases (length (take (max_request_size - 1) bytes) == 0)) [
      | inl e ↦ rw (r, e) (returns (record { cache = s.cache; pool = s.pool }, w.trace, refl))
      | inr e ↦
          rw (r, e)
            (Returns-then
              (answer-IsSound net client_socket s (take (max_request_size - 1) bytes) m parsed p)
              (λ _ v sound.
                returns (record { cache = sound.cache; pool = sound.pool }, v.trace, refl)))
    ]
