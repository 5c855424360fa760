-- ===== src/Url/Parts.antt =====
-- The parts that `parse_request_url` finds in a URL.
use mathlib.Core.List.{append_assoc}
use proxy_server_in_c.Common.{
  ℕ, ◌<◌, ◌≡◌, ◌≢◌, ◌∙◌, refl, true, false, [], ◌∷◌, ◌++◌, some, ltb, Bytes, codes, length,
  length-append, arith, Option-cases, inl, inr,
}
use proxy_server_in_c.Common.Int.{pos}
use proxy_server_in_c.Common.CString.{starts_with, strchr, atoi, Every, Every-append, strchr_line}
use proxy_server_in_c.Url.{parse_request_url, split_url, without_port, is_port_first, path_of}

-- What is not in `s` is found behind it, or not at all.
strchr_beyond :
    (a c : ℕ) (s t : Bytes) {before rest : Bytes}
    → Every (λ d. d ≢ a) s
    → c ≢ a
    → strchr a (s ++ c ∷ t) ≡ some (before, rest)
    → length s < length before
unfolding strchr
strchr_beyond a c [] t h ne e = elim (Option-cases (strchr a t)) [
  | inl n ↦ ground (arith, n, e)
  | inr (x, n) ↦ ground (arith, n, e)
]
strchr_beyond a c (d ∷ s) t h ne e = elim (Option-cases (strchr a (s ++ c ∷ t))) [
  | inl n ↦ ground (arith, n, e, h.0)
  | inr ((b, r), n) ↦ ground (arith, n, e, h.0, strchr_beyond a c s t h.1 ne n)
]

-- What stands behind `http://`.
http-start : (s : Bytes) → parse_request_url (codes "http://" ++ s) ≡ split_url s
unfolding parse_request_url starts_with
http-start s = refl

module _ (host : Bytes) (no_colon : Every (λ c. c ≢ b':') host)
    (no_slash : Every (λ c. c ≢ b'/') host) where
  split_url-path : (rest : Bytes) → split_url (host ++ b'/' ∷ rest) ≡ (host, pos 80, b'/' ∷ rest)
  unfolding split_url without_port is_port_first
  split_url-path rest =
      let slash = strchr_line b'/' host rest no_slash in
      elim (Option-cases (strchr b':' (host ++ b'/' ∷ rest))) [
        | inl e ↦ rw (split_url, e, without_port, slash) refl
        | inr ((before, tail), e) ↦
            let beyond = strchr_beyond b':' b'/' host rest no_colon (λ q. ground (arith, q)) e in
            let later : ltb (length before) (length host) ≡ false = ground (arith, beyond) in
            rw (split_url, e, is_port_first, slash, later, without_port) refl
      ]

  strchr_slash :
      (port rest : Bytes)
      → Every (λ c. c ≢ b'/') port
      → strchr b'/' (host ++ b':' ∷ (port ++ b'/' ∷ rest)) ≡ some (host ++ b':' ∷ port, b'/' ∷ rest)
  strchr_slash port rest plain = rw (← append_assoc host (b':' ∷ port) (b'/' ∷ rest)) (
      strchr_line b'/' (host ++ b':' ∷ port) rest (
        Every-append (λ c. c ≢ b'/') host (b':' ∷ port) no_slash ((λ q. ground (arith, q)), plain)))

  split_url-port :
      (port rest : Bytes)
      → Every (λ c. c ≢ b'/') port
      → split_url (host ++ b':' ∷ (port ++ b'/' ∷ rest))
        ≡ (host, atoi (port ++ b'/' ∷ rest), b'/' ∷ rest)
  unfolding split_url is_port_first path_of
  split_url-port port rest plain =
      let colon = strchr_line b':' host (port ++ b'/' ∷ rest) no_colon in
      let slash = strchr_slash port rest plain in
      let first : ltb (length host) (length (host ++ b':' ∷ port)) ≡ true =
        ground (arith, length-append host (b':' ∷ port)) in
      rw (split_url, colon, is_port_first, slash, first, path_of) refl

  -- The parts of a URL `http://host/path` are the host, port 80 and the path from its slash on,
  -- whatever colons stand in the path; those of `http://host:port/path` are the host, what `atoi`
  -- reads from `port/path`, and the path. The host holds no colon and no slash, the port no slash.
  pub parse_request_url_lem :
      (port rest : Bytes)
      → Every (λ c. c ≢ b'/') port
      → (parse_request_url (codes "http://" ++ (host ++ b'/' ∷ rest)) ≡ (host, pos 80, b'/' ∷ rest))
        × (parse_request_url (codes "http://" ++ (host ++ b':' ∷ (port ++ b'/' ∷ rest)))
            ≡ (host, atoi (port ++ b'/' ∷ rest), b'/' ∷ rest))
  parse_request_url_lem port rest plain = (
    http-start (host ++ b'/' ∷ rest) ∙ split_url-path rest,
    http-start (host ++ b':' ∷ (port ++ b'/' ∷ rest)) ∙ split_url-port port rest plain,
  )
