-- ===== src/Server/Texts.antt =====
-- The texts of proxy_server.c and their buffers.
use proxy_server_in_c.Common.{
  ℕ, ◌+◌, ◌≤◌, ◌<◌, ◌≡◌, refl, true, inl, inr, ltb, Bytes, codes, length, drop, arith, Bool-cases,
  Option-cases, length-append, length-take-le,
}
use proxy_server_in_c.Common.CString.{strstr, strchr, starts_with}
use proxy_server_in_c.Common.Run.{ok, Returns, returns}
use proxy_server_in_c.Server.{
  World, printed, actual_path, request_text, send_error_response, error_head, error_page, decimal,
}

pub printed_fits :
    {S : Type 0} (size : ℕ) (text : Bytes) (w : S)
    → length text < size
    → printed size text w ≡ ok text w
unfolding printed
printed_fits size text w h = let e : ltb (length text) size ≡ true = ground arith in rw e

pub length-actual_path : (path : Bytes) → length (actual_path path) ≤ 255
unfolding actual_path
length-actual_path path = elim (Option-cases (strstr (codes "http://") path)) [
  | inl e ↦ elim (Bool-cases (starts_with (codes "/") path)) [
    | inl f ↦ rw (actual_path, e, f) (length-take-le 255 path)
    | inr f ↦ rw (actual_path, e, f) (omega arith)
  ]
  | inr (x, e) ↦ elim (Option-cases (strchr b'/' (drop 7 path))) [
    | inl f ↦ rw (actual_path, e, f) (omega arith)
    | inr (y, f) ↦ rw (actual_path, e, f) (length-take-le 255 y.1)
  ]
]

pub length-request_text :
    (method path host : Bytes)
    → length (request_text method path host) ≡ length method + length path + length host + 70
unfolding request_text
length-request_text method path host = simp length-append (omega arith)

pub bad_request :
    (w : World)
    → Returns
        (λ _ v. (v.cache ≡ w.cache) × (v.pool ≡ w.pool))
        (send_error_response 400 (codes "Bad Request") w)
unfolding send_error_response error_head error_page decimal printed
bad_request w = returns (refl, refl)

pub internal_error :
    (w : World)
    → Returns
        (λ _ v. (v.cache ≡ w.cache) × (v.pool ≡ w.pool))
        (send_error_response 500 (codes "Internal Server Error") w)
unfolding send_error_response error_head error_page decimal printed
internal_error w = returns (refl, refl)

pub bad_gateway :
    (w : World)
    → Returns
        (λ _ v. (v.cache ≡ w.cache) × (v.pool ≡ w.pool))
        (send_error_response 502 (codes "Bad Gateway") w)
unfolding send_error_response error_head error_page decimal printed
bad_gateway w = returns (refl, refl)
