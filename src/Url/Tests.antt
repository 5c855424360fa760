-- ===== src/Url/Tests.antt =====
-- Runs of `parse_request_url`, and the theorem at them.
use proxy_server_in_c.Common.{◌≡◌, ◌∷◌, ◌++◌, codes, arith}
use proxy_server_in_c.Common.Int.{pos}
use proxy_server_in_c.Common.CString.{atoi}
use proxy_server_in_c.Url.{parse_request_url}
use proxy_server_in_c.Url.Parts.{parse_request_url_lem}

parse_request_url_example :
    (parse_request_url (codes "http://" ++ (codes "b" ++ b'/' ∷ codes "x:y"))
      ≡ (codes "b", pos 80, b'/' ∷ codes "x:y"))
    × (parse_request_url
          (codes "http://" ++ (codes "b" ++ b':' ∷ (codes "81" ++ b'/' ∷ codes "x:y")))
        ≡ (codes "b", atoi (codes "81" ++ b'/' ∷ codes "x:y"), b'/' ∷ codes "x:y"))
parse_request_url_example =
    parse_request_url_lem (codes "b") (omega arith, tt) (omega arith, tt) (codes "81") (codes "x:y")
      (omega arith, (omega arith, tt))
