-- ===== src/Logging/Examples.antt =====
-- The theorem on the logger at a concrete input.
use letterbox.Prelude.{codes, [], ◌∷◌, arith}
use letterbox.Logging.{header, body, request_logger}
use letterbox.Logging.Status.{IsTransparent, request_logger-IsTransparent}

-- A second header is dropped by the wrapper, and ignored by net/http.
request_logger-IsTransparent_example :
    IsTransparent
      (header 404 ∷ body (codes "no") ∷ header 200 ∷ body (codes "pe") ∷ [])
      (request_logger (header 404 ∷ body (codes "no") ∷ header 200 ∷ body (codes "pe") ∷ []))
request_logger-IsTransparent_example =
    request_logger-IsTransparent
      (header 404 ∷ body (codes "no") ∷ header 200 ∷ body (codes "pe") ∷ [])
      (omega arith, (tt, (omega arith, (tt, tt))))
