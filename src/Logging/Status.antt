-- ===== src/Logging/Status.antt =====
-- The middleware does not change what a client sees, and logs the status that it sees
-- (internal/logging/middleware.go).
use letterbox.Prelude.{
  ℕ, ◌≤◌, ◌≡◌, refl, sym, ◌∙◌, ap, Text, true, List, [], ◌∷◌, ◌++◌, All, append_assoc, leb, arith,
  if◌then◌else◌,
}
use letterbox.Logging.{Call, header, body, Level, serve, request_logger}

-- What net/http documents of the calls of a handler: the first header that is not informational
-- decides the status, and 200 where the body or nothing comes first.
unfoldable pub client_status : List Call → ℕ
client_status [] = 200
client_status (header code ∷ calls) =
    let rest = client_status calls in if leb 200 code then code else rest
client_status (body b ∷ calls) = 200

unfoldable pub client_body : List Call → Text
client_body [] = []
client_body (header code ∷ calls) = client_body calls
client_body (body b ∷ calls) = b ++ client_body calls

abbrev pub IsFinal : Call → Type 0
IsFinal (header code) = 200 ≤ code
IsFinal (body b) = Unit

le→leb : (a b : ℕ) → a ≤ b → leb a b ≡ true
le→leb a b h = ground arith

client_status-final :
    (code : ℕ) (calls : List Call) → 200 ≤ code → client_status (header code ∷ calls) ≡ code
unfolding client_status
client_status-final code calls final = rw (le→leb 200 code final) refl

-- What the wrapper passes on once a header was written
bodies : List Call → List Call
bodies [] = []
bodies (header code ∷ calls) = bodies calls
bodies (body b ∷ calls) = body b ∷ bodies calls

client_body-bodies : (calls : List Call) → client_body (bodies calls) ≡ client_body calls
unfolding client_body bodies
client_body-bodies [] = refl
client_body-bodies (header code ∷ calls) = client_body-bodies calls
client_body-bodies (body b ∷ calls) = ap (λ r. b ++ r) (client_body-bodies calls)

append_nil : (calls : List Call) → calls ≡ calls ++ []
append_nil [] = refl
append_nil (c ∷ calls) = ap (λ r. c ∷ r) (append_nil calls)

serve-written :
    (handler : List Call) (status : ℕ) (calls : List Call)
    → serve handler (record { status = status; wrote_header = true; calls = calls })
      ≡ record { status = status; wrote_header = true; calls = calls ++ bodies handler }
unfolding serve bodies
serve-written [] status calls =
    ap (λ r. record { status = status; wrote_header = true; calls = r }) (append_nil calls)
serve-written (header code ∷ handler) status calls = serve-written handler status calls
serve-written (body b ∷ handler) status calls =
    serve-written handler status (calls ++ body b ∷ [])
    ∙ ap (λ r. record { status = status; wrote_header = true; calls = r })
        (append_assoc calls (body b ∷ []) (bodies handler))

-- The line logged has the status that the client sees, and the client sees the status and body that
-- it would see without the middleware.
abbrev pub IsTransparent : List Call → (Level × ℕ) × List Call → Type 0
IsTransparent handler r =
    (r.0.1 ≡ client_status r.1)
    × ((client_status r.1 ≡ client_status handler) × (client_body r.1 ≡ client_body handler))

-- Where a handler writes no informational header, the status that RequestLogger logs is the one
-- that the client sees, and the client sees the status and the body that it would see without the
-- middleware.
pub request_logger-IsTransparent :
    (handler : List Call) → All IsFinal handler → IsTransparent handler (request_logger handler)
unfolding request_logger client_status client_body serve
request_logger-IsTransparent [] h = (refl, (refl, refl))
request_logger-IsTransparent (header code ∷ handler) h =
    rw (serve-written handler code (header code ∷ [])) (
      let sent = client_status-final code (bodies handler) h.0 in
      (sym sent, (sent ∙ sym (client_status-final code handler h.0), client_body-bodies handler)))
request_logger-IsTransparent (body b ∷ handler) h =
    rw (serve-written handler 200 (header 200 ∷ body b ∷ []))
      ((refl, (refl, ap (λ r. b ++ r) (client_body-bodies handler))))
