-- ===== src/Webhook/Worker/Signatures.antt =====
-- What a webhook's signature covers (internal/webhook/worker.go).
use letterbox.Prelude.{ℕ, ◌≡◌, Text, arith}
use letterbox.Prelude.Separators.{separator-injective, decimal, decimal-injective, decimal-Lacks}
use letterbox.Webhook.Worker.{signed_message}

-- The message that is signed determines the timestamp and the payload: no part of the one can pass
-- for a part of the other.
pub signed_message-injective :
    (t t' : ℕ) (payload payload' : Text)
    → signed_message t payload ≡ signed_message t' payload'
    → (t ≡ t') × (payload ≡ payload')
unfolding signed_message
signed_message-injective t t' payload payload' e =
    let (number, same) =
      separator-injective b'.' (decimal t) (decimal t') payload payload'
        (decimal-Lacks b'.' t (omega arith)) (decimal-Lacks b'.' t' (omega arith)) e in
    (decimal-injective t t' number, same)
