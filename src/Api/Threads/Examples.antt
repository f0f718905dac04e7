-- ===== src/Api/Threads/Examples.antt =====
-- The theorems on message identifiers at concrete inputs, and tests.
use letterbox.Prelude.{◌≡◌, refl, codes, [], ◌∷◌, arith}
use letterbox.Api.Threads.{extract_references, extract_message_id}
use letterbox.Api.Threads.Identifiers.{IsBracketed}

one : IsBracketed (codes "<a>")
one = record { inside = codes "a"; whole = refl; plain = ((omega arith, omega arith), tt) }

two : IsBracketed (codes "<b>")
two = record { inside = codes "b"; whole = refl; plain = ((omega arith, omega arith), tt) }

-- A folded header, in capitals.
folded :
    extract_references (λ s. s) (codes "A: b\r\nREFERENCES: <a>\r\n <b>\r\nC: <d>\r\n")
    ≡ codes "<a>" ∷ codes "<b>" ∷ []
unfolding extract_references
folded = refl

found : extract_message_id (codes "A: b\r\nMessage-ID: <x@y>\r\n") ≡ codes "<x@y>"
unfolding extract_message_id
found = refl
