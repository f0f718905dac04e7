-- ===== src/Composer/Examples.antt =====
-- The theorems on the composer at concrete inputs.
use letterbox.Prelude.{◌≡◌, ◌↔◌, refl, Text, codes, none, some, [], ◌∷◌, not, is_empty}
use letterbox.Domain.{EmailAddress}
use letterbox.Composer.{
  ComposeEmail, is_valid_message_id, validate, build, raw, checks, check_addresses,
  check_references, check_attachments, has_line_break, builder_calls,
}
use letterbox.Composer.Validity.{IsValid, validate_iff}

abbrev person : Text → EmailAddress
person email = record { name = []; email = email }

abbrev reply : ComposeEmail
reply = record {
  sender = person (codes "a@x");
  to = person (codes "b@y") ∷ [];
  cc = person (codes "c@y") ∷ [];
  bcc = person (codes "d@z") ∷ [];
  subject = codes "Re: Hi";
  text = codes "yes";
  html = [];
  attachments = [];
  in_reply_to = codes "<1@y>";
  references = codes "<1@y>" ∷ [];
}

validate_iff_example :
    (validate (λ s. not (is_empty s)) reply ≡ none) ↔ IsValid (λ s. not (is_empty s)) reply
validate_iff_example = validate_iff (λ s. not (is_empty s)) reply

reply_built :
    build (λ s. not (is_empty s)) (λ calls. some (codes "m")) (codes "u") 7 reply ≡ raw (codes "m")
unfolding build validate checks check_addresses check_references check_attachments has_line_break
    is_valid_message_id builder_calls
reply_built = refl
