-- ===== src/Parser.antt =====
-- The conversion of a parsed message (internal/parser/parser.go) from the envelope of enmime, which
-- is a parameter.
use letterbox.Prelude.{
  ℕ, ◌+◌, ◌≡◌, refl, Text, codes, is_empty, Bool, true, false, Option, none, some, List, [], ◌∷◌,
  ◌++◌, length, length-append, if◌then◌else◌, arith,
}
use letterbox.Domain.{EmailAddress}

pub record Part : Type 0 where
  pub file_name : Text
  pub content_type : Text
  pub content : Text
  pub content_id : Text

pub data Parsed (A : Type 0) : Type 0 where
  ok : A → Parsed A
  err : Text → Parsed A

-- GetHeader, Date and AddressList of an envelope, whose errors have a text, and its fields.
pub record Envelope : Type 0 where
  pub header : Text → Text
  pub date : Parsed ℕ
  pub address_list : Text → Parsed (List EmailAddress)
  pub text : Text
  pub html : Text
  pub attachments : List Part
  pub inlines : List Part
  pub errors : List Text

pub record Attachment : Type 0 where
  pub filename : Text
  pub content_type : Text
  pub size : ℕ
  pub content : Text
  pub is_inline : Bool
  pub content_id : Text

pub record ParsedEmail : Type 0 where
  pub message_id : Text
  pub subject : Text
  pub sender : EmailAddress
  pub to : List EmailAddress
  pub cc : List EmailAddress
  -- the zero time is 0
  pub date : ℕ
  pub text : Text
  pub html : Text
  pub attachments : List Attachment
  pub errors : List Text

abbrev pub to_attachment : Bool → Part → Attachment
to_attachment is_inline part = record {
  filename = part.file_name;
  content_type = part.content_type;
  size = length part.content;
  content = part.content;
  is_inline = is_inline;
  content_id = part.content_id;
}

unfoldable pub to_attachments : Bool → List Part → List Attachment
to_attachments is_inline [] = []
to_attachments is_inline (part ∷ parts) =
    to_attachment is_inline part ∷ to_attachments is_inline parts

abbrev nobody : EmailAddress
nobody = record { name = []; email = [] }

-- An error is kept where the header is there.
abbrev error_of : Text → Text → Text → List Text
error_of header what e = if is_empty header then [] else (what ++ e) ∷ []

abbrev date_of : Parsed ℕ → ℕ
date_of (ok date) = date
date_of (err _) = 0

abbrev date_errors : Text → Parsed ℕ → List Text
date_errors header (ok _) = []
date_errors header (err e) = error_of header (codes "date parsing failed: ") e

abbrev first_address : Parsed (List EmailAddress) → EmailAddress
first_address (ok []) = nobody
first_address (ok (a ∷ _)) = a
first_address (err _) = nobody

abbrev addresses : Parsed (List EmailAddress) → List EmailAddress
addresses (ok as') = as'
addresses (err _) = []

abbrev address_errors : Text → Text → Parsed (List EmailAddress) → List Text
address_errors header what (ok _) = []
address_errors header what (err e) = error_of header what e

unfoldable pub env_to_email : Envelope → ParsedEmail
unfolding to_attachments
env_to_email env = record {
  message_id = env.header (codes "Message-ID");
  subject = env.header (codes "Subject");
  sender = first_address (env.address_list (codes "From"));
  to = addresses (env.address_list (codes "To"));
  cc = addresses (env.address_list (codes "Cc"));
  date = date_of env.date;
  text = env.text;
  html = env.html;
  attachments = to_attachments false env.attachments ++ to_attachments true env.inlines;
  errors =
      date_errors (env.header (codes "Date")) env.date
      ++ (address_errors (env.header (codes "From")) (codes "from address parsing failed: ")
            (env.address_list (codes "From"))
          ++ (address_errors (env.header (codes "To")) (codes "to address parsing failed: ")
                (env.address_list (codes "To"))
              ++ (address_errors (env.header (codes "Cc")) (codes "cc address parsing failed: ")
                    (env.address_list (codes "Cc"))
                  ++ env.errors)));
}

-- The error of ReadEnvelope is `none`.
unfoldable pub parse : (Text → Option Envelope) → Text → Option ParsedEmail
unfolding env_to_email
parse read_envelope raw = elim (read_envelope raw) [
  | none ↦ none
  | some env ↦ some (env_to_email env)
]

length-to_attachments :
    (b : Bool) (parts : List Part) → length (to_attachments b parts) ≡ length parts
unfolding to_attachments
length-to_attachments b [] = refl
length-to_attachments b (part ∷ parts) = omega (arith, length-to_attachments b parts)

-- No attachment of the envelope is lost, and no inline part.
length-env_to_email :
    (env : Envelope)
    → length (env_to_email env).attachments ≡ length env.attachments + length env.inlines
unfolding env_to_email
length-env_to_email env = omega (
  arith,
  length-append (to_attachments false env.attachments) (to_attachments true env.inlines),
  length-to_attachments false env.attachments,
  length-to_attachments true env.inlines,
)
