-- ===== src/Api/Validation.antt =====
-- The messages for requests that the validator refuses (internal/api/response.go).
use letterbox.Prelude.{
  Text, codes, text_eq, is_empty, Option, none, some, List, [], ◌∷◌, ◌++◌, if◌then◌else◌,
}
use letterbox.Prelude.Maps.{Map, lookup}
use letterbox.Api.Quotes.{join_with}

-- validator.FieldError: the struct's field, the tag that failed, and its parameter.
pub record FieldError : Type 0 where
  pub field : Text
  pub tag : Text
  pub param : Text

unfoldable pub format_field_error : Text → Text → Text → Text
format_field_error field tag param =
    if text_eq tag (codes "required")
    then field ++ codes " is required"
    else if text_eq tag (codes "uuid")
    then field ++ codes " must be a valid UUID"
    else if text_eq tag (codes "url")
    then field ++ codes " must be a valid URL"
    else if text_eq tag (codes "max")
    then field ++ (codes " must be " ++ (param ++ codes " characters or less"))
    else if text_eq tag (codes "min")
    then field ++ (codes " must be at least " ++ (param ++ codes " characters"))
    else field ++ codes " is invalid"

abbrev name_or : Text → Option Text → Text
name_or field none = field
name_or field (some name) = if is_empty name then field else name

abbrev message_of : Map Text → FieldError → Text
message_of names fe = format_field_error (name_or fe.field (lookup fe.field names)) fe.tag fe.param

abbrev messages : Map Text → List FieldError → List Text
messages names [] = []
messages names (fe ∷ errors) = message_of names fe ∷ messages names errors

-- The errors are none where the error of the validator is another.
unfoldable pub format_validation_error : Option (List FieldError) → Map Text → Text
unfolding format_field_error lookup join_with
format_validation_error none names = codes "validation failed"
format_validation_error (some errors) names = join_with (codes "; ") (messages names errors)

abbrev pub account_field_names : Map Text
account_field_names =
    (codes "Name", codes "name")
    ∷ (codes "ImapHost", codes "imap_host")
    ∷ (codes "ImapPort", codes "imap_port")
    ∷ (codes "ImapUser", codes "imap_user")
    ∷ (codes "ImapPassword", codes "imap_password")
    ∷ (codes "SmtpHost", codes "smtp_host")
    ∷ (codes "SmtpPort", codes "smtp_port")
    ∷ (codes "SmtpUser", codes "smtp_user")
    ∷ (codes "SmtpPassword", codes "smtp_password")
    ∷ []

abbrev pub webhook_field_names : Map Text
webhook_field_names =
    (codes "AccountID", codes "account_id")
    ∷ (codes "URL", codes "url")
    ∷ (codes "Secret", codes "secret")
    ∷ []

abbrev pub send_message_field_names : Map Text
send_message_field_names =
    (codes "To", codes "to")
    ∷ (codes "CC", codes "cc")
    ∷ (codes "BCC", codes "bcc")
    ∷ (codes "Subject", codes "subject")
    ∷ (codes "Text", codes "text")
    ∷ (codes "HTML", codes "html")
    ∷ (codes "Attachments", codes "attachments")
    ∷ (codes "Filename", codes "filename")
    ∷ (codes "ContentType", codes "content_type")
    ∷ (codes "Data", codes "data")
    ∷ (codes "ReplyTo", codes "reply_to")
    ∷ (codes "Forward", codes "forward")
    ∷ (codes "Folder", codes "folder")
    ∷ []
