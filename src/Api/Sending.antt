-- ===== src/Api/Sending.antt =====
-- Sending a message (SendMessage in internal/api/message_handler.go).
pub mod Handler
pub mod Outcomes
pub mod Transfers
mod Examples
use letterbox.Prelude.{
  ℕ, ◌+◌, Text, codes, is_empty, Bool, true, false, ◌&&◌, ◌||◌, not, Option, none, some, List, [],
  ◌∷◌, ◌++◌, if◌then◌else◌,
}
use letterbox.Prelude.Int.{ℤ}
use letterbox.Domain.{EmailAddress, Email, Account, CreateEmailInput}
use letterbox.Ingest
use letterbox.Ingest.{
  AccountLookup, FetchError, Result, ok, err, IngestError, uploading, storing_attachment,
  create_email,
}
use letterbox.Composer
use letterbox.Composer.{ComposeEmail, Call, Built, raw, build, all_recipients}
use letterbox.Api.Threads.{extract_message_id}
use letterbox.Api.Originals
use letterbox.Api.Originals.{
  OriginalError, Found, found, failed, ReplyForwardContext, build_reply_context,
  build_forward_context,
}

pub record AttachmentInput : Type 0 where
  pub filename : Text
  pub content_type : Text
  pub content : Text
  pub is_inline : Bool
  pub content_id : Text

-- A nil pointer is `none`; a UID is an int64 in two's complement.
pub record SendMessageRequest : Type 0 where
  pub to : List EmailAddress
  pub cc : List EmailAddress
  pub bcc : List EmailAddress
  pub subject : Text
  pub text : Text
  pub html : Text
  pub attachments : List AttachmentInput
  pub reply_to : Option ℕ
  pub forward : Option ℕ
  pub folder : Text
  pub include_attachments : Bool
  pub quote_original : Option Bool

pub record SmtpConfig : Type 0 where
  pub host : Text
  pub port : ℤ
  pub username : Text
  pub password : Text

-- A message that the SMTP server accepted.
pub record Sent : Type 0 where
  pub config : SmtpConfig
  pub sender : Text
  pub recipients : List Text
  pub bytes : Text

pub record Env : Type 0 where
  pub originals : Originals.Env
  pub parse_uuid : Text → Option ℕ
  pub decode_json : Text → Option SendMessageRequest
  -- validate.Struct
  pub is_valid : SendMessageRequest → Bool
  pub decode_base64 : Text → Option Text
  pub parses : Text → Bool
  pub encode : List Call → Option Text
  pub new_uuid : ℕ → Text
  pub smtp_accepts : ℕ → Sent → Bool
  -- whether the text of another error holds "attachment"
  pub mentions_attachment : OriginalError → Bool

pub record World : Type 0 where
  pub store : Ingest.World
  pub sent : List Sent

-- The status code of the response, with the message identifier of a success.
pub data Response : Type 0 where
  success : Text → Response
  error : ℕ → Response

abbrev add_attachment :
    Composer.Attachment → Option (List Composer.Attachment) → Option (List Composer.Attachment)
add_attachment att none = none
add_attachment att (some atts) = some (att ∷ atts)

abbrev pub or_default : Bool → Option Bool → Bool
or_default d none = d
or_default d (some b) = b

abbrev pub folder_of : SendMessageRequest → Text
folder_of req = if is_empty req.folder then codes "INBOX" else req.folder

-- The account's SMTP user, or its IMAP user where there is none.
unfoldable pub smtp_config : Account → SmtpConfig
smtp_config account = record {
  host = account.smtp_host;
  port = account.smtp_port;
  username = if is_empty account.smtp_user then account.imap_user else account.smtp_user;
  password = if is_empty account.smtp_user then account.imap_password else account.smtp_password;
}

abbrev plain : Account → SendMessageRequest → List Composer.Attachment → ComposeEmail
plain account req atts = record {
  sender = record { name = account.name; email = account.imap_user };
  to = req.to;
  cc = req.cc;
  bcc = req.bcc;
  subject = req.subject;
  text = req.text;
  html = req.html;
  attachments = atts;
  in_reply_to = [];
  references = [];
}

unfoldable pub compose :
    Account
    → SendMessageRequest
    → Option ReplyForwardContext
    → List Composer.Attachment
    → ComposeEmail
compose account req none atts = plain account req atts
compose account req (some context) atts = record (plain account req atts) {
  subject = if is_empty req.subject then context.subject else req.subject;
  in_reply_to = context.in_reply_to;
  references = context.references;
  text = req.text ++ context.quoted_text;
  html = req.html ++ context.quoted_html;
}

module _ (env : Env) where
  unfoldable pub parse_attachments : List AttachmentInput → Option (List Composer.Attachment)
  parse_attachments [] = some []
  parse_attachments (input ∷ inputs) =
      let rest = parse_attachments inputs in
      elim (env.decode_base64 input.content) [
        | none ↦ none
        | some bytes ↦
            add_attachment
              (record {
                filename = input.filename;
                content_type = input.content_type;
                content = bytes;
                is_inline = input.is_inline;
                content_id = input.content_id;
              })
              rest
      ]

  -- The error of `storeSentEmail` is logged and passed over.
  abbrev pub sent_input : Account → Text → SendMessageRequest → ℕ → CreateEmailInput
  sent_input account bytes req now = record {
    account_id = account.id;
    uid = 0;
    message_id = extract_message_id bytes;
    folder = codes "Sent";
    subject = req.subject;
    from_email = account.imap_user;
    from_name = account.name;
    to = req.to;
    cc = req.cc;
    date = now;
    parsed_text = req.text;
    parsed_html = req.html;
    raw = bytes;
    flags = codes "\\Seen" ∷ [];
  }

  unfoldable pub store_sent_email :
      Account → Text → SendMessageRequest → Ingest.World → Ingest.World
  unfolding create_email extract_message_id
  store_sent_email account bytes req w =
      (create_email env.originals.ingester
        (sent_input account bytes req (env.originals.ingester.now w.calls)) (Ingest.tick w)).1
