-- ===== src/Api/Reading.antt =====
-- Reading a message (GetMessage in internal/api/message_handler.go).
pub mod Messages
mod Examples
use letterbox.Prelude.{
  ℕ, ◌+◌, ◌-◌, ◌%◌, ◌*◌, ◌^◌, Text, codes, is_empty, Bool, true, false, ◌&&◌, Option, none, some,
  List, [], ◌∷◌, ltb, leb, ◌==◌, if◌then◌else◌,
}
use letterbox.Prelude.Int.{ℤ, pos, negsuc}
use letterbox.Domain.{Attachment, Email, EmailAddress}
use letterbox.Ingest
use letterbox.Ingest.{
  World, tick, Result, ok, err, IngestError, email_already_exists, account_not_found, fetching,
  FetchError, message_not_found, folder_not_found, AccountLookup, ingest_email,
}
use letterbox.Api.Listing.{atoi}
use letterbox.Attachments.Rows.{of_email}
use letterbox.Api.Originals.{
  Found, found, failed, OriginalError, email_not_found, get_by_uid, attachments_or_none,
}
use letterbox.Api.Originals

-- An absent URL is empty.
pub record AttachmentResponse : Type 0 where
  pub id : ℕ
  pub filename : Text
  pub content_type : Text
  pub size : ℕ
  pub url : Text

pub record MessageResponse : Type 0 where
  pub id : ℕ
  pub uid : ℕ
  pub message_id : Text
  pub folder : Text
  pub subject : Text
  pub sender : EmailAddress
  pub to : List EmailAddress
  pub cc : List EmailAddress
  pub date : ℕ
  pub text : Text
  pub html : Text
  pub raw : Text
  pub attachments : List AttachmentResponse
  pub flags : List Text

-- The status code of an error, or the message.
pub data Response : Type 0 where
  message : MessageResponse → Response
  error : ℕ → Response

abbrev positive : Option ℤ → Option ℕ
positive none = none
positive (some (negsuc n)) = none
positive (some (pos n)) = if ltb n 1 then none else some n

-- strconv.ParseInt(s, 10, 64) and the test of its sign: none is the answer 400. It reads what Atoi
-- reads.
unfoldable pub parse_uid : Text → Option ℕ
unfolding atoi
parse_uid s = positive (atoi s)

abbrev pub or_inbox : Text → Text
or_inbox folder = if is_empty folder then codes "INBOX" else folder

-- uuid.Parse, and GeneratePresignedURL by the calls made before, none being its error.
module _ (env : Originals.Env) (parse_uuid : Text → Option ℕ)
    (presigned : ℕ → Text → Option Text) where
  abbrev url_of : Option Text → Text
  url_of none = []
  url_of (some url) = url

  unfoldable pub attachment_responses : ℕ → List Attachment → List AttachmentResponse
  attachment_responses n [] = []
  attachment_responses n (att ∷ atts) =
      record {
        id = att.id;
        filename = att.filename;
        content_type = att.content_type;
        size = att.size;
        url = url_of (presigned n att.s3_key);
      }
      ∷ attachment_responses (n + 1) atts

  abbrev pub message_response : Email → ℕ → MessageResponse
  message_response email n = record {
    id = email.id;
    uid = email.uid;
    message_id = email.message_id;
    folder = email.folder;
    subject = email.subject;
    sender = record { name = email.from_name; email = email.from_email };
    to = email.to;
    cc = email.cc;
    date = email.date;
    text = email.parsed_text;
    html = email.parsed_html;
    raw = email.raw;
    attachments = attachment_responses n (attachments_or_none email.attachments);
    flags = email.flags;
  }

  -- Signing URLs makes no call of the database, and changes nothing.
  abbrev pub respond : Email → World → Response × World
  respond email w = (message (message_response email w.calls), w)

  unfoldable pub with_attachments : Email → Option (List Attachment) → World → Response × World
  unfolding of_email attachment_responses
  with_attachments email (some atts) w = respond email w
  with_attachments email none w =
      if env.ingester.fails w.calls
      then (error 500, tick w)
      else respond (record email { attachments = some (of_email email.id w.attachments) }) (tick w)

  abbrev pub loaded : Email → World → Response × World
  loaded email w = with_attachments email email.attachments w

  abbrev pub after_race : Found Email × World → Response × World
  after_race (found email, w) = loaded email w
  after_race (failed e, w) = (error 500, w)

  unfoldable pub after_ingest : ℕ → Text → ℕ → Result Email × World → Response × World
  unfolding get_by_uid with_attachments
  after_ingest account folder uid (ok email, w) = loaded email w
  after_ingest account folder uid (err account_not_found, w) = (error 404, w)
  after_ingest account folder uid (err email_already_exists, w) =
      after_race (get_by_uid env account folder uid w)
  after_ingest account folder uid (err (fetching message_not_found), w) = (error 404, w)
  after_ingest account folder uid (err (fetching folder_not_found), w) = (error 404, w)
  after_ingest account folder uid (err e, w) = (error 502, w)

  -- The UID is cut to 32 bits for the ingestion.
  unfoldable pub unless_found : ℕ → Text → ℕ → Found Email × World → Response × World
  unfolding after_ingest with_attachments ingest_email
  unless_found account folder uid (found email, w) = loaded email w
  unless_found account folder uid (failed email_not_found, w) =
      after_ingest account folder uid (ingest_email env.ingester account folder (uid % 2 ^ 32) w)
  unless_found account folder uid (failed e, w) = (error 500, w)

  unfoldable pub with_account : AccountLookup → ℕ → Text → ℕ → World → Response × World
  unfolding unless_found get_by_uid
  with_account AccountLookup.not_found account folder uid w = (error 404, w)
  with_account AccountLookup.failed account folder uid w = (error 500, w)
  with_account (AccountLookup.found acc) account folder uid w =
      unless_found account folder uid (get_by_uid env account folder uid w)

  unfoldable pub with_params : Option ℕ → Option ℕ → Text → World → Response × World
  unfolding with_account
  with_params none uid folder w = (error 400, w)
  with_params (some account) none folder w = (error 400, w)
  with_params (some account) (some uid) folder w =
      with_account (env.ingester.get_account w.calls account) account (or_inbox folder) uid (tick w)

  unfoldable pub get_message : Text → Text → Text → World → Response × World
  unfolding with_params parse_uid
  get_message account_id uid folder w = with_params (parse_uuid account_id) (parse_uid uid) folder w
