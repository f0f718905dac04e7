-- ===== src/Ingest.antt =====
-- The ingestion pipeline (internal/ingest/ingest.go), with the inserts and lookups of
-- internal/repository that it calls (EmailRepository.Create and ExistsByUID,
-- AttachmentRepository.Create) over the tables emails and attachments.
pub mod Unique
pub mod Emails
pub mod Cleanup
pub mod Stored
pub mod Returned
pub mod Kept
mod Examples
use letterbox.Prelude.{
  ℕ, suc, ◌+◌, Text, text_eq, Bool, true, false, ◌&&◌, ◌||◌, Option, none, some, List, [], ◌∷◌,
  ◌++◌, length, ◌==◌, if◌then◌else◌,
}
use letterbox.Domain.{
  EmailAddress, Attachment, Email, CreateEmailInput, CreateAttachmentInput, Account,
}
use letterbox.Storage.{Objects, attachment_key, upload, delete}

-- parser.Attachment and parser.ParsedEmail; Size is the length of Data.
pub record ParsedAttachment : Type 0 where
  pub filename : Text
  pub content_type : Text
  pub content : Text

pub record ParsedEmail : Type 0 where
  pub message_id : Text
  pub subject : Text
  pub sender : EmailAddress
  pub to : List EmailAddress
  pub cc : List EmailAddress
  pub date : ℕ
  pub text : Text
  pub html : Text
  pub attachments : List ParsedAttachment

pub data AccountLookup : Type 0 where
  found : Account → AccountLookup
  not_found failed : AccountLookup

pub data FetchError : Type 0 where
  message_not_found folder_not_found other : FetchError

pub data Fetched : Type 0 where
  raw : Text → Fetched
  failed : FetchError → Fetched

pub data IngestError : Type 0 where
  account_not_found email_already_exists : IngestError
  getting_account checking_exists : IngestError
  fetching : FetchError → IngestError
  parsing uploading storing_email storing_attachment : IngestError

-- The surroundings; outcomes may depend on how many calls were made before.
pub record Env : Type 0 where
  pub get_account : ℕ → ℕ → AccountLookup
  pub fetch_raw : ℕ → Account → Text → ℕ → Fetched
  pub parse : Text → Option ParsedEmail
  pub fails : ℕ → Bool
  pub delete_fails : ℕ → Bool
  pub now : ℕ → ℕ
  pub new_id : ℕ → ℕ
  -- uuid.UUID.String
  pub uuid_string : ℕ → Text

pub record World : Type 0 where
  pub objects : Objects
  pub emails : List Email
  pub attachments : List Attachment
  pub calls : ℕ

abbrev pub tick : World → World
tick w = record w { calls = w.calls + 1 }

pub data Result (A : Type 0) : Type 0 where
  ok : A → Result A
  err : IngestError → Result A

-- The columns of UNIQUE(account_id, folder, uid).
unfoldable pub same_message : ℕ → Text → ℕ → Email → Bool
same_message account folder uid e =
    e.account_id == account && (text_eq e.folder folder && e.uid == uid)

unfoldable pub exists_by_uid : ℕ → Text → ℕ → List Email → Bool
unfolding same_message
exists_by_uid account folder uid [] = false
exists_by_uid account folder uid (e ∷ es) =
    same_message account folder uid e || exists_by_uid account folder uid es

module _ (env : Env) where
  -- The row as RETURNING gives it back; a nil slice of attachments is `none`.
  abbrev pub inserted : CreateEmailInput → ℕ → Email
  inserted input n = record {
    id = env.new_id n;
    account_id = input.account_id;
    uid = input.uid;
    message_id = input.message_id;
    folder = input.folder;
    subject = input.subject;
    from_email = input.from_email;
    from_name = input.from_name;
    to = input.to;
    cc = input.cc;
    date = input.date;
    parsed_text = input.parsed_text;
    parsed_html = input.parsed_html;
    raw = input.raw;
    flags = input.flags;
    deleted_upstream = false;
    created_at = env.now n;
    attachments = none;
  }

  unfoldable pub create_email : CreateEmailInput → World → Result Email × World
  unfolding exists_by_uid
  create_email input w =
      if env.fails w.calls
      then (err storing_email, tick w)
      else if exists_by_uid input.account_id input.folder input.uid w.emails
      then (err email_already_exists, tick w)
      else (
        ok (inserted input w.calls),
        record (tick w) { emails = w.emails ++ inserted input w.calls ∷ [] },
      )

  unfoldable pub create_attachment : CreateAttachmentInput → World → Result Attachment × World
  create_attachment input w =
      let row : Attachment = record {
        id = env.new_id w.calls;
        email_id = input.email_id;
        filename = input.filename;
        content_type = input.content_type;
        size = input.size;
        s3_key = input.s3_key;
      } in
      if env.fails w.calls
      then (err storing_attachment, tick w)
      else (ok row, record (tick w) { attachments = w.attachments ++ row ∷ [] })

  -- The cleanup loops: a delete that fails is logged and passed over.
  unfoldable pub delete_all : List Text → World → World
  delete_all [] w = w
  delete_all (key ∷ keys) w = delete_all keys (
      if env.delete_fails w.calls
      then tick w
      else record (tick w) { objects = delete key w.objects })

  -- The upload loop; `keys` are the keys uploaded so far.
  unfoldable pub upload_all :
      Text → ℕ → List ParsedAttachment → List Text → World → Result (List Text) × World
  unfolding delete_all upload
  upload_all account uid [] keys w = (ok keys, w)
  upload_all account uid (att ∷ atts) keys w =
      let key = attachment_key account uid att.filename in
      let rest =
        upload_all account uid atts (keys ++ key ∷ [])
          (record (tick w) { objects = upload key att.content w.objects }) in
      if env.fails w.calls then (err uploading, delete_all keys (tick w)) else rest

  abbrev pub attachment_input : ℕ → ParsedAttachment → Text → CreateAttachmentInput
  attachment_input email_id att key = record {
    email_id = email_id;
    filename = att.filename;
    content_type = att.content_type;
    size = length att.content;
    s3_key = key;
  }

  abbrev add_row : Attachment → Result (List Attachment) → Result (List Attachment)
  add_row row (err e) = err e
  add_row row (ok rows) = ok (row ∷ rows)

  -- The loop that stores the metadata, with s3Keys[idx] walked beside it; the upload loop has made
  -- as many keys as there are attachments.
  unfoldable pub store_attachments :
      ℕ → List ParsedAttachment → List Text → World → Result (List Attachment) × World
  unfolding create_attachment
  store_attachments email_id [] keys w = (ok [], w)
  store_attachments email_id (att ∷ atts) [] w = (ok [], w)
  store_attachments email_id (att ∷ atts) (key ∷ keys) w =
      let (stored, w1) = create_attachment (attachment_input email_id att key) w in
      let (rest, w2) = store_attachments email_id atts keys w1 in
      elim stored [ err e ↦ (err e, w1) | ok row ↦ (add_row row rest, w2) ]

  abbrev pub email_input : ℕ → Text → ℕ → Text → ParsedEmail → CreateEmailInput
  email_input account folder uid raw_bytes parsed = record {
    account_id = account;
    uid = uid;
    message_id = parsed.message_id;
    folder = folder;
    subject = parsed.subject;
    from_email = parsed.sender.email;
    from_name = parsed.sender.name;
    to = parsed.to;
    cc = parsed.cc;
    date = parsed.date;
    parsed_text = parsed.text;
    parsed_html = parsed.html;
    raw = raw_bytes;
    flags = [];
  }

  abbrev with_attachments : Email → Result (List Attachment) → Result Email
  with_attachments email (err e) = err e
  with_attachments email (ok rows) = ok (record email { attachments = some rows })

  -- step 7
  pub finish : Email → ParsedEmail → List Text → World → Result Email × World
  finish email parsed keys w =
      let (stored, w1) = store_attachments email.id parsed.attachments keys w in
      (with_attachments email stored, w1)

  -- step 6, and the cleanup where it fails
  created : ParsedEmail → List Text → Result Email × World → Result Email × World
  unfolding finish
  created parsed keys (err e, w) = (err e, delete_all keys w)
  created parsed keys (ok email, w) = finish email parsed keys w

  uploaded : CreateEmailInput → ParsedEmail → Result (List Text) × World → Result Email × World
  unfolding created
  uploaded input parsed (err e, w) = (err e, w)
  uploaded input parsed (ok keys, w) = created parsed keys (create_email input w)

  -- steps 4 and 5
  parsed_as : ℕ → Text → ℕ → Text → Option ParsedEmail → World → Result Email × World
  unfolding uploaded
  parsed_as account folder uid raw_bytes none w = (err parsing, w)
  parsed_as account folder uid raw_bytes (some parsed) w =
      uploaded (email_input account folder uid raw_bytes parsed) parsed
        (upload_all (env.uuid_string account) uid parsed.attachments [] w)

  -- step 3
  fetched : ℕ → Text → ℕ → Fetched → World → Result Email × World
  unfolding parsed_as
  fetched account folder uid (failed e) w = (err (fetching e), w)
  fetched account folder uid (raw bytes) w = parsed_as account folder uid bytes (env.parse bytes) w

  -- step 2
  unless_exists : Account → ℕ → Text → ℕ → World → Result Email × World
  unfolding fetched
  unless_exists acc account folder uid w =
      if env.fails w.calls
      then (err checking_exists, tick w)
      else if exists_by_uid account folder uid w.emails
      then (err email_already_exists, tick w)
      else fetched account folder uid (env.fetch_raw (w.calls + 1) acc folder uid) (tick (tick w))

  with_account : AccountLookup → ℕ → Text → ℕ → World → Result Email × World
  unfolding unless_exists
  with_account AccountLookup.not_found account folder uid w = (err account_not_found, w)
  with_account AccountLookup.failed account folder uid w = (err getting_account, w)
  with_account (found acc) account folder uid w = unless_exists acc account folder uid w

  unfoldable pub ingest_email : ℕ → Text → ℕ → World → Result Email × World
  unfolding with_account
  ingest_email account folder uid w =
      with_account (env.get_account w.calls account) account folder uid (tick w)
