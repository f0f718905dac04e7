-- ===== src/Api/Originals.antt =====
-- The original message of a reply or a forward (internal/api/message_handler.go), with the lookups
-- of internal/repository that find it (EmailRepository.GetByUID, AttachmentRepository.GetByEmailID).
pub mod Forwards
use letterbox.Prelude.{
  ℕ, ◌+◌, ◌%◌, ◌^◌, Text, codes, is_empty, Bool, true, false, ◌&&◌, Option, none, some, List, [],
  ◌∷◌, ◌++◌, length, ltb, ◌==◌, if◌then◌else◌,
}
use letterbox.Domain.{Attachment, Email}
use letterbox.Storage.{download}
use letterbox.Ingest
use letterbox.Ingest.{
  World, tick, Result, ok, err, IngestError, email_already_exists, uploading, storing_attachment,
  same_message, ingest_email,
}
use letterbox.Attachments.Rows.{of_email}
use letterbox.Composer
use letterbox.Api.Quotes.{
  quote_text_body, quote_html_body, quote_forward_text_body, quote_forward_html_body,
}
use letterbox.Api.Threads.{extract_references}
use letterbox.Api.Subjects.{build_reply_subject, build_forward_subject}

-- The surroundings: those of the ingestion, whose `fails` says which calls of the database and the
-- object store fail, and the tables of Unicode and of dates of the standard library.
pub record Env : Type 0 where
  pub ingester : Ingest.Env
  pub format_date : Text → ℕ → Text
  pub lower_runes : Text → Text
  pub lower_other : ℕ → ℕ
  -- []rune(s) and string(runes)
  pub runes : Text → Text
  pub utf8 : Text → Text

pub data OriginalError : Type 0 where
  email_not_found getting_email : OriginalError
  ingesting : IngestError → OriginalError
  fetching_attachments : OriginalError

pub data Found (A : Type 0) : Type 0 where
  found : A → Found A
  failed : OriginalError → Found A

pub record ReplyForwardContext : Type 0 where
  pub in_reply_to : Text
  pub references : List Text
  pub subject : Text
  pub quoted_text : Text
  pub quoted_html : Text

unfoldable pub find_by_uid : ℕ → Text → ℕ → List Email → Option Email
find_by_uid account folder uid [] = none
find_by_uid account folder uid (e ∷ es) =
    let rest = find_by_uid account folder uid es in
    if same_message account folder uid e then some e else rest

abbrev pub looked_up : Option Email → Found Email
looked_up none = failed email_not_found
looked_up (some e) = found e

abbrev pub attachments_or_none : Option (List Attachment) → List Attachment
attachments_or_none none = []
attachments_or_none (some atts) = atts

module _ (env : Env) where
  unfoldable pub get_by_uid : ℕ → Text → ℕ → World → Found Email × World
  unfolding find_by_uid
  get_by_uid account folder uid w =
      if env.ingester.fails w.calls
      then (failed getting_email, tick w)
      else (looked_up (find_by_uid account folder uid w.emails), tick w)

  -- The attachments of an email that was read without them; an error is passed over.
  load_attachments : Email → Option (List Attachment) → World → Email × World
  unfolding of_email
  load_attachments email (some atts) w = (email, w)
  load_attachments email none w = (
    if env.ingester.fails w.calls
        then email
        else record email { attachments = some (of_email email.id w.attachments) },
    tick w,
  )

  abbrev loaded : Email × World → Found Email × World
  loaded (email, w) = (found email, w)

  after_ingest : ℕ → Text → ℕ → Result Email × World → Found Email × World
  unfolding get_by_uid
  after_ingest account folder uid (ok email, w) = (found email, w)
  after_ingest account folder uid (err email_already_exists, w) = get_by_uid account folder uid w
  after_ingest account folder uid (err e, w) = (failed (ingesting e), w)

  unless_found : ℕ → Text → ℕ → Found Email × World → Found Email × World
  unfolding after_ingest load_attachments ingest_email
  unless_found account folder uid (found email, w) =
      loaded (load_attachments email email.attachments w)
  unless_found account folder uid (failed email_not_found, w) =
      after_ingest account folder uid (ingest_email env.ingester account folder (uid % 2 ^ 32) w)
  unless_found account folder uid (failed e, w) = (failed e, w)

  unfoldable pub get_original_email : ℕ → Text → ℕ → World → Found Email × World
  unfolding unless_found get_by_uid
  get_original_email account folder uid w =
      unless_found account folder uid (get_by_uid account folder uid w)

  abbrev forwarded : Attachment → Text → Composer.Attachment
  forwarded att bytes = record {
    filename = att.filename;
    content_type = att.content_type;
    content = bytes;
    is_inline = false;
    content_id = [];
  }

  abbrev downloaded : ℕ → Text → World → Option Text
  downloaded n key w = if env.ingester.fails n then none else download key w.objects

  abbrev add_download :
      Attachment → Option Text → List Composer.Attachment × Bool → List Composer.Attachment × Bool
  add_download att none (atts, complete) = (atts, false)
  add_download att (some bytes) (atts, complete) = (forwarded att bytes ∷ atts, complete)

  -- The attachments that could be downloaded, and whether all could; every one is tried.
  unfoldable pub fetch_original_attachments :
      List Attachment → World → (List Composer.Attachment × Bool) × World
  unfolding download
  fetch_original_attachments [] w = (([], true), w)
  fetch_original_attachments (att ∷ atts) w =
      let (rest, w') = fetch_original_attachments atts (tick w) in
      (add_download att (downloaded w.calls att.s3_key w) rest, w')

  unfoldable pub reply_context : Bool → Email → ReplyForwardContext
  unfolding extract_references quote_text_body quote_html_body build_reply_subject
  reply_context quote original = record {
    in_reply_to = original.message_id;
    references =
        if is_empty original.message_id
        then []
        else extract_references env.lower_runes original.raw ++ original.message_id ∷ [];
    subject = env.utf8 (build_reply_subject env.lower_other (env.runes original.subject));
    quoted_text =
        if quote
        then quote_text_body env.format_date original.parsed_text original.from_name
            original.from_email original.date
        else [];
    quoted_html =
        if quote
        then quote_html_body env.format_date original.parsed_html original.from_name
            original.from_email original.date
        else [];
  }

  unfoldable pub forward_context : Bool → Email → ReplyForwardContext
  unfolding quote_forward_text_body quote_forward_html_body build_forward_subject
  forward_context quote original = record {
    in_reply_to = [];
    references = [];
    subject = env.utf8 (build_forward_subject env.lower_other (env.runes original.subject));
    quoted_text = if quote then quote_forward_text_body env.format_date original else [];
    quoted_html = if quote then quote_forward_html_body env.format_date original else [];
  }

  abbrev replied : Bool → Found Email × World → Found ReplyForwardContext × World
  replied quote (failed e, w) = (failed e, w)
  replied quote (found original, w) = (found (reply_context quote original), w)

  unfoldable pub build_reply_context :
      ℕ → Text → ℕ → Bool → World → Found ReplyForwardContext × World
  unfolding get_original_email reply_context
  build_reply_context account folder uid quote w =
      replied quote (get_original_email account folder uid w)

  abbrev all_or_error :
      ReplyForwardContext
      → (List Composer.Attachment × Bool) × World
      → Found (ReplyForwardContext × List Composer.Attachment) × World
  all_or_error context ((atts, complete), w) =
      (if complete then found (context, atts) else failed fetching_attachments, w)

  unfoldable pub with_original :
      Bool
      → Bool
      → Found Email × World
      → Found (ReplyForwardContext × List Composer.Attachment) × World
  unfolding forward_context fetch_original_attachments
  with_original quote include (failed e, w) = (failed e, w)
  with_original quote include (found original, w) =
      let atts = attachments_or_none original.attachments in
      if include && ltb 0 (length atts)
      then all_or_error (forward_context quote original) (fetch_original_attachments atts w)
      else (found (forward_context quote original, []), w)

  unfoldable pub build_forward_context :
      ℕ
      → Text
      → ℕ
      → Bool
      → Bool
      → World
      → Found (ReplyForwardContext × List Composer.Attachment) × World
  unfolding with_original get_original_email
  build_forward_context account folder uid quote include w =
      with_original quote include (get_original_email account folder uid w)
