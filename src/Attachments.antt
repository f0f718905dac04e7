-- ===== src/Attachments.antt =====
-- AttachmentRepository (internal/repository/attachment.go) over the table attachments, with the
-- queries of internal/db/attachments.sql.go. Its Create is in Ingest.
pub mod Rows
pub mod Stored
mod Examples
use letterbox.Prelude.{ℕ, Option, none, some, List, if◌then◌else◌}
use letterbox.Domain.{Attachment}
use letterbox.Ingest.{Env, World, tick}
use letterbox.Attachments.Rows.{find_attachment, of_email, without_email}

pub data AttachmentError : Type 0 where
  attachment_not_found query_failed : AttachmentError

pub data Result (A : Type 0) : Type 0 where
  ok : A → Result A
  err : AttachmentError → Result A

-- The order in which the database returns rows where the query names none, by the number of calls
-- made before
module _ (env : Env) (arrange : ℕ → List Attachment → List Attachment) where
  abbrev pub read : Option Attachment → Result Attachment
  read none = err attachment_not_found
  read (some row) = ok row

  unfoldable pub get : ℕ → World → Result Attachment × World
  unfolding find_attachment
  get id w =
      if env.fails w.calls
      then (err query_failed, tick w)
      else (read (find_attachment id w.attachments), tick w)

  unfoldable pub get_by_email_id : ℕ → World → Result (List Attachment) × World
  unfolding of_email
  get_by_email_id email_id w =
      if env.fails w.calls
      then (err query_failed, tick w)
      else (ok (arrange w.calls (of_email email_id w.attachments)), tick w)

  -- The error, nil being `none`.
  unfoldable pub delete_by_email_id : ℕ → World → Option AttachmentError × World
  unfolding without_email
  delete_by_email_id email_id w =
      if env.fails w.calls
      then (some query_failed, tick w)
      else (none, record (tick w) { attachments = without_email email_id w.attachments })
