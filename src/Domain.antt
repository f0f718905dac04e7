-- ===== src/Domain.antt =====
-- The records that the components exchange (internal/domain). Identifiers (uuid.UUID) and times
-- are numbers, since the program only passes them on and compares them.
use letterbox.Prelude.{ℕ, Text, List, Option, Bool}
use letterbox.Prelude.Int.{ℤ}

pub record EmailAddress : Type 0 where
  pub name : Text
  pub email : Text

pub record Attachment : Type 0 where
  pub id : ℕ
  pub email_id : ℕ
  pub filename : Text
  pub content_type : Text
  pub size : ℕ
  pub s3_key : Text

-- `attachments` is `none` for a nil slice, which the handlers tell from an empty one.
pub record Email : Type 0 where
  pub id : ℕ
  pub account_id : ℕ
  pub uid : ℕ
  pub message_id : Text
  pub folder : Text
  pub subject : Text
  pub from_email : Text
  pub from_name : Text
  pub to : List EmailAddress
  pub cc : List EmailAddress
  pub date : ℕ
  pub parsed_text : Text
  pub parsed_html : Text
  pub raw : Text
  pub flags : List Text
  pub deleted_upstream : Bool
  pub created_at : ℕ
  pub attachments : Option (List Attachment)

pub record CreateEmailInput : Type 0 where
  pub account_id : ℕ
  pub uid : ℕ
  pub message_id : Text
  pub folder : Text
  pub subject : Text
  pub from_email : Text
  pub from_name : Text
  pub to : List EmailAddress
  pub cc : List EmailAddress
  pub date : ℕ
  pub parsed_text : Text
  pub parsed_html : Text
  pub raw : Text
  pub flags : List Text

pub record CreateAttachmentInput : Type 0 where
  pub email_id : ℕ
  pub filename : Text
  pub content_type : Text
  pub size : ℕ
  pub s3_key : Text

pub record Account : Type 0 where
  pub id : ℕ
  pub name : Text
  pub imap_host : Text
  pub imap_port : ℤ
  pub imap_user : Text
  pub imap_password : Text
  pub smtp_host : Text
  pub smtp_port : ℤ
  pub smtp_user : Text
  pub smtp_password : Text
  pub created_at : ℕ

pub record CreateAccountInput : Type 0 where
  pub name : Text
  pub imap_host : Text
  pub imap_port : ℤ
  pub imap_user : Text
  pub imap_password : Text
  pub smtp_host : Text
  pub smtp_port : ℤ
  pub smtp_user : Text
  pub smtp_password : Text

pub record Webhook : Type 0 where
  pub id : ℕ
  pub account_id : ℕ
  pub url : Text
  pub secret : Text
  pub created_at : ℕ
