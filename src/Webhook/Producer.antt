-- ===== src/Webhook/Producer.antt =====
-- The producer of webhook deliveries (internal/webhook/producer.go).
pub mod Fanout
pub mod Attachments
use letterbox.Prelude.{
  ℕ, suc, ◌+◌, ◌*◌, Text, codes, Bool, true, false, Option, none, some, List, [], ◌∷◌, is_empty,
  ltb, ◌==◌, if◌then◌else◌,
}
use letterbox.Domain.{EmailAddress, Attachment, Email, Webhook}
use letterbox.Webhook.Queue.{Table, create_webhook_queue_item}

abbrev pub inline_attachment_threshold : ℕ
inline_attachment_threshold = 1024 * 1024

pub record ParsedContent : Type 0 where
  pub text : Text
  pub html : Text

pub record AttachmentPayload : Type 0 where
  pub filename : Text
  pub content_type : Text
  pub size : ℕ
  pub url : Text
  -- the field Data
  pub content : Text

pub record EmailPayload : Type 0 where
  pub id : ℕ
  pub uid : ℕ
  pub message_id : Text
  pub date : ℕ
  pub sender : EmailAddress
  pub to : List EmailAddress
  pub cc : List EmailAddress
  pub subject : Text
  pub parsed : ParsedContent
  pub raw : Text
  pub attachments : List AttachmentPayload
  pub flags : List Text
  pub folder : Text

pub record WebhookPayload : Type 0 where
  pub event : Text
  pub timestamp : ℕ
  pub account_id : ℕ
  pub email : EmailPayload

-- The surroundings: the storage and the database, whose outcomes may depend on how many calls were
-- made before, and the encoders of the standard library.
pub record Env : Type 0 where
  pub download : ℕ → Text → Option Text
  pub generate_presigned_url : ℕ → Text → Option Text
  pub get_for_account : ℕ → Option (List Webhook)
  pub insert_fails : ℕ → Bool
  pub new_id : ℕ → ℕ
  pub now : ℕ → ℕ
  pub base64 : Text → Text
  pub marshal : WebhookPayload → Option Text

pub record World : Type 0 where
  pub table : Table
  pub calls : ℕ

abbrev pub tick : World → World
tick w = record w { calls = w.calls + 1 }

pub data QueueError : Type 0 where
  getting_webhooks marshaling all_failed : QueueError

abbrev pub attachments_of : Option (List Attachment) → List Attachment
attachments_of none = []
attachments_of (some atts) = atts

module _ (env : Env) where
  abbrev bare : Attachment → AttachmentPayload
  bare att = record {
    filename = att.filename;
    content_type = att.content_type;
    size = att.size;
    url = [];
    content = [];
  }

  -- The payload with a presigned URL, or none where the attachment is skipped.
  unfoldable pub with_url : Attachment → Option Text → Option AttachmentPayload
  with_url att none = none
  with_url att (some url) = some (record (bare att) { url = url })

  unfoldable pub with_content : Attachment → Option Text → World → Option AttachmentPayload × World
  unfolding with_url
  with_content att none w = (with_url att (env.generate_presigned_url w.calls att.s3_key), tick w)
  with_content att (some bytes) w = (some (record (bare att) { content = env.base64 bytes }), w)

  -- one round of the loop of `buildPayload`
  unfoldable pub build_attachment : Attachment → World → Option AttachmentPayload × World
  unfolding with_content
  build_attachment att w =
      if ltb att.size inline_attachment_threshold
      then with_content att (env.download w.calls att.s3_key) (tick w)
      else (with_url att (env.generate_presigned_url w.calls att.s3_key), tick w)

  abbrev keep : Option AttachmentPayload → List AttachmentPayload → List AttachmentPayload
  keep none rest = rest
  keep (some p) rest = p ∷ rest

  unfoldable pub build_attachments : List Attachment → World → List AttachmentPayload × World
  unfolding build_attachment
  build_attachments [] w = ([], w)
  build_attachments (att ∷ atts) w =
      let (p, w1) = build_attachment att w in
      let (rest, w2) = build_attachments atts w1 in (keep p rest, w2)

  unfoldable pub build_payload : Email → World → WebhookPayload × World
  unfolding build_attachments
  build_payload email w =
      let (attachments, w1) = build_attachments (attachments_of email.attachments) w in
      (
        record {
          event = codes "email.received";
          timestamp = env.now w1.calls;
          account_id = email.account_id;
          email = record {
            id = email.id;
            uid = email.uid;
            message_id = email.message_id;
            date = email.date;
            sender = record { name = email.from_name; email = email.from_email };
            to = email.to;
            cc = email.cc;
            subject = email.subject;
            parsed = record { text = email.parsed_text; html = email.parsed_html };
            raw = email.raw;
            attachments = attachments;
            flags = email.flags;
            folder = email.folder;
          };
        },
        w1,
      )

  -- The loop over the webhooks, with the number of rows that were inserted.
  unfoldable pub queue_each : Email → Text → List Webhook → World → ℕ × World
  unfolding create_webhook_queue_item
  queue_each email payload [] w = (0, w)
  queue_each email payload (wh ∷ whs) w =
      let inserted =
        create_webhook_queue_item (env.now w.calls) (env.new_id w.calls) wh.id email.id payload
          w.table in
      let fails = env.insert_fails w.calls in
      let (n, w') =
        queue_each email payload whs
          (record (tick w) { table = if fails then w.table else inserted }) in
      (if fails then n else suc n, w')

  abbrev queued : ℕ × World → Option QueueError × World
  queued (n, w) = (if n == 0 then some all_failed else none, w)

  queue_marshaled : Email → List Webhook → Option Text → World → Option QueueError × World
  queue_marshaled email whs none w = (some marshaling, w)
  queue_marshaled email whs (some payload) w = queued (queue_each email payload whs w)

  queue_webhooks : Email → Option (List Webhook) → World → Option QueueError × World
  unfolding queue_marshaled
  queue_webhooks email none w = (some getting_webhooks, w)
  queue_webhooks email (some []) w = (none, w)
  queue_webhooks email (some (wh ∷ whs)) w =
      let (payload, w1) = build_payload email w in
      queue_marshaled email (wh ∷ whs) (env.marshal payload) w1

  -- The error of `QueueForEmail`, nil being `none`.
  unfoldable pub queue_for_email : Email → World → Option QueueError × World
  unfolding queue_webhooks queue_each build_payload
  queue_for_email email w = queue_webhooks email (env.get_for_account email.account_id) (tick w)

  -- The coordinator's event handler: the error is only logged.
  unfoldable pub event_handler : Email → World → World
  unfolding queue_for_email
  event_handler email w = (queue_for_email email w).1
