-- ===== src/Webhook/Producer/Fanout.antt =====
-- What the producer queues for an email (internal/webhook/producer.go).
use letterbox.Prelude.{
  ℕ, suc, ◌+◌, ◌≡◌, refl, ap, ◌∙◌, sym, Text, Option, none, some, List, [], ◌∷◌, ◌++◌, length, ltb,
  ◌==◌, if◌then◌else◌, Bool-cases, inl, inr,
}
use mathlib.Core.List.{append-nil, append_assoc}
use letterbox.Domain.{Attachment, Email, Webhook}
use letterbox.Webhook.Queue.{Table, WebhookQueue, pending, create_webhook_queue_item}
use letterbox.Webhook.Producer.{
  Env, World, tick, inline_attachment_threshold, build_attachment, build_attachments, with_content,
  all_failed, queue_each, queue_marshaled, queue_webhooks, queue_for_email, build_payload,
  attachments_of,
}

-- The row of a webhook, as a reference definition.
abbrev pub row : Env → ℕ → Email → Text → Webhook → WebhookQueue
row env n email payload wh = record {
  id = env.new_id n;
  webhook_id = wh.id;
  email_id = email.id;
  payload = payload;
  attempts = some 0;
  next_attempt = some (env.now n);
  status = pending;
  created_at = env.now n;
}

-- One row for each webhook whose insert succeeds, in the order of the webhooks.
pub rows_for : Env → ℕ → Email → Text → List Webhook → Table
rows_for env n email payload [] = []
rows_for env n email payload (wh ∷ whs) =
    let rest = rows_for env (n + 1) email payload whs in
    if env.insert_fails n then rest else row env n email payload wh ∷ rest

module _ (env : Env) (email : Email) (payload : Text) where
  queue_each-table :
      (whs : List Webhook) (w : World)
      → (queue_each env email payload whs w).1.table
        ≡ w.table ++ rows_for env w.calls email payload whs
  unfolding queue_each rows_for create_webhook_queue_item
  queue_each-table [] w = sym (append-nil w.table)
  queue_each-table (wh ∷ whs) w = elim (Bool-cases (env.insert_fails w.calls)) [
    | inl fails ↦ rw fails (queue_each-table whs (tick w))
    | inr fine ↦ rw fine (
        queue_each-table whs
          (record (tick w) { table = w.table ++ row env w.calls email payload wh ∷ [] })
        ∙ append_assoc w.table (row env w.calls email payload wh ∷ []) _)
  ]

  queue_each-count :
      (whs : List Webhook) (w : World)
      → (queue_each env email payload whs w).0 ≡ length (rows_for env w.calls email payload whs)
  unfolding queue_each rows_for create_webhook_queue_item
  queue_each-count [] w = refl
  queue_each-count (wh ∷ whs) w = elim (Bool-cases (env.insert_fails w.calls)) [
    | inl fails ↦ rw fails (queue_each-count whs (tick w))
    | inr fine ↦ rw fine (
        ap suc (
          queue_each-count whs
            (record (tick w) { table = w.table ++ row env w.calls email payload wh ∷ [] })))
  ]

module _ (env : Env) where
  with_content-table :
      (att : Attachment) (d : Option Text) (w : World)
      → (with_content env att d w).1.table ≡ w.table
  unfolding with_content
  with_content-table att none w = refl
  with_content-table att (some d) w = refl

  build_attachment-table :
      (att : Attachment) (w : World) → (build_attachment env att w).1.table ≡ w.table
  unfolding build_attachment
  build_attachment-table att w = elim (Bool-cases (ltb att.size inline_attachment_threshold)) [
    | inl small ↦ rw small (with_content-table att _ (tick w))
    | inr large ↦ rw large
  ]

  build_attachments-table :
      (atts : List Attachment) (w : World) → (build_attachments env atts w).1.table ≡ w.table
  unfolding build_attachments
  build_attachments-table [] w = refl
  build_attachments-table (att ∷ atts) w =
      build_attachments-table atts (build_attachment env att w).1 ∙ build_attachment-table att w

  build_payload-table : (email : Email) (w : World) → (build_payload env email w).1.table ≡ w.table
  unfolding build_payload
  build_payload-table email w = build_attachments-table (attachments_of email.attachments) w

  -- Let an email's account have webhooks and its payload be marshaled. The table is extended by a
  -- pending row without attempts for each webhook whose insert succeeds, in the order of the
  -- webhooks and with that payload; the result is an error exactly if there is no such row.
  pub queue_for_email-rows :
      (email : Email) (w : World) (wh : Webhook) (whs : List Webhook) (payload : Text)
      → env.get_for_account email.account_id ≡ some (wh ∷ whs)
      → env.marshal (build_payload env email (tick w)).0 ≡ some payload
      → ((queue_for_email env email w).1.table
          ≡ w.table
            ++ rows_for env (build_payload env email (tick w)).1.calls email payload (wh ∷ whs))
        × ((queue_for_email env email w).0 ≡ (
            if length
                (rows_for env (build_payload env email (tick w)).1.calls email payload (wh ∷ whs))
              == 0
            then some all_failed
            else none))
  unfolding queue_for_email queue_webhooks queue_marshaled
  queue_for_email-rows email w wh whs payload found good =
      let w1 = (build_payload env email (tick w)).1 in
      (
        rw (found, queue_webhooks)
            (rw (good, queue_marshaled)
              (queue_each-table env email payload (wh ∷ whs) w1
                ∙ ap (λ t. t ++ rows_for env w1.calls email payload (wh ∷ whs))
                    (build_payload-table email (tick w)))),
        rw (found, queue_webhooks)
            (rw (good, queue_marshaled)
              (ap (λ n. if n == 0 then some all_failed else none)
                (queue_each-count env email payload (wh ∷ whs) w1))),
      )
