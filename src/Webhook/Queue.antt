-- ===== src/Webhook/Queue.antt =====
-- The table webhook_queue and its queries (internal/db/webhook_queue.sql.go). `now` is the
-- database's NOW(). Rows affected are not returned: no caller reads them.
pub mod Rows
use letterbox.Prelude.{
  ℕ, ◌+◌, Text, Bool, true, false, ◌&&◌, Option, none, some, List, [], ◌∷◌, ◌++◌, take, leb, ◌==◌,
  if◌then◌else◌,
}

pub data Status : Type 0 where
  pending delivered failed : Status

pub record WebhookQueue : Type 0 where
  pub id : ℕ
  pub webhook_id : ℕ
  pub email_id : ℕ
  pub payload : Text
  -- int32 in two's complement; NULL is `none`
  pub attempts : Option ℕ
  pub next_attempt : Option ℕ
  pub status : Status
  pub created_at : ℕ

abbrev pub Table : Type 0
Table = List WebhookQueue

abbrev is_pending : Status → Bool
is_pending pending = true
is_pending _ = false

abbrev due_at : ℕ → Option ℕ → Bool
due_at now none = true
due_at now (some t) = leb t now

-- WHERE status = 'pending' AND (next_attempt IS NULL OR next_attempt <= NOW())
unfoldable pub is_due : ℕ → WebhookQueue → Bool
is_due now i = is_pending i.status && due_at now i.next_attempt

unfoldable pub due : ℕ → Table → Table
unfolding is_due
due now [] = []
due now (i ∷ t) = let rest = due now t in if is_due now i then i ∷ rest else rest

-- ORDER BY created_at ASC, as a stable insertion sort
unfoldable pub insert_by_created : WebhookQueue → Table → Table
insert_by_created i [] = i ∷ []
insert_by_created i (j ∷ t) =
    let rest = insert_by_created i t in
    if leb i.created_at j.created_at then i ∷ j ∷ t else j ∷ rest

unfoldable pub order_by_created : Table → Table
unfolding insert_by_created
order_by_created [] = []
order_by_created (i ∷ t) = insert_by_created i (order_by_created t)

unfoldable pub get_pending_webhook_queue_items : ℕ → ℕ → Table → Table
unfolding due order_by_created
get_pending_webhook_queue_items now limit t = take limit (order_by_created (due now t))

-- UPDATE webhook_queue SET ... WHERE id = $1
unfoldable pub update_where_id : ℕ → (WebhookQueue → WebhookQueue) → Table → Table
update_where_id id f [] = []
update_where_id id f (i ∷ t) = (if i.id == id then f i else i) ∷ update_where_id id f t

unfoldable pub mark_webhook_queue_delivered : ℕ → Table → Table
unfolding update_where_id
mark_webhook_queue_delivered id = update_where_id id (λ i. record i { status = delivered })

unfoldable pub mark_webhook_queue_failed : ℕ → Table → Table
unfolding update_where_id
mark_webhook_queue_failed id = update_where_id id (λ i. record i { status = failed })

unfoldable pub update_webhook_queue_status : ℕ → Status → ℕ → ℕ → Table → Table
unfolding update_where_id
update_webhook_queue_status id status attempts next =
    update_where_id id
      λ i. record i { status = status; attempts = some attempts; next_attempt = some next }

-- The columns that the INSERT leaves out take their defaults: attempts 0, next_attempt NOW().
unfoldable pub create_webhook_queue_item : ℕ → ℕ → ℕ → ℕ → Text → Table → Table
create_webhook_queue_item now new_id webhook email payload t =
    t
    ++ record {
      id = new_id;
      webhook_id = webhook;
      email_id = email;
      payload = payload;
      attempts = some 0;
      next_attempt = some now;
      status = pending;
      created_at = now;
    }
      ∷ []

-- No row is `none`.
unfoldable pub get_webhook_queue_item : ℕ → Table → Option WebhookQueue
get_webhook_queue_item id [] = none
get_webhook_queue_item id (i ∷ t) =
    let rest = get_webhook_queue_item id t in if i.id == id then some i else rest
