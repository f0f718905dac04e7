-- ===== src/Webhook/Queue/Rows.antt =====
-- What the queries of the queue keep of the rows of webhook_queue.
use letterbox.Prelude.{
  ℕ, zero, suc, ◌≡◌, [], ◌∷◌, All, take, inl, inr, Bool-cases, leb, ◌==◌, ==_iff, arith,
}
use letterbox.Webhook.Queue.{
  WebhookQueue, Table, pending, is_due, due, insert_by_created, order_by_created,
  get_pending_webhook_queue_items, update_where_id,
}

module _ (P : WebhookQueue → Type 0) where
  pub All-update_where_id :
      (id : ℕ) (f : WebhookQueue → WebhookQueue)
      → ((i : WebhookQueue) → i.id ≡ id → P i → P (f i))
      → (t : Table) → All P t
      → All P (update_where_id id f t)
  unfolding update_where_id
  All-update_where_id id f keep [] h = tt
  All-update_where_id id f keep (i ∷ t) h = elim (Bool-cases (i.id == id)) [
    | inl same ↦ rw same (keep i ((==_iff i.id id).0 same) h.0, All-update_where_id id f keep t h.1)
    | inr other ↦ rw other (h.0, All-update_where_id id f keep t h.1)
  ]

  All-due : (now : ℕ) (t : Table) → All P t → All P (due now t)
  unfolding due
  All-due now [] h = tt
  All-due now (i ∷ t) h = elim (Bool-cases (is_due now i)) [
    | inl yes_due ↦ rw yes_due (h.0, All-due now t h.1)
    | inr not_due ↦ rw not_due (All-due now t h.1)
  ]

  All-insert_by_created :
      (i : WebhookQueue) (t : Table) → P i → All P t → All P (insert_by_created i t)
  unfolding insert_by_created
  All-insert_by_created i [] p h = (p, tt)
  All-insert_by_created i (j ∷ t) p h = elim (Bool-cases (leb i.created_at j.created_at)) [
    | inl first ↦ rw first (p, h)
    | inr later ↦ rw later (h.0, All-insert_by_created i t p h.1)
  ]

  All-order_by_created : (t : Table) → All P t → All P (order_by_created t)
  unfolding order_by_created
  All-order_by_created [] h = tt
  All-order_by_created (i ∷ t) h =
      All-insert_by_created i (order_by_created t) h.0 (All-order_by_created t h.1)

  All-take : (n : ℕ) (t : Table) → All P t → All P (take n t)
  All-take zero t h = tt
  All-take (suc n) [] h = tt
  All-take (suc n) (i ∷ t) h = (h.0, All-take n t h.1)

  -- What holds of every row holds of every item that a poll returns.
  pub All-get_pending_webhook_queue_items :
      (now limit : ℕ) (t : Table) → All P t → All P (get_pending_webhook_queue_items now limit t)
  unfolding get_pending_webhook_queue_items
  All-get_pending_webhook_queue_items now limit t h =
      All-take limit (order_by_created (due now t))
        (All-order_by_created (due now t) (All-due now t h))

-- A poll returns pending rows only.
pub due-pending : (now : ℕ) (t : Table) → All (λ i. i.status ≡ pending) (due now t)
unfolding due is_due
due-pending now [] = tt
due-pending now (i ∷ t) = elim (Bool-cases (is_due now i)) [
  | inl yes_due ↦ rw yes_due (ground arith, due-pending now t)
  | inr not_due ↦ rw not_due (due-pending now t)
]

pub get_pending-pending :
    (now limit : ℕ) (t : Table)
    → All (λ i. i.status ≡ pending) (get_pending_webhook_queue_items now limit t)
unfolding get_pending_webhook_queue_items
get_pending-pending now limit t =
    All-take (λ i. i.status ≡ pending) limit (order_by_created (due now t))
      (All-order_by_created (λ i. i.status ≡ pending) (due now t) (due-pending now t))
