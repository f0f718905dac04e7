-- ===== src/Webhook/Worker/Loop.antt =====
-- What every row of the queue keeps while the worker runs: one rule for each way in which a row
-- is changed, and the loop lemma that follows from the rules.
use letterbox.Prelude.{
  ℕ, ◌+◌, ◌^◌, ◌<◌, ◌≡◌, Option, none, some, arith, leb, Text, List, [], ◌∷◌, if◌then◌else◌, All,
  Bool-cases, inl, inr, refl, Returns, Returns-bind,
}
use letterbox.Webhook.Queue.{
  WebhookQueue, pending, delivered, failed, mark_webhook_queue_delivered, mark_webhook_queue_failed,
  update_webhook_queue_status, get_pending_webhook_queue_items,
}
use letterbox.Webhook.Queue.Rows.{
  All-update_where_id, All-get_pending_webhook_queue_items, get_pending-pending,
}
use letterbox.Webhook.Worker.{
  WorkerConfig, Env, World, Lookup, Request, tick, attempts_of, mark_delivered, mark_failed,
  send_error, reschedule, schedule_retry, SendError, send_webhook, after_send, after_get,
  deliver_webhook, deliver_all, process_batch, run_from, run, Wake, ctx_done, ticker,
}
use letterbox.Webhook.Worker.Retries.{wait_after, backoff_for_total, ge32_small, wrap32_small}

abbrev pub HasBudget : ℕ → WebhookQueue → Type 0
HasBudget max i = attempts_of i.attempts < max

-- Some endpoint answers some request with a 2xx status.
abbrev pub Succeeds : Env → Type 0
Succeeds env = (n : ℕ) × (req : Request) × (send_error (env.send n req) ≡ none)

-- The rules for a property P of rows; `item` is the row as the poll read it.
pub record Keeps (env : Env) (config : WorkerConfig) (P : WebhookQueue → Type 0) : Type 0 where
  pub budget : (i : WebhookQueue) → P i → HasBudget config.max_retries i
  pub on_failed :
      (item i : WebhookQueue)
      → P item
      → item.status ≡ pending
      → i.id ≡ item.id
      → P i
      → P (record i { status = failed })
  pub on_delivered :
      (item i : WebhookQueue)
      → Succeeds env
      → P item
      → item.status ≡ pending
      → i.id ≡ item.id
      → P i
      → P (record i { status = delivered })
  pub on_retry :
      (item i : WebhookQueue) (attempts next : ℕ)
      → attempts < config.max_retries
      → P item
      → item.status ≡ pending
      → i.id ≡ item.id
      → P i
      → P (record i { status = pending; attempts = some attempts; next_attempt = some next })

-- What `scheduleRetry` does with a counter in range, with no machine words left.
pub schedule_retry_lem :
    (env : Env) (config : WorkerConfig) (id current : ℕ) (w : World)
    → current < config.max_retries
    → config.max_retries < 2 ^ 31
    → schedule_retry env config id current w
      ≡ some (
          if leb config.max_retries (current + 1)
          then (mark_failed env id w).1
          else reschedule env config id (current + 1) (env.now w.calls + wait_after current) w)
unfolding schedule_retry
schedule_retry_lem env config id current w lt small =
    rw
      (
        wrap32_small (current + 1) (omega arith),
        ge32_small (current + 1) config.max_retries (omega arith) small,
        backoff_for_total current (omega arith),
      )
      (ground (arith, wrap32_small (current + 1)))

module _ (env : Env) (config : WorkerConfig) (P : WebhookQueue → Type 0)
    (keeps : Keeps env config P) (small : config.max_retries < 2 ^ 31) where
  abbrev Rows : World → Type 0
  Rows w = All P w.table

  mark_failed-Rows :
      (item : WebhookQueue) (w : World)
      → P item
      → item.status ≡ pending
      → Rows w
      → Rows (mark_failed env item.id w).1
  unfolding mark_failed mark_webhook_queue_failed
  mark_failed-Rows item w p s h = elim (Bool-cases (env.query_fails w.calls)) [
    | inl broken ↦ rw broken h
    | inr fine ↦
        rw fine (All-update_where_id P item.id _ (λ i e. keeps.on_failed item i p s e) w.table h)
  ]

  mark_delivered-Rows :
      (item : WebhookQueue) (w : World)
      → Succeeds env
      → P item
      → item.status ≡ pending
      → Rows w
      → Rows (mark_delivered env item.id w).1
  unfolding mark_delivered mark_webhook_queue_delivered
  mark_delivered-Rows item w ok p s h = elim (Bool-cases (env.query_fails w.calls)) [
    | inl broken ↦ rw broken h
    | inr fine ↦
        rw fine
          (All-update_where_id P item.id _ (λ i e. keeps.on_delivered item i ok p s e) w.table h)
  ]

  reschedule-Rows :
      (item : WebhookQueue) (attempts next : ℕ) (w : World)
      → attempts < config.max_retries
      → P item
      → item.status ≡ pending
      → Rows w
      → Rows (reschedule env config item.id attempts next w)
  unfolding reschedule update_webhook_queue_status
  reschedule-Rows item attempts next w lt p s h = elim (Bool-cases (env.query_fails w.calls)) [
    | inl broken ↦ rw broken (mark_failed-Rows item (tick w) p s h)
    | inr fine ↦ rw fine (
        All-update_where_id P item.id _ (λ i e. keeps.on_retry item i attempts next lt p s e)
          w.table h)
  ]

  schedule_retry-Rows :
      (item : WebhookQueue) (w : World)
      → P item
      → item.status ≡ pending
      → Rows w
      → Returns Rows (schedule_retry env config item.id (attempts_of item.attempts) w)
  schedule_retry-Rows item w p s h =
      let current = attempts_of item.attempts in
      rw (schedule_retry_lem env config item.id current w (keeps.budget item p) small)
        (elim (Bool-cases (leb config.max_retries (current + 1))) [
          | inl last ↦ rw last (mark_failed-Rows item w p s h)
          | inr more ↦ rw more (reschedule-Rows item (current + 1) _ w (ground arith) p s h)
        ])

  after_send-Rows :
      (item : WebhookQueue) (r : Option SendError) (w : World)
      → (r ≡ none → Succeeds env)
      → P item
      → item.status ≡ pending
      → Rows w
      → Returns Rows (after_send env config item (attempts_of item.attempts) (r, w))
  unfolding after_send
  after_send-Rows item none w ok p s h = mark_delivered-Rows item w (ok refl) p s h
  after_send-Rows item (some SendError.cancelled) w ok p s h = h
  after_send-Rows item (some SendError.failed) w ok p s h = schedule_retry-Rows item w p s h

  send_webhook-Rows :
      (url secret payload : Text) (w : World)
      → Rows w
      → Rows (send_webhook env url secret payload w).1
  unfolding send_webhook
  send_webhook-Rows url secret payload w h = elim (Bool-cases (env.valid_url url)) [
    | inl good ↦ rw good h
    | inr bad ↦ rw bad h
  ]

  send_webhook-Succeeds :
      (url secret payload : Text) (w : World)
      → (send_webhook env url secret payload w).0 ≡ none
      → Succeeds env
  unfolding send_webhook
  send_webhook-Succeeds url secret payload w e = elim (Bool-cases (env.valid_url url)) [
    | inl good ↦ (w.calls, _, rw good at e)
    | inr bad ↦ absurd (cc (e, bad))
  ]

  after_get-Rows :
      (item : WebhookQueue) (l : Lookup) (w : World)
      → P item
      → item.status ≡ pending
      → Rows w
      → Returns Rows (after_get env config item (attempts_of item.attempts) l w)
  unfolding after_get
  after_get-Rows item Lookup.cancelled w p s h = h
  after_get-Rows item Lookup.not_found w p s h = mark_failed-Rows item w p s h
  after_get-Rows item Lookup.failed w p s h = schedule_retry-Rows item w p s h
  after_get-Rows item (Lookup.found wh) w p s h =
      after_send-Rows item (send_webhook env wh.url wh.secret item.payload w).0
        (send_webhook env wh.url wh.secret item.payload w).1
        (send_webhook-Succeeds wh.url wh.secret item.payload w) p s
        (send_webhook-Rows wh.url wh.secret item.payload w h)

  deliver_all-Rows :
      (items : List WebhookQueue) (w : World)
      → All P items
      → All (λ i. i.status ≡ pending) items
      → Rows w
      → Returns Rows (deliver_all env config items w)
  unfolding deliver_all deliver_webhook
  deliver_all-Rows [] w ps ss h = h
  deliver_all-Rows (item ∷ items) w ps ss h = elim (Bool-cases (env.is_done w.calls)) [
    | inl over ↦ rw over h
    | inr going ↦ rw going (
        Returns-bind Rows Rows (deliver_webhook env config item (tick w))
          (deliver_all env config items)
          (after_get-Rows item (env.get_webhook (w.calls + 1) item.webhook_id) (tick (tick w)) ps.0
            ss.0 h)
          (λ w' k. deliver_all-Rows items w' ps.1 ss.1 k))
  ]

  process_batch-Rows : (w : World) → Rows w → Returns Rows (process_batch env config w)
  unfolding process_batch
  process_batch-Rows w h = elim (Bool-cases (env.query_fails w.calls)) [
    | inl broken ↦ rw broken h
    | inr fine ↦ rw fine (
        deliver_all-Rows
          (get_pending_webhook_queue_items (env.now w.calls) config.batch_size w.table) (tick w)
          (All-get_pending_webhook_queue_items P (env.now w.calls) config.batch_size w.table h)
          (get_pending-pending (env.now w.calls) config.batch_size w.table) h)
  ]

  run_from-Rows :
      (wakes : List Wake) (w : World) → Rows w → Returns Rows (run_from env config wakes w)
  unfolding run_from
  run_from-Rows [] w h = h
  run_from-Rows (ctx_done ∷ wakes) w h = h
  run_from-Rows (ticker ∷ wakes) w h =
      Returns-bind Rows Rows (process_batch env config w) (run_from env config wakes)
        (process_batch-Rows w h) (λ w' k. run_from-Rows wakes w' k)

  -- The worker's loop keeps what the rules keep, and does not panic.
  pub run-Rows :
      (wakes : List Wake) (w : World)
      → All P w.table
      → Returns (λ w'. All P w'.table) (run env config wakes w)
  unfolding run
  run-Rows wakes w h = run_from-Rows (ticker ∷ wakes) w h
