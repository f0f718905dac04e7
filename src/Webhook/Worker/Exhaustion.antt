-- ===== src/Webhook/Worker/Exhaustion.antt =====
-- How deliveries to an endpoint that never answers 2xx end (internal/webhook/worker.go).
use letterbox.Prelude.{
  ℕ, zero, suc, ◌+◌, ◌^◌, ◌<◌, ◌≤◌, ◌⊎◌, ◌≡◌, sym, ◌∙◌, true, false, Option, none, some, arith, leb,
  [], ◌∷◌, ◌++◌, length, length-append, ◌==◌, ==_iff, if◌then◌else◌, Bool-cases, inl, inr, refl,
  Returns, ◌>>=◌,
}
use mathlib.Core.Path.{subst}
use letterbox.Domain.{Webhook}
use letterbox.Webhook.Queue.{
  Status, WebhookQueue, Table, pending, delivered, failed, mark_webhook_queue_failed,
  update_webhook_queue_status, update_where_id,
}
use letterbox.Webhook.Worker.{
  HttpResult, is_success, compute_signature, WorkerConfig, Env, World, Lookup, Request, tick,
  attempts_of, mark_failed, send_error, reschedule, schedule_retry, SendError, send_webhook,
  after_send, after_get, deliver_webhook,
}
use letterbox.Webhook.Worker.Retries.{wait_after}
use letterbox.Webhook.Worker.Loop.{schedule_retry_lem}

-- GetWebhookQueueItem: the row as it stands.
unfoldable pub find : ℕ → Table → Option WebhookQueue
find id [] = none
find id (i ∷ t) = if i.id == id then some i else find id t

find-update_where_id :
    (id : ℕ) (f : WebhookQueue → WebhookQueue) (t : Table) (i : WebhookQueue)
    → (f i).id ≡ i.id
    → find id t ≡ some i
    → find id (update_where_id id f t) ≡ some (f i)
unfolding find update_where_id
find-update_where_id id f [] i keep e = absurd (cc)
find-update_where_id id f (j ∷ t) i keep e = elim (Bool-cases (j.id == id)) [
  | inl same ↦ let here : some j ≡ some i = rw same at e in ground (arith, ==_iff (f j).id id)
  | inr other ↦ rw (other, other) (find-update_where_id id f t i keep (rw other at e))
]

find-id : (id : ℕ) (t : Table) (i : WebhookQueue) → find id t ≡ some i → i.id ≡ id
unfolding find
find-id id [] i e = absurd (cc)
find-id id (j ∷ t) i e = ground (arith, find-id id t i)

module _ (env : Env) (config : WorkerConfig) where
  -- The worker takes pending rows alone.
  deliver_pending : Status → WebhookQueue → World → Option World
  deliver_pending pending item w = deliver_webhook env config item w
  deliver_pending _ item w = some w

  -- The row is delivered n times, each time as the queue holds it, as long as it is pending.
  pub deliver_times : ℕ → ℕ → World → Option World
  deliver_times zero id w = some w
  deliver_times (suc n) id w = elim (find id w.table) [
    | none ↦ some w
    | some item ↦ deliver_pending item.status item w >>= deliver_times n id
  ]

-- The server answers with a status that is not one of 200 to 299, or the request fails.
abbrev pub IsRefusal : HttpResult → Type 0
IsRefusal (HttpResult.response code) = (code < 200) ⊎ (300 ≤ code)
IsRefusal HttpResult.failed = Unit
IsRefusal HttpResult.cancelled = ⊥

-- The webhook is found, the database works, and the endpoint never answers 2xx.
pub record IsDown (env : Env) (wh : Webhook) : Type 0 where
  pub finds : (n id : ℕ) → env.get_webhook n id ≡ Lookup.found wh
  pub queries : (n : ℕ) → env.query_fails n ≡ false
  pub url : env.valid_url wh.url ≡ true
  pub refuses : (n : ℕ) (req : Request) → IsRefusal (env.send n req)

IsRefusal-send_error : (r : HttpResult) → IsRefusal r → send_error r ≡ some SendError.failed
unfolding send_error is_success
IsRefusal-send_error (HttpResult.response code) h = ground (arith, h)
IsRefusal-send_error HttpResult.failed h = refl
IsRefusal-send_error HttpResult.cancelled h = absurd (h)

-- The row is failed, and so many requests were sent.
abbrev pub Exhausted : ℕ → ℕ → World → Type 0
Exhausted id n w =
    ((row : WebhookQueue) × (find id w.table ≡ some row) × (row.status ≡ failed))
    × (length w.requests ≡ n)

module _ (env : Env) (config : WorkerConfig) (wh : Webhook) (down : IsDown env wh)
    (small : config.max_retries < 2 ^ 31) where
  abbrev sent : WebhookQueue → World → World
  sent item w = record w {
    calls = w.calls + 1;
    requests =
        w.requests
        ++ record {
          url = wh.url;
          body = item.payload;
          timestamp = env.now w.calls;
          signature = compute_signature env item.payload wh.secret (env.now w.calls);
        }
          ∷ [];
  }

  send_webhook-sent :
      (item : WebhookQueue) (w : World)
      → send_webhook env wh.url wh.secret item.payload w ≡ (some SendError.failed, sent item w)
  unfolding send_webhook
  send_webhook-sent item w =
      rw down.url (rw (IsRefusal-send_error (env.send w.calls _) (down.refuses w.calls _)))

  -- One delivery sends a request, and then the row is rescheduled or failed.
  deliver_webhook-retry :
      (item : WebhookQueue) (w : World)
      → deliver_webhook env config item w
        ≡ schedule_retry env config item.id (attempts_of item.attempts) (sent item (tick w))
  unfolding deliver_webhook after_get after_send
  deliver_webhook-retry item w = rw down.finds (rw send_webhook-sent)

  abbrev retried : WebhookQueue → ℕ → World → World
  retried item next w =
      let attempts = attempts_of item.attempts + 1 in
      if leb config.max_retries attempts
      then (mark_failed env item.id w).1
      else reschedule env config item.id attempts next w

  length-requests-retried :
      (item : WebhookQueue) (next : ℕ) (w : World)
      → length (retried item next w).requests ≡ length w.requests
  unfolding mark_failed reschedule
  length-requests-retried item next w = ground (arith, down.queries w.calls)

  -- The row after a delivery that failed.
  abbrev failed_row : WebhookQueue → ℕ → WebhookQueue
  failed_row item next =
      let attempts = attempts_of item.attempts + 1 in
      if leb config.max_retries attempts
      then record item { status = failed }
      else record item { status = pending; attempts = some attempts; next_attempt = some next }

  find-retried :
      (item : WebhookQueue) (next : ℕ) (w : World)
      → find item.id w.table ≡ some item
      → find item.id (retried item next w).table ≡ some (failed_row item next)
  unfolding mark_failed reschedule mark_webhook_queue_failed update_webhook_queue_status
  find-retried item next w e =
      elim (Bool-cases (leb config.max_retries (attempts_of item.attempts + 1))) [
        | inl last ↦ rw last (rw down.queries (find-update_where_id item.id _ w.table item refl e))
        | inr more ↦ rw more (rw down.queries (find-update_where_id item.id _ w.table item refl e))
      ]

  -- The world after one delivery.
  abbrev next_world : WebhookQueue → World → World
  next_world item w =
      let w2 = sent item (tick w) in
      retried item (env.now w2.calls + wait_after (attempts_of item.attempts)) w2

  deliver_webhook-next_world :
      (item : WebhookQueue) (w : World)
      → attempts_of item.attempts < config.max_retries
      → deliver_webhook env config item w ≡ some (next_world item w)
  deliver_webhook-next_world item w lt = rw deliver_webhook-retry (
      schedule_retry_lem env config item.id (attempts_of item.attempts) (sent item (tick w)) lt
        small)

  length-requests-next_world :
      (item : WebhookQueue) (w : World)
      → length (next_world item w).requests ≡ length w.requests + 1
  length-requests-next_world item w =
      length-requests-retried item _ (sent item (tick w)) ∙ length-append w.requests _

  deliver_pending-pending :
      (s : Status) (item : WebhookQueue) (w : World)
      → s ≡ pending
      → deliver_pending env config s item w ≡ deliver_webhook env config item w
  unfolding deliver_pending
  deliver_pending-pending pending item w h = refl
  deliver_pending-pending delivered item w h = absurd (cc (h))
  deliver_pending-pending failed item w h = absurd (cc (h))

  deliver_times-next_world :
      (n id : ℕ) (item : WebhookQueue) (w : World)
      → find id w.table ≡ some item
      → item.status ≡ pending
      → attempts_of item.attempts < config.max_retries
      → deliver_times env config (suc n) id w ≡ deliver_times env config n id (next_world item w)
  unfolding deliver_times
  deliver_times-next_world n id item w e waiting lt =
      rw (e, deliver_times)
        (rw
          (deliver_pending-pending item.status item w waiting
            ∙ deliver_webhook-next_world item w lt)
          refl)

  -- What the queue holds of the row after one delivery.
  find-next_world :
      (id : ℕ) (item : WebhookQueue) (w : World)
      → find id w.table ≡ some item
      → (next : ℕ) × (find id (next_world item w).table ≡ some (failed_row item next))
  find-next_world id item w e =
      let same : item.id ≡ id = find-id id w.table item e in
      let here = subst (λ k. find k w.table ≡ some item) (sym same) e in
      let next = env.now (sent item (tick w)).calls + wait_after (attempts_of item.attempts) in
      (
        next,
        subst (λ k. find k (next_world item w).table ≡ some (failed_row item next)) same
            (find-retried item next (sent item (tick w)) here),
      )

  -- Let a webhook's endpoint be down (every request fails or is answered with a status outside of
  -- 200 to 299, while lookups and the database work). A pending row with n + 1 attempts left before
  -- max_retries (an int32) is delivered as long as it is pending: it is failed after n + 1
  -- deliveries and not before, and those have sent n + 1 requests.
  pub deliver_times-Exhausted :
      (n id k : ℕ) (item : WebhookQueue) (w : World)
      → find id w.table ≡ some item
      → item.status ≡ pending
      → attempts_of item.attempts + suc n ≡ config.max_retries
      → length w.requests + suc n ≡ k
      → Returns (Exhausted id k) (deliver_times env config (suc n) id w)
  unfolding deliver_times
  deliver_times-Exhausted zero id k item w e waiting left total =
      rw (deliver_times-next_world zero id item w e waiting (omega arith)) (
        let (next, after) = find-next_world id item w e in
        (
          (failed_row item next, after, ground arith),
          omega (arith, length-requests-next_world item w),
        ))
  deliver_times-Exhausted (suc n) id k item w e waiting left total =
      rw (deliver_times-next_world (suc n) id item w e waiting (omega arith)) (
        let (next, after) = find-next_world id item w e in
        deliver_times-Exhausted n id k (failed_row item next) (next_world item w) after
          (ground arith) (ground arith) (omega (arith, length-requests-next_world item w)))
