-- ===== src/Webhook/Worker/Budget.antt =====
-- What holds of the rows of webhook_queue while the worker runs (internal/webhook/worker.go).
use letterbox.Prelude.{
  ℕ, ◌+◌, ◌≤◌, leb, some, none, ◌⊎◌, zero, suc, if◌then◌else◌, arith, ◌^◌, ◌<◌, ◌≡◌, ◌≢◌, List, All,
  Returns, sym, ◌∙◌,
}
use letterbox.Webhook.Queue.{WebhookQueue, pending, delivered}
use letterbox.Webhook.Worker.{
  HttpResult, response, Request, send_error, is_success, WorkerConfig, Env, World, Wake, run,
  with_defaults, schedule_retry, mark_failed, reschedule,
}
use letterbox.Webhook.Worker.Retries.{wait_after}
use letterbox.Webhook.Worker.Loop.{HasBudget, Succeeds, Keeps, run-Rows, schedule_retry_lem}

HasBudget-Keeps :
    (env : Env) (config : WorkerConfig) → Keeps env config (HasBudget config.max_retries)
HasBudget-Keeps env config = record {
  budget = λ i h. h;
  on_failed = λ item i p s e h. h;
  on_delivered = λ item i ok p s e h. h;
  on_retry = λ item i attempts next lt p s e h. lt;
}

-- Whatever the webhook lookups, the endpoints and the database answer and whenever the worker is
-- woken: if max_retries fits in an int32 and every row has fewer attempts than that, the worker's
-- loop does not panic and every row still has fewer attempts than max_retries.
pub run-HasBudget :
    (env : Env) (config : WorkerConfig) (wakes : List Wake) (w : World)
    → config.max_retries < 2 ^ 31
    → All (HasBudget config.max_retries) w.table
    → Returns (λ w'. All (HasBudget config.max_retries) w'.table) (run env config wakes w)
run-HasBudget env config wakes w small h =
    run-Rows env config (HasBudget config.max_retries) (HasBudget-Keeps env config) small wakes w h

-- A row that has budget and is not delivered.
abbrev pub IsUndelivered : ℕ → WebhookQueue → Type 0
IsUndelivered max i = HasBudget max i × (i.status ≢ delivered)

IsUndelivered-Keeps :
    (env : Env) (config : WorkerConfig)
    → ¬ Succeeds env
    → Keeps env config (IsUndelivered config.max_retries)
IsUndelivered-Keeps env config never = record {
  budget = λ i h. h.0;
  on_failed = λ item i p s e h. (h.0, cc);
  on_delivered = λ item i ok p s e h. absurd (never ok);
  on_retry = λ item i attempts next lt p s e h. (lt, cc);
}

-- No response has a status of 200 to 299.
abbrev pub IsNot2xx : HttpResult → Type 0
IsNot2xx (response code) = (code < 200) ⊎ (300 ≤ code)
IsNot2xx _ = Unit

IsNot2xx-send_error : (r : HttpResult) → IsNot2xx r → send_error r ≢ none
unfolding send_error is_success
IsNot2xx-send_error (response code) h e = ground (arith, h, e)
IsNot2xx-send_error HttpResult.cancelled h e = cc (e)
IsNot2xx-send_error HttpResult.failed h e = cc (e)

never-Succeeds :
    (env : Env) → ((n : ℕ) (req : Request) → IsNot2xx (env.send n req)) → ¬ Succeeds env
never-Succeeds env never (n, req, e) = IsNot2xx-send_error (env.send n req) (never n req) e

-- While no endpoint answers a request with a status of 200 to 299, no row is marked as delivered: rows that
-- were not delivered before a run of the worker are not delivered after it (with max_retries in
-- the range of an int32 and attempts below it).
pub run-IsUndelivered :
    (env : Env) (config : WorkerConfig) (wakes : List Wake) (w : World)
    → ((n : ℕ) (req : Request) → IsNot2xx (env.send n req))
    → config.max_retries < 2 ^ 31
    → All (IsUndelivered config.max_retries) w.table
    → Returns (λ w'. All (IsUndelivered config.max_retries) w'.table) (run env config wakes w)
run-IsUndelivered env config wakes w never small h =
    run-Rows env config (IsUndelivered config.max_retries)
      (IsUndelivered-Keeps env config (never-Succeeds env never)) small wakes w h

-- No row with the identifier of r differs from r.
abbrev pub IsOnly : ℕ → WebhookQueue → WebhookQueue → Type 0
IsOnly max r i = HasBudget max i × (i.id ≡ r.id → i ≡ r)

IsOnly-Keeps :
    (env : Env) (config : WorkerConfig) (r : WebhookQueue)
    → r.status ≢ pending
    → Keeps env config (IsOnly config.max_retries r)
IsOnly-Keeps env config r over = record {
  budget = λ i h. h.0;
  on_failed = λ item i p s e h. (h.0, λ same. absurd (over (cc (p.1 (sym e ∙ same)))));
  on_delivered = λ item i ok p s e h. (h.0, λ same. absurd (over (cc (p.1 (sym e ∙ same)))));
  on_retry =
      λ item i attempts next lt p s e h. (lt, λ same. absurd (over (cc (p.1 (sym e ∙ same)))));
}

-- A row r that is delivered or failed stays as it is: if every row with its identifier equals r,
-- then so it is after any run of the worker (with max_retries in the range of an int32 and
-- attempts below it).
pub run-IsOnly :
    (env : Env) (config : WorkerConfig) (r : WebhookQueue) (wakes : List Wake) (w : World)
    → r.status ≢ pending
    → config.max_retries < 2 ^ 31
    → All (IsOnly config.max_retries r) w.table
    → Returns (λ w'. All (IsOnly config.max_retries r) w'.table) (run env config wakes w)
run-IsOnly env config r wakes w over small h =
    run-Rows env config (IsOnly config.max_retries r) (IsOnly-Keeps env config r over) small wakes w
      h

default-max_retries : (c : WorkerConfig) → c.max_retries ≡ 0 → (with_defaults c).max_retries ≡ 5
unfolding with_defaults
default-max_retries c unset = rw unset

module _ (env : Env) (c : WorkerConfig) (id : ℕ) (w : World) where
  abbrev pub after_failure : ℕ → ℕ → World
  after_failure current wait =
      if leb 5 (current + 1)
      then (mark_failed env id w).1
      else reschedule env (with_defaults c) id (current + 1) (env.now w.calls + wait) w

module _ (env : Env) (c : WorkerConfig) (id : ℕ) (w : World) (unset : c.max_retries ≡ 0) where
  schedule_retry-after_failure :
      (current : ℕ)
      → current < 5
      → schedule_retry env (with_defaults c) id current w
        ≡ some (after_failure env c id w current (wait_after current))
  schedule_retry-after_failure current lt =
      let m = default-max_retries c unset in
      schedule_retry_lem env (with_defaults c) id current w (omega arith) (omega arith) ∙ rw m

  -- With max_retries left to its default, a failure is the last one, or the row waits an hour at
  -- most: in neither case the last entry of the backoff schedule, four hours, is used.
  pub schedule_retry-default :
      (current : ℕ)
      → current < 5
      → (wait : ℕ) × (wait ≤ 3600)
        × (schedule_retry env (with_defaults c) id current w
            ≡ some (after_failure env c id w current wait))
  schedule_retry-default zero lt = (60, omega arith, schedule_retry-after_failure 0 lt)
  schedule_retry-default (suc zero) lt = (300, omega arith, schedule_retry-after_failure 1 lt)
  schedule_retry-default (suc (suc zero)) lt = (900, omega arith, schedule_retry-after_failure 2 lt)
  schedule_retry-default (suc (suc (suc zero))) lt =
      (3600, omega arith, schedule_retry-after_failure 3 lt)
  schedule_retry-default (suc (suc (suc (suc zero)))) lt =
      (0, omega arith, schedule_retry-after_failure 4 lt)
  schedule_retry-default (suc (suc (suc (suc (suc n))))) lt = absurd (omega arith)
