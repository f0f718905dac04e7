-- ===== src/Webhook/Worker.antt =====
-- The delivery worker (internal/webhook/worker.go).
pub mod Retries
pub mod Loop
pub mod Budget
pub mod Exhaustion
pub mod Signatures
pub mod Lifecycle
use letterbox.Prelude.{
  ℕ, zero, suc, ◌+◌, ◌*◌, ◌^◌, ◌%◌, Text, Bool, true, false, ◌&&◌, ◌||◌, Option, none, some, List,
  [], ◌∷◌, ◌++◌, ◌-◌, length, ltb, leb, ◌==◌, if◌then◌else◌, ◌>>=◌,
}
use letterbox.Prelude.Separators.{decimal}
use letterbox.Domain.{Webhook}
use letterbox.Webhook.Queue.{
  WebhookQueue, Table, pending, get_pending_webhook_queue_items, mark_webhook_queue_delivered,
  mark_webhook_queue_failed, update_webhook_queue_status,
}

-- Durations are in seconds, as all of the program's are.
pub record WorkerConfig : Type 0 where
  pub poll_interval : ℕ
  pub batch_size : ℕ
  pub http_timeout : ℕ
  -- int32 in two's complement
  pub max_retries : ℕ

abbrev default_to : ℕ → ℕ → ℕ
default_to d n = if n == 0 then d else n

-- The defaults that NewWorker fills in.
unfoldable pub with_defaults : WorkerConfig → WorkerConfig
with_defaults c = record {
  poll_interval = default_to 5 c.poll_interval;
  batch_size = default_to 10 c.batch_size;
  http_timeout = default_to 30 c.http_timeout;
  max_retries = default_to 5 c.max_retries;
}

pub record Request : Type 0 where
  pub url : Text
  pub body : Text
  pub timestamp : ℕ
  pub signature : Text

-- What WebhookGetter.Get answers.
pub data Lookup : Type 0 where
  found : Webhook → Lookup
  cancelled not_found failed : Lookup

-- What http.Client.Do answers: the status code of a response, or an error.
pub data HttpResult : Type 0 where
  response : ℕ → HttpResult
  cancelled failed : HttpResult

-- The surroundings. The outcome of a call to the outside may depend on how many were made before
-- it, so that any sequence of outcomes is covered.
pub record Env : Type 0 where
  pub get_webhook : ℕ → ℕ → Lookup
  pub valid_url : Text → Bool
  pub send : ℕ → Request → HttpResult
  pub query_fails : ℕ → Bool
  pub is_done : ℕ → Bool
  pub now : ℕ → ℕ
  -- the hexadecimal HMAC-SHA256 of a message, under a key
  pub hmac_hex : Text → Text → Text

pub record World : Type 0 where
  pub table : Table
  pub calls : ℕ
  pub requests : List Request

abbrev pub tick : World → World
tick w = record w { calls = w.calls + 1 }

-- int32 in two's complement
abbrev pub wrap32 : ℕ → ℕ
wrap32 n = n % 2 ^ 32

-- a >= b, signed
abbrev pub ge32 : ℕ → ℕ → Bool
ge32 a b = leb (wrap32 (b + 2 ^ 31)) (wrap32 (a + 2 ^ 31))

abbrev pub is_negative : ℕ → Bool
is_negative a = leb (2 ^ 31) a

abbrev pub backoff_schedule : List ℕ
backoff_schedule = 60 ∷ 5 * 60 ∷ 15 * 60 ∷ 60 * 60 ∷ 4 * 60 * 60 ∷ []

abbrev nth : List ℕ → ℕ → Option ℕ
nth [] n = none
nth (x ∷ xs) zero = some x
nth (x ∷ xs) (suc n) = nth xs n

-- backoffSchedule[backoffIndex]; `none` is the panic of a negative index.
unfoldable pub backoff_for : ℕ → Option ℕ
backoff_for current =
    if is_negative current
    then none
    else nth backoff_schedule
        (if leb (length backoff_schedule) current then length backoff_schedule - 1 else current)

abbrev pub attempts_of : Option ℕ → ℕ
attempts_of none = 0
attempts_of (some n) = n

pub data SendError : Type 0 where
  cancelled failed : SendError

unfoldable pub is_success : ℕ → Bool
is_success code = leb 200 code && ltb code 300

-- The error of `sendWebhook`, nil being `none`.
unfoldable pub send_error : HttpResult → Option SendError
unfolding is_success
send_error (response code) = if is_success code then none else some failed
send_error cancelled = some cancelled
send_error failed = some failed

-- "%d.%s" of the timestamp, which is not negative, and the payload
unfoldable pub signed_message : ℕ → Text → Text
unfolding decimal
signed_message timestamp payload = decimal timestamp ++ b'.' ∷ payload

unfoldable pub compute_signature : Env → Text → Text → ℕ → Text
unfolding signed_message
compute_signature env payload secret timestamp =
    env.hmac_hex secret (signed_message timestamp payload)

module _ (env : Env) where
  unfoldable pub send_webhook : Text → Text → Text → World → Option SendError × World
  unfolding send_error compute_signature
  send_webhook url secret payload w =
      let timestamp = env.now w.calls in
      let req : Request = record {
        url = url;
        body = payload;
        timestamp = timestamp;
        signature = compute_signature env payload secret timestamp;
      } in
      if env.valid_url url
      then (
        send_error (env.send w.calls req),
        record w { calls = w.calls + 1; requests = w.requests ++ req ∷ [] },
      )
      else (some failed, w)

  unfoldable pub mark_delivered : ℕ → World → Bool × World
  unfolding mark_webhook_queue_delivered
  mark_delivered id w =
      if env.query_fails w.calls
      then (false, tick w)
      else (true, record (tick w) { table = mark_webhook_queue_delivered id w.table })

  unfoldable pub mark_failed : ℕ → World → Bool × World
  unfolding mark_webhook_queue_failed
  mark_failed id w =
      if env.query_fails w.calls
      then (false, tick w)
      else (true, record (tick w) { table = mark_webhook_queue_failed id w.table })

module _ (env : Env) (config : WorkerConfig) where
  -- UpdateWebhookQueueStatus, and the mark as failed where that fails
  unfoldable pub reschedule : ℕ → ℕ → ℕ → World → World
  unfolding mark_failed update_webhook_queue_status
  reschedule id attempts next w =
      if env.query_fails w.calls
      then (mark_failed env id (tick w)).1
      else record (tick w) { table = update_webhook_queue_status id pending attempts next w.table }

  -- `none` is a panic, which ends the process.
  unfoldable pub schedule_retry : ℕ → ℕ → World → Option World
  unfolding reschedule backoff_for
  schedule_retry id current w =
      let new_attempts = wrap32 (current + 1) in
      if ge32 new_attempts config.max_retries
      then some (mark_failed env id w).1
      else elim (backoff_for current) [
        | none ↦ none
        | some backoff ↦ some (reschedule id new_attempts (env.now w.calls + backoff) w)
      ]

  after_send : WebhookQueue → ℕ → Option SendError × World → Option World
  after_send item attempts (some cancelled, w) = some w
  after_send item attempts (some failed, w) = schedule_retry item.id attempts w
  after_send item attempts (none, w) = some (mark_delivered env item.id w).1

  after_get : WebhookQueue → ℕ → Lookup → World → Option World
  unfolding after_send send_webhook
  after_get item attempts Lookup.cancelled w = some w
  after_get item attempts Lookup.not_found w = some (mark_failed env item.id w).1
  after_get item attempts Lookup.failed w = schedule_retry item.id attempts w
  after_get item attempts (Lookup.found webhook) w =
      after_send item attempts (send_webhook env webhook.url webhook.secret item.payload w)

  unfoldable pub deliver_webhook : WebhookQueue → World → Option World
  unfolding after_get schedule_retry mark_failed mark_delivered
  deliver_webhook item w =
      after_get item (attempts_of item.attempts) (env.get_webhook w.calls item.webhook_id) (tick w)

  -- the loop of `processBatch`, which looks for a shutdown before each item
  unfoldable pub deliver_all : List WebhookQueue → World → Option World
  unfolding deliver_webhook
  deliver_all [] w = some w
  deliver_all (item ∷ items) w =
      if env.is_done w.calls
      then some (tick w)
      else deliver_webhook item (tick w) >>= deliver_all items

  unfoldable pub process_batch : World → Option World
  unfolding deliver_all get_pending_webhook_queue_items
  process_batch w =
      if env.query_fails w.calls
      then some (tick w)
      else deliver_all (get_pending_webhook_queue_items (env.now w.calls) config.batch_size w.table)
          (tick w)

-- What wakes the select of `run`.
pub data Wake : Type 0 where
  ctx_done ticker : Wake

module _ (env : Env) (config : WorkerConfig) where
  unfoldable pub run_from : List Wake → World → Option World
  unfolding process_batch
  run_from [] w = some w
  run_from (ctx_done ∷ _) w = some w
  run_from (ticker ∷ wakes) w = process_batch env config w >>= run_from wakes

  -- The state that `run` has reached after some wakes; the first batch needs none.
  unfoldable pub run : List Wake → World → Option World
  unfolding run_from
  run wakes w = run_from (ticker ∷ wakes) w
