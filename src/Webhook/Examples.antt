-- ===== src/Webhook/Examples.antt =====
-- The theorems on webhooks at concrete inputs, and tests.
use letterbox.Prelude.{
  inr, ℕ, ◌≡◌, refl, codes, true, false, some, none, [], ◌∷◌, All, Returns, arith, length, ◌==◌,
  if◌then◌else◌,
}
use letterbox.Domain.{Attachment, Email, Webhook}
use letterbox.Webhook.Queue.{WebhookQueue, pending, failed}
use letterbox.Webhook.Worker.{WorkerConfig, Env, World, Lookup, HttpResult, run, ticker, ctx_done}
use letterbox.Webhook.Worker.Loop.{HasBudget}
use letterbox.Webhook.Worker.Budget.{run-HasBudget, IsUndelivered, run-IsUndelivered}
use letterbox.Webhook.Worker.Exhaustion.{
  IsDown, Exhausted, deliver_times, deliver_times-Exhausted, find,
}
use letterbox.Webhook.Worker.Signatures.{signed_message-injective}
use letterbox.Webhook.Producer
use letterbox.Webhook.Producer.{build_payload, queue_for_email, AttachmentPayload, QueueError}
use letterbox.Webhook.Producer.Fanout.{rows_for, queue_for_email-rows}

abbrev hook : Webhook
hook = record {
  id = 7;
  account_id = 1;
  url = codes "https://x";
  secret = codes "s";
  created_at = 0;
}

-- An endpoint that answers 500.
abbrev down_env : Env
down_env = record {
  get_webhook = λ n id. Lookup.found hook;
  valid_url = λ url. true;
  send = λ n req. HttpResult.response 500;
  query_fails = λ n. false;
  is_done = λ n. false;
  now = λ n. 100;
  hmac_hex = λ secret message. message;
}

abbrev plain_config : WorkerConfig
plain_config = record { poll_interval = 5; batch_size = 10; http_timeout = 30; max_retries = 5 }

abbrev unset_config : WorkerConfig
unset_config = record { poll_interval = 0; batch_size = 0; http_timeout = 0; max_retries = 0 }

abbrev first_row : WebhookQueue
first_row = record {
  id = 3;
  webhook_id = 7;
  email_id = 9;
  payload = codes "p";
  attempts = some 0;
  next_attempt = none;
  status = pending;
  created_at = 1;
}

abbrev failed_one : WebhookQueue
failed_one = record first_row { status = failed }

abbrev one_row : World
one_row = record { table = first_row ∷ []; calls = 0; requests = [] }

abbrev one_failed : World
one_failed = record { table = failed_one ∷ []; calls = 0; requests = [] }

run-HasBudget_example :
    Returns
      (λ w'. All (HasBudget 5) w'.table)
      (run down_env plain_config (ticker ∷ ctx_done ∷ []) one_row)
run-HasBudget_example =
    run-HasBudget down_env plain_config (ticker ∷ ctx_done ∷ []) one_row (omega arith)
      (omega arith, tt)

run-IsUndelivered_example :
    Returns (λ w'. All (IsUndelivered 5) w'.table) (run down_env plain_config (ticker ∷ []) one_row)
run-IsUndelivered_example =
    run-IsUndelivered down_env plain_config (ticker ∷ []) one_row (λ n req. inr (omega arith))
      (omega arith) ((omega arith, cc), tt)

is_down : IsDown down_env hook
is_down = record {
  finds = λ n id. refl;
  queries = λ n. refl;
  url = refl;
  refuses = λ n req. inr (omega arith);
}

found_first : find 3 one_row.table ≡ some first_row
unfolding find
found_first = refl

deliver_times-Exhausted_example :
    Returns (Exhausted 3 5) (deliver_times down_env plain_config 5 3 one_row)
deliver_times-Exhausted_example =
    deliver_times-Exhausted down_env plain_config hook is_down (omega arith) 4 3 5 first_row one_row
      found_first refl (omega arith) (omega arith)

abbrev small_attachment : Attachment
small_attachment = record {
  id = 1;
  email_id = 9;
  filename = codes "a.txt";
  content_type = codes "text/plain";
  size = 3;
  s3_key = codes "k";
}

abbrev large_attachment : Attachment
large_attachment = record small_attachment { filename = codes "b.bin"; size = 2000000 }

abbrev mail : Email
mail = record {
  id = 9;
  account_id = 1;
  uid = 4;
  message_id = [];
  folder = codes "INBOX";
  subject = codes "Hi";
  from_email = codes "a@b";
  from_name = [];
  to = [];
  cc = [];
  date = 0;
  parsed_text = [];
  parsed_html = [];
  raw = [];
  flags = [];
  deleted_upstream = false;
  created_at = 0;
  attachments = some (small_attachment ∷ large_attachment ∷ []);
}

-- Two webhooks, of which the second insert fails.
abbrev producer_env : Producer.Env
producer_env = record {
  download = λ n key. none;
  generate_presigned_url = λ n key. some (codes "u");
  get_for_account = λ account. some (hook ∷ hook ∷ []);
  insert_fails = λ n. n == 5;
  new_id = λ n. n;
  now = λ n. 100;
  base64 = λ s. s;
  marshal = λ p. some p.event;
}

abbrev empty_world : Producer.World
empty_world = record { table = []; calls = 0 }

queue_for_email-rows_example :
    ((queue_for_email producer_env mail empty_world).1.table
      ≡ rows_for producer_env
          (build_payload producer_env mail (Producer.tick empty_world)).1.calls
          mail
          (codes "email.received")
          (hook ∷ hook ∷ []))
    × ((queue_for_email producer_env mail empty_world).0 ≡ (
        if length (
            rows_for producer_env
              (build_payload producer_env mail (Producer.tick empty_world)).1.calls
              mail
              (codes "email.received")
              (hook ∷ hook ∷ []))
          == 0
        then some QueueError.all_failed
        else none))
unfolding build_payload
queue_for_email-rows_example =
    queue_for_email-rows producer_env mail empty_world hook (hook ∷ []) (codes "email.received")
      refl refl

-- The second of the two inserts fails: one row is queued.
one_queued : length (queue_for_email producer_env mail empty_world).1.table ≡ 1
unfolding queue_for_email
one_queued = refl

signed_message-injective_example : (◌≡◌ {A = ℕ} 7 7) × (codes "p" ≡ codes "p")
signed_message-injective_example = signed_message-injective 7 7 (codes "p") (codes "p") refl
