-- ===== src/Webhook/Repository.antt =====
-- The repository of webhooks (internal/repository/webhook.go) over the table webhooks. Secrets are
-- encrypted in the table.
pub mod Secrets
mod Examples
use letterbox.Prelude.{
  ℕ, ◌+◌, Text, is_empty, Bool, true, false, not, Option, none, some, List, [], ◌∷◌, ◌++◌, length,
  ltb, ◌||◌, ◌&&◌, ◌==◌, if◌then◌else◌,
}
use letterbox.Domain.{Webhook}
use letterbox.Crypto
use letterbox.Crypto.{Cipher, CryptoError, encrypt, decrypt}

-- db.Webhook
pub record WebhookRow : Type 0 where
  pub id : ℕ
  pub account_id : ℕ
  pub url : Text
  pub secret : Text
  pub created_at : ℕ

-- uuid.Nil is 0.
pub record CreateWebhookInput : Type 0 where
  pub account_id : ℕ
  pub url : Text
  pub secret : Text

pub record Env : Type 0 where
  pub cipher : Cipher
  pub encryption_key : Text
  -- what rand.Read fills in
  pub random : ℕ → Option Text
  pub fails : ℕ → Bool
  pub new_id : ℕ → ℕ
  pub now : ℕ → ℕ
  -- how a query orders rows of the same time
  pub ties : ℕ → WebhookRow → WebhookRow → Bool

-- `accounts` are the identifiers of the table accounts, which webhooks refer to.
pub record World : Type 0 where
  pub webhooks : List WebhookRow
  pub accounts : List ℕ
  pub calls : ℕ

abbrev pub tick : World → World
tick w = record w { calls = w.calls + 1 }

-- `no_such_account` is the violation of the foreign key (code 23503).
pub data WebhookError : Type 0 where
  webhook_not_found empty_account_id empty_url empty_secret no_such_account query_failed :
      WebhookError
  encrypting decrypting : CryptoError → WebhookError

pub data Result (A : Type 0) : Type 0 where
  ok : A → Result A
  err : WebhookError → Result A

unfoldable pub is_known : ℕ → List ℕ → Bool
is_known id [] = false
is_known id (other ∷ ids) = let rest = is_known id ids in if other == id then true else rest

unfoldable pub find_webhook : ℕ → List WebhookRow → Option WebhookRow
find_webhook id [] = none
find_webhook id (row ∷ rows) =
    let rest = find_webhook id rows in if row.id == id then some row else rest

unfoldable pub of_account : ℕ → List WebhookRow → List WebhookRow
of_account account [] = []
of_account account (row ∷ rows) =
    let rest = of_account account rows in if row.account_id == account then row ∷ rest else rest

unfoldable pub without : ℕ → List WebhookRow → List WebhookRow
without id [] = []
without id (row ∷ rows) = let rest = without id rows in if row.id == id then rest else row ∷ rest

-- ORDER BY created_at DESC, as an insertion sort. SQL leaves the order of rows of the same time to
-- the database: `ties` says whether a row goes before another such row.
module _ (ties : WebhookRow → WebhookRow → Bool) where
  abbrev pub precedes : WebhookRow → WebhookRow → Bool
  precedes row other =
      ltb other.created_at row.created_at || (row.created_at == other.created_at && ties row other)

  unfoldable pub insert_by_created : WebhookRow → List WebhookRow → List WebhookRow
  insert_by_created row [] = row ∷ []
  insert_by_created row (other ∷ rows) =
      let rest = insert_by_created row rows in
      if precedes row other then row ∷ other ∷ rows else other ∷ rest

  unfoldable pub newest_first : List WebhookRow → List WebhookRow
  unfolding insert_by_created
  newest_first [] = []
  newest_first (row ∷ rows) = insert_by_created row (newest_first rows)

module _ (env : Env) where
  abbrev pub with_secret : WebhookRow → Crypto.Result → Result Webhook
  with_secret row (Crypto.err e) = err (decrypting e)
  with_secret row (Crypto.ok secret) = ok (record {
    id = row.id;
    account_id = row.account_id;
    url = row.url;
    secret = secret;
    created_at = row.created_at;
  })

  unfoldable pub to_webhook : WebhookRow → Result Webhook
  unfolding decrypt
  to_webhook row = with_secret row (decrypt env.cipher row.secret env.encryption_key)

  abbrev add_webhook : Result Webhook → Result (List Webhook) → Result (List Webhook)
  add_webhook (err e) rest = err e
  add_webhook (ok webhook) (err e) = err e
  add_webhook (ok webhook) (ok webhooks) = ok (webhook ∷ webhooks)

  unfoldable pub to_webhooks : List WebhookRow → Result (List Webhook)
  unfolding to_webhook
  to_webhooks [] = ok []
  to_webhooks (row ∷ rows) = add_webhook (to_webhook row) (to_webhooks rows)

  abbrev pub inserted : CreateWebhookInput → Text → ℕ → WebhookRow
  inserted input secret n = record {
    id = env.new_id n;
    account_id = input.account_id;
    url = input.url;
    secret = secret;
    created_at = env.now n;
  }

  unfoldable pub insert_webhook :
      CreateWebhookInput → Crypto.Result → World → Result Webhook × World
  unfolding to_webhook is_known
  insert_webhook input (Crypto.err e) w = (err (encrypting e), w)
  insert_webhook input (Crypto.ok secret) w =
      if env.fails w.calls
      then (err query_failed, tick w)
      else if not (is_known input.account_id w.accounts)
      then (err no_such_account, tick w)
      else (
        to_webhook (inserted input secret w.calls),
        record (tick w) { webhooks = w.webhooks ++ inserted input secret w.calls ∷ [] },
      )

  unfoldable pub create : CreateWebhookInput → World → Result Webhook × World
  unfolding insert_webhook encrypt
  create input w =
      if input.account_id == 0
      then (err empty_account_id, w)
      else if is_empty input.url
      then (err empty_url, w)
      else if is_empty input.secret
      then (err empty_secret, w)
      else insert_webhook input
          (encrypt env.cipher input.secret env.encryption_key (env.random w.calls)) (tick w)

  abbrev pub read : Option WebhookRow → Result Webhook
  read none = err webhook_not_found
  read (some row) = to_webhook row

  unfoldable pub get : ℕ → World → Result Webhook × World
  unfolding find_webhook to_webhook
  get id w =
      if env.fails w.calls
      then (err query_failed, tick w)
      else (read (find_webhook id w.webhooks), tick w)

  unfoldable pub list : World → Result (List Webhook) × World
  unfolding to_webhooks newest_first
  list w =
      if env.fails w.calls
      then (err query_failed, tick w)
      else (to_webhooks (newest_first (env.ties w.calls) w.webhooks), tick w)

  unfoldable pub get_for_account : ℕ → World → Result (List Webhook) × World
  unfolding to_webhooks newest_first of_account
  get_for_account account w =
      if env.fails w.calls
      then (err query_failed, tick w)
      else (to_webhooks (newest_first (env.ties w.calls) (of_account account w.webhooks)), tick w)

  -- The error of `Delete`, nil being `none`.
  unfoldable pub delete : ℕ → World → Option WebhookError × World
  unfolding without
  delete id w = if env.fails w.calls then (some query_failed, tick w) else (
    (if length (without id w.webhooks) == length w.webhooks then some webhook_not_found else none),
    record (tick w) { webhooks = without id w.webhooks },
  )
