-- ===== src/Webhook/Repository/Secrets.antt =====
-- Webhooks are read back as they were created, until they are deleted
-- (internal/repository/webhook.go).
use letterbox.Prelude.{
  ℕ, ◌+◌, ◌≡◌, ◌≢◌, refl, ap, ◌∙◌, Text, is_empty, true, false, none, some, List, [], ◌∷◌, ◌++◌,
  length, ◌==◌, ==_iff, if◌then◌else◌, arith,
}
use letterbox.Domain.{Webhook}
use letterbox.Crypto
use letterbox.Crypto.{IsLawful, encrypt, decrypt}
use letterbox.Crypto.Secrets.{decrypt-encrypt}
use letterbox.Webhook.Repository.{
  WebhookRow, CreateWebhookInput, Env, World, tick, ok, err, webhook_not_found, is_known,
  find_webhook, without, to_webhook, with_secret, inserted, insert_webhook, create, get, delete,
}

-- The cipher and the encoding keep to their documentation, the key and the nonces have their
-- sizes, and no query fails.
pub record IsWorking (env : Env) : Type 0 where
  pub lawful : IsLawful env.cipher
  pub key : length env.encryption_key ≡ 32
  pub nonces :
      (n : ℕ)
      → (nonce : Text) × (env.random n ≡ some nonce) × (length nonce ≡ env.cipher.nonce_size)
  pub queries : (n : ℕ) → env.fails n ≡ false

find_webhook-last :
    (rows : List WebhookRow) (row : WebhookRow)
    → find_webhook row.id rows ≡ none
    → find_webhook row.id (rows ++ row ∷ []) ≡ some row
unfolding find_webhook
find_webhook-last [] row h = ground (arith, ==_iff row.id row.id)
find_webhook-last (other ∷ rows) row h = ground (arith, find_webhook-last rows row)

find_webhook-without :
    (id other : ℕ) (rows : List WebhookRow)
    → find_webhook other (without id rows) ≡ (if other == id then none else find_webhook other rows)
unfolding find_webhook without
find_webhook-without id other [] = ground arith
find_webhook-without id other (row ∷ rows) = ground (arith, find_webhook-without id other rows)

not_zero : (n : ℕ) → n ≢ 0 → (n == 0) ≡ false
not_zero n h = ground arith

module _ (env : Env) (works : IsWorking env) where
  abbrev pub webhook_of : CreateWebhookInput → ℕ → Webhook
  webhook_of input n = record {
    id = env.new_id n;
    account_id = input.account_id;
    url = input.url;
    secret = input.secret;
    created_at = env.now n;
  }

  abbrev after_create : CreateWebhookInput → Text → World → World
  after_create input s w = record (tick (tick w)) {
    webhooks = w.webhooks ++ inserted env input s (w.calls + 1) ∷ [];
  }

  created :
      (input : CreateWebhookInput) (w : World)
      → input.account_id ≢ 0
      → is_empty input.url ≡ false
      → is_empty input.secret ≡ false
      → is_known input.account_id w.accounts ≡ true
      → (s : Text) × (create env input w
          ≡ (ok (webhook_of input (w.calls + 1)), after_create input s w))
        × (decrypt env.cipher s env.encryption_key ≡ Crypto.ok input.secret)
  unfolding create insert_webhook to_webhook
  created input w some_account some_url some_secret known =
      let (nonce, drawn, size) = works.nonces w.calls in
      let (s, enc, dec) =
        decrypt-encrypt env.cipher works.lawful input.secret env.encryption_key nonce works.key
          size in
      (
        s,
        rw (not_zero input.account_id some_account, some_url, some_secret)
            (rw (drawn, enc) (rw (works.queries (w.calls + 1), known, dec) refl)),
        dec,
      )

  get-found :
      (w : World) (row : WebhookRow) (id : ℕ) (secret : Text)
      → find_webhook id w.webhooks ≡ some row
      → decrypt env.cipher row.secret env.encryption_key ≡ Crypto.ok secret
      → (get env id w).0 ≡ with_secret env row (Crypto.ok secret)
  unfolding get to_webhook
  get-found w row id secret here dec = rw (works.queries w.calls, here, dec) refl

  get-deleted : (w : World) (id : ℕ) → (get env id (delete env id w).1).0 ≡ err webhook_not_found
  unfolding get delete
  get-deleted w id = ground (
    arith,
    works.queries w.calls,
    works.queries (w.calls + 1),
    find_webhook-without id id w.webhooks,
    ==_iff id id,
  )

  -- Let the surroundings work. For an account of the table, an URL and a secret, Create gives the
  -- webhook with these under a new identifier; and if no row had this identifier, Get gives the same
  -- webhook afterwards, with its secret in the clear. Once it is deleted, Get finds no webhook.
  pub create-get :
      (input : CreateWebhookInput) (w : World)
      → input.account_id ≢ 0
      → is_empty input.url ≡ false
      → is_empty input.secret ≡ false
      → is_known input.account_id w.accounts ≡ true
      → find_webhook (env.new_id (w.calls + 1)) w.webhooks ≡ none
      → let v = webhook_of input (w.calls + 1) in
        let w' = (create env input w).1 in
        ((create env input w).0 ≡ ok v)
        × ((get env v.id w').0 ≡ ok v)
        × ((get env v.id (delete env v.id w').1).0 ≡ err webhook_not_found)
  create-get input w some_account some_url some_secret known fresh =
      let (s, goes, dec) = created input w some_account some_url some_secret known in
      let row = inserted env input s (w.calls + 1) in
      let w' = (create env input w).1 in
      (
        ap (λ r. r.0) goes,
        get-found w' row row.id input.secret
            (ap (λ r. find_webhook row.id r.1.webhooks) goes
              ∙ find_webhook-last w.webhooks row fresh)
            dec,
        get-deleted w' row.id,
      )
