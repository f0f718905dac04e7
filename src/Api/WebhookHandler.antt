-- ===== src/Api/WebhookHandler.antt =====
-- The handlers of webhooks (internal/api/webhook_handler.go).
use letterbox.Prelude.{ℕ, Text, codes, Option, none, some, List, [], ◌∷◌}
use letterbox.Domain.{Webhook}
use letterbox.Webhook.Repository as Repository
use letterbox.Webhook.Repository.{
  CreateWebhookInput, WebhookError, webhook_not_found, empty_account_id, empty_url, empty_secret,
  no_such_account,
}

pub record CreateWebhookRequest : Type 0 where
  pub account_id : Text
  pub url : Text
  pub secret : Text

-- The secret is not shown.
pub record WebhookResponse : Type 0 where
  pub id : ℕ
  pub account_id : ℕ
  pub url : Text
  pub created_at : ℕ

-- The answers 201, 200, 204, 400, 404 and 500; an error has a message.
pub data Response : Type 0 where
  created : WebhookResponse → Response
  listed : List WebhookResponse → Response
  no_content : Response
  bad_request not_found server_error : Text → Response

unfoldable pub to_webhook_response : Webhook → WebhookResponse
to_webhook_response w = record {
  id = w.id;
  account_id = w.account_id;
  url = w.url;
  created_at = w.created_at;
}

-- The message of the validator for a request that it refuses, and uuid.Parse
module _ (env : Repository.Env) (validation : CreateWebhookRequest → Option Text)
    (parse_uuid : Text → Option ℕ) where
  abbrev created_as : Repository.Result Webhook → Response
  created_as (Repository.ok webhook) = created (to_webhook_response webhook)
  created_as (Repository.err empty_account_id) = bad_request (codes "account_id is required")
  created_as (Repository.err empty_url) = bad_request (codes "url is required")
  created_as (Repository.err empty_secret) = bad_request (codes "secret is required")
  created_as (Repository.err no_such_account) = bad_request (codes "account not found")
  created_as (Repository.err e) = server_error (codes "failed to create webhook")

  abbrev with_account :
      CreateWebhookRequest → Option ℕ → Repository.World → Response × Repository.World
  with_account req none w = (bad_request (codes "invalid account_id format"), w)
  with_account req (some id) w =
      let input : CreateWebhookInput = record {
        account_id = id;
        url = req.url;
        secret = req.secret;
      } in
      let (r, w') = Repository.create env input w in (created_as r, w')

  abbrev validated :
      CreateWebhookRequest → Option Text → Repository.World → Response × Repository.World
  validated req (some message) w = (bad_request message, w)
  validated req none w = with_account req (parse_uuid req.account_id) w

  -- The request, none where the body is no JSON of at most 1 MB.
  unfoldable pub create :
      Option CreateWebhookRequest → Repository.World → Response × Repository.World
  unfolding Repository.create to_webhook_response
  create none w = (bad_request (codes "invalid JSON"), w)
  create (some req) w = validated req (validation req) w

  unfoldable pub to_webhook_responses : List Webhook → List WebhookResponse
  unfolding to_webhook_response
  to_webhook_responses [] = []
  to_webhook_responses (v ∷ webhooks) = to_webhook_response v ∷ to_webhook_responses webhooks

  abbrev listed_as : Repository.Result (List Webhook) → Response
  listed_as (Repository.err e) = server_error (codes "failed to list webhooks")
  listed_as (Repository.ok webhooks) = listed (to_webhook_responses webhooks)

  unfoldable pub list : Repository.World → Response × Repository.World
  unfolding Repository.list to_webhook_responses
  list w = let (r, w') = Repository.list env w in (listed_as r, w')

  abbrev deleted_as : Option WebhookError → Response
  deleted_as none = no_content
  deleted_as (some webhook_not_found) = not_found (codes "webhook not found")
  deleted_as (some e) = server_error (codes "failed to delete webhook")

  unfoldable pub delete : Text → Repository.World → Response × Repository.World
  unfolding Repository.delete
  delete id_text w = elim (parse_uuid id_text) [
    | none ↦ (bad_request (codes "invalid webhook ID"), w)
    | some id ↦ let (e, w') = Repository.delete env id w in (deleted_as e, w')
  ]
