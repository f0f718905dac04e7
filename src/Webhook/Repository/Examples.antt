-- ===== src/Webhook/Repository/Examples.antt =====
-- The theorem on the repository of webhooks at a concrete input.
use letterbox.Prelude.{◌≡◌, refl, codes, false, some, [], ◌∷◌, arith}
use letterbox.Crypto.{Cipher}
use letterbox.Webhook.Repository as Repository
use letterbox.Webhook.Repository.Secrets.{IsWorking, webhook_of, create-get}

abbrev open_cipher : Cipher
open_cipher = record {
  nonce_size = 2;
  seal = λ key nonce s. s;
  open_sealed = λ key nonce s. some s;
  encode_base64 = λ s. s;
  decode_base64 = λ s. some s;
}

abbrev repository : Repository.Env
repository = record {
  cipher = open_cipher;
  encryption_key = codes "0123456789abcdef0123456789abcdef";
  random = λ n. some (codes "no");
  fails = λ n. false;
  new_id = λ n. n;
  now = λ n. n;
  ties = λ n row other. false;
}

repository-IsWorking : IsWorking repository
repository-IsWorking = record {
  lawful = record {
    opens = λ key nonce s. refl;
    nonce_some = omega arith;
    encodes_some = λ s given. given;
    decodes = λ s. refl;
  };
  key = omega arith;
  nonces = λ n. (codes "no", refl, omega arith);
  queries = λ n. refl;
}

abbrev hook : Repository.CreateWebhookInput
hook = record { account_id = 3; url = codes "u"; secret = codes "s" }

abbrev no_webhooks : Repository.World
no_webhooks = record { webhooks = []; accounts = 3 ∷ []; calls = 0 }

abbrev hooked : Repository.World
hooked = (Repository.create repository hook no_webhooks).1

create-get_example :
    ((Repository.create repository hook no_webhooks).0
      ≡ Repository.ok (webhook_of repository repository-IsWorking hook 1))
    × ((Repository.get repository 1 hooked).0
        ≡ Repository.ok (webhook_of repository repository-IsWorking hook 1))
    × ((Repository.get repository 1 (Repository.delete repository 1 hooked).1).0
        ≡ Repository.err Repository.webhook_not_found)
unfolding Repository.is_known Repository.find_webhook
create-get_example =
    create-get repository repository-IsWorking hook no_webhooks (λ e. omega (arith, e)) refl refl
      refl refl
