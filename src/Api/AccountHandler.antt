-- ===== src/Api/AccountHandler.antt =====
-- The handlers of accounts (internal/api/account_handler.go).
pub mod Creation
mod Examples
use letterbox.Prelude.{
  ℕ, Text, codes, is_empty, Option, none, some, List, [], ◌∷◌, ◌++◌, ◌==◌, Bool, false,
  if◌then◌else◌,
}
use letterbox.Prelude.Int.{ℤ, pos, negsuc}
use letterbox.Domain.{Account, CreateAccountInput}
use letterbox.Net.{Trace}
use letterbox.Net
use letterbox.Imap
use letterbox.Imap.{ImapError}
use letterbox.Smtp
use letterbox.Smtp.{SmtpError}
use letterbox.Accounts
use letterbox.Accounts.{account_not_found}

-- An absent field is empty, or zero.
pub record CreateAccountRequest : Type 0 where
  pub name : Text
  pub imap_host : Text
  pub imap_port : ℤ
  pub imap_user : Text
  pub imap_password : Text
  pub smtp_host : Text
  pub smtp_port : ℤ
  pub smtp_user : Text
  pub smtp_password : Text

pub record AccountResponse : Type 0 where
  pub id : ℕ
  pub name : Text
  pub imap_host : Text
  pub imap_port : ℤ
  pub imap_user : Text
  pub smtp_host : Text
  pub smtp_port : ℤ
  pub smtp_user : Text
  pub created_at : ℕ

-- The answers 201, 200, 204, 400, 404 and 500; an error has a message.
pub data Response : Type 0 where
  created shown : AccountResponse → Response
  listed : List AccountResponse → Response
  no_content : Response
  bad_request not_found server_error : Text → Response

-- The repository and the two servers; `validation` is the message for a request that the validator
-- refuses, and `parse_uuid` is uuid.Parse.
pub record Env : Type 0 where
  pub accounts : Accounts.Env
  pub imap : Imap.Env
  pub smtp : Smtp.Env
  pub validation : CreateAccountRequest → Option Text
  pub parse_uuid : Text → Option ℕ

pub record World : Type 0 where
  pub store : Accounts.World
  pub imap_calls : Trace Imap.Call
  pub smtp_calls : Trace Smtp.Call

unfoldable pub to_account_response : Account → AccountResponse
to_account_response a = record {
  id = a.id;
  name = a.name;
  imap_host = a.imap_host;
  imap_port = a.imap_port;
  imap_user = a.imap_user;
  smtp_host = a.smtp_host;
  smtp_port = a.smtp_port;
  smtp_user = a.smtp_user;
  created_at = a.created_at;
}

unfoldable pub classify_imap_error : ImapError → Text
classify_imap_error ImapError.auth_failed = codes "authentication failed"
classify_imap_error ImapError.timeout = codes "connection timed out"
classify_imap_error ImapError.tls_failed = codes "TLS handshake failed"
classify_imap_error ImapError.connection_failed = codes "connection failed"
classify_imap_error ImapError.list_folders_failed = codes "failed to list folders"
classify_imap_error _ = codes "unknown error"

unfoldable pub classify_smtp_error : SmtpError → Text
classify_smtp_error SmtpError.auth_failed = codes "authentication failed"
classify_smtp_error SmtpError.timeout = codes "connection timed out"
classify_smtp_error SmtpError.tls_failed = codes "TLS handshake failed"
classify_smtp_error SmtpError.connection_failed = codes "connection failed"
classify_smtp_error _ = codes "unknown error"

abbrev pub input_of : CreateAccountRequest → CreateAccountInput
input_of req = record {
  name = req.name;
  imap_host = req.imap_host;
  imap_port = req.imap_port;
  imap_user = req.imap_user;
  imap_password = req.imap_password;
  smtp_host = req.smtp_host;
  smtp_port = req.smtp_port;
  smtp_user = req.smtp_user;
  smtp_password = req.smtp_password;
}

abbrev pub is_zero : ℤ → Bool
is_zero (pos n) = n == 0
is_zero (negsuc n) = false

module _ (env : Env) where
  abbrev pub stored : World → Accounts.Result Account × Accounts.World → Response × World
  stored w (Accounts.err e, s) =
      (server_error (codes "failed to create account"), record w { store = s })
  stored w (Accounts.ok account, s) =
      (created (to_account_response account), record w { store = s })

  abbrev pub store_account : CreateAccountRequest → World → Response × World
  store_account req w = stored w (Accounts.create env.accounts (input_of req) w.store)

  abbrev pub smtp_tested :
      CreateAccountRequest → World → Net.Result SmtpError Unit × Trace Smtp.Call → Response × World
  smtp_tested req w (Net.err e, calls) = (
    bad_request (codes "SMTP validation failed: " ++ classify_smtp_error e),
    record w { smtp_calls = calls },
  )
  smtp_tested req w (Net.ok _, calls) = store_account req (record w { smtp_calls = calls })

  unfoldable pub test_smtp : CreateAccountRequest → World → Response × World
  unfolding to_account_response classify_smtp_error Smtp.test_connection Accounts.create
  test_smtp req w =
      if is_empty req.smtp_host
      then store_account req w
      else if is_zero req.smtp_port
      then (bad_request (codes "smtp_port is required when smtp_host is provided"), w)
      else smtp_tested req w (
          Smtp.test_connection env.smtp req.smtp_host req.smtp_port req.smtp_user req.smtp_password
            w.smtp_calls)

  abbrev pub imap_tested :
      CreateAccountRequest
      → World
      → Net.Result ImapError (List Text) × Trace Imap.Call
      → Response × World
  imap_tested req w (Net.err e, calls) = (
    bad_request (codes "IMAP validation failed: " ++ classify_imap_error e),
    record w { imap_calls = calls },
  )
  imap_tested req w (Net.ok _, calls) = test_smtp req (record w { imap_calls = calls })

  abbrev pub validated : CreateAccountRequest → Option Text → World → Response × World
  validated req (some message) w = (bad_request message, w)
  validated req none w = imap_tested req w (
      Imap.test_connection env.imap req.imap_host req.imap_port req.imap_user req.imap_password
        w.imap_calls)

  -- The request, none where the body is no JSON of at most 1 MB.
  unfoldable pub create : Option CreateAccountRequest → World → Response × World
  unfolding test_smtp classify_imap_error Imap.test_connection
  create none w = (bad_request (codes "invalid JSON"), w)
  create (some req) w = validated req (env.validation req) w

  unfoldable pub to_account_responses : List Account → List AccountResponse
  unfolding to_account_response
  to_account_responses [] = []
  to_account_responses (a ∷ accounts) = to_account_response a ∷ to_account_responses accounts

  abbrev listed_as : Accounts.Result (List Account) → Response
  listed_as (Accounts.err e) = server_error (codes "failed to list accounts")
  listed_as (Accounts.ok accounts) = listed (to_account_responses accounts)

  unfoldable pub list : World → Response × World
  unfolding to_account_responses Accounts.list
  list w = let (r, s) = Accounts.list env.accounts w.store in (listed_as r, record w { store = s })

  abbrev shown_as : Accounts.Result Account → Response
  shown_as (Accounts.ok account) = shown (to_account_response account)
  shown_as (Accounts.err account_not_found) = not_found (codes "account not found")
  shown_as (Accounts.err e) = server_error (codes "failed to get account")

  unfoldable pub get : Text → World → Response × World
  unfolding to_account_response Accounts.get
  get id_text w = elim (env.parse_uuid id_text) [
    | none ↦ (bad_request (codes "invalid account ID"), w)
    | some id ↦
        let (r, s) = Accounts.get env.accounts id w.store in (shown_as r, record w { store = s })
  ]

  abbrev deleted_as : Option Accounts.AccountError → Response
  deleted_as none = no_content
  deleted_as (some account_not_found) = not_found (codes "account not found")
  deleted_as (some e) = server_error (codes "failed to delete account")

  unfoldable pub delete : Text → World → Response × World
  unfolding Accounts.delete
  delete id_text w = elim (env.parse_uuid id_text) [
    | none ↦ (bad_request (codes "invalid account ID"), w)
    | some id ↦
        let (e, s) = Accounts.delete env.accounts id w.store in
        (deleted_as e, record w { store = s })
  ]
