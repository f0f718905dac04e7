-- ===== src/Api/FolderHandler.antt =====
-- The folders of an account (internal/api/folder_handler.go).
use letterbox.Prelude.{ℕ, Text, codes, Option, none, some, List, ◌++◌}
use letterbox.Domain.{Account}
use letterbox.Net
use letterbox.Net.{Trace}
use letterbox.Imap
use letterbox.Imap.{Folder, ImapError}
use letterbox.Accounts
use letterbox.Accounts.{account_not_found}
use letterbox.Api.AccountHandler.{classify_imap_error}

-- The answers 200, 400, 404, 500 and 502; an error has a message.
pub data Response : Type 0 where
  listed : List Folder → Response
  bad_request not_found server_error bad_gateway : Text → Response

pub record World : Type 0 where
  pub store : Accounts.World
  pub imap_calls : Trace Imap.Call

-- uuid.Parse
module _ (accounts : Accounts.Env) (imap : Imap.Env) (parse_uuid : Text → Option ℕ) where
  abbrev folders_listed :
      World → Net.Result ImapError (List Folder) × Trace Imap.Call → Response × World
  folders_listed w (Net.err e, calls) = (
    bad_gateway (codes "failed to list folders: " ++ classify_imap_error e),
    record w { imap_calls = calls },
  )
  folders_listed w (Net.ok folders, calls) = (listed folders, record w { imap_calls = calls })

  abbrev with_account : Accounts.Result Account → World → Response × World
  with_account (Accounts.err account_not_found) w = (not_found (codes "account not found"), w)
  with_account (Accounts.err e) w = (server_error (codes "failed to get account"), w)
  with_account (Accounts.ok account) w = folders_listed w (
      Imap.list_folders imap account.imap_host account.imap_port account.imap_user
        account.imap_password w.imap_calls)

  unfoldable pub list : Text → World → Response × World
  unfolding Accounts.get Imap.list_folders classify_imap_error
  list id_text w = elim (parse_uuid id_text) [
    | none ↦ (bad_request (codes "invalid account ID"), w)
    | some id ↦
        let (r, s) = Accounts.get accounts id w.store in with_account r (record w { store = s })
  ]
