-- ===== src/Sync/Poller/Status.antt =====
-- STATUS of a folder (fetchStatus in internal/sync/poller.go), over the calls of the IMAP client, and
-- the polls that it feeds.
use letterbox.Prelude.{ℕ, Option, none, some, List, [], ◌∷◌}
use letterbox.Net
use letterbox.Net.{Result, ok, err, Trace, Program, call, deferred, map_error, ◌>>=◌, ◌>>◌}
use letterbox.Imap
use letterbox.Imap.{
  Call, ImapError, login, status, logout, close_client, connection_failed, auth_failed, raw, dial,
  gets,
}
use letterbox.Sync.{IdleConfig}
use letterbox.Sync.Poller.{FolderStatus, PollerEntry, polls}

-- The server, and the UIDNEXT of its answers to STATUS, 0 where there is none
module _ (env : Imap.Env) (uid_next : Trace Call → ℕ) where
  abbrev or_zero : Option ℕ → ℕ
  or_zero none = 0
  or_zero (some n) = n

  abbrev folder_status : Trace Call → FolderStatus
  folder_status w = record { uid_next = uid_next w; num_messages = or_zero (env.status_messages w) }

  abbrev send_logout : Program Call ImapError Unit
  send_logout w = (ok tt, Imap.quietly env.fails logout w)

  -- `defer client.Logout().Wait()` sends LOGOUT where it stands, and waits for it in the end.
  unfoldable pub status_session : IdleConfig → Program Call ImapError FolderStatus
  unfolding Net.◌>>=◌ call
  status_session config =
      call env.fails (λ _. auth_failed) (login config.username config.password)
      >> send_logout
      >> call env.fails raw (status config.folder)
      >> gets folder_status

  unfoldable pub fetch_status : IdleConfig → Program Call ImapError FolderStatus
  unfolding Net.◌>>=◌ dial deferred map_error status_session
  fetch_status config =
      map_error (λ _. connection_failed) (dial env config.host config.port)
      >> deferred close_client (status_session config)

abbrev pub status_or_none : Result ImapError FolderStatus → Option FolderStatus
status_or_none (ok s) = some s
status_or_none (err e) = none

-- Polls of one account, each over a connection of its own, which `servers` answer
unfoldable pub fetch_all :
    (Trace Call → ℕ) → List Imap.Env → IdleConfig → List (Option FolderStatus)
unfolding fetch_status
fetch_all uid_next [] config = []
fetch_all uid_next (env ∷ servers) config =
    status_or_none (fetch_status env uid_next config []).0 ∷ fetch_all uid_next servers config

unfoldable pub poll_all : (Trace Call → ℕ) → List Imap.Env → PollerEntry → PollerEntry × List ℕ
unfolding fetch_all polls
poll_all uid_next servers entry = polls (fetch_all uid_next servers entry.config) entry
