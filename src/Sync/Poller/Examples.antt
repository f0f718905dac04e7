-- ===== src/Sync/Poller/Examples.antt =====
-- The theorem on the polls at a concrete input.
use letterbox.Prelude.{◌≡◌, codes, true, false, Option, none, some, [], ◌∷◌, ◌>>=◌}
use letterbox.Prelude.Int.{pos}
use letterbox.Net.{Fault}
use letterbox.Net.Runs.{replay}
use letterbox.Imap
use letterbox.Imap.{Call}
use letterbox.Imap.Sessions.{Session, offline, accept}
use letterbox.Sync.Poller.{PollerEntry, new_entry}
use letterbox.Sync.Poller.Status.{poll_all}
use letterbox.Sync.Poller.Refused.{Refuses, poll_all-silent}

-- A server that answers what the protocol allows, and refuses the rest.
abbrev refusal : Option Session → Option Fault
refusal none = some (record { timed_out = false; is_tls = false; no_mailbox = false })
refusal (some _) = none

abbrev server : Imap.Env
server = record {
  fails = λ w c. refusal (replay offline accept w >>= accept c true);
  mailboxes = λ w. [];
  num_messages = λ w. 2;
  bodies = λ w. [];
  all_uids = λ w c. [];
  status_messages = λ w. some 7;
}

server-Refuses : Refuses server
server-Refuses w folder here = rw here (λ answered. cc)

abbrev account : PollerEntry
account = new_entry (record {
  account_id = codes "id";
  host = codes "h";
  port = pos 993;
  username = codes "u";
  password = codes "p";
  folder = codes "INBOX";
})

poll_all-silent_example :
    ((poll_all (λ w. 8) (server ∷ server ∷ []) account).1 ≡ [])
    × ((poll_all (λ w. 8) (server ∷ server ∷ []) account).0.initialized ≡ account.initialized)
poll_all-silent_example =
    poll_all-silent (λ w. 8) (server ∷ server ∷ []) account (server-Refuses, (server-Refuses, tt))
