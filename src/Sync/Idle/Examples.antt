-- ===== src/Sync/Idle/Examples.antt =====
-- The theorems on IDLE connections at concrete inputs.
use letterbox.Prelude.{
  ◌≡◌, refl, codes, Bool, true, Option, none, some, Returns, List, [], ◌∷◌, arith,
}
use letterbox.Prelude.Int.{pos}
use letterbox.Net.{Trace}
use letterbox.Net.Runs.{replay}
use letterbox.Imap
use letterbox.Imap.{Call}
use letterbox.Imap.Sessions.{offline, accept}
use letterbox.Sync.{IdleConfig}
use letterbox.Sync.Idle.{new_connection, new_idle_connection, close_session}
use letterbox.Sync.Idle.Channels.{
  Step, exists, expunged, received, closes, IsSound, run, run-new_connection,
}
use letterbox.Sync.Idle.Announcements.{seen, announcements, seen-new_connection}
use letterbox.Sync.Idle.Sessions.{IsIdling, new_idle_connection-IsIdling}

abbrev env : Imap.Env
env = record {
  fails = λ w c. none;
  mailboxes = λ w. [];
  num_messages = λ w. 2;
  bodies = λ w. [];
  all_uids = λ w c. [];
  status_messages = λ w. none;
}

abbrev inbox : IdleConfig
inbox = record {
  account_id = codes "id";
  host = codes "h";
  port = pos 993;
  username = codes "u";
  password = codes "p";
  folder = codes "INBOX";
}

abbrev with_idle : Trace Call → Option Bool
with_idle w = some true

-- A session in IDLE.
abbrev in_idle : Trace Call
in_idle =
    (Call.idle, true)
    ∷ (Call.select (codes "INBOX"), true)
    ∷ (Call.login (codes "u") (codes "p"), true)
    ∷ (Call.new_client, true)
    ∷ (Call.handshake (codes "h"), true)
    ∷ (Call.dial_tcp (codes "h") (pos 993), true)
    ∷ []

new_idle_connection-IsIdling_example :
    (let r = new_idle_connection env with_idle inbox [] in IsIdling r.0 (replay offline accept r.1))
    × (replay offline accept (close_session env in_idle).1 ≡ some offline)
new_idle_connection-IsIdling_example =
    new_idle_connection-IsIdling env with_idle inbox [] in_idle refl refl

abbrev steps : List Step
steps = exists (some 3) ∷ received ∷ expunged 1 ∷ exists none ∷ []

run-new_connection_example :
    Returns
      (IsSound inbox)
      (run (exists (some 3) ∷ closes ∷ expunged 1 ∷ closes ∷ []) (new_connection inbox))
run-new_connection_example =
    run-new_connection inbox (exists (some 3) ∷ closes ∷ expunged 1 ∷ closes ∷ [])

seen-new_connection_example : seen steps (new_connection inbox) ≡ announcements inbox steps
seen-new_connection_example = seen-new_connection inbox steps tt (omega arith)
