-- ===== src/Imap/Examples.antt =====
-- The theorems on the IMAP client at a server with two messages, none of whose calls fails.
use letterbox.Prelude.{ℕ, ◌≡◌, refl, codes, none, some, List, [], ◌∷◌, arith}
use letterbox.Prelude.Int.{pos}
use letterbox.Net
use letterbox.Net.{Fault, Trace}
use letterbox.Net.Runs.{replay}
use letterbox.Imap.{
  Env, SearchCriteria, everything, uids_from, fetch_uids_after, test_connection, fetch_raw,
  list_folders,
}
use letterbox.Imap.Sessions.{offline, accept, operations-IsOffline}
use letterbox.Imap.Results.{IsServer, in_range, above, fetch_uids_after-last}

abbrev found : SearchCriteria → List ℕ
found everything = 3 ∷ 7 ∷ []
found (uids_from n) = in_range n 7 (3 ∷ 7 ∷ [])

abbrev env : Env
env = record {
  fails = λ w c. none;
  mailboxes = λ w. codes "INBOX" ∷ [];
  num_messages = λ w. 2;
  bodies = λ w. some (codes "m") ∷ [];
  all_uids = λ w c. found c;
  status_messages = λ w. some 2;
}

server : IsServer env (3 ∷ 7 ∷ []) 7
server = record { every = λ w. refl; range = λ w n h. refl }

operations-IsOffline_example :
    (replay offline accept (test_connection env (codes "h") (pos 993) (codes "u") (codes "p") []).1
      ≡ some offline)
    × (replay offline accept
          (fetch_raw env (codes "h") (pos 993) (codes "u") (codes "p") (codes "INBOX") 3 []).1
        ≡ some offline)
    × (replay offline accept
          (fetch_uids_after env
            (codes "h")
            (pos 993)
            (codes "u")
            (codes "p")
            (codes "INBOX")
            3
            []).1
        ≡ some offline)
    × (replay offline accept (list_folders env (codes "h") (pos 993) (codes "u") (codes "p") []).1
        ≡ some offline)
operations-IsOffline_example =
    operations-IsOffline env (codes "h") (pos 993) (codes "u") (codes "p") (codes "INBOX") 3 [] refl

fetch_uids_after-last_example :
    ((fetch_uids_after env (codes "h") (pos 993) (codes "u") (codes "p") (codes "INBOX") 8 []).0
      ≡ Net.ok (7 ∷ []))
    × (above 8 (3 ∷ 7 ∷ []) ≡ [])
fetch_uids_after-last_example =
    fetch_uids_after-last env (3 ∷ 7 ∷ []) 7 server (λ w c. refl) (λ w. omega arith) (codes "h")
      (pos 993) (codes "u") (codes "p") (codes "INBOX") 8 (3 ∷ []) refl (omega arith, tt)
      (omega arith) (omega arith) (omega arith) []
