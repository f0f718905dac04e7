-- ===== src/Sync/Examples.antt =====
-- The theorems on synchronisation at concrete inputs.
use letterbox.Prelude.{
  ℕ, ◌≡◌, ◌≤◌, ◌<◌, refl, Text, codes, true, false, some, none, List, [], ◌∷◌, ◌==◌, if◌then◌else◌,
  arith, Option, All, inl,
}
use letterbox.Prelude.Int.{pos}
use letterbox.Prelude.Maps.{lookup}
use letterbox.Domain.{Account, Email}
use letterbox.Ingest
use letterbox.Ingest.{
  ParsedEmail, AccountLookup, Fetched, FetchError, Result, err, ok, ingest_email, exists_by_uid,
  upload_all, create_email, store_attachments,
}
use letterbox.Sync.{IdleEvent, IdleConfig, new_message, validate}
use letterbox.Sync.Pool
use letterbox.Sync.Pool.{
  new_idle_pool, new_entry, add_account, next_retry_in, run_round, failed, wait, finish_close,
  send_event, begin_close,
}
use letterbox.Sync.Pool.Backoff.{run_round-waits}
use letterbox.Sync.Pool.Steps.{
  Machine, Loop, listed, Step, new_machine, added, without, closing, Reach, start, next, add,
  remove, check, close_starts, close_ends,
}
use letterbox.Sync.Pool.Soundness.{IsSound, Reach-IsSound}
use letterbox.Sync.Poller
use letterbox.Sync.Poller.{FolderStatus, PollerEntry, polls, new_poller}
use letterbox.Sync.Coordinator
use letterbox.Sync.Coordinator.{Coordinator, last_uid, uid_key, with_uids, process_events, ingested}
use letterbox.Sync.Coordinator.Membership.{remove_account}
use letterbox.Sync.Coordinator.Watermarks.{Rises, process_events-Rises, with_uids-skips}
use letterbox.Sync.Coordinator.Batches.{AllDone, with_uids-exists}
use letterbox.Sync.Coordinator.Accounts.{IsOpen, remove_account-only}

abbrev inbox : IdleConfig
inbox = record {
  account_id = codes "id";
  host = codes "h";
  port = pos 993;
  username = codes "u";
  password = codes "p";
  folder = codes "INBOX";
}

abbrev news : IdleEvent
news = record {
  event_type = new_message;
  account_id = codes "id";
  folder = codes "INBOX";
  num_messages = some 1;
  seq_num = 0;
}

-- The goroutine of the account has seen an event and that the pool is open.
abbrev receiver : Loop
receiver = record { account = codes "id"; owner = listed; pending = none }

abbrev receiving : Machine
receiving = record (added inbox new_machine) {
  loops = record receiver { pending = some news } ∷ [];
}

receives : Step (added inbox new_machine) receiving
unfolding add_account validate lookup
receives = check [] [] receiver news refl refl refl

-- Then the account is removed, and the pool is closed: Close has no goroutine to wait for, and
-- closes the channel.
abbrev after_close : Machine
after_close =
    let m = closing (without (codes "id") receiving) in record m { pool = finish_close m.pool }

closes : Step (closing (without (codes "id") receiving)) after_close
unfolding add_account validate Pool.remove_account begin_close lookup
closes = close_ends refl (λ e. cc, tt)

reached : Reach after_close
reached =
    next (next (next (next (next start (add inbox)) receives) (remove (codes "id"))) close_starts)
      closes

Reach-IsSound_example : IsSound after_close
Reach-IsSound_example = Reach-IsSound reached

-- The send of the removed account's goroutine panics.
panics : send_event news after_close.pool ≡ none
unfolding send_event add_account validate Pool.remove_account begin_close
panics = refl

run_round-waits_example :
    ((run_round false failed (new_entry inbox)).1 ≡ wait 2) × (next_retry_in (new_entry inbox) < 2)
run_round-waits_example = run_round-waits (new_entry inbox) (omega arith) (omega arith)

abbrev status_of : ℕ → ℕ → FolderStatus
status_of uid_next n = record { uid_next = uid_next; num_messages = n }

abbrev polled : PollerEntry
polled = record (Poller.new_entry inbox) { uid_next = 9; num_messages = 4; initialized = true }

-- A failure, and a message that was deleted.
abbrev quiet : List (Option FolderStatus)
quiet = none ∷ some (status_of 9 3) ∷ []

nothing_emitted : (polls quiet polled).1 ≡ []
unfolding polls
nothing_emitted = refl

abbrev acc : Account
acc = record {
  id = 1;
  name = [];
  imap_host = codes "h";
  imap_port = pos 993;
  imap_user = codes "u";
  imap_password = codes "p";
  smtp_host = codes "h";
  smtp_port = pos 587;
  smtp_user = codes "u";
  smtp_password = codes "p";
  created_at = 0;
}

abbrev plain : ParsedEmail
plain = record {
  message_id = [];
  subject = codes "s";
  sender = record { name = []; email = codes "a@b" };
  to = [];
  cc = [];
  date = 0;
  text = [];
  html = [];
  attachments = [];
}

-- UID 5 cannot be fetched.
abbrev env : Coordinator.Env
env = record {
  ingester = record {
    get_account = λ k id. AccountLookup.found acc;
    fetch_raw = λ k a folder uid.
        if uid == 5 then Fetched.failed FetchError.other else Fetched.raw (codes "m");
    parse = λ s. some plain;
    fails = λ k. false;
    delete_fails = λ k. false;
    now = λ k. k;
    new_id = λ k. k;
    uuid_string = λ id. codes "id";
  };
  parse_uuid = λ s. some 1;
  fetch_uids_after = λ k a folder uid. some (5 ∷ 6 ∷ []);
  has_idle_capability = λ k config. some true;
  is_done = λ k. false;
}

abbrev idle : Coordinator
idle = record {
  pool = (add_account inbox new_idle_pool).1;
  poller = new_poller 60;
  store = record { objects = []; emails = []; attachments = []; calls = 0 };
  last_uids = (uid_key (codes "id") (codes "INBOX"), 4) ∷ [];
  notified = [];
  closed = false;
}

abbrev arrival : IdleEvent
arrival = record {
  event_type = new_message;
  account_id = codes "id";
  folder = codes "INBOX";
  num_messages = some 6;
  seq_num = 0;
}

process_events-Rises_example : Rises idle (process_events env (arrival ∷ []) idle)
process_events-Rises_example = process_events-Rises env (arrival ∷ []) idle

abbrev first_result : Result Email × Ingest.World
first_result = ingest_email env.ingester 1 (codes "INBOX") 5 (Ingest.tick idle.store)

abbrev second_result : Result Email × Ingest.World
second_result = ingest_email env.ingester 1 (codes "INBOX") 6 (Ingest.tick first_result.1)

first_fails : first_result.0 ≡ err (Ingest.fetching FetchError.other)
unfolding ingest_email exists_by_uid
first_fails = refl

abbrev second_email : Result Email → Email
second_email (ok email) = email
second_email (err e) =
    Ingest.inserted env.ingester (Ingest.email_input env.ingester 1 (codes "INBOX") 6 [] plain) 0

second_succeeds : second_result.0 ≡ ok (second_email second_result.0)
unfolding ingest_email exists_by_uid upload_all create_email store_attachments
second_succeeds = refl

behind : last_uid (uid_key (codes "id") (codes "INBOX")) idle < 6
unfolding last_uid lookup
behind = omega arith

not_stored : exists_by_uid 1 (codes "INBOX") 5 idle.store.emails ≡ false
unfolding exists_by_uid
not_stored = refl

with_uids-skips_example :
    (last_uid (uid_key (codes "id") (codes "INBOX")) (
        with_uids env
          (uid_key (codes "id") (codes "INBOX"))
          1
          (codes "INBOX")
          (some (5 ∷ 6 ∷ []))
          idle)
      ≡ 6)
    × (exists_by_uid 1
          (codes "INBOX")
          5
          (with_uids env
            (uid_key (codes "id") (codes "INBOX"))
            1
            (codes "INBOX")
            (some (5 ∷ 6 ∷ []))
            idle).store.emails
        ≡ false)
with_uids-skips_example =
    with_uids-skips env 1 (codes "INBOX") 5 6 idle (uid_key (codes "id") (codes "INBOX"))
      (Ingest.fetching FetchError.other) (second_email second_result.0) first_fails (λ e. cc)
      (λ e. cc) second_succeeds refl refl not_stored (omega arith) behind

both_done : AllDone env 1 (codes "INBOX") (6 ∷ 7 ∷ []) 0 idle
unfolding ingest_email exists_by_uid upload_all create_email store_attachments ingested
both_done = (refl, (inl (_, refl), (refl, (inl (_, refl), tt))))

with_uids-exists_example :
    All
      (λ u.
        exists_by_uid 1
          (codes "INBOX")
          u
          (with_uids env
            (uid_key (codes "id") (codes "INBOX"))
            1
            (codes "INBOX")
            (some (6 ∷ 7 ∷ []))
            idle).store.emails
        ≡ true)
      (6 ∷ 7 ∷ [])
    × (7
        ≤ last_uid (uid_key (codes "id") (codes "INBOX")) (
            with_uids env
              (uid_key (codes "id") (codes "INBOX"))
              1
              (codes "INBOX")
              (some (6 ∷ 7 ∷ []))
              idle))
with_uids-exists_example =
    with_uids-exists env 1 (codes "INBOX") (uid_key (codes "id") (codes "INBOX")) 6 (7 ∷ []) idle
      both_done

idle-IsOpen : IsOpen idle
unfolding add_account new_poller validate lookup
idle-IsOpen = record { coordinator = refl; pool = refl; poller = refl }

abbrev after_removal : Coordinator
after_removal = (remove_account (codes "id") idle).1

remove_account-only_example :
    ((lookup (codes "id") after_removal.pool.accounts ≡ none)
      × (lookup (codes "id") after_removal.poller.accounts ≡ none)
      × ((folder : Text) → last_uid (uid_key (codes "id") folder) after_removal ≡ 0))
    × ((lookup (codes "x") after_removal.pool.accounts ≡ lookup (codes "x") idle.pool.accounts)
        × (lookup (codes "x") after_removal.poller.accounts
            ≡ lookup (codes "x") idle.poller.accounts)
        × ((folder : Text)
            → last_uid (uid_key (codes "x") folder) after_removal
              ≡ last_uid (uid_key (codes "x") folder) idle))
remove_account-only_example =
    remove_account-only (codes "id") (codes "x") idle idle-IsOpen (omega arith, (omega arith, tt))
      (omega arith, tt) (λ e. cc)
