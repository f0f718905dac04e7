-- ===== src/Sync/Poller/Detection.antt =====
-- New messages are detected (internal/sync/poller.go).
use letterbox.Prelude.{
  ℕ, zero, suc, ◌+◌, ◌≤◌, ◌<◌, ◌≡◌, refl, true, false, Option, none, some, List, [], ◌∷◌, arith,
}
use letterbox.Sync.{IdleConfig}
use letterbox.Sync.Poller.{FolderStatus, PollerEntry, new_entry, poll, polls}

poll_silent :
    (status : Option FolderStatus) (entry : PollerEntry)
    → entry.initialized ≡ true
    → (poll status entry).1 ≡ none
    → ((poll status entry).0.uid_next ≤ entry.uid_next)
      × ((poll status entry).0.num_messages ≤ entry.num_messages)
      × ((poll status entry).0.initialized ≡ true)
unfolding poll
poll_silent none entry on silent = ground arith
poll_silent (some status) entry on silent = ground arith

-- An account that was polled before: if any number of polls, failing or not, emit no event, then
-- neither the next UID nor the number of messages of its folder has grown since.
pub polls_silent :
    (statuses : List (Option FolderStatus)) (entry : PollerEntry)
    → entry.initialized ≡ true
    → (polls statuses entry).1 ≡ []
    → ((polls statuses entry).0.uid_next ≤ entry.uid_next)
      × ((polls statuses entry).0.num_messages ≤ entry.num_messages)
unfolding polls
polls_silent [] entry on silent = ground arith
polls_silent (status ∷ statuses) entry on silent =
    ground (arith, poll_silent status entry on, polls_silent statuses (poll status entry).0)

-- So many polls that fail, and then one that succeeds.
abbrev pub failures_then : ℕ → FolderStatus → List (Option FolderStatus)
failures_then zero status = some status ∷ []
failures_then (suc k) status = none ∷ failures_then k status

polls-failures_then :
    (k : ℕ) (status : FolderStatus) (entry : PollerEntry)
    → entry.initialized ≡ false
    → 0 < status.num_messages
    → 0 < entry.failed_polls + k
    → (polls (failures_then k status) entry).1 ≡ status.num_messages ∷ []
unfolding polls poll
polls-failures_then zero status entry off some_mail failed = ground arith
polls-failures_then (suc k) status entry off some_mail failed = ground (
  arith,
  polls-failures_then k status (record entry { failed_polls = entry.failed_polls + 1 }) off
      some_mail,
)

-- Where the first polls of an account fail, the first that succeeds emits one event if the folder
-- has messages, so that messages from the time of the failures are looked for.
pub polls-after_failures :
    (k : ℕ) (status : FolderStatus) (config : IdleConfig)
    → 0 < status.num_messages
    → (polls (failures_then (suc k) status) (new_entry config)).1 ≡ status.num_messages ∷ []
polls-after_failures k status config some_mail =
    polls-failures_then (suc k) status (new_entry config) refl some_mail (omega arith)
