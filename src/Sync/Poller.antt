-- ===== src/Sync/Poller.antt =====
-- The poller (internal/sync/poller.go). A channel is the list of the events in its buffer.
pub mod Detection
pub mod Status
pub mod Refused
mod Examples
use letterbox.Prelude.{
  ℕ, ◌+◌, Text, Bool, true, false, ◌&&◌, ◌||◌, Option, none, some, List, [], ◌∷◌, length, ltb,
  if◌then◌else◌,
}
use letterbox.Prelude.Maps.{Map, lookup, insert, delete}
use letterbox.Sync.{
  IdleEvent, new_message, IdleConfig, SyncError, poller_closed, already_closed, account_exists,
  account_not_found, validate, try_send,
}

pub record FolderStatus : Type 0 where
  pub uid_next : ℕ
  pub num_messages : ℕ

pub record PollerEntry : Type 0 where
  pub config : IdleConfig
  pub uid_next : ℕ
  pub num_messages : ℕ
  pub initialized : Bool
  pub failed_polls : ℕ

pub record Poller : Type 0 where
  pub interval : ℕ
  pub events : List IdleEvent
  pub events_closed : Bool
  pub accounts : Map PollerEntry
  pub closed : Bool

unfoldable pub new_poller : ℕ → Poller
new_poller interval = record {
  interval = if ltb interval 10 then 60 else interval;
  events = [];
  events_closed = false;
  accounts = [];
  closed = false;
}

abbrev pub new_entry : IdleConfig → PollerEntry
new_entry config = record {
  config = config;
  uid_next = 0;
  num_messages = 0;
  initialized = false;
  failed_polls = 0;
}

abbrev pub is_some : {A : Type 0} → Option A → Bool
is_some none = false
is_some (some a) = true

add_validated : IdleConfig → Option SyncError → Poller → Option SyncError × Poller
unfolding insert
add_validated config (some e) p = (some e, p)
add_validated config none p =
    if p.closed
    then (some poller_closed, p)
    else if is_some (lookup config.account_id p.accounts)
    then (some account_exists, p)
    else (none, record p { accounts = insert config.account_id (new_entry config) p.accounts })

unfoldable pub add_account : IdleConfig → Poller → Option SyncError × Poller
unfolding add_validated
add_account config p = add_validated config (validate config) p

unfoldable pub remove_account : Text → Poller → Option SyncError × Poller
unfolding delete
remove_account id p =
    if p.closed
    then (some poller_closed, p)
    else if is_some (lookup id p.accounts)
    then (none, record p { accounts = delete id p.accounts })
    else (some account_not_found, p)

unfoldable pub total_accounts : Poller → ℕ
total_accounts p = length p.accounts

unfoldable pub close : Poller → Option SyncError × Poller
close p =
    if p.closed
    then (some already_closed, p)
    else (none, record p { closed = true; accounts = []; events_closed = true })

unfoldable pub emit_event : PollerEntry → ℕ → Poller → Poller
unfolding try_send
emit_event entry n p = if p.closed then p else record p {
  events =
      try_send
        (record {
          event_type = new_message;
          account_id = entry.config.account_id;
          folder = entry.config.folder;
          num_messages = some n;
          seq_num = 0;
        })
        p.events;
}

-- The effect of one poll on its entry, and the number of messages of the event that it emits, if
-- it emits one; `none` is a STATUS that failed.
unfoldable pub poll : Option FolderStatus → PollerEntry → PollerEntry × Option ℕ
poll none entry = (
  if entry.initialized then entry else record entry { failed_polls = entry.failed_polls + 1 },
  none,
)
poll (some status) entry =
    let seen = record entry { uid_next = status.uid_next; num_messages = status.num_messages } in
    if entry.initialized
    then (
      seen,
      if ltb entry.uid_next status.uid_next || ltb entry.num_messages status.num_messages
          then some status.num_messages
          else none,
    )
    else (
      record seen { initialized = true },
      if ltb 0 entry.failed_polls && ltb 0 status.num_messages
          then some status.num_messages
          else none,
    )

abbrev emit : PollerEntry → Option ℕ → Poller → Poller
emit entry none p = p
emit entry (some n) p = emit_event entry n p

-- One poll of an account, the first of `runPoller` or one at a tick of its timer.
unfoldable pub poll_account : Option FolderStatus → PollerEntry → Poller → PollerEntry × Poller
unfolding poll emit_event
poll_account status entry p =
    let (entry', event) = poll status entry in (entry', emit entry' event p)

-- The polls of an account, with the events that they emit.
unfoldable pub polls : List (Option FolderStatus) → PollerEntry → PollerEntry × List ℕ
unfolding poll
polls [] entry = (entry, [])
polls (status ∷ statuses) entry =
    let (entry1, event) = poll status entry in
    let (entry2, events) = polls statuses entry1 in
    elim event [ none ↦ (entry2, events) | some n ↦ (entry2, n ∷ events) ]
