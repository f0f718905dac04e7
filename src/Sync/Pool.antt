-- ===== src/Sync/Pool.antt =====
-- The pool of IDLE connections (internal/sync/pool.go). Durations are in seconds; a channel is
-- the list of the events in its buffer.
pub mod Backoff
pub mod Steps
pub mod Soundness
use letterbox.Prelude.{
  ℕ, suc, ◌+◌, ◌*◌, Text, Bool, true, false, Option, none, some, List, [], ◌∷◌, length, ltb,
  if◌then◌else◌,
}
use letterbox.Prelude.Maps.{Map, lookup, insert, delete}
use letterbox.Sync.{
  IdleEvent, IdleConfig, SyncError, pool_closed, already_closed, account_exists, account_not_found,
  validate, try_send,
}

abbrev pub initial_backoff : ℕ
initial_backoff = 1

abbrev pub max_backoff : ℕ
max_backoff = 5 * 60

-- `connected` stands for conn != nil; the entry leaves the map when its stopCh is closed.
pub record AccountEntry : Type 0 where
  pub config : IdleConfig
  pub connected : Bool
  pub backoff : ℕ
  pub retry_count : ℕ

pub record IdlePool : Type 0 where
  pub events : List IdleEvent
  pub events_closed : Bool
  pub accounts : Map AccountEntry
  pub closed : Bool

abbrev pub new_idle_pool : IdlePool
new_idle_pool = record { events = []; events_closed = false; accounts = []; closed = false }

abbrev pub new_entry : IdleConfig → AccountEntry
new_entry config = record {
  config = config;
  connected = false;
  backoff = initial_backoff;
  retry_count = 0;
}

abbrev pub is_some : {A : Type 0} → Option A → Bool
is_some none = false
is_some (some a) = true

-- An operation gives its error, nil being `none`, and the new pool.
add_validated : IdleConfig → Option SyncError → IdlePool → Option SyncError × IdlePool
unfolding insert
add_validated config (some e) p = (some e, p)
add_validated config none p =
    if p.closed
    then (some pool_closed, p)
    else if is_some (lookup config.account_id p.accounts)
    then (some account_exists, p)
    else (none, record p { accounts = insert config.account_id (new_entry config) p.accounts })

unfoldable pub add_account : IdleConfig → IdlePool → Option SyncError × IdlePool
unfolding add_validated
add_account config p = add_validated config (validate config) p

unfoldable pub remove_account : Text → IdlePool → Option SyncError × IdlePool
unfolding delete
remove_account id p =
    if p.closed
    then (some pool_closed, p)
    else if is_some (lookup id p.accounts)
    then (none, record p { accounts = delete id p.accounts })
    else (some account_not_found, p)

pub data Status : Type 0 where
  ok : Bool → ℕ → Status
  err : SyncError → Status

unfoldable pub account_status : Text → IdlePool → Status
account_status id p = if p.closed then err pool_closed else elim (lookup id p.accounts) [
  | none ↦ err account_not_found
  | some entry ↦ ok entry.connected entry.retry_count
]

abbrev count_connected : Map AccountEntry → ℕ
count_connected [] = 0
count_connected ((id, entry) ∷ m) =
    let n = count_connected m in if entry.connected then suc n else n

unfoldable pub connected_accounts : IdlePool → ℕ
connected_accounts p = count_connected p.accounts

unfoldable pub total_accounts : IdlePool → ℕ
total_accounts p = length p.accounts

-- Close under the lock. Then, with the lock released, it stops the goroutines of the accounts that
-- it took out, and waits for each.
unfoldable pub begin_close : IdlePool → Option SyncError × IdlePool
begin_close p =
    if p.closed then (some already_closed, p) else (none, record p { closed = true; accounts = [] })

-- close(p.events), after the wait
abbrev pub finish_close : IdlePool → IdlePool
finish_close p = record p { events_closed = true }

abbrev finished : Option SyncError × IdlePool → Option SyncError × IdlePool
finished (none, p) = (none, finish_close p)
finished (some e, p) = (some e, p)

-- The whole of Close, once it returns, where nothing else changes the pool.
unfoldable pub close : IdlePool → Option SyncError × IdlePool
unfolding begin_close
close p = finished (begin_close p)

unfoldable pub handle_connection_error : AccountEntry → AccountEntry
handle_connection_error entry =
    let doubled = entry.backoff * 2 in
    record entry {
      retry_count = entry.retry_count + 1;
      backoff = if ltb max_backoff doubled then max_backoff else doubled;
    }

-- What the log of a failure announces as `next_retry_in`: the backoff before it is doubled.
unfoldable pub next_retry_in : AccountEntry → ℕ
next_retry_in entry = entry.backoff

unfoldable pub established : AccountEntry → AccountEntry
established entry = record entry { connected = true; backoff = initial_backoff; retry_count = 0 }

unfoldable pub close_connection : AccountEntry → AccountEntry
close_connection entry = record entry { connected = false }

-- What NewIdleConnection answers, and what the loop of `runAccount` does next.
pub data Attempt : Type 0 where
  connection idle_not_supported failed : Attempt

pub data Next : Type 0 where
  exit : Next
  wait : ℕ → Next
  forward : Next

-- One round of `runAccount` up to its wait or its events; the first argument says whether the
-- account is stopped or the pool is closing.
unfoldable pub run_round : Bool → Attempt → AccountEntry → AccountEntry × Next
unfolding close_connection handle_connection_error established
run_round true attempt entry = (close_connection entry, exit)
run_round false idle_not_supported entry = (entry, exit)
run_round false failed entry =
    let entry' = handle_connection_error entry in (entry', wait entry'.backoff)
run_round false connection entry = (established entry, forward)

-- After `forwardEvents` the loop begins again without a connection.
unfoldable pub connection_lost : AccountEntry → AccountEntry
connection_lost entry = record entry { connected = false }

-- `forwardEvents` looks whether the pool is closed, under the lock: whether it goes on to send.
abbrev pub may_send : IdlePool → Bool
may_send p = if p.closed then false else true

-- Its send, which is not under the lock; a send on a closed channel panics, which is `none`.
unfoldable pub send_event : IdleEvent → IdlePool → Option IdlePool
unfolding try_send
send_event event p =
    if p.events_closed then none else some (record p { events = try_send event p.events })
