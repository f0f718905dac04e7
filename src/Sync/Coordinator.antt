-- ===== src/Sync/Coordinator.antt =====
-- The coordinator (internal/sync/coordinator.go), over the ingestion pipeline. The outcome of a
-- call may depend on how many were made before it; those of the pipeline are counted in its world.
pub mod Watermarks
pub mod Batches
pub mod Membership
pub mod Accounts
use letterbox.Prelude.{
  ℕ, ◌+◌, Text, codes, text_eq, Bool, true, false, ◌&&◌, Option, none, some, List, [], ◌∷◌, ◌++◌,
  length, ltb, leb, take, ◌==◌, if◌then◌else◌,
}
use letterbox.Prelude.Maps.{Map, lookup, insert}
use letterbox.Domain.{Account, Email}
use letterbox.Ingest
use letterbox.Ingest.{
  AccountLookup, Result, ok, err, IngestError, email_already_exists, ingest_email,
}
use letterbox.Sync.{
  IdleEvent, new_message, expunge, IdleConfig, SyncError, already_closed, account_not_found,
  pool_closed,
}
use letterbox.Sync.Pool
use letterbox.Sync.Pool.{IdlePool, connected_accounts}
use letterbox.Sync.Poller
use letterbox.Sync.Poller.{Poller}

pub record Env : Type 0 where
  pub ingester : Ingest.Env
  -- uuid.Parse
  pub parse_uuid : Text → Option ℕ
  -- imap.FetchUIDsAfter, none being an error
  pub fetch_uids_after : ℕ → Account → Text → ℕ → Option (List ℕ)
  -- HasIdleCapability, none being an error
  pub has_idle_capability : ℕ → IdleConfig → Option Bool
  pub is_done : ℕ → Bool

-- `notified` holds the emails that the event handler was called with. The handler's panics are
-- recovered, so that a call never ends the loop.
pub record Coordinator : Type 0 where
  pub pool : IdlePool
  pub poller : Poller
  pub store : Ingest.World
  pub last_uids : Map ℕ
  pub notified : List Email
  pub closed : Bool

-- NewCoordinator, with the interval of the polls in seconds; the tables are the program's.
unfoldable pub new_coordinator : ℕ → Ingest.World → Coordinator
unfolding Poller.new_poller
new_coordinator poll_interval store = record {
  pool = Pool.new_idle_pool;
  poller = Poller.new_poller (if poll_interval == 0 then 60 else poll_interval);
  store = store;
  last_uids = [];
  notified = [];
  closed = false;
}

abbrev or_zero : Option ℕ → ℕ
or_zero none = 0
or_zero (some n) = n

-- c.lastUIDs[key], which is 0 for a missing key
unfoldable pub last_uid : Text → Coordinator → ℕ
last_uid key c = or_zero (lookup key c.last_uids)

abbrev pub uid_key : Text → Text → Text
uid_key account folder = account ++ b':' ∷ folder

abbrev pub tick : Coordinator → Coordinator
tick c = record c { store = Ingest.tick c.store }

module _ (env : Env) where
  -- What one ingestion does to lastSuccessUID and to the state.
  unfoldable pub ingested : ℕ → ℕ → Result Email × Ingest.World → Coordinator → ℕ × Coordinator
  ingested uid last (err email_already_exists, store) c = (uid, record c { store = store })
  ingested uid last (err _, store) c = (last, record c { store = store })
  ingested uid last (ok email, store) c =
      (uid, record c { store = store; notified = c.notified ++ email ∷ [] })

  -- The loop over the new UIDs, with lastSuccessUID; `none` for it is the return at a shutdown.
  unfoldable pub ingest_each : ℕ → Text → List ℕ → ℕ → Coordinator → Option ℕ × Coordinator
  unfolding ingested
  ingest_each account folder [] last c = (some last, c)
  ingest_each account folder (uid ∷ uids) last c =
      let (last', c') =
        ingested uid last (ingest_email env.ingester account folder uid (Ingest.tick c.store))
          (tick c) in
      let rest = ingest_each account folder uids last' c' in
      if env.is_done c.store.calls then (none, tick c) else rest

  -- The update of lastUIDs; 0 stands for no success.
  unfoldable pub advance : Text → Option ℕ × Coordinator → Coordinator
  unfolding last_uid
  advance key (none, c) = c
  advance key (some last, c) =
      if ltb 0 last && ltb (last_uid key c) last
      then record c { last_uids = insert key last c.last_uids }
      else c

  unfoldable pub with_uids : Text → ℕ → Text → Option (List ℕ) → Coordinator → Coordinator
  unfolding ingest_each advance
  with_uids key account folder none c = c
  with_uids key account folder (some []) c = c
  with_uids key account folder (some (uid ∷ uids)) c =
      advance key (ingest_each account folder (uid ∷ uids) 0 c)

  with_account : IdleEvent → ℕ → AccountLookup → Coordinator → Coordinator
  unfolding with_uids
  with_account event id AccountLookup.not_found c = c
  with_account event id AccountLookup.failed c = c
  with_account event id (AccountLookup.found account) c =
      let key = uid_key event.account_id event.folder in
      with_uids key id event.folder
        (env.fetch_uids_after c.store.calls account event.folder (last_uid key c)) (tick c)

  with_id : IdleEvent → Option ℕ → Coordinator → Coordinator
  unfolding with_account
  with_id event none c = c
  with_id event (some id) c =
      with_account event id (env.ingester.get_account c.store.calls id) (tick c)

  unfoldable pub handle_event : IdleEvent → Coordinator → Coordinator
  unfolding with_id
  handle_event event c = elim event.event_type [
    | expunge ↦ c
    | new_message ↦ with_id event (env.parse_uuid event.account_id) c
  ]

  -- The loops over the events of the pool and of the poller.
  unfoldable pub process_events : List IdleEvent → Coordinator → Coordinator
  unfolding handle_event
  process_events [] c = c
  process_events (event ∷ events) c = process_events events (handle_event event c)
