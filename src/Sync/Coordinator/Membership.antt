-- ===== src/Sync/Coordinator/Membership.antt =====
-- The accounts of the coordinator (internal/sync/coordinator.go): how they are added and removed,
-- its end, and its statistics.
use letterbox.Prelude.{
  ℕ, Text, codes, text_eq, Bool, true, false, Option, none, some, List, [], ◌∷◌, ◌++◌, length, take,
  if◌then◌else◌,
}
use letterbox.Prelude.Maps.{Map}
use letterbox.Domain.{Account}
use letterbox.Ingest.{AccountLookup}
use letterbox.Sync.{IdleConfig, SyncError, already_closed}
use letterbox.Sync.Pool
use letterbox.Sync.Pool.{connected_accounts}
use letterbox.Sync.Poller
use letterbox.Sync.Coordinator.{Env, Coordinator, tick}

abbrev pub key_has_prefix : Text → Text → Bool
key_has_prefix prefix key = text_eq (take (length prefix) key) prefix

-- The keys of an account's folders are dropped.
unfoldable pub drop_uids : Text → Map ℕ → Map ℕ
drop_uids prefix [] = []
drop_uids prefix ((key, uid) ∷ m) =
    let rest = drop_uids prefix m in if key_has_prefix prefix key then rest else (key, uid) ∷ rest

pub data CoordinatorError : Type 0 where
  coordinator_closed account_missing getting_account : CoordinatorError
  sync_error : SyncError → CoordinatorError

abbrev wrapped : {S : Type 0} → Option SyncError × S → Option CoordinatorError × S
wrapped (none, s) = (none, s)
wrapped (some e, s) = (some (sync_error e), s)

unfoldable pub to_pool : IdleConfig → Coordinator → Option CoordinatorError × Coordinator
to_pool config c =
    let (e, pool) = wrapped (Pool.add_account config c.pool) in (e, record c { pool = pool })

unfoldable pub to_poller : IdleConfig → Coordinator → Option CoordinatorError × Coordinator
to_poller config c =
    let (e, poller) = wrapped (Poller.add_account config c.poller) in
    (e, record c { poller = poller })

-- IDLE where the server supports it, and polling where it does not or the check fails.
by_capability : IdleConfig → Option Bool → Coordinator → Option CoordinatorError × Coordinator
unfolding to_pool to_poller
by_capability config (some true) c = to_pool config c
by_capability config (some false) c = to_poller config c
by_capability config none c = to_poller config c

abbrev pub idle_config : Text → Account → IdleConfig
idle_config id account = record {
  account_id = id;
  host = account.imap_host;
  port = account.imap_port;
  username = account.imap_user;
  password = account.imap_password;
  folder = codes "INBOX";
}

module _ (env : Env) where
  add_found : ℕ → AccountLookup → Coordinator → Option CoordinatorError × Coordinator
  unfolding by_capability
  add_found id AccountLookup.not_found c = (some account_missing, c)
  add_found id AccountLookup.failed c = (some getting_account, c)
  add_found id (AccountLookup.found account) c =
      let config = idle_config (env.ingester.uuid_string id) account in
      by_capability config (env.has_idle_capability c.store.calls config) (tick c)

  unfoldable pub add_account : ℕ → Coordinator → Option CoordinatorError × Coordinator
  unfolding add_found
  add_account id c =
      if c.closed
      then (some coordinator_closed, c)
      else add_found id (env.ingester.get_account c.store.calls id) (tick c)

abbrev errors_of : Option SyncError → List CoordinatorError
errors_of none = []
errors_of (some e) = sync_error e ∷ []

-- The errors of closing the pool and the poller are joined; none stands for no error.
unfoldable pub close : Coordinator → List CoordinatorError × Coordinator
close c = if c.closed then (sync_error already_closed ∷ [], c) else (
  errors_of (Pool.close c.pool).0 ++ errors_of (Poller.close c.poller).0,
  record c { closed = true; pool = (Pool.close c.pool).1; poller = (Poller.close c.poller).1 },
)

-- The error of `RemoveAccount` from those of the pool and of the poller: where both fail it is the
-- pool's, also where both are `account_not_found`.
unfoldable pub remove_error : Option SyncError → Option SyncError → Option CoordinatorError
remove_error none _ = none
remove_error (some e) none = none
remove_error (some e) (some e') = some (sync_error e)

unfoldable pub remove_account : Text → Coordinator → Option CoordinatorError × Coordinator
unfolding drop_uids remove_error
remove_account id c = if c.closed then (some coordinator_closed, c) else (
  remove_error (Pool.remove_account id c.pool).0 (Poller.remove_account id c.poller).0,
  record c {
    pool = (Pool.remove_account id c.pool).1;
    poller = (Poller.remove_account id c.poller).1;
    last_uids = drop_uids (id ++ b':' ∷ []) c.last_uids;
  },
)

pub record CoordinatorStats : Type 0 where
  pub idle_accounts : ℕ
  pub polled_accounts : ℕ
  pub connected_idle : ℕ

unfoldable pub stats : Coordinator → CoordinatorStats
stats c = record {
  idle_accounts = Pool.total_accounts c.pool;
  polled_accounts = Poller.total_accounts c.poller;
  connected_idle = connected_accounts c.pool;
}
