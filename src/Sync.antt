-- ===== src/Sync.antt =====
-- Synchronisation (internal/sync): what the IDLE pool, the poller and the coordinator share.
pub mod Idle
pub mod Pool
pub mod Poller
pub mod Coordinator
mod Examples
use letterbox.Prelude.{
  ℕ, Text, is_empty, Bool, true, false, Option, none, some, List, [], ◌∷◌, ◌++◌, length, ltb, not,
  if◌then◌else◌,
}
use letterbox.Prelude.Int.{ℤ, is_positive}

pub data EventType : Type 0 where
  new_message expunge : EventType

pub record IdleEvent : Type 0 where
  pub event_type : EventType
  pub account_id : Text
  pub folder : Text
  pub num_messages : Option ℕ
  pub seq_num : ℕ

pub record IdleConfig : Type 0 where
  pub account_id : Text
  pub host : Text
  pub port : ℤ
  pub username : Text
  pub password : Text
  pub folder : Text

pub data SyncError : Type 0 where
  account_id_required host_required port_must_be_positive : SyncError
  username_required password_required folder_required : SyncError
  pool_closed poller_closed already_closed account_exists account_not_found : SyncError

-- The error of `IdleConfig.validate`, nil being `none`.
unfoldable pub validate : IdleConfig → Option SyncError
validate c =
    if is_empty c.account_id
    then some account_id_required
    else if is_empty c.host
    then some host_required
    else if not (is_positive c.port)
    then some port_must_be_positive
    else if is_empty c.username
    then some username_required
    else if is_empty c.password
    then some password_required
    else if is_empty c.folder
    then some folder_required
    else none

-- The buffer of the channels of events.
abbrev pub capacity : ℕ
capacity = 100

-- A send that is dropped where the buffer is full.
unfoldable pub try_send : IdleEvent → List IdleEvent → List IdleEvent
try_send event events = if ltb (length events) capacity then events ++ event ∷ [] else events
