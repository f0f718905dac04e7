-- ===== src/Sync/Idle.antt =====
-- An IDLE connection (internal/sync/idle.go): its session with the server, over the calls of the
-- IMAP client, and the channel of its events. A panic is `none`.
pub mod Channels
pub mod Announcements
pub mod Sessions
mod Examples
use letterbox.Prelude.{
  ℕ, Text, Bool, true, false, Option, none, some, List, [], ◌∷◌, ◌++◌, length, ltb, if◌then◌else◌,
}
use letterbox.Net.{Fault, Result, ok, err, Trace, Program, call, on_failure, deferred, pure, raise}
use letterbox.Net
use letterbox.Imap
use letterbox.Imap.{
  Call, ImapError, login, close_client, logout, caps, select, idle, stop_idle, connection_failed,
  auth_failed, select_failed, raw, dial,
}
use letterbox.Sync.{
  IdleEvent, IdleConfig, SyncError, new_message, expunge, already_closed, validate, capacity,
}

-- A channel, with what was sent and not received yet.
pub record Channel : Type 0 where
  pub buffer : List IdleEvent
  pub shut : Bool

-- The fields that its methods change. `done` is whether ic.done was closed.
pub record IdleConnection : Type 0 where
  pub config : IdleConfig
  pub events : Channel
  pub closed : Bool
  pub done : Bool

abbrev pub new_connection : IdleConfig → IdleConnection
new_connection config = record {
  config = config;
  events = record { buffer = []; shut = false };
  closed = false;
  done = false;
}

-- A send with a default: dropped where the buffer is full. A send on a closed channel panics.
unfoldable pub try_send : IdleEvent → Channel → Option Channel
try_send event ch =
    if ch.shut
    then none
    else if ltb (length ch.buffer) capacity
    then some (record ch { buffer = ch.buffer ++ event ∷ [] })
    else some ch

-- close(ch), which panics on a closed channel.
unfoldable pub close_channel : Channel → Option Channel
close_channel ch = if ch.shut then none else some (record ch { shut = true })

abbrev with_events : IdleConnection → Option Channel → Option IdleConnection
with_events ic none = none
with_events ic (some ch) = some (record ic { events = ch })

unfoldable pub emit : IdleEvent → IdleConnection → Option IdleConnection
unfolding try_send
emit event ic = if ic.closed then some ic else with_events ic (try_send event ic.events)

unfoldable pub handle_mailbox_update : Option ℕ → IdleConnection → Option IdleConnection
unfolding emit
handle_mailbox_update none ic = some ic
handle_mailbox_update (some n) ic =
    emit
      (record {
        event_type = new_message;
        account_id = ic.config.account_id;
        folder = ic.config.folder;
        num_messages = some n;
        seq_num = 0;
      })
      ic

unfoldable pub handle_expunge : ℕ → IdleConnection → Option IdleConnection
unfolding emit
handle_expunge seq_num ic =
    emit
      (record {
        event_type = expunge;
        account_id = ic.config.account_id;
        folder = ic.config.folder;
        num_messages = none;
        seq_num = seq_num;
      })
      ic

abbrev closing : IdleConnection → Option Channel → Option IdleConnection
closing ic none = none
closing ic (some ch) =
    if ic.done then none else some (record ic { events = ch; closed = true; done = true })

-- What Close does under the lock; its error, and whether it goes on to close the session.
unfoldable pub mark_closed : IdleConnection → Option (Option SyncError × IdleConnection)
unfolding close_channel
mark_closed ic =
    if ic.closed
    then some (some already_closed, ic)
    else elim (closing ic (close_channel ic.events)) [ none ↦ none | some ic' ↦ some (none, ic') ]

abbrev pub received_from : IdleConnection → List IdleEvent → Option IdleEvent × IdleConnection
received_from ic [] = (none, ic)
received_from ic (event ∷ rest) =
    (some event, record ic { events = record ic.events { buffer = rest } })

-- A receive from the channel, by the pool: none where there is nothing to receive.
unfoldable pub receive : IdleConnection → Option IdleEvent × IdleConnection
receive ic = received_from ic ic.events.buffer

-- The errors of the connection's session.
pub data IdleError : Type 0 where
  invalid : SyncError → IdleError
  failed : ImapError → IdleError
  caps_failed idle_not_supported idle_failed : IdleError

module _ (env : Imap.Env) where
  abbrev lift : {A : Type 0} → (ImapError → IdleError) → Result ImapError A → Result IdleError A
  lift wrap (ok a) = ok a
  lift wrap (err e) = err (wrap e)

  -- An IMAP client's program, with its errors wrapped.
  abbrev lifted :
      {A : Type 0} → (ImapError → IdleError) → Program Call ImapError A → Program Call IdleError A
  lifted wrap m w = let (r, w') = m w in (lift wrap r, w')

  abbrev quietly : Call → Program Call IdleError Unit
  quietly c w = (ok tt, Imap.quietly env.fails c w)

  abbrev error_of : Call → Option Fault → List Call → List Call
  error_of c none rest = rest
  error_of c (some _) rest = c ∷ rest

  infixl 5 ◌>>=◌ ◌>>◌
  abbrev ◌>>=◌ :
      {A B : Type 0}
      → Program Call IdleError A
      → (A → Program Call IdleError B)
      → Program Call IdleError B
  ◌>>=◌ = Net.◌>>=◌

  abbrev ◌>>◌ :
      {A B : Type 0}
      → Program Call IdleError A
      → Program Call IdleError B
      → Program Call IdleError B
  m >> n = m >>= λ _. n

  -- Log out and close where the program fails.
  abbrev or_log_out : {A : Type 0} → Program Call IdleError A → Program Call IdleError A
  or_log_out m = on_failure close_client (on_failure logout m)

  -- The capabilities of Caps by the calls made before: none for nil, or whether IDLE is among them.
  module _ (capabilities : Trace Call → Option Bool) where
    abbrev has_idle : Option Bool → Program Call IdleError Unit
    has_idle none = raise caps_failed
    has_idle (some false) = raise idle_not_supported
    has_idle (some true) = pure tt

    abbrev has_cap : Option Bool → Program Call IdleError Bool
    has_cap none = raise caps_failed
    has_cap (some b) = pure b

    abbrev check_caps : Program Call IdleError Unit
    check_caps w = has_idle (capabilities w) ((caps, true) ∷ w)

    unfoldable pub connect : IdleConfig → Program Call IdleError Unit
    unfolding Net.◌>>=◌ dial call on_failure raise
    connect config =
        lifted (λ _. failed connection_failed) (dial env config.host config.port)
        >> on_failure close_client
            (call env.fails (λ _. failed auth_failed) (login config.username config.password))
        >> or_log_out (
            check_caps
            >> call env.fails (λ _. failed select_failed) (select config.folder)
            >> call env.fails (λ _. idle_failed) idle)

    unfoldable pub new_idle_connection : IdleConfig → Program Call IdleError IdleConnection
    unfolding Net.◌>>=◌ connect raise pure validate
    new_idle_connection config = elim (validate config) [
      | some e ↦ raise (invalid e)
      | none ↦ connect config >> pure (new_connection config)
    ]

    -- `defer client.Logout().Wait()` sends LOGOUT where it stands, and waits for it in the end.
    unfoldable pub has_idle_capability : IdleConfig → Program Call IdleError Bool
    unfolding Net.◌>>=◌ dial call deferred raise pure
    has_idle_capability config =
        lifted (λ _. failed connection_failed) (dial env config.host config.port)
        >> deferred close_client (
            call env.fails (λ _. failed auth_failed) (login config.username config.password)
            >> quietly logout
            >> λ w. has_cap (capabilities w) ((caps, true) ∷ w))

  -- The calls of Close that failed, which it reports.
  unfoldable pub close_session : Trace Call → List Call × Trace Call
  close_session w =
      let stopped = Imap.quietly env.fails stop_idle w in
      let left = Imap.quietly env.fails logout stopped in
      (
        error_of stop_idle (env.fails w stop_idle) (
            error_of logout (env.fails stopped logout)
              (error_of close_client (env.fails left close_client) [])),
        Imap.quietly env.fails close_client left,
      )
