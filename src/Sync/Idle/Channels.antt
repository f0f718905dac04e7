-- ===== src/Sync/Idle/Channels.antt =====
-- The channel of an IDLE connection's events, as the server's announcements, the pool's receives
-- and Close interleave (internal/sync/idle.go). Each holds the mutex, so they are steps.
use letterbox.Prelude.{
  ℕ, ◌≤◌, ◌≡◌, refl, ap, Option, none, some, List, [], ◌∷◌, length, length-append, All, All-append,
  Returns, arith, ◌>>=◌, Returns-bind,
}
use letterbox.Sync.{IdleEvent, IdleConfig, SyncError, capacity}
use letterbox.Sync.Idle.{
  IdleConnection, new_connection, try_send, close_channel, emit, handle_mailbox_update,
  handle_expunge, mark_closed, receive, received_from,
}

-- What can happen to a connection.
pub data Step : Type 0 where
  exists : Option ℕ → Step
  expunged : ℕ → Step
  received closes : Step

abbrev pub after : Option (Option SyncError × IdleConnection) → Option IdleConnection
after none = none
after (some (e, ic)) = some ic

abbrev pub step : Step → IdleConnection → Option IdleConnection
step (exists n) ic = handle_mailbox_update n ic
step (expunged seq_num) ic = handle_expunge seq_num ic
step received ic = some (receive ic).1
step closes ic = after (mark_closed ic)

abbrev pub run : List Step → IdleConnection → Option IdleConnection
run [] ic = some ic
run (s ∷ steps) ic = step s ic >>= run steps

-- The event is for the account and the folder of the connection.
abbrev pub IsOwn : IdleConfig → IdleEvent → Type 0
IsOwn config event = (event.account_id ≡ config.account_id) × (event.folder ≡ config.folder)

pub record IsSound (config : IdleConfig) (ic : IdleConnection) : Type 0 where
  pub same : ic.config ≡ config
  pub shut : ic.events.shut ≡ ic.closed
  pub done : ic.done ≡ ic.closed
  pub fits : length ic.events.buffer ≤ capacity
  pub own : All (IsOwn config) ic.events.buffer

emit-IsSound :
    (config : IdleConfig) (event : IdleEvent) (ic : IdleConnection)
    → IsOwn config event
    → IsSound config ic
    → Returns (IsSound config) (emit event ic)
unfolding emit try_send
emit-IsSound config event ic own h = ground (
  arith,
  length-append ic.events.buffer (event ∷ []),
  All-append (IsOwn config) ic.events.buffer (event ∷ []) h.own (own, tt),
)

received_from-IsSound :
    (config : IdleConfig) (ic : IdleConnection) (buffer : List IdleEvent)
    → length buffer ≤ capacity
    → All (IsOwn config) buffer
    → IsSound config ic
    → IsSound config (received_from ic buffer).1
received_from-IsSound config ic [] fits own h = h
received_from-IsSound config ic (event ∷ rest) fits own h = record {
  same = h.same;
  shut = h.shut;
  done = h.done;
  fits = omega (arith, fits);
  own = own.1;
}

receive-IsSound :
    (config : IdleConfig) (ic : IdleConnection) → IsSound config ic → IsSound config (receive ic).1
unfolding receive
receive-IsSound config ic h = received_from-IsSound config ic ic.events.buffer h.fits h.own h

step-IsSound :
    (config : IdleConfig) (s : Step) (ic : IdleConnection)
    → IsSound config ic
    → Returns (IsSound config) (step s ic)
unfolding handle_mailbox_update handle_expunge mark_closed close_channel
step-IsSound config (exists none) ic h = h
step-IsSound config (exists (some n)) ic h =
    emit-IsSound config _ ic (ap (λ c. c.account_id) h.same, ap (λ c. c.folder) h.same) h
step-IsSound config (expunged seq_num) ic h =
    emit-IsSound config _ ic (ap (λ c. c.account_id) h.same, ap (λ c. c.folder) h.same) h
step-IsSound config received ic h = receive-IsSound config ic h
step-IsSound config closes ic h = ground (arith, h)

run-IsSound :
    (config : IdleConfig) (steps : List Step) (ic : IdleConnection)
    → IsSound config ic
    → Returns (IsSound config) (run steps ic)
run-IsSound config [] ic h = h
run-IsSound config (s ∷ steps) ic h =
    Returns-bind (IsSound config) (IsSound config) (step s ic) (run steps)
      (step-IsSound config s ic h) (λ ic' h'. run-IsSound config steps ic' h')

-- No order of announcements, receives and calls of Close makes a connection panic: there is no
-- send on its closed channel, and neither channel is closed twice. At most 100 events wait at any
-- time, all of them for the connection's account and folder.
pub run-new_connection :
    (config : IdleConfig) (steps : List Step)
    → Returns (IsSound config) (run steps (new_connection config))
run-new_connection config steps =
    run-IsSound config steps (new_connection config)
      (record { same = refl; shut = refl; done = refl; fits = omega arith; own = tt })
