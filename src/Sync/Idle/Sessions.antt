-- ===== src/Sync/Idle/Sessions.antt =====
-- The sessions of an IDLE connection (internal/sync/idle.go), against the automaton of IMAP.
use letterbox.Prelude.{◌≡◌, refl, Bool, Option, some, none, arith}
use letterbox.Net
use letterbox.Net.{Result, ok, err, Trace, Program, pure, raise, call, on_failure, deferred}
use letterbox.Net.Runs.{replay, Runs}
use letterbox.Imap
use letterbox.Imap.{Call, login, dial, dial_implicit_tls, dial_start_tls}
use letterbox.Imap.Sessions.{Session, offline, idling, accept, dial-IsDialled}
use letterbox.Sync.{IdleConfig}
use letterbox.Sync.Idle.{
  IdleError, connect, new_idle_connection, has_idle_capability, close_session,
}

-- In IDLE after success, and without a connection after an error.
abbrev pub IsIdling : {A : Type 0} → Result IdleError A → Option Session → Type 0
IsIdling (ok _) o = o ≡ some idling
IsIdling (err _) o = o ≡ some offline

module _ (env : Imap.Env) (capabilities : Trace Call → Option Bool) where
  abbrev Does :
      {A : Type 0}
      → Program Call IdleError A
      → Session
      → (Result IdleError A → Option Session → Type 0)
      → Type 0
  Does = Runs offline accept

  connect-IsIdling : (config : IdleConfig) → Does (connect env capabilities config) offline IsIdling
  unfolding connect call on_failure Net.◌>>=◌ raise pure
  connect-IsIdling config w here = ground (arith, dial-IsDialled env config.host config.port w here)

  -- From no connection, NewIdleConnection keeps to the protocol whichever calls fail: it ends in
  -- IDLE, on a folder selected over TLS, or with an error and no connection. From IDLE, Close ends
  -- with no connection whichever of its calls fail.
  pub new_idle_connection-IsIdling :
      (config : IdleConfig) (w w' : Trace Call)
      → replay offline accept w ≡ some offline
      → replay offline accept w' ≡ some idling
      → (let r = new_idle_connection env capabilities config w in
          IsIdling r.0 (replay offline accept r.1))
        × (replay offline accept (close_session env w').1 ≡ some offline)
  unfolding new_idle_connection close_session Net.◌>>=◌ raise pure
  new_idle_connection-IsIdling config w w' here there =
      (ground (arith, connect-IsIdling config w here), rw there refl)

  -- HasIdleCapability sends LOGOUT before it asks for the capabilities: from no connection, where
  -- it connects and logs in, its calls break the protocol, which asks nothing after LOGOUT.
  pub has_idle_capability-breaks :
      (config : IdleConfig) (w : Trace Call)
      → replay offline accept w ≡ some offline
      → (dial env config.host config.port w).0 ≡ ok tt
      → env.fails (dial env config.host config.port w).1 (login config.username config.password)
        ≡ none
      → replay offline accept (has_idle_capability env capabilities config w).1 ≡ none
  unfolding has_idle_capability call deferred Net.◌>>=◌ raise pure
  has_idle_capability-breaks config w here dialled entered =
      ground (arith, dial-IsDialled env config.host config.port w here)
