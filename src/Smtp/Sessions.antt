-- ===== src/Smtp/Sessions.antt =====
-- The order of the calls that the SMTP client makes (internal/smtp/client.go), against the automaton.
use letterbox.Prelude.{
  none, ◌⊎◌, inl, inr, ◌≡◌, refl, ap, Text, true, Option, some, List, [], ◌∷◌, ◌++◌, append_assoc,
  arith, ◌>>=◌,
}
use letterbox.Prelude.Int.{ℤ}
use mathlib.Core.List.{append-nil}
use letterbox.Net
use letterbox.Net.{
  Fault, Result, ok, err, Program, pure, raise, call, on_failure, deferred, map_error, continue,
  with_error, Trace,
}
use letterbox.Net.Runs.{replay, Runs}
use letterbox.Smtp.{
  Config, Call, dial_tcp, close_client, mail, rcpt, SmtpError, Env, classify_error,
  dial_implicit_tls, dial_start_tls, dial, select_auth, authenticate, quit_quietly, test_connection,
  rcpt_all, transfer, send_to, send_email,
}
use letterbox.Smtp.Automaton.{
  Mail, Log, Session, idle, connected, closing, ready, envelope, Credentials, State, logged_in,
  took, unanswered, user_of, accept, IsSentinel, classify_error-IsSentinel,
}

-- The program's postcondition: on success the session is as given, on failure it is closed.
abbrev Reaches : {A : Type 0} → State → Result SmtpError A → Option State → Type 0
Reaches s (ok a) o = o ≡ some s
Reaches s (err e) o = (o ≡ some (idle, s.1))

abbrev IsReached : State → Result SmtpError Unit → Option State → Type 0
IsReached s (ok _) o = o ≡ some s
IsReached s (err e) o = IsSentinel e × (o ≡ some (idle, s.1))

-- A session that closing the client ends, with what the server took.
abbrev Ends : Log → Option State → Type 0
Ends d o = (s : Session) × (o ≡ some (s, d)) × (accept close_client true (s, d) ≡ some (idle, d))

-- The session has the user, or it failed and no credentials were taken.
abbrev IsHeld : Option Credentials → Log → Result SmtpError Unit → Option State → Type 0
IsHeld u d (ok _) o = o ≡ some (ready u, logged_in u d)
IsHeld u d (err e) o = IsSentinel e × Ends d o

abbrev IsDone : Mail → Log → Result SmtpError Unit → Option State → Type 0
IsDone m d (ok _) o = o ≡ some (closing, took m d)
IsDone m d (err e) o = IsSentinel e × (Ends d o ⊎ (o ≡ some (closing, unanswered m d)))

abbrev IsAccepted :
    Option Credentials → Text → List Text → Log → Result SmtpError Unit → Option State → Type 0
IsAccepted u sender to d (ok _) o = o ≡ some (envelope u sender to, d)
IsAccepted u sender to d (err e) o =
    IsSentinel e × ((to' : List Text) × (o ≡ some (envelope u sender to', d)))

-- No mail was taken, unless it is the one whose data was sent to the end without an answer that it
-- was.
pub record IsUntaken (m : Mail) (before after : Log) : Type 0 where
  pub taken_eq : after.taken ≡ before.taken
  pub perhaps_eq : (after.perhaps ≡ before.perhaps) ⊎ (after.perhaps ≡ before.perhaps ++ m ∷ [])

-- On success the server took the credentials, if there are any, and then the mail; on an error,
-- which is one of the package's, it took no mail. The connection is closed.
abbrev pub IsDelivered : Mail → Log → Result SmtpError Unit → Option State → Type 0
IsDelivered m d (ok _) o = o ≡ some (idle, took m (logged_in m.user d))
IsDelivered m d (err e) o =
    IsSentinel e × ((after : Log) × (o ≡ some (idle, after)) × IsUntaken m d after)

-- The credentials were taken, if there are any; no mail was, and the connection is closed.
abbrev pub IsTested : Option Credentials → Log → Result SmtpError Unit → Option State → Type 0
IsTested u d (ok _) o = o ≡ some (idle, logged_in u d)
IsTested u d (err e) o = IsSentinel e × (o ≡ some (idle, d))

classified :
    (d0 : Log) (s : State) (r : Result SmtpError Unit) (w : Trace Call)
    → Reaches s r (replay (idle, d0) accept w)
    → let m = with_error classify_error r w in IsReached s m.0 (replay (idle, d0) accept m.1)
classified d0 s (ok _) w h = h
classified d0 s (err e) w h = (classify_error-IsSentinel e, h)

logged_in-taken : (u : Option Credentials) (d : Log) → (logged_in u d).taken ≡ d.taken
logged_in-taken none d = refl
logged_in-taken (some c) d = refl

logged_in-perhaps : (u : Option Credentials) (d : Log) → (logged_in u d).perhaps ≡ d.perhaps
logged_in-perhaps none d = refl
logged_in-perhaps (some c) d = refl

-- The mail that SendEmail is to deliver.
abbrev pub mail_to_send : Config → Text → List Text → Text → Mail
mail_to_send cfg sender to message = record {
  user = user_of cfg.username cfg.password;
  sender = sender;
  recipients = to;
  message = message;
}

module _ (env : Env) (d0 : Log) where
  abbrev Does :
      {A : Type 0}
      → Program Call SmtpError A
      → State
      → (Result SmtpError A → Option State → Type 0)
      → Type 0
  Does = Runs (idle, d0) accept

  dial_implicit_tls-Reaches :
      (host : Text) (d : Log)
      → Does (dial_implicit_tls env host) (connected, d) (Reaches (ready none, d))
  unfolding dial_implicit_tls call on_failure Net.◌>>=◌
  dial_implicit_tls-Reaches host d w here = ground arith

  dial_start_tls-Reaches :
      (host : Text) (d : Log)
      → Does (dial_start_tls env host) (connected, d) (Reaches (ready none, d))
  unfolding dial_start_tls call on_failure Net.◌>>=◌ raise
  dial_start_tls-Reaches host d w here = ground arith

  dial-Reaches :
      (host : Text) (port : ℤ) (d : Log)
      → Does (dial env host port) (idle, d) (Reaches (ready none, d))
  unfolding dial call Net.◌>>=◌
  dial-Reaches host port d w here = ground (
    arith,
    dial_implicit_tls-Reaches host d ((dial_tcp host port, true) ∷ w),
    dial_start_tls-Reaches host d ((dial_tcp host port, true) ∷ w),
  )

  dialled-IsSentinel :
      (host : Text) (port : ℤ) (d : Log)
      → Does (map_error classify_error (dial env host port)) (idle, d) (IsReached (ready none, d))
  unfolding map_error
  dialled-IsSentinel host port d w here =
      let r = dial env host port w in
      classified d0 (ready none, d) r.0 r.1 (dial-Reaches host port d w here)

  authenticate-IsHeld :
      (host username password : Text) (d : Log)
      → Does
          (authenticate env host username password)
          (ready none, d)
          (IsHeld (user_of username password) d)
  unfolding authenticate select_auth call Net.◌>>=◌ raise pure
  authenticate-IsHeld host [] [] d w here = here
  authenticate-IsHeld host [] (c ∷ password) d w here = ground arith
  authenticate-IsHeld host (c ∷ username) password d w here = ground arith

  rcpt_all-IsAccepted :
      (u : Option Credentials) (to before : List Text) (sender : Text) (d : Log)
      → Does (rcpt_all env to) (envelope u sender before, d) (IsAccepted u sender (before ++ to) d)
  unfolding rcpt_all call Net.◌>>=◌ pure
  rcpt_all-IsAccepted u [] before sender d w here = rw append-nil here
  rcpt_all-IsAccepted u (addr ∷ to) before sender d w here = ground (
    arith,
    rcpt_all-IsAccepted u to (before ++ addr ∷ []) sender d ((rcpt addr, true) ∷ w),
    append_assoc before (addr ∷ []) to,
  )

  transfer-IsDone :
      (u : Option Credentials) (sender addr : Text) (to : List Text) (message : Text) (d : Log)
      → Does
          (transfer env sender (addr ∷ to) message)
          (ready u, d)
          (IsDone
            (record { user = u; sender = sender; recipients = addr ∷ to; message = message })
            d)
  unfolding transfer call Net.◌>>=◌ rcpt_all quit_quietly
  transfer-IsDone u sender addr to message d w here = ground (
    arith,
    rcpt_all-IsAccepted u to (addr ∷ []) sender d ((rcpt addr, true) ∷ (mail sender, true) ∷ w),
  )

  ended :
      (d : Log) (o : Option State) → Ends d o → (o >>= accept close_client true) ≡ some (idle, d)
  ended d o (s, there, ends) = rw there ends

  closed-IsDelivered :
      (m : Mail) (d : Log) (r : Result SmtpError Unit) (o : Option State)
      → IsDone m (logged_in m.user d) r o
      → IsDelivered m d r (o >>= accept close_client true)
  closed-IsDelivered m d (ok _) o h = rw h refl
  closed-IsDelivered m d (err e) o (known, inl left) = (
    known,
    (
      logged_in m.user d,
      ended (logged_in m.user d) o left,
      record { taken_eq = logged_in-taken m.user d; perhaps_eq = inl (logged_in-perhaps m.user d) },
    ),
  )
  closed-IsDelivered m d (err e) o (known, inr there) = (
    known,
    (
      unanswered m (logged_in m.user d),
      rw there refl,
      record {
        taken_eq = logged_in-taken m.user d;
        perhaps_eq = inr (ap (λ ms. ms ++ m ∷ []) (logged_in-perhaps m.user d));
      },
    ),
  )

  untaken : (m : Mail) (d : Log) → IsUntaken m d d
  untaken m d = record { taken_eq = refl; perhaps_eq = inl refl }

  transferred :
      (u : Option Credentials) (sender addr : Text) (to : List Text) (message : Text) (d : Log)
      (a : Result SmtpError Unit) (w : Trace Call)
      → IsHeld u d a (replay (idle, d0) accept w)
      → let r = continue a (λ _. transfer env sender (addr ∷ to) message) w in
        IsDelivered
          (record { user = u; sender = sender; recipients = addr ∷ to; message = message })
          d
          r.0
          (replay (idle, d0) accept ((close_client, true) ∷ r.1))
  transferred u sender addr to message d (ok _) w h =
      let r = transfer env sender (addr ∷ to) message w in
      closed-IsDelivered _ d r.0 (replay (idle, d0) accept r.1)
        (transfer-IsDone u sender addr to message (logged_in u d) w h)
  transferred u sender addr to message d (err e) w (known, left) =
      (known, (d, ended d (replay (idle, d0) accept w) left, untaken _ d))

  sent :
      (cfg : Config) (sender addr : Text) (to : List Text) (message : Text) (d : Log)
      (r : Result SmtpError Unit) (w : Trace Call)
      → IsReached (ready none, d) r (replay (idle, d0) accept w)
      → let m =
          continue r
            (λ _. deferred close_client (
              Net.◌>>=◌
                (authenticate env cfg.host cfg.username cfg.password)
                (λ _. transfer env sender (addr ∷ to) message)))
            w in
        IsDelivered
          (mail_to_send cfg sender (addr ∷ to) message)
          d
          m.0
          (replay (idle, d0) accept m.1)
  unfolding deferred Net.◌>>=◌
  sent cfg sender addr to message d (ok _) w h =
      let a = authenticate env cfg.host cfg.username cfg.password w in
      transferred (user_of cfg.username cfg.password) sender addr to message d a.0 a.1
        (authenticate-IsHeld cfg.host cfg.username cfg.password d w h)
  sent cfg sender addr to message d (err e) w (known, there) = (known, (d, there, untaken _ d))

  -- From no connection, SendEmail keeps to the protocol whichever calls fail: credentials
  -- and mail go over TLS alone, DATA follows an accepted recipient, after a failed AUTH or QUIT
  -- nothing but Close follows, and the connection is closed in the end. If it succeeds, the server
  -- took the credentials of the configuration, unless both are empty, and then one mail, in the
  -- session of that user, from the sender and for all the recipients in order. Otherwise the error
  -- is one of the package's own, and the server answered for no mail as taken; only where the data
  -- of this mail was sent to the end and the answer failed, it may have taken it.
  pub send_email-IsDelivered :
      (cfg : Config) (sender : Text) (to : List Text) (message : Text) (d : Log) (w : Trace Call)
      → replay (idle, d0) accept w ≡ some (idle, d)
      → let r = send_email env cfg sender to message w in
        IsDelivered (mail_to_send cfg sender to message) d r.0 (replay (idle, d0) accept r.1)
  unfolding send_email send_to raise Net.◌>>=◌
  send_email-IsDelivered cfg sender [] message d w here = (tt, (d, here, untaken _ d))
  send_email-IsDelivered cfg sender (addr ∷ to) message d w here =
      let r = map_error classify_error (dial env cfg.host cfg.port) w in
      sent cfg sender addr to message d r.0 r.1 (dialled-IsSentinel cfg.host cfg.port d w here)

  authenticated :
      (u : Option Credentials) (d : Log) (a : Result SmtpError Unit) (w : Trace Call)
      → IsHeld u d a (replay (idle, d0) accept w)
      → let m = continue a (λ _. quit_quietly env) w in
        IsTested u d m.0 (replay (idle, d0) accept ((close_client, true) ∷ m.1))
  unfolding quit_quietly
  authenticated u d (ok _) w h = rw h refl
  authenticated u d (err e) w (known, left) = (known, ended d (replay (idle, d0) accept w) left)

  tested :
      (host username password : Text) (d : Log) (r : Result SmtpError Unit) (w : Trace Call)
      → IsReached (ready none, d) r (replay (idle, d0) accept w)
      → let m =
          continue r
            (λ _.
              deferred close_client
                (Net.◌>>=◌ (authenticate env host username password) (λ _. quit_quietly env)))
            w in
        IsTested (user_of username password) d m.0 (replay (idle, d0) accept m.1)
  unfolding deferred Net.◌>>=◌
  tested host username password d (ok _) w h =
      let a = authenticate env host username password w in
      authenticated (user_of username password) d a.0 a.1
        (authenticate-IsHeld host username password d w h)
  tested host username password d (err e) w h = h

  -- From no connection, TestConnection keeps to the same protocol whichever calls fail, closes its
  -- connection, and sends no mail. If it succeeds, the server took the credentials, unless both are
  -- empty; otherwise its error is one of the package's own.
  pub test_connection-IsTested :
      (host : Text) (port : ℤ) (username password : Text) (d : Log) (w : Trace Call)
      → replay (idle, d0) accept w ≡ some (idle, d)
      → let r = test_connection env host port username password w in
        IsTested (user_of username password) d r.0 (replay (idle, d0) accept r.1)
  unfolding test_connection Net.◌>>=◌
  test_connection-IsTested host port username password d w here =
      let r = map_error classify_error (dial env host port) w in
      tested host username password d r.0 r.1 (dialled-IsSentinel host port d w here)
