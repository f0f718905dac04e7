-- ===== src/Smtp.antt =====
-- The SMTP client (internal/smtp/client.go) over the packages net, crypto/tls and net/smtp, whose
-- calls succeed or fail as `Env` says. A deadline is an error of the call that it interrupts.
pub mod Automaton
pub mod Sessions
pub mod Login
mod Examples
use letterbox.Prelude.{
  Text, codes, is_empty, Bool, true, false, ◌&&◌, Option, none, some, List, [], ◌∷◌, ◌==◌,
  if◌then◌else◌, all, text_eq, take, length,
}
use letterbox.Prelude.Int.{ℤ, pos, negsuc}
use letterbox.Net.{
  Fault, Result, ok, Trace, Program, call, on_failure, deferred, map_error, pure, raise, ◌>>=◌,
  ◌>>◌,
}

pub record Config : Type 0 where
  pub host : Text
  pub port : ℤ
  pub username : Text
  pub password : Text

-- smtp.PlainAuth, for a host, and the program's own loginAuth
pub data Auth : Type 0 where
  plain_auth : Text → Text → Text → Auth
  login_auth : Text → Text → Auth

-- What the program asks of the libraries. `close_conn` is Close of the connection below the client
-- (net or TLS), `close_client` that of the client.
pub data Call : Type 0 where
  dial_tcp : Text → ℤ → Call
  handshake start_tls : Text → Call
  new_client : Text → Call
  close_conn close_client quit open_data close_data : Call
  extension mail rcpt write : Text → Call
  auth : Auth → Call

-- The sentinel that an error wraps, or an error of the libraries.
pub data SmtpError : Type 0 where
  connection_failed tls_failed auth_failed timeout send_failed : SmtpError
  raw : Fault → SmtpError

-- What the calls give, by the calls made before. `extension_of` is Extension, none where the server
-- does not announce it. `to_upper` is strings.ToUpper.
pub record Env : Type 0 where
  pub fails : Trace Call → Call → Option Fault
  pub extension_of : Trace Call → Text → Option Text
  pub to_upper : Text → Text

unfoldable pub is_timeout_error : SmtpError → Bool
is_timeout_error (raw fault) = fault.timed_out
is_timeout_error _ = false

unfoldable pub is_tls_error : SmtpError → Bool
is_tls_error (raw fault) = fault.is_tls
is_tls_error _ = false

abbrev is_classified : SmtpError → Bool
is_classified tls_failed = true
is_classified auth_failed = true
is_classified timeout = true
is_classified connection_failed = true
is_classified _ = false

unfoldable pub classify_error : SmtpError → SmtpError
unfolding is_timeout_error is_tls_error
classify_error e =
    if is_classified e
    then e
    else if is_timeout_error e
    then timeout
    else if is_tls_error e
    then tls_failed
    else connection_failed

-- strings.Contains
unfoldable pub contains : Text → Text → Bool
contains [] sub = is_empty sub
contains (c ∷ s) sub =
    let rest = contains s sub in if text_eq (take (length sub) (c ∷ s)) sub then true else rest

abbrev Smtp : Type 0 → Type 0
Smtp A = Program Call SmtpError A

module _ (env : Env) where
  abbrev pub do_call : Call → Program Call SmtpError Unit
  do_call = call env.fails raw

  -- A call whose error is wrapped as ErrSendFailed, or as ErrAuthFailed.
  abbrev pub sending : Call → Program Call SmtpError Unit
  sending = call env.fails (λ _. send_failed)

  abbrev pub ask : Text → Program Call SmtpError (Option Text)
  ask name w = (ok (env.extension_of w name), (extension name, true) ∷ w)

  -- The client has the type Unit: it is the one that the calls speak of.
  unfoldable pub dial_implicit_tls : Text → Program Call SmtpError Unit
  unfolding call on_failure ◌>>=◌
  dial_implicit_tls host =
      on_failure close_conn (do_call (handshake host))
      >> on_failure close_conn (do_call (new_client host))

  abbrev upgrade : Text → Option Text → Program Call SmtpError Unit
  upgrade host none = raise tls_failed
  upgrade host (some _) = do_call (start_tls host)

  unfoldable pub dial_start_tls : Text → Program Call SmtpError Unit
  unfolding call on_failure ◌>>=◌ raise
  dial_start_tls host =
      on_failure close_conn (do_call (new_client host))
      >> on_failure close_client (ask (codes "STARTTLS") >>= upgrade host)

  abbrev pub is_port : ℤ → Bool
  is_port (pos n) = n == 465
  is_port (negsuc _) = false

  unfoldable pub dial : Text → ℤ → Program Call SmtpError Unit
  unfolding call ◌>>=◌ dial_implicit_tls dial_start_tls
  dial host port =
      do_call (dial_tcp host port)
      >> (if is_port port then dial_implicit_tls host else dial_start_tls host)

  -- The nil of `smtp.Auth` is `none`.
  abbrev pub best_auth : Text → Text → Text → Option Text → Option Auth
  best_auth host username password none = some (plain_auth username password host)
  best_auth host username password (some mechs) =
      let mech_list = env.to_upper mechs in
      if contains mech_list (codes "LOGIN")
      then some (login_auth username password)
      else if contains mech_list (codes "PLAIN")
      then some (plain_auth username password host)
      else some (plain_auth username password host)

  unfoldable pub select_auth : Text → Text → Text → Program Call SmtpError (Option Auth)
  unfolding ◌>>=◌ pure contains
  select_auth host username password =
      ask (codes "AUTH") >>= λ mechs. pure (best_auth host username password mechs)

  abbrev pub with_auth : Option Auth → Program Call SmtpError Unit
  with_auth none = raise auth_failed
  with_auth (some a) = call env.fails (λ _. auth_failed) (auth a)

  unfoldable pub authenticate : Text → Text → Text → Program Call SmtpError Unit
  unfolding ◌>>=◌ select_auth pure raise call
  authenticate host username password =
      if is_empty username && is_empty password
      then pure tt
      else (select_auth host username password >>= with_auth)

  -- An error of QUIT is logged, no more.
  unfoldable pub quit_quietly : Program Call SmtpError Unit
  quit_quietly w = (ok tt, (quit, elim (env.fails w quit) [ none ↦ true | some _ ↦ false ]) ∷ w)

  unfoldable pub test_connection : Text → ℤ → Text → Text → Program Call SmtpError Unit
  unfolding ◌>>=◌ map_error dial deferred authenticate quit_quietly
  test_connection host port username password =
      map_error classify_error (dial host port)
      >> deferred close_client (authenticate host username password >> quit_quietly)

  unfoldable pub rcpt_all : List Text → Program Call SmtpError Unit
  unfolding pure ◌>>=◌ call
  rcpt_all [] = pure tt
  rcpt_all (addr ∷ to) = sending (rcpt addr) >> rcpt_all to

  unfoldable pub transfer : Text → List Text → Text → Program Call SmtpError Unit
  unfolding ◌>>=◌ call rcpt_all quit_quietly
  transfer sender to message =
      sending (mail sender)
      >> rcpt_all to
      >> sending open_data
      >> sending (write message)
      >> sending close_data
      >> quit_quietly

  unfoldable pub send_to : Config → Text → List Text → Text → Program Call SmtpError Unit
  unfolding ◌>>=◌ map_error dial deferred authenticate transfer
  send_to cfg sender to message =
      map_error classify_error (dial cfg.host cfg.port)
      >> deferred close_client
          (authenticate cfg.host cfg.username cfg.password >> transfer sender to message)

  unfoldable pub send_email : Config → Text → List Text → Text → Program Call SmtpError Unit
  unfolding raise send_to
  send_email cfg sender [] message = raise send_failed
  send_email cfg sender (addr ∷ to) message = send_to cfg sender (addr ∷ to) message
