-- ===== src/Smtp/Automaton.antt =====
-- What RFC 5321 and the security of the credentials ask of the calls that the SMTP client makes, as
-- an automaton (internal/smtp/client.go).
use letterbox.Prelude.{Text, Bool, Option, none, some, List, [], ◌∷◌, ◌++◌, if◌then◌else◌, if_ind}
use letterbox.Smtp.{
  Call, dial_tcp, handshake, start_tls, new_client, close_conn, close_client, quit, open_data,
  close_data, extension, mail, rcpt, write, auth, SmtpError, connection_failed, tls_failed,
  auth_failed, timeout, send_failed, raw, classify_error, Auth, plain_auth, login_auth,
}

pub record Credentials : Type 0 where
  pub username : Text
  pub password : Text

-- A message for which the server answered the end of its data, and the user of the session, if it
-- has one.
pub record Mail : Type 0 where
  pub user : Option Credentials
  pub sender : Text
  pub recipients : List Text
  pub message : Text

-- What the server took: credentials, and mails. A mail in `perhaps` is one whose data was sent to
-- the end, without an answer that it was taken: by RFC 5321 the server may have taken it.
pub record Log : Type 0 where
  pub logins : List Credentials
  pub taken : List Mail
  pub perhaps : List Mail

-- Where a session is: `connected` is a TCP connection with nothing said, `greeted` a client without
-- TLS, `secured` a TLS connection without a client, and `ready` a client over TLS, with its user.
-- Then a mail transaction with its sender and recipients, and with the text that was written. In
-- `closing` nothing but Close may follow: a step of the connection failed, or QUIT was sent, after
-- which net/smtp may have closed the connection itself (Quit closes it, and Auth quits if it
-- fails).
pub data Session : Type 0 where
  idle connected greeted secured closing : Session
  ready : Option Credentials → Session
  envelope : Option Credentials → Text → List Text → Session
  writing : Option Credentials → Text → List Text → Text → Session

abbrev pub State : Type 0
State = Session × Log

abbrev pub nothing_taken : Log
nothing_taken = record { logins = []; taken = []; perhaps = [] }

abbrev pub credentials_of : Auth → Credentials
credentials_of (plain_auth username password host) = record {
  username = username;
  password = password;
}
credentials_of (login_auth username password) = record { username = username; password = password }

-- A session logs in at most once.
abbrev pub logged_in : Option Credentials → Log → Log
logged_in none d = d
logged_in (some c) d = record d { logins = d.logins ++ c ∷ [] }

abbrev pub took : Mail → Log → Log
took m d = record d { taken = d.taken ++ m ∷ [] }

abbrev pub unanswered : Mail → Log → Log
unanswered m d = record d { perhaps = d.perhaps ++ m ∷ [] }

-- What a call makes of the session, by whether it succeeded; none where it must not be made.
-- Credentials and mails are for `ready` alone, and DATA for an envelope with a recipient.
abbrev pub accept : Call → Bool → State → Option State
accept (dial_tcp host port) done (idle, d) = some (if done then connected else idle, d)
accept (handshake host) done (connected, d) = some (if done then secured else closing, d)
accept (new_client host) done (connected, d) = some (if done then greeted else closing, d)
accept (new_client host) done (secured, d) = some (if done then ready none else closing, d)
accept (extension name) done (greeted, d) = some (greeted, d)
accept (extension name) done (ready u, d) = some (ready u, d)
accept (start_tls host) done (greeted, d) = some (if done then ready none else closing, d)
accept (auth a) done (ready none, d) = some (
    if done
    then (ready (some (credentials_of a)), logged_in (some (credentials_of a)) d)
    else (closing, d))
accept (mail sender) done (ready u, d) = some (if done then envelope u sender [] else ready u, d)
accept (rcpt addr) done (envelope u sender to, d) =
    some (envelope u sender (if done then to ++ addr ∷ [] else to), d)
accept open_data done (envelope u sender (addr ∷ to), d) =
    some (if done then writing u sender (addr ∷ to) [] else envelope u sender (addr ∷ to), d)
accept (write s) done (writing u sender to t, d) =
    some (writing u sender to (if done then t ++ s else t), d)
accept close_data done (writing u sender to t, d) =
    let m : Mail = record { user = u; sender = sender; recipients = to; message = t } in
    some (if done then (ready u, took m d) else (closing, unanswered m d))
accept quit done (ready u, d) = some (closing, d)
accept close_conn done (connected, d) = some (idle, d)
accept close_conn done (secured, d) = some (idle, d)
accept close_conn done (closing, d) = some (idle, d)
accept close_client done (greeted, d) = some (idle, d)
accept close_client done (closing, d) = some (idle, d)
accept close_client done (ready u, d) = some (idle, d)
accept close_client done (envelope u sender to, d) = some (idle, d)
accept close_client done (writing u sender to t, d) = some (idle, d)
accept _ _ _ = none

-- The user that a session with some credentials is to have: none where both are empty.
abbrev pub user_of : Text → Text → Option Credentials
user_of [] [] = none
user_of [] (c ∷ password) = some (record { username = []; password = c ∷ password })
user_of (c ∷ username) password = some (record { username = c ∷ username; password = password })

-- One of the package's errors, which callers tell apart.
abbrev pub IsSentinel : SmtpError → Type 0
IsSentinel (raw fault) = ⊥
IsSentinel _ = Unit

pub classify_error-IsSentinel : (e : SmtpError) → IsSentinel (classify_error e)
unfolding classify_error
classify_error-IsSentinel connection_failed = tt
classify_error-IsSentinel tls_failed = tt
classify_error-IsSentinel auth_failed = tt
classify_error-IsSentinel timeout = tt
classify_error-IsSentinel send_failed = tt
classify_error-IsSentinel (raw fault) =
    if_ind IsSentinel fault.timed_out _ _ (λ _. tt)
      (λ _. if_ind IsSentinel fault.is_tls _ _ (λ _. tt) (λ _. tt))
