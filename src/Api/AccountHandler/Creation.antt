-- ===== src/Api/AccountHandler/Creation.antt =====
-- What the handler of new accounts does (Create in internal/api/account_handler.go).
use letterbox.Prelude.{◌≡◌, ◌∷◌, ◌++◌, Text, is_empty, true, Option, none, some, List, [], ◌⊎◌}
use letterbox.Domain.{Account}
use letterbox.Net
use letterbox.Net.{Trace}
use letterbox.Net.Runs.{replay}
use letterbox.Imap
use letterbox.Imap.{ImapError}
use letterbox.Imap.Sessions as ImapSessions
use letterbox.Imap.Sessions.{offline}
use letterbox.Smtp
use letterbox.Smtp.{SmtpError}
use letterbox.Smtp.Automaton as SmtpAutomaton
use letterbox.Smtp.Automaton.{State, Credentials, user_of}
use letterbox.Accounts
use letterbox.Api.AccountHandler.{
  CreateAccountRequest, Response, created, shown, listed, no_content, bad_request, not_found,
  server_error, Env, World, to_account_response, input_of, create,
}

-- No connection, and no mail that was sent, after the logins.
abbrev pub no_session : List Credentials → State
no_session logins = (SmtpAutomaton.idle, record { logins = logins; taken = []; perhaps = [] })

abbrev pub smtp_state : World → Option State
smtp_state w = replay (no_session []) SmtpAutomaton.accept w.smtp_calls

-- Neither the IMAP nor the SMTP client has a connection, and no mail was sent.
abbrev pub HasNoSession : World → Type 0
HasNoSession w =
    (replay offline ImapSessions.accept w.imap_calls ≡ some offline)
    × ((logins : List Credentials) × (smtp_state w ≡ some (no_session logins)))

abbrev with_login : Option Credentials → List Credentials → List Credentials
with_login none logins = logins
with_login (some c) logins = logins ++ c ∷ []

-- Between the states the SMTP server took the credentials, if there are any, and nothing else.
pub record TookLogin (u : Option Credentials) (o o' : Option State) : Type 0 where
  pub logins : List Credentials
  pub before : o ≡ some (no_session logins)
  pub after : o' ≡ some (no_session (with_login u logins))

module _ (env : Env) (req : CreateAccountRequest) where
  abbrev pub imap_test : World → Net.Result ImapError (List Text) × Trace Imap.Call
  imap_test w =
      Imap.test_connection env.imap req.imap_host req.imap_port req.imap_user req.imap_password
        w.imap_calls

  abbrev pub smtp_test : World → Net.Result SmtpError Unit × Trace Smtp.Call
  smtp_test w =
      Smtp.test_connection env.smtp req.smtp_host req.smtp_port req.smtp_user req.smtp_password
        w.smtp_calls

  abbrev smtp_user : Option Credentials
  smtp_user = user_of req.smtp_user req.smtp_password

  -- SMTP is not asked for, or its server took the credentials of the request.
  abbrev pub SmtpDone : World → World → Type 0
  SmtpDone w w' =
      (is_empty req.smtp_host ≡ true) ⊎ TookLogin smtp_user (smtp_state w) (smtp_state w')

  abbrev pub row_created : World → Accounts.Result Account × Accounts.World
  row_created w = Accounts.create env.accounts (input_of req) w.store

  -- By the answer: an account was created, the test of the IMAP connection succeeded, and the SMTP
  -- server took the credentials, where SMTP is given; or the repository failed; or the table is as it was.
  abbrev pub Outcome : World → Response × World → Type 0
  Outcome w (created a, w') =
      ((account : Account) × (row_created w ≡ (Accounts.ok account, w'.store))
        × (a ≡ to_account_response account))
      × (((folders : List Text) × ((imap_test w).0 ≡ Net.ok folders)) × SmtpDone w w')
  Outcome w (server_error _, w') = w'.store ≡ (row_created w).1
  Outcome w (shown _, w') = ⊥
  Outcome w (listed _, w') = ⊥
  Outcome w (no_content, w') = ⊥
  Outcome w (not_found _, w') = ⊥
  Outcome w (bad_request _, w') = w'.store ≡ w.store

  abbrev Goal : World → Response × World → Type 0
  Goal w r = Outcome w r × HasNoSession r.1
