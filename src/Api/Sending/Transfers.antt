-- ===== src/Api/Sending/Transfers.antt =====
-- A message that SendMessage sends over the SMTP client (internal/api/message_handler.go and
-- internal/smtp/client.go).
use letterbox.Prelude.{ℕ, ◌≡◌, refl, Text, Bool, true, false, Option, some, List, [], ◌∷◌, ◌++◌}
use letterbox.Net
use letterbox.Net.{Trace}
use letterbox.Net.Runs.{replay}
use letterbox.Smtp
use letterbox.Smtp.{Call, SmtpError, send_email}
use letterbox.Smtp.Automaton.{Mail, Log, nothing_taken, logged_in, took, State, idle, accept}
use letterbox.Smtp.Sessions.{mail_to_send, IsDelivered, send_email-IsDelivered}
use letterbox.Api.Sending.{Sent, Env, World, Response, success, error}
use letterbox.Api.Sending.Handler.{send_message}
use letterbox.Api.Sending.Outcomes.{Outcome, delivered, refused, send_message-Outcome}

abbrev pub is_ok : Net.Result SmtpError Unit → Bool
is_ok (Net.ok _) = true
is_ok (Net.err _) = false

abbrev config_of : Sent → Smtp.Config
config_of s = record {
  host = s.config.host;
  port = s.config.port;
  username = s.config.username;
  password = s.config.password;
}

-- SendEmail for a message, to a server, over a connection of its own
abbrev pub session : Smtp.Env → Sent → Net.Result SmtpError Unit × Trace Call
session server s = send_email server (config_of s) s.sender s.recipients s.bytes []

abbrev pub mail_of : Sent → Mail
mail_of s = mail_to_send (config_of s) s.sender s.recipients s.bytes

-- Whether a message is sent is what SendEmail answers with the server of that time.
abbrev pub IsSentBy : (ℕ → Smtp.Env) → Env → Type 0
IsSentBy servers env = (n : ℕ) (s : Sent) → env.smtp_accepts n s ≡ is_ok (session (servers n) s).0

-- The server's log of one mail: the credentials of its user, if it has one, and the mail.
abbrev pub log_of : Mail → Log
log_of m = took m (logged_in m.user nothing_taken)

-- The server of the time took one mail, and the connection is closed.
pub record IsTaken (servers : ℕ → Smtp.Env) (before after : List Sent) : Type 0 where
  pub n : ℕ
  pub s : Sent
  pub added : after ≡ before ++ s ∷ []
  pub taken :
      replay (idle, nothing_taken) accept (session (servers n) s).1
      ≡ some (idle, log_of (mail_of s))

abbrev pub IsTransferred : (ℕ → Smtp.Env) → List Sent → Response × World → Type 0
IsTransferred servers before (success _, w) = IsTaken servers before w.sent
IsTransferred servers before (error _, w) = w.sent ≡ before

module _ (servers : ℕ → Smtp.Env) (env : Env) (sends : IsSentBy servers env) where
  taken-IsDelivered :
      (s : Sent) (r : Net.Result SmtpError Unit) (o : Option State)
      → IsDelivered (mail_of s) nothing_taken r o
      → is_ok r ≡ true
      → o ≡ some (idle, log_of (mail_of s))
  taken-IsDelivered s (Net.ok _) o h done = h
  taken-IsDelivered s (Net.err e) o h done = absurd (cc (done))

  Outcome-IsTransferred :
      (before : List Sent) (r : Response × World)
      → Outcome env before r
      → IsTransferred servers before r
  Outcome-IsTransferred before _ (delivered s e uuid now n store accepted built to) =
      let r = session (servers n) s in
      record {
        n = n;
        s = s;
        added = refl;
        taken =
            taken-IsDelivered s r.0 (replay (idle, nothing_taken) accept r.1)
              (send_email-IsDelivered (servers n) nothing_taken (config_of s) s.sender s.recipients
                s.bytes nothing_taken [] refl)
              (rw (sends n s) at accepted);
      }
  Outcome-IsTransferred before _ (refused code store large) = refl

  -- Let a message be sent by SendEmail over servers of which every call may fail. Where SendMessage
  -- answers with success, the server took responsibility for exactly one mail, with the sender, the
  -- recipients and the bytes of the message sent, over TLS, in a session whose user has the
  -- credentials of the message's SMTP configuration (none where both are empty), and the
  -- connection is closed; where it answers with an error, no message counts as sent.
  pub send_message-IsTransferred :
      (account_id body : Text) (w : World)
      → IsTransferred servers w.sent (send_message env account_id body w)
  send_message-IsTransferred account_id body w =
      Outcome-IsTransferred w.sent (send_message env account_id body w)
        (send_message-Outcome env account_id body w)
