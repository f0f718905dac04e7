-- ===== src/Smtp/Examples.antt =====
-- The theorems on the SMTP client at a server that refuses one recipient.
use letterbox.Prelude.{
  refl, Text, codes, text_eq, false, Option, none, some, List, [], ◌∷◌, if◌then◌else◌,
}
use letterbox.Prelude.Int.{pos}
use letterbox.Net.{Fault}
use letterbox.Net.Runs.{replay}
use letterbox.Smtp.{Env, Config, Call, rcpt, send_email}
use letterbox.Smtp.Automaton.{idle, nothing_taken, accept}
use letterbox.Smtp.Sessions.{mail_to_send, IsDelivered, send_email-IsDelivered}

abbrev refused : Fault
refused = record { timed_out = false; is_tls = false; no_mailbox = false }

abbrev refuses : Call → Option Fault
refuses (rcpt addr) = if text_eq addr (codes "x@y") then some refused else none
refuses _ = none

abbrev env : Env
env = record {
  fails = λ w c. refuses c;
  extension_of = λ w name. some (codes "PLAIN LOGIN");
  to_upper = λ s. s;
}

abbrev config : Config
config = record { host = codes "h"; port = pos 587; username = codes "u"; password = codes "p" }

abbrev two_recipients : List Text
two_recipients = codes "a@b" ∷ codes "x@y" ∷ []

send_email-IsDelivered_example :
    let r = send_email env config (codes "u@h") two_recipients (codes "hi") [] in
    IsDelivered
      (mail_to_send config (codes "u@h") two_recipients (codes "hi"))
      nothing_taken
      r.0
      (replay (idle, nothing_taken) accept r.1)
send_email-IsDelivered_example =
    send_email-IsDelivered env nothing_taken config (codes "u@h") two_recipients (codes "hi")
      nothing_taken [] refl
