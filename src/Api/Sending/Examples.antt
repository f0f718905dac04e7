-- ===== src/Api/Sending/Examples.antt =====
-- The theorems on sent messages at concrete inputs, and a test.
use letterbox.Prelude.{◌≡◌, refl, codes, true, false, none, some, List, [], ◌∷◌, not, is_empty}
use letterbox.Prelude.Int.{pos}
use letterbox.Domain.{Account, Attachment, Email}
use letterbox.Ingest
use letterbox.Ingest.{AccountLookup, Fetched, FetchError, exists_by_uid}
use letterbox.Composer
use letterbox.Api.Originals
use letterbox.Api.Originals.{
  Found, found, ReplyForwardContext, with_original, forward_context, attachments_or_none,
  fetch_original_attachments,
}
use letterbox.Api.Sending.{Env, World, SendMessageRequest, success, store_sent_email}
use letterbox.Api.Sending.Handler.{send_message}
use letterbox.Net
use letterbox.Smtp
use letterbox.Smtp.{send_email}
use letterbox.Api.Sending.Transfers.{is_ok, session, IsTransferred, send_message-IsTransferred}
use letterbox.Api.Sending.Outcomes.{
  Outcome, IsStored, send_message-Outcome, store_sent_email-second,
}

abbrev acc : Account
acc = record {
  id = 1;
  name = [];
  imap_host = codes "h";
  imap_port = pos 993;
  imap_user = codes "a@x";
  imap_password = codes "p";
  smtp_host = codes "h";
  smtp_port = pos 587;
  smtp_user = [];
  smtp_password = [];
  created_at = 0;
}

abbrev originals : Originals.Env
originals = record {
  ingester = record {
    get_account = λ n id. AccountLookup.found acc;
    fetch_raw = λ n a folder uid. Fetched.failed FetchError.other;
    parse = λ s. none;
    fails = λ n. false;
    delete_fails = λ n. false;
    now = λ n. n;
    new_id = λ n. n;
    uuid_string = λ id. codes "id";
  };
  format_date = λ layout t. layout;
  lower_runes = λ s. s;
  lower_other = λ c. c;
  runes = λ s. s;
  utf8 = λ s. s;
}

abbrev request : SendMessageRequest
request = record {
  to = record { name = []; email = codes "b@y" } ∷ [];
  cc = [];
  bcc = [];
  subject = codes "Hi";
  text = codes "there";
  html = [];
  attachments = [];
  reply_to = none;
  forward = none;
  folder = [];
  include_attachments = false;
  quote_original = none;
}

abbrev env : Env
env = record {
  originals = originals;
  parse_uuid = λ s. some 1;
  decode_json = λ s. some request;
  is_valid = λ req. true;
  decode_base64 = λ s. some s;
  parses = λ s. not (is_empty s);
  encode = λ calls. some (codes "Message-Id: <u@letterbox>\r\n");
  new_uuid = λ n. codes "u";
  smtp_accepts = λ n s. true;
  mentions_attachment = λ e. false;
}

abbrev empty : World
empty = record {
  store = record { objects = []; emails = []; attachments = []; calls = 0 };
  sent = [];
}

send_message-Outcome_example : Outcome env [] (send_message env (codes "id") (codes "{}") empty)
send_message-Outcome_example = send_message-Outcome env (codes "id") (codes "{}") empty

-- A server that takes everything.
abbrev server : Smtp.Env
server = record {
  fails = λ w c. none;
  extension_of = λ w name. some (codes "PLAIN LOGIN");
  to_upper = λ s. s;
}

abbrev over_smtp : Env
over_smtp = record env { smtp_accepts = λ n s. is_ok (session server s).0 }

send_message-IsTransferred_example :
    IsTransferred (λ n. server) [] (send_message over_smtp (codes "id") (codes "{}") empty)
send_message-IsTransferred_example =
    send_message-IsTransferred (λ n. server) over_smtp (λ n s. refl) (codes "id") (codes "{}") empty

succeeds :
    (send_message over_smtp (codes "id") (codes "{}") empty).0 ≡ success (codes "<u@letterbox>")
unfolding send_message send_email Net.◌>>=◌ Net.call Net.on_failure Net.deferred Net.map_error
succeeds = refl

answer : (send_message env (codes "id") (codes "{}") empty).0 ≡ success (codes "<u@letterbox>")
unfolding send_message
answer = refl

store_sent_email-second_example :
    let first = store_sent_email env acc (codes "m") request empty.store in
    IsStored env acc (codes "m") empty.store.emails first.emails
    × ((store_sent_email env acc (codes "n") request first).emails ≡ first.emails)
unfolding exists_by_uid
store_sent_email-second_example =
    store_sent_email-second env acc (codes "m") (codes "n") request request empty.store refl refl

abbrev file : Attachment
file = record {
  id = 1;
  email_id = 9;
  filename = codes "x";
  content_type = [];
  size = 1;
  s3_key = codes "k";
}

abbrev mail : Email
mail = record {
  id = 9;
  account_id = 1;
  uid = 4;
  message_id = [];
  folder = codes "INBOX";
  subject = codes "Hi";
  from_email = codes "b@y";
  from_name = [];
  to = [];
  cc = [];
  date = 0;
  parsed_text = [];
  parsed_html = [];
  raw = [];
  flags = [];
  deleted_upstream = false;
  created_at = 0;
  attachments = some (file ∷ []);
}

abbrev stored : Ingest.World
stored = record { objects = (codes "k", codes "1") ∷ []; emails = []; attachments = []; calls = 0 }

abbrev one_file : List Composer.Attachment
one_file =
    record {
      filename = codes "x";
      content_type = [];
      content = codes "1";
      is_inline = false;
      content_id = [];
    }
    ∷ []

forwards :
    (with_original originals false true (found mail, stored)).0
    ≡ found (forward_context originals false mail, one_file)
unfolding with_original
forwards = refl
