-- ===== src/Attachments/Examples.antt =====
-- The theorem on attachments at a concrete input.
use mathlib.Core.List.Perm
use letterbox.Prelude.{◌≡◌, refl, codes, false, some, [], ◌∷◌}
use letterbox.Prelude.Int.{pos}
use letterbox.Domain.{Account, Attachment, Email}
use letterbox.Ingest
use letterbox.Ingest.{
  ParsedEmail, AccountLookup, Fetched, Env, World, ingest_email, exists_by_uid, upload_all,
  create_email, store_attachments,
}
use letterbox.Attachments.{get_by_email_id}
use letterbox.Attachments.Rows.{of_email}
use letterbox.Storage.{attachment_key}
use letterbox.Attachments.Stored.{AreRead, get_by_email_id-ingest_email}

abbrev acc : Account
acc = record {
  id = 1;
  name = [];
  imap_host = codes "h";
  imap_port = pos 993;
  imap_user = codes "u";
  imap_password = codes "p";
  smtp_host = [];
  smtp_port = pos 0;
  smtp_user = [];
  smtp_password = [];
  created_at = 0;
}

abbrev one_file : ParsedEmail
one_file = record {
  message_id = [];
  subject = codes "s";
  sender = record { name = []; email = codes "a@b" };
  to = [];
  cc = [];
  date = 7;
  text = [];
  html = [];
  attachments = record { filename = codes "x"; content_type = []; content = codes "123" } ∷ [];
}

abbrev env : Env
env = record {
  get_account = λ k id. AccountLookup.found acc;
  fetch_raw = λ k a folder uid. Fetched.raw (codes "m");
  parse = λ s. some one_file;
  fails = λ k. false;
  delete_fails = λ k. false;
  now = λ k. k;
  new_id = λ k. k;
  uuid_string = λ id. codes "id";
}

abbrev other_row : Attachment
other_row = record {
  id = 90;
  email_id = 80;
  filename = codes "z";
  content_type = [];
  size = 1;
  s3_key = codes "k";
}

abbrev before : World
before = record { objects = []; emails = []; attachments = other_row ∷ []; calls = 0 }

abbrev row : Attachment
row = record {
  id = 5;
  email_id = 4;
  filename = codes "x";
  content_type = [];
  size = 3;
  s3_key = codes "id/5/x";
}

abbrev email : Email
email = record {
  id = 4;
  account_id = 1;
  uid = 5;
  message_id = [];
  folder = codes "INBOX";
  subject = codes "s";
  from_email = codes "a@b";
  from_name = [];
  to = [];
  cc = [];
  date = 7;
  parsed_text = [];
  parsed_html = [];
  raw = codes "m";
  flags = [];
  deleted_upstream = false;
  created_at = 4;
  attachments = some (row ∷ []);
}

ingested : (ingest_email env 1 (codes "INBOX") 5 before).0 ≡ Ingest.ok email
unfolding ingest_email exists_by_uid upload_all create_email store_attachments attachment_key
ingested = refl

get_by_email_id-ingest_email_example :
    AreRead email
      (get_by_email_id env
        (λ n rows. rows)
        email.id
        (ingest_email env 1 (codes "INBOX") 5 before).1).0
unfolding of_email
get_by_email_id-ingest_email_example =
    get_by_email_id-ingest_email env (λ n rows. rows) (λ n rows. Perm.refl rows) 1 (codes "INBOX") 5
      before email ingested refl refl
