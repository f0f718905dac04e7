-- ===== src/Ingest/Examples.antt =====
-- The theorems on the ingestion pipeline at concrete inputs.
use letterbox.Prelude.{ℕ, ◌+◌, ◌≡◌, refl, codes, false, some, [], ◌∷◌, ◌==◌}
use letterbox.Domain.{Account}
use letterbox.Prelude.Int.{pos}
use letterbox.Ingest.{
  ParsedEmail, AccountLookup, Fetched, Env, World, err, uploading, storing_attachment, ingest_email,
  exists_by_uid, upload_all, create_email, store_attachments,
}
use letterbox.Ingest.Unique.{Changes}
use letterbox.Ingest.Emails.{ingest_email-Changes, IsRefused, ingest_email-retry}
use letterbox.Ingest.Cleanup.{NothingNew, ingest_email-NothingNew}

abbrev acc : Account
acc = record {
  id = 1;
  name = [];
  imap_host = codes "h";
  imap_port = pos 993;
  imap_user = codes "u";
  imap_password = codes "p";
  smtp_host = codes "h";
  smtp_port = pos 587;
  smtp_user = codes "u";
  smtp_password = codes "p";
  created_at = 0;
}

abbrev two_files : ParsedEmail
two_files = record {
  message_id = [];
  subject = codes "s";
  sender = record { name = []; email = codes "a@b" };
  to = [];
  cc = [];
  date = 0;
  text = [];
  html = [];
  attachments =
      record { filename = codes "x"; content_type = []; content = codes "1" }
      ∷ record { filename = codes "y"; content_type = []; content = codes "2" }
      ∷ [];
}

-- The calls from the given one on fail, except the deletes.
abbrev failing_at : ℕ → Env
failing_at n = record {
  get_account = λ k id. AccountLookup.found acc;
  fetch_raw = λ k a folder uid. Fetched.raw (codes "m");
  parse = λ s. some two_files;
  fails = λ k. k == n;
  delete_fails = λ k. false;
  now = λ k. k;
  new_id = λ k. k;
  uuid_string = λ id. codes "id";
}

abbrev empty : World
empty = record { objects = []; emails = []; attachments = []; calls = 0 }

ingest_email-Changes_example :
    Changes 1
      (codes "INBOX")
      5
      empty.emails
      (ingest_email (failing_at 100) 1 (codes "INBOX") 5 empty)
ingest_email-Changes_example = ingest_email-Changes (failing_at 100) 1 (codes "INBOX") 5 empty

-- The insert of the first attachment row fails.
fails_late : (ingest_email (failing_at 6) 1 (codes "INBOX") 5 empty).0 ≡ err storing_attachment
unfolding ingest_email exists_by_uid upload_all create_email store_attachments
fails_late = refl

check_works :
    (failing_at 6).fails ((ingest_email (failing_at 6) 1 (codes "INBOX") 5 empty).1.calls + 1)
    ≡ false
unfolding ingest_email exists_by_uid upload_all create_email store_attachments
check_works = refl

ingest_email-retry_example : IsRefused (ingest_email (failing_at 6) 1 (codes "INBOX") 5 empty).1 (
    ingest_email
      (failing_at 6)
      1
      (codes "INBOX")
      5
      (ingest_email (failing_at 6) 1 (codes "INBOX") 5 empty).1)
ingest_email-retry_example =
    ingest_email-retry (failing_at 6) 1 (codes "INBOX") 5 empty acc fails_late refl check_works

-- The second upload fails.
fails_early : (ingest_email (failing_at 4) 1 (codes "INBOX") 5 empty).0 ≡ err uploading
unfolding ingest_email exists_by_uid upload_all create_email store_attachments
fails_early = refl

ingest_email-NothingNew_example :
    NothingNew empty.objects (ingest_email (failing_at 4) 1 (codes "INBOX") 5 empty).1.objects
ingest_email-NothingNew_example =
    ingest_email-NothingNew (failing_at 4) (λ n. refl) 1 (codes "INBOX") 5 empty uploading
      fails_early (λ same. cc)
