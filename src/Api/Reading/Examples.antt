-- ===== src/Api/Reading/Examples.antt =====
-- The theorems on reading messages at concrete inputs.
use letterbox.Prelude.{
  ℕ, ◌%◌, ◌^◌, ◌≡◌, ◌≢◌, refl, Text, codes, false, Option, none, some, [], arith,
}
use letterbox.Prelude.Int.{pos}
use letterbox.Domain.{Account, Email}
use letterbox.Ingest
use letterbox.Ingest.{
  World, AccountLookup, Fetched, Result, ok, err, ingest_email, exists_by_uid, upload_all,
  create_email, store_attachments, inserted, email_input,
}
use letterbox.Api.Originals
use letterbox.Api.Originals.{find_by_uid, get_by_uid}
use letterbox.Api.Listing.{atoi, digits_value}
use letterbox.Api.Reading.{get_message, parse_uid, message, MessageResponse}
use letterbox.Api.Reading.Messages.{IsAnswer, get_message-IsAnswer, get_message-other_uid}

abbrev acc : Account
acc = record {
  id = 1;
  name = [];
  imap_host = codes "h";
  imap_port = pos 993;
  imap_user = codes "u";
  imap_password = codes "p";
  smtp_host = [];
  smtp_port = pos 0;
  smtp_user = [];
  smtp_password = [];
  created_at = 0;
}

abbrev plain : Ingest.ParsedEmail
plain = record {
  message_id = [];
  subject = codes "s";
  sender = record { name = []; email = codes "a@b" };
  to = [];
  cc = [];
  date = 0;
  text = [];
  html = [];
  attachments = [];
}

abbrev env : Originals.Env
env = record {
  ingester = record {
    get_account = λ k id. AccountLookup.found acc;
    fetch_raw = λ k a folder uid. Fetched.raw (codes "m");
    parse = λ s. some plain;
    fails = λ k. false;
    delete_fails = λ k. false;
    now = λ k. k;
    new_id = λ k. k;
    uuid_string = λ id. codes "id";
  };
  format_date = λ s d. [];
  lower_runes = λ s. s;
  lower_other = λ c. c;
  runes = λ s. s;
  utf8 = λ s. s;
}

abbrev parse_uuid : Text → Option ℕ
parse_uuid s = some 1

abbrev presigned : ℕ → Text → Option Text
presigned n key = none

abbrev empty : World
empty = record { objects = []; emails = []; attachments = []; calls = 0 }

seven : parse_uid (codes "7") ≡ some 7
unfolding parse_uid atoi digits_value
seven = refl

get_message-IsAnswer_example :
    IsAnswer 1
      (codes "INBOX")
      7
      (get_message env parse_uuid presigned (codes "id") (codes "7") [] empty)
get_message-IsAnswer_example =
    get_message-IsAnswer env parse_uuid presigned (codes "id") (codes "7") [] 1 7 empty refl seven
      (omega arith)

-- 2^32 + 5
five_and_more : parse_uid (codes "4294967301") ≡ some 4294967301
unfolding parse_uid atoi digits_value
five_and_more = refl

abbrev stored : Email
stored =
    record (inserted env.ingester (email_input env.ingester 1 (codes "INBOX") 5 (codes "m") plain)
      5) { attachments = some [] }

missing :
    get_by_uid env 1 (codes "INBOX") 4294967301 (Ingest.tick empty)
    ≡ (Originals.failed Originals.email_not_found, Ingest.tick (Ingest.tick empty))
unfolding get_by_uid find_by_uid
missing = refl

ingested :
    (ingest_email env.ingester 1
      (codes "INBOX")
      (4294967301 % 2 ^ 32)
      (Ingest.tick (Ingest.tick empty))).0
    ≡ ok stored
unfolding ingest_email exists_by_uid upload_all create_email store_attachments
ingested = refl

get_message-other_uid_example :
    (m : MessageResponse) × ((get_message env parse_uuid presigned
        (codes "id")
        (codes "4294967301")
        []
        empty).0
      ≡ message m)
    × ((m.uid ≡ 4294967301 % 2 ^ 32) × (m.uid ≢ 4294967301))
get_message-other_uid_example =
    get_message-other_uid env parse_uuid presigned (codes "id") (codes "4294967301") [] 1 4294967301
      acc stored [] empty refl five_and_more refl missing ingested refl (omega arith)
