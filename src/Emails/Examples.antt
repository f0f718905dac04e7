-- ===== src/Emails/Examples.antt =====
-- The theorems on the repository of emails at concrete inputs, and tests.
use letterbox.Prelude.{
  ◌≡◌, refl, Text, codes, text_eq, true, false, Option, none, some, List, [], ◌∷◌, if◌then◌else◌,
}
use letterbox.Domain.{EmailAddress, CreateEmailInput}
use letterbox.Accounts.{ptr_string}
use letterbox.Ingest
use letterbox.Emails.Rows.{exists_row}
use letterbox.Emails.{Env, World, ok, create, exists_by_message_id, inserted}
use letterbox.Emails.Refinement.{Represents}
use letterbox.Emails.Creation.{Agrees, stored, create-create_email}

-- An encoding of lists of at most one address without a name.
abbrev encode : List EmailAddress → Option Text
encode [] = some (codes "[]")
encode (a ∷ _) = some a.email

abbrev decode : Text → Option (List EmailAddress)
decode s = if text_eq s (codes "[]") then some [] else some (record { name = []; email = s } ∷ [])

abbrev env : Env
env = record {
  marshal = encode;
  unmarshal = decode;
  fails = λ n. false;
  new_id = λ n. n;
  now = λ n. n;
  selects = λ query row. true;
  ill_formed = λ query. false;
  ties = λ n row other. false;
}

abbrev ingester : Ingest.Env
ingester = record {
  get_account = λ k id. Ingest.AccountLookup.not_found;
  fetch_raw = λ k a folder uid. Ingest.Fetched.raw [];
  parse = λ s. none;
  fails = λ k. false;
  delete_fails = λ k. false;
  now = λ k. k;
  new_id = λ k. k;
  uuid_string = λ id. [];
}

abbrev input : CreateEmailInput
input = record {
  account_id = 1;
  uid = 5;
  message_id = [];
  folder = codes "INBOX";
  subject = codes "s";
  from_email = codes "a@b";
  from_name = [];
  to = record { name = []; email = codes "c@d" } ∷ [];
  cc = [];
  date = 0;
  parsed_text = [];
  parsed_html = [];
  raw = codes "m";
  flags = [];
}

agrees : Agrees env ingester
agrees = record { fails = λ n. refl; new_id = λ n. refl; now = λ n. refl }

abbrev before : World
before = record { emails = []; calls = 0 }

abbrev before_ingest : Ingest.World
before_ingest = record { objects = []; emails = []; attachments = []; calls = 0 }

create-create_email_example :
    ((create env input before).0 ≡ stored (Ingest.create_email ingester input before_ingest).0)
    × (Represents env
          (create env input before).1.emails
          (Ingest.create_email ingester input before_ingest).1.emails
        × ((create env input before).1.calls
            ≡ (Ingest.create_email ingester input before_ingest).1.calls))
create-create_email_example =
    create-create_email env ingester agrees input (codes "c@d") (codes "[]") before before_ingest
      (record { written = refl; read_back = refl }) (record { written = refl; read_back = refl }) tt
      refl

abbrev one_row : World
one_row = record { emails = inserted env input (codes "c@d") (codes "[]") 0 ∷ []; calls = 1 }

-- A message without an identifier is not found by its empty identifier.
no_identifier : (exists_by_message_id env 1 [] one_row).0 ≡ ok false
unfolding exists_by_message_id exists_row ptr_string
no_identifier = refl
