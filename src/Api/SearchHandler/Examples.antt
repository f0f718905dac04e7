-- ===== src/Api/SearchHandler/Examples.antt =====
-- The theorem on searches at a concrete query.
use letterbox.Prelude.{ℕ, codes, false, true, none, some, [], ◌∷◌}
use letterbox.Prelude.Int.{pos}
use letterbox.Domain.{Account}
use letterbox.Ingest.{AccountLookup}
use letterbox.Emails
use letterbox.Api.SearchHandler.{SearchQuery, Env, search}
use letterbox.Api.SearchHandler.Bounds.{IsBounded, search-IsBounded}

abbrev acc : Account
acc = record {
  id = 1;
  name = [];
  imap_host = codes "h";
  imap_port = pos 993;
  imap_user = codes "u";
  imap_password = codes "p";
  smtp_host = [];
  smtp_port = pos 0;
  smtp_user = [];
  smtp_password = [];
  created_at = 0;
}

abbrev env : Env
env = record {
  emails = record {
    marshal = λ addresses. some [];
    unmarshal = λ s. some [];
    fails = λ n. false;
    new_id = λ n. n;
    now = λ n. n;
    selects = λ query row. true;
    ill_formed = λ query. false;
    ties = λ n row other. false;
  };
  get_account = λ n id. AccountLookup.found acc;
  parse_uuid = λ s. some 1;
  runes = λ s. s;
  utf8 = λ s. s;
}

abbrev row : ℕ → Emails.Rows.EmailRow
row uid = record {
  id = uid;
  account_id = 1;
  uid = uid;
  message_id = none;
  folder = codes "INBOX";
  subject = none;
  from_email = none;
  from_name = none;
  date = none;
  parsed_text = none;
  parsed_html = none;
  raw = none;
  flags = none;
  deleted_upstream = some false;
  created_at = 0;
  to_recipients = [];
  cc_recipients = [];
}

abbrev two : Emails.World
two = record { emails = row 1 ∷ row 2 ∷ []; calls = 0 }

abbrev query : SearchQuery
query = record {
  q = codes " hello ";
  account_id = codes "id";
  folder = [];
  page = record { limit = codes "1"; offset = []; before = []; after = [] };
}

search-IsBounded_example : IsBounded (search env query two).0
search-IsBounded_example = search-IsBounded env query two
