-- ===== src/Api/Listing/Examples.antt =====
-- The theorem on pages at a concrete listing, and tests.
use letterbox.Prelude.{ℕ, ◌≡◌, refl, codes, Bool, false, some, none, List, [], ◌∷◌, ltb}
use letterbox.Prelude.Int.{negsuc}
use letterbox.Domain.{Email}
use letterbox.Api.Listing.{ListQuery, ListEmailsFilter, atoi, parse_pagination_params}

abbrev asked : ListQuery
asked = record { limit = codes "250"; offset = codes "7"; before = []; after = [] }

accepted : parse_pagination_params asked ≡ some (100, 7)
unfolding parse_pagination_params
accepted = refl

negative : atoi (codes "-12") ≡ some (negsuc 11)
unfolding atoi
negative = refl

abbrev inbox : ListEmailsFilter
inbox = record {
  account_id = 1;
  folder = codes "INBOX";
  limit = 2;
  offset = 1;
  before = some 9;
  after = none;
}

abbrev mail : ℕ → ℕ → Email
mail uid date = record {
  id = uid;
  account_id = 1;
  uid = uid;
  message_id = [];
  folder = codes "INBOX";
  subject = [];
  from_email = [];
  from_name = [];
  to = [];
  cc = [];
  date = date;
  parsed_text = [];
  parsed_html = [];
  raw = [];
  flags = [];
  deleted_upstream = false;
  created_at = 0;
  attachments = none;
}

abbrev table : List Email
table = mail 1 3 ∷ mail 2 5 ∷ mail 3 9 ∷ mail 4 3 ∷ []

abbrev by_uid : Email → Email → Bool
by_uid e other = ltb e.uid other.uid
