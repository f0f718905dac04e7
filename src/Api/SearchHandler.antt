-- ===== src/Api/SearchHandler.antt =====
-- The search for messages (internal/api/search_handler.go).
pub mod Bounds
mod Examples
use letterbox.Prelude.{ℕ, Text, codes, is_empty, Option, none, some, List, [], ◌∷◌, if◌then◌else◌}
use letterbox.Domain.{Email, EmailAddress}
use letterbox.Ingest.{AccountLookup}
use letterbox.Api.Subjects.{trim_space}
use letterbox.Api.Listing.{ListQuery, parse_pagination_params}
use letterbox.Emails
use letterbox.Emails.{invalid_search_query}
use letterbox.Emails.Searches
use letterbox.Emails.Searches.{SearchEmailsFilter}

-- The parameters of the query, empty where they are absent; `page` has the limit and the offset.
pub record SearchQuery : Type 0 where
  pub q : Text
  pub account_id : Text
  pub folder : Text
  pub page : ListQuery

pub record MessageListItem : Type 0 where
  pub id : ℕ
  pub uid : ℕ
  pub message_id : Text
  pub folder : Text
  pub subject : Text
  pub sender : EmailAddress
  pub to : List EmailAddress
  pub date : ℕ
  pub flags : List Text

unfoldable pub to_message_list_item : Email → MessageListItem
to_message_list_item e = record {
  id = e.id;
  uid = e.uid;
  message_id = e.message_id;
  folder = e.folder;
  subject = e.subject;
  sender = record { name = e.from_name; email = e.from_email };
  to = e.to;
  date = e.date;
  flags = e.flags;
}

unfoldable pub to_message_list_items : List Email → List MessageListItem
unfolding to_message_list_item
to_message_list_items [] = []
to_message_list_items (e ∷ es) = to_message_list_item e ∷ to_message_list_items es

-- The status code of an error, or the page with the total, the limit and the offset.
pub data SearchResponse : Type 0 where
  found : List MessageListItem → ℕ → ℕ → ℕ → SearchResponse
  error : ℕ → SearchResponse

-- The lookup of the account, uuid.Parse, and the runes of a text and back, by which TrimSpace works.
pub record Env : Type 0 where
  pub emails : Emails.Env
  pub get_account : ℕ → ℕ → AccountLookup
  pub parse_uuid : Text → Option ℕ
  pub runes : Text → Text
  pub utf8 : Text → Text

module _ (env : Env) where
  abbrev pub counted :
      SearchEmailsFilter
      → List Email
      → Emails.Result ℕ × Emails.World
      → SearchResponse × Emails.World
  counted f es (Emails.err e, w) = (error 500, w)
  counted f es (Emails.ok total, w) = (found (to_message_list_items es) total f.limit f.offset, w)

  abbrev pub searched :
      SearchEmailsFilter → Emails.Result (List Email) × Emails.World → SearchResponse × Emails.World
  searched f (Emails.err invalid_search_query, w) = (error 400, w)
  searched f (Emails.err e, w) = (error 500, w)
  searched f (Emails.ok es, w) =
      counted f es (Searches.count_search env.emails f.account_id f.query f.folder w)

  unfoldable pub with_page :
      ℕ → Text → Text → Option (ℕ × ℕ) → Emails.World → SearchResponse × Emails.World
  unfolding Searches.search Searches.count_search to_message_list_items
  with_page account query folder none w = (error 400, w)
  with_page account query folder (some (limit, offset)) w =
      let f : SearchEmailsFilter = record {
        account_id = account;
        query = query;
        folder = folder;
        limit = limit;
        offset = offset;
      } in
      searched f (Searches.search env.emails f w)

  abbrev pub with_account :
      AccountLookup → ℕ → Text → SearchQuery → Emails.World → SearchResponse × Emails.World
  with_account AccountLookup.not_found account query q w = (error 404, w)
  with_account AccountLookup.failed account query q w = (error 500, w)
  with_account (AccountLookup.found _) account query q w =
      with_page account query q.folder (parse_pagination_params q.page) w

  abbrev pub with_id : Option ℕ → Text → SearchQuery → Emails.World → SearchResponse × Emails.World
  with_id none query q w = (error 400, w)
  with_id (some account) query q w =
      with_account (env.get_account w.calls account) account query q (Emails.tick w)

  -- An empty account_id and one that is no UUID are both refused.
  unfoldable pub search : SearchQuery → Emails.World → SearchResponse × Emails.World
  unfolding with_page parse_pagination_params trim_space
  search q w =
      let query = env.utf8 (trim_space (env.runes q.q)) in
      if is_empty query
      then (error 400, w)
      else if is_empty q.account_id
      then (error 400, w)
      else with_id (env.parse_uuid q.account_id) query q w
