-- ===== src/Api/Listing.antt =====
-- Listing the messages of a folder (ListMessages in internal/api/message_handler.go, pagination in
-- internal/api/response.go, EmailRepository.List and CountInFolder in internal/repository/email.go).
pub mod Pages
pub mod Order
mod Examples
use letterbox.Prelude.{
  ℕ, suc, ◌+◌, ◌*◌, ◌-◌, ◌^◌, Text, codes, is_empty, text_eq, Bool, true, false, ◌&&◌, ◌||◌, not,
  Option, none, some, List, [], ◌∷◌, ◌++◌, length, take, drop, ltb, leb, ◌==◌, if◌then◌else◌,
}
use letterbox.Prelude.Int.{ℤ, pos, negsuc}
use letterbox.Domain.{Email}
use letterbox.Ingest
use letterbox.Ingest.{AccountLookup, tick}
use letterbox.Accounts.{to_int32}

-- The parameters of the query, empty where they are absent.
pub record ListQuery : Type 0 where
  pub limit : Text
  pub offset : Text
  pub before : Text
  pub after : Text

unfoldable pub digits_value : ℕ → Text → Option ℕ
digits_value n [] = some n
digits_value n (c ∷ s) =
    let rest = digits_value (n * 10 + (c - b'0')) s in
    if leb b'0' c && leb c b'9' then rest else none

abbrev magnitude : Text → Option ℕ
magnitude [] = none
magnitude (c ∷ s) = digits_value 0 (c ∷ s)

abbrev negated : Option ℕ → Option ℤ
negated none = none
negated (some n) =
    if n == 0 then some (pos 0) else if leb n (2 ^ 63) then some (negsuc (n - 1)) else none

abbrev unsigned : Option ℕ → Option ℤ
unsigned none = none
unsigned (some n) = if ltb n (2 ^ 63) then some (pos n) else none

-- strconv.Atoi, none being its error
unfoldable pub atoi : Text → Option ℤ
unfolding digits_value
atoi [] = none
atoi (c ∷ s) =
    if c == b'-'
    then negated (magnitude s)
    else if c == b'+'
    then unsigned (magnitude s)
    else unsigned (magnitude (c ∷ s))

abbrev checked_limit : Option ℤ → Option ℕ
checked_limit none = none
checked_limit (some (negsuc n)) = none
checked_limit (some (pos n)) = if ltb n 1 then none else some (if ltb 100 n then 100 else n)

unfoldable pub parse_limit : Text → Option ℕ
unfolding atoi
parse_limit s = if is_empty s then some 50 else checked_limit (atoi s)

abbrev checked_offset : Option ℤ → Option ℕ
checked_offset none = none
checked_offset (some (negsuc n)) = none
checked_offset (some (pos n)) = some n

unfoldable pub parse_offset : Text → Option ℕ
unfolding atoi
parse_offset s = if is_empty s then some 0 else checked_offset (atoi s)

abbrev both : {A B : Type 0} → Option A → Option B → Option (A × B)
both none _ = none
both (some a) none = none
both (some a) (some b) = some (a, b)

unfoldable pub parse_pagination_params : ListQuery → Option (ℕ × ℕ)
unfolding parse_limit parse_offset
parse_pagination_params q = both (parse_limit q.limit) (parse_offset q.offset)

pub record ListEmailsFilter : Type 0 where
  pub account_id : ℕ
  pub folder : Text
  pub limit : ℕ
  pub offset : ℕ
  pub before : Option ℕ
  pub after : Option ℕ

-- The zero time is stored as NULL, which no comparison holds of.
abbrev pub is_before : Option ℕ → ℕ → Bool
is_before none date = true
is_before (some t) date = ltb 0 date && ltb date t

abbrev pub is_after : Option ℕ → ℕ → Bool
is_after none date = true
is_after (some t) date = ltb t date

abbrev pub not_deleted : Bool → Bool
not_deleted true = false
not_deleted false = true

abbrev pub in_folder : ℕ → Text → Email → Bool
in_folder account folder e =
    e.account_id == account && (text_eq e.folder folder && not_deleted e.deleted_upstream)

abbrev pub matches : ListEmailsFilter → Email → Bool
matches f e =
    in_folder f.account_id f.folder e && (is_before f.before e.date && is_after f.after e.date)

unfoldable pub where_matches : (Email → Bool) → List Email → List Email
where_matches p [] = []
where_matches p (e ∷ es) = let rest = where_matches p es in if p e then e ∷ rest else rest

-- In the order of date DESC, which puts NULL first: whether a row goes before one that stands.
abbrev pub goes_before : ℕ → ℕ → Bool
goes_before date other = ltb 0 other && (date == 0 || ltb other date)

-- ORDER BY date DESC, as an insertion sort. SQL leaves the order of rows with equal dates, or
-- with NULL, to the database: `ties` says whether a row goes before another such row.
module _ (ties : Email → Email → Bool) where
  abbrev pub precedes : Email → Email → Bool
  precedes e other =
      goes_before e.date other.date || (not (goes_before other.date e.date) && ties e other)

  unfoldable pub insert_by_date : Email → List Email → List Email
  insert_by_date e [] = e ∷ []
  insert_by_date e (other ∷ es) =
      let rest = insert_by_date e es in if precedes e other then e ∷ other ∷ es else other ∷ rest

  unfoldable pub newest_first : List Email → List Email
  unfolding insert_by_date
  newest_first [] = []
  newest_first (e ∷ es) = insert_by_date e (newest_first es)

-- LIMIT and OFFSET, which the database refuses where one is negative
abbrev pub page : ℤ → ℤ → List Email → Option (List Email)
page (negsuc _) _ es = none
page (pos limit) (negsuc _) es = none
page (pos limit) (pos offset) es = some (take limit (drop offset es))

unfoldable pub list_emails :
    (Email → Email → Bool) → ListEmailsFilter → List Email → Option (List Email)
unfolding where_matches newest_first to_int32
list_emails ties f es =
    page (to_int32 (pos f.limit)) (to_int32 (pos f.offset))
      (newest_first ties (where_matches (matches f) es))

-- The status code of an error, or the page with the total, the limit and the offset.
pub data ListResponse : Type 0 where
  listed : List Email → ℕ → ℕ → ℕ → ListResponse
  error : ℕ → ListResponse

-- uuid.Parse and time.Parse, and how a query orders rows of the same date
module _ (env : Ingest.Env) (parse_uuid parse_time : Text → Option ℕ)
    (ties : ℕ → Email → Email → Bool) where
  -- An absent time is `some none`, and `none` is the error.
  abbrev optional_time : Text → Option (Option ℕ)
  optional_time s =
      if is_empty s then some none else elim (parse_time s) [ none ↦ none | some t ↦ some (some t) ]

  unfoldable pub parse_list_params : ListQuery → Option ((ℕ × ℕ) × (Option ℕ × Option ℕ))
  unfolding parse_pagination_params
  parse_list_params q =
      both (parse_pagination_params q) (both (optional_time q.before) (optional_time q.after))

  with_page : ListEmailsFilter → Option (List Email) → Ingest.World → ListResponse × Ingest.World
  unfolding where_matches
  with_page f none w = (error 500, w)
  with_page f (some es) w = (
    if env.fails w.calls
        then error 500
        else listed es (length (where_matches (in_folder f.account_id f.folder) w.emails)) f.limit
            f.offset,
    tick w,
  )

  with_params :
      ℕ
      → Text
      → Option ((ℕ × ℕ) × (Option ℕ × Option ℕ))
      → Ingest.World
      → ListResponse × Ingest.World
  unfolding with_page list_emails
  with_params id folder none w = (error 400, w)
  with_params id folder (some ((limit, offset), (before, after))) w =
      let f : ListEmailsFilter = record {
        account_id = id;
        folder = folder;
        limit = limit;
        offset = offset;
        before = before;
        after = after;
      } in
      with_page f (if env.fails w.calls then none else list_emails (ties w.calls) f w.emails)
        (tick w)

  with_account : ℕ → Text → ListQuery → AccountLookup → Ingest.World → ListResponse × Ingest.World
  unfolding with_params parse_list_params
  with_account id folder q AccountLookup.not_found w = (error 404, w)
  with_account id folder q AccountLookup.failed w = (error 500, w)
  with_account id folder q (AccountLookup.found account) w =
      with_params id folder (parse_list_params q) w

  with_id : Option ℕ → Text → ListQuery → Ingest.World → ListResponse × Ingest.World
  unfolding with_account
  with_id none folder q w = (error 400, w)
  with_id (some id) folder q w =
      if is_empty folder
      then (error 400, w)
      else with_account id folder q (env.get_account w.calls id) (tick w)

  unfoldable pub list_messages :
      Text → Text → ListQuery → Ingest.World → ListResponse × Ingest.World
  unfolding with_id
  list_messages account_id folder q w = with_id (parse_uuid account_id) folder q w
