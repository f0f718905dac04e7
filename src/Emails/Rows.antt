-- ===== src/Emails/Rows.antt =====
-- The rows of the table emails (internal/db/models.go) and what the queries of
-- internal/db/emails.sql.go select, order and update. NULL is `none`.
use letterbox.Prelude.{
  ℕ, ◌+◌, Text, text_eq, Bool, true, false, ◌&&◌, ◌||◌, not, Option, none, some, List, [], ◌∷◌,
  take, drop, ltb, ◌==◌, if◌then◌else◌,
}
use letterbox.Prelude.Int.{ℤ, pos, negsuc}
use letterbox.Api.Listing.{ListEmailsFilter}

-- db.Email; the search vector is what `selects` reads.
pub record EmailRow : Type 0 where
  pub id : ℕ
  pub account_id : ℕ
  pub uid : ℕ
  pub message_id : Option Text
  pub folder : Text
  pub subject : Option Text
  pub from_email : Option Text
  pub from_name : Option Text
  pub date : Option ℕ
  pub parsed_text : Option Text
  pub parsed_html : Option Text
  pub raw : Option Text
  pub flags : Option (List Text)
  pub deleted_upstream : Option Bool
  pub created_at : ℕ
  pub to_recipients : Text
  pub cc_recipients : Text

unfoldable pub same_message : ℕ → Text → ℕ → EmailRow → Bool
same_message account folder uid row =
    row.account_id == account && (text_eq row.folder folder && row.uid == uid)

-- The columns that a query's WHERE looks at; a comparison with NULL does not hold.
abbrev pub is_current : Option Bool → Bool
is_current none = false
is_current (some deleted) = not deleted

abbrev pub equals_text : Option Text → Option Text → Bool
equals_text (some a) (some b) = text_eq a b
equals_text _ _ = false

abbrev pub date_before : Option ℕ → Option ℕ → Bool
date_before none _ = true
date_before (some t) none = false
date_before (some t) (some date) = ltb date t

abbrev pub date_after : Option ℕ → Option ℕ → Bool
date_after none _ = true
date_after (some t) none = false
date_after (some t) (some date) = ltb t date

abbrev pub in_folder : ℕ → Text → EmailRow → Bool
in_folder account folder row =
    row.account_id == account && (text_eq row.folder folder && is_current row.deleted_upstream)

unfoldable pub matches : ListEmailsFilter → EmailRow → Bool
matches f row =
    in_folder f.account_id f.folder row
    && (date_before f.before row.date && date_after f.after row.date)

unfoldable pub where_rows : (EmailRow → Bool) → List EmailRow → List EmailRow
where_rows p [] = []
where_rows p (row ∷ rows) = let rest = where_rows p rows in if p row then row ∷ rest else rest

unfoldable pub exists_row : (EmailRow → Bool) → List EmailRow → Bool
exists_row p [] = false
exists_row p (row ∷ rows) = p row || exists_row p rows

unfoldable pub first_row : (EmailRow → Bool) → List EmailRow → Option EmailRow
first_row p [] = none
first_row p (row ∷ rows) = let rest = first_row p rows in if p row then some row else rest

-- date DESC puts NULL first.
abbrev pub goes_before : Option ℕ → Option ℕ → Bool
goes_before _ none = false
goes_before none (some other) = true
goes_before (some date) (some other) = ltb other date

-- ORDER BY date DESC, as an insertion sort. SQL leaves the order of rows with equal dates, or
-- with NULL, to the database: `ties` says whether a row goes before another such row.
module _ (ties : EmailRow → EmailRow → Bool) where
  abbrev pub precedes : EmailRow → EmailRow → Bool
  precedes row other =
      goes_before row.date other.date || (not (goes_before other.date row.date) && ties row other)

  unfoldable pub insert_row : EmailRow → List EmailRow → List EmailRow
  insert_row row [] = row ∷ []
  insert_row row (other ∷ rows) =
      let rest = insert_row row rows in
      if precedes row other then row ∷ other ∷ rows else other ∷ rest

  unfoldable pub newest_first : List EmailRow → List EmailRow
  unfolding insert_row
  newest_first [] = []
  newest_first (row ∷ rows) = insert_row row (newest_first rows)

-- LIMIT and OFFSET, which the database refuses where one is negative
abbrev pub page : ℤ → ℤ → List EmailRow → Option (List EmailRow)
page (negsuc _) _ rows = none
page (pos limit) (negsuc _) rows = none
page (pos limit) (pos offset) rows = some (take limit (drop offset rows))

-- UPDATE of the rows with an id: the rows, and their number.
unfoldable pub update_row : ℕ → (EmailRow → EmailRow) → List EmailRow → ℕ × List EmailRow
update_row id f [] = (0, [])
update_row id f (row ∷ rows) =
    let (n, rest) = update_row id f rows in
    if row.id == id then (n + 1, f row ∷ rest) else (n, row ∷ rest)
