-- ===== src/Emails.antt =====
-- The repository of emails (internal/repository/email.go) over the rows of the table emails, with
-- the queries of internal/db/emails.sql.go. NULL is `none`.
pub mod Rows
pub mod Searches
pub mod Refinement
pub mod Creation
mod Examples
use letterbox.Prelude.{
  ℕ, ◌+◌, Text, is_empty, text_eq, Bool, true, false, ◌&&◌, ◌||◌, not, Option, none, some, List, [],
  ◌∷◌, ◌++◌, length, take, drop, ltb, ◌==◌, if◌then◌else◌,
}
use letterbox.Prelude.Int.{ℤ, pos, negsuc}
use letterbox.Domain.{EmailAddress, Email, CreateEmailInput}
use letterbox.Accounts.{ptr_string, deref_string, to_int32}
use letterbox.Api.Listing.{ListEmailsFilter}
use letterbox.Emails.Rows.{
  EmailRow, same_message, is_current, equals_text, in_folder, matches, where_rows, exists_row,
  first_row, insert_row, newest_first, page, update_row,
}

-- json.Marshal and json.Unmarshal of addresses, none being their errors; which calls of the database
-- fail; how a text search reads a query and whether it is ill-formed (code 42601); how a
-- query orders rows of the same date.
pub record Env : Type 0 where
  pub marshal : List EmailAddress → Option Text
  pub unmarshal : Text → Option (List EmailAddress)
  pub fails : ℕ → Bool
  pub new_id : ℕ → ℕ
  pub now : ℕ → ℕ
  pub selects : Text → EmailRow → Bool
  pub ill_formed : Text → Bool
  pub ties : ℕ → EmailRow → EmailRow → Bool

pub record World : Type 0 where
  pub emails : List EmailRow
  pub calls : ℕ

abbrev pub tick : World → World
tick w = record w { calls = w.calls + 1 }

pub data EmailError : Type 0 where
  email_not_found email_already_exists invalid_search_query : EmailError
  marshaling unmarshaling query_failed : EmailError

pub data Result (A : Type 0) : Type 0 where
  ok : A → Result A
  err : EmailError → Result A

-- The zero time is 0.
unfoldable pub time_to_pgtype : ℕ → Option ℕ
time_to_pgtype t = if t == 0 then none else some t

abbrev pub time_of : Option ℕ → ℕ
time_of none = 0
time_of (some t) = t

abbrev pub flag_or_false : Option Bool → Bool
flag_or_false none = false
flag_or_false (some b) = b

abbrev pub flags_or_empty : Option (List Text) → List Text
flags_or_empty none = []
flags_or_empty (some flags) = flags

module _ (env : Env) where
  abbrev pub decoded : Text → Option (List EmailAddress)
  decoded s = if is_empty s then some [] else env.unmarshal s

  abbrev pub with_addresses :
      EmailRow → Option (List EmailAddress) → Option (List EmailAddress) → Result Email
  with_addresses row none cc = err unmarshaling
  with_addresses row (some to) none = err unmarshaling
  with_addresses row (some to) (some cc) = ok (record {
    id = row.id;
    account_id = row.account_id;
    uid = row.uid;
    message_id = deref_string row.message_id;
    folder = row.folder;
    subject = deref_string row.subject;
    from_email = deref_string row.from_email;
    from_name = deref_string row.from_name;
    to = to;
    cc = cc;
    date = time_of row.date;
    parsed_text = deref_string row.parsed_text;
    parsed_html = deref_string row.parsed_html;
    raw = deref_string row.raw;
    flags = flags_or_empty row.flags;
    deleted_upstream = flag_or_false row.deleted_upstream;
    created_at = row.created_at;
    attachments = none;
  })

  unfoldable pub to_email : EmailRow → Result Email
  unfolding deref_string
  to_email row = with_addresses row (decoded row.to_recipients) (decoded row.cc_recipients)

  abbrev pub add_email : Result Email → Result (List Email) → Result (List Email)
  add_email (err e) rest = err e
  add_email (ok email) (err e) = err e
  add_email (ok email) (ok emails) = ok (email ∷ emails)

  unfoldable pub to_emails : List EmailRow → Result (List Email)
  unfolding to_email
  to_emails [] = ok []
  to_emails (row ∷ rows) = add_email (to_email row) (to_emails rows)

  -- The row of InsertEmail; a nil slice of flags reads back as an empty one.
  abbrev pub inserted : CreateEmailInput → Text → Text → ℕ → EmailRow
  inserted input to cc n = record {
    id = env.new_id n;
    account_id = input.account_id;
    uid = input.uid;
    message_id = ptr_string input.message_id;
    folder = input.folder;
    subject = ptr_string input.subject;
    from_email = ptr_string input.from_email;
    from_name = ptr_string input.from_name;
    date = time_to_pgtype input.date;
    parsed_text = ptr_string input.parsed_text;
    parsed_html = ptr_string input.parsed_html;
    raw = ptr_string input.raw;
    flags = some input.flags;
    deleted_upstream = some false;
    created_at = env.now n;
    to_recipients = to;
    cc_recipients = cc;
  }

  unfoldable pub insert_email : CreateEmailInput → Text → Text → World → Result Email × World
  unfolding exists_row same_message to_email ptr_string time_to_pgtype
  insert_email input to cc w =
      if env.fails w.calls
      then (err query_failed, tick w)
      else if exists_row (same_message input.account_id input.folder input.uid) w.emails
      then (err email_already_exists, tick w)
      else (
        to_email (inserted input to cc w.calls),
        record (tick w) { emails = w.emails ++ inserted input to cc w.calls ∷ [] },
      )

  abbrev pub with_recipients :
      CreateEmailInput → Option Text → Option Text → World → Result Email × World
  with_recipients input none cc w = (err marshaling, w)
  with_recipients input (some to) none w = (err marshaling, w)
  with_recipients input (some to) (some cc) w = insert_email input to cc w

  unfoldable pub create : CreateEmailInput → World → Result Email × World
  unfolding insert_email
  create input w = with_recipients input (env.marshal input.to) (env.marshal input.cc) w

  abbrev pub read : Option EmailRow → Result Email
  read none = err email_not_found
  read (some row) = to_email row

  unfoldable pub get : ℕ → World → Result Email × World
  unfolding first_row to_email
  get id w =
      if env.fails w.calls
      then (err query_failed, tick w)
      else (read (first_row (λ row. row.id == id) w.emails), tick w)

  unfoldable pub get_by_uid : ℕ → Text → ℕ → World → Result Email × World
  unfolding first_row to_email same_message
  get_by_uid account folder uid w =
      if env.fails w.calls
      then (err query_failed, tick w)
      else (read (first_row (same_message account folder uid) w.emails), tick w)

  abbrev pub listed : Option (List EmailRow) → Result (List Email)
  listed none = err query_failed
  listed (some rows) = to_emails rows

  unfoldable pub list : ListEmailsFilter → World → Result (List Email) × World
  unfolding newest_first where_rows matches to_int32 to_emails
  list f w = if env.fails w.calls then (err query_failed, tick w) else (
    listed (
        page (to_int32 (pos f.limit)) (to_int32 (pos f.offset))
          (newest_first (env.ties w.calls) (where_rows (matches f) w.emails))),
    tick w,
  )

  unfoldable pub exists_by_uid : ℕ → Text → ℕ → World → Result Bool × World
  unfolding exists_row same_message
  exists_by_uid account folder uid w =
      if env.fails w.calls
      then (err query_failed, tick w)
      else (ok (exists_row (same_message account folder uid) w.emails), tick w)

  -- An empty identifier is NULL, which equals no column.
  unfoldable pub exists_by_message_id : ℕ → Text → World → Result Bool × World
  unfolding exists_row ptr_string
  exists_by_message_id account message_id w =
      if env.fails w.calls then (err query_failed, tick w) else (
        ok (
            exists_row
              (λ row.
                row.account_id == account && equals_text row.message_id (ptr_string message_id))
              w.emails),
        tick w,
      )

  -- The error of an update, nil being `none`.
  unfoldable pub update : ℕ → (EmailRow → EmailRow) → World → Option EmailError × World
  unfolding update_row
  update id f w =
      let (n, rows) = update_row id f w.emails in
      if env.fails w.calls
      then (some query_failed, tick w)
      else ((if n == 0 then some email_not_found else none), record (tick w) { emails = rows })

  unfoldable pub update_flags : ℕ → List Text → World → Option EmailError × World
  unfolding update
  update_flags id flags w = update id (λ row. record row { flags = some flags }) w

  unfoldable pub mark_deleted_upstream : ℕ → World → Option EmailError × World
  unfolding update
  mark_deleted_upstream id w = update id (λ row. record row { deleted_upstream = some true }) w

  unfoldable pub count_in_folder : ℕ → Text → World → Result ℕ × World
  unfolding where_rows
  count_in_folder account folder w =
      if env.fails w.calls
      then (err query_failed, tick w)
      else (ok (length (where_rows (in_folder account folder) w.emails)), tick w)
