-- ===== src/Emails/Searches.antt =====
-- The searches of the repository of emails (Search and CountSearch in internal/repository/email.go).
use letterbox.Prelude.{
  ℕ, Text, text_eq, Bool, true, ◌&&◌, Option, none, some, List, length, ◌==◌, if◌then◌else◌,
}
use letterbox.Prelude.Int.{pos}
use letterbox.Domain.{Email}
use letterbox.Accounts.{ptr_string, to_int32}
use letterbox.Emails.Rows.{EmailRow, is_current, where_rows, newest_first, page}
use letterbox.Emails.{
  Env, World, tick, invalid_search_query, query_failed, Result, ok, err, to_emails, listed,
}

-- domain.SearchEmailsFilter
pub record SearchEmailsFilter : Type 0 where
  pub account_id : ℕ
  pub query : Text
  pub folder : Text
  pub limit : ℕ
  pub offset : ℕ

abbrev pub some_folder : Option Text → Text → Bool
some_folder none folder = true
some_folder (some f) folder = text_eq folder f

module _ (env : Env) where
  abbrev pub found_by : ℕ → Text → Text → EmailRow → Bool
  found_by account query folder row =
      row.account_id == account
      && (is_current row.deleted_upstream
          && (env.selects query row && some_folder (ptr_string folder) row.folder))

  unfoldable pub search : SearchEmailsFilter → World → Result (List Email) × World
  unfolding newest_first where_rows to_int32 to_emails ptr_string
  search f w =
      if env.fails w.calls
      then (err query_failed, tick w)
      else if env.ill_formed f.query
      then (err invalid_search_query, tick w)
      else (
        listed env (
            page (to_int32 (pos f.limit)) (to_int32 (pos f.offset)) (
              newest_first (env.ties w.calls)
                (where_rows (found_by f.account_id f.query f.folder) w.emails))),
        tick w,
      )

  unfoldable pub count_search : ℕ → Text → Text → World → Result ℕ × World
  unfolding where_rows ptr_string
  count_search account query folder w =
      if env.fails w.calls
      then (err query_failed, tick w)
      else if env.ill_formed query
      then (err invalid_search_query, tick w)
      else (ok (length (where_rows (found_by account query folder) w.emails)), tick w)
