-- ===== src/Api/SearchHandler/Bounds.antt =====
-- The bounds of a search's answer (internal/api/search_handler.go).
use letterbox.Prelude.{
  Bool, ℕ, zero, suc, ◌^◌, ◌≡◌, ◌≤◌, ◌<◌, refl, ap, Text, is_empty, Option, none, some, List, [],
  ◌∷◌, length, take, drop, if_ind, arith,
}
use letterbox.Prelude.Int.{ℤ, pos, negsuc}
use letterbox.Domain.{Email}
use letterbox.Accounts.{to_int32}
use letterbox.Accounts.RoundTrip.{to_int32-IsInt32}
use letterbox.Ingest.{AccountLookup}
use letterbox.Api.Listing.{parse_pagination_params}
use letterbox.Api.Listing.Pages.{parse_pagination_params-bounds}
use letterbox.Api.Subjects.{trim_space}
use letterbox.Emails
use letterbox.Emails.{to_email, to_emails, add_email, listed}
use letterbox.Emails.Searches
use letterbox.Emails.Searches.{SearchEmailsFilter, found_by}
use letterbox.Emails.Rows.{EmailRow, where_rows, insert_row, newest_first, page}
use letterbox.Api.SearchHandler.{
  SearchQuery, SearchResponse, found, error, Env, to_message_list_items, counted, searched,
  with_page, with_account, with_id, search,
}

length-insert_row :
    (ties : EmailRow → EmailRow → Bool) (row : EmailRow) (rows : List EmailRow)
    → length (insert_row ties row rows) ≡ suc (length rows)
unfolding insert_row
length-insert_row ties row [] = refl
length-insert_row ties row (other ∷ rows) = ground (arith, length-insert_row ties row rows)

length-newest_first :
    (ties : EmailRow → EmailRow → Bool) (rows : List EmailRow)
    → length (newest_first ties rows) ≡ length rows
unfolding newest_first
length-newest_first ties [] = refl
length-newest_first ties (row ∷ rows) =
    ground
      (arith, length-insert_row ties row (newest_first ties rows), length-newest_first ties rows)

length-take-le :
    (n : ℕ) (rows : List EmailRow)
    → (length (take n rows) ≤ n) × (length (take n rows) ≤ length rows)
length-take-le zero rows = (omega arith, omega arith)
length-take-le (suc n) [] = (omega arith, omega arith)
length-take-le (suc n) (row ∷ rows) =
    let h = length-take-le n rows in (omega (arith, h), omega (arith, h))

length-drop-le : (n : ℕ) (rows : List EmailRow) → length (drop n rows) ≤ length rows
length-drop-le zero rows = omega arith
length-drop-le (suc n) [] = omega arith
length-drop-le (suc n) (row ∷ rows) = omega (arith, length-drop-le n rows)

length-to_message_list_items : (es : List Email) → length (to_message_list_items es) ≡ length es
unfolding to_message_list_items
length-to_message_list_items [] = refl
length-to_message_list_items (e ∷ es) = ap suc (length-to_message_list_items es)

-- At most the limit's messages, and at most the total.
abbrev IsPage : ℕ → ℕ → Emails.Result (List Email) → Type 0
IsPage limit total (Emails.ok es) = (length es ≤ limit) × (length es ≤ total)
IsPage limit total (Emails.err e) = Unit

-- An answer with messages has at most its limit of them, which is at most 100, and at most its
-- total.
abbrev pub IsBounded : SearchResponse → Type 0
IsBounded (found items total limit offset) =
    (length items ≤ limit) × ((limit ≤ 100) × (length items ≤ total))
IsBounded (error status) = Unit

abbrev HasLength : ℕ → Emails.Result (List Email) → Type 0
HasLength n (Emails.ok es) = length es ≡ n
HasLength n (Emails.err e) = Unit

IsPage-length :
    (limit total n : ℕ) (r : Emails.Result (List Email))
    → n ≤ limit
    → n ≤ total
    → HasLength n r
    → IsPage limit total r
IsPage-length limit total n (Emails.ok es) h h' e = (omega (arith, h, e), omega (arith, h', e))
IsPage-length limit total n (Emails.err _) h h' e = tt

module _ (env : Emails.Env) where
  add_email-HasLength :
      (r : Emails.Result Email) (rest : Emails.Result (List Email)) (n : ℕ)
      → HasLength n rest
      → HasLength (suc n) (add_email env r rest)
  add_email-HasLength (Emails.err e) rest n h = tt
  add_email-HasLength (Emails.ok email) (Emails.err e) n h = tt
  add_email-HasLength (Emails.ok email) (Emails.ok es) n h = ap suc h

  to_emails-HasLength : (rows : List EmailRow) → HasLength (length rows) (to_emails env rows)
  unfolding to_emails
  to_emails-HasLength [] = refl
  to_emails-HasLength (row ∷ rows) =
      add_email-HasLength (to_email env row) (to_emails env rows) (length rows)
        (to_emails-HasLength rows)

  listed-IsPage :
      (limit : ℕ) (offset : ℤ) (rows : List EmailRow)
      → IsPage limit (length rows) (listed env (page (pos limit) offset rows))
  listed-IsPage limit (negsuc o) rows = tt
  listed-IsPage limit (pos o) rows =
      let h = length-take-le limit (drop o rows) in
      IsPage-length limit (length rows) (length (take limit (drop o rows)))
        (to_emails env (take limit (drop o rows))) h.0 (omega (arith, h.1, length-drop-le o rows))
        (to_emails-HasLength (take limit (drop o rows)))

  selected : SearchEmailsFilter → Emails.World → List EmailRow
  selected f w = where_rows (found_by env f.account_id f.query f.folder) w.emails

  -- The table stays, and a page of the rows found is what is listed.
  search-IsPage :
      (f : SearchEmailsFilter) (w : Emails.World)
      → f.limit < 2 ^ 31
      → ((Searches.search env f w).1.emails ≡ w.emails)
        × IsPage f.limit (length (selected f w)) (Searches.search env f w).0
  unfolding Searches.search selected
  search-IsPage f w small =
      if_ind
        (λ (r : Emails.Result (List Email) × Emails.World).
          (r.1.emails ≡ w.emails) × IsPage f.limit (length (selected f w)) r.0)
        (env.fails w.calls) _ _ (λ _. (refl, tt))
        (λ _.
          if_ind
            (λ (r : Emails.Result (List Email) × Emails.World).
              (r.1.emails ≡ w.emails) × IsPage f.limit (length (selected f w)) r.0)
            (env.ill_formed f.query) _ _ (λ _. (refl, tt))
            (λ _. (
              refl,
              rw
                  (
                    to_int32-IsInt32 (pos f.limit) small,
                    ← length-newest_first (env.ties w.calls) (selected f w),
                  )
                  (listed-IsPage f.limit (to_int32 (pos f.offset))
                    (newest_first (env.ties w.calls) (selected f w))),
            )))

module _ (env : Env) where
  counted-IsBounded :
      (f : SearchEmailsFilter) (es : List Email) (w : Emails.World)
      → f.limit ≤ 100
      → length es ≤ f.limit
      → length es ≤ length (selected env.emails f w)
      → IsBounded
          (counted env f es (Searches.count_search env.emails f.account_id f.query f.folder w)).0
  unfolding Searches.count_search selected
  counted-IsBounded f es w small h h' =
      if_ind (λ (r : Emails.Result ℕ × Emails.World). IsBounded (counted env f es r).0)
        (env.emails.fails w.calls) _ _ (λ _. tt)
        (λ _.
          if_ind (λ (r : Emails.Result ℕ × Emails.World). IsBounded (counted env f es r).0)
            (env.emails.ill_formed f.query) _ _ (λ _. tt)
            (λ _. rw (length-to_message_list_items es) (h, (small, h'))))

  searched-IsBounded :
      (f : SearchEmailsFilter) (r : Emails.Result (List Email)) (w w' : Emails.World)
      → f.limit ≤ 100
      → w'.emails ≡ w.emails
      → IsPage f.limit (length (selected env.emails f w)) r
      → IsBounded (searched env f (r, w')).0
  unfolding selected
  searched-IsBounded f (Emails.err Emails.invalid_search_query) w w' small same h = tt
  searched-IsBounded f (Emails.err Emails.email_not_found) w w' small same h = tt
  searched-IsBounded f (Emails.err Emails.email_already_exists) w w' small same h = tt
  searched-IsBounded f (Emails.err Emails.marshaling) w w' small same h = tt
  searched-IsBounded f (Emails.err Emails.unmarshaling) w w' small same h = tt
  searched-IsBounded f (Emails.err Emails.query_failed) w w' small same h = tt
  searched-IsBounded f (Emails.ok es) w w' small same h =
      counted-IsBounded f es w' small h.0 (rw same h.1)

  with_page-IsBounded :
      (account : ℕ) (query folder : Text) (o : Option (ℕ × ℕ)) (w : Emails.World)
      → ((limit offset : ℕ) → o ≡ some (limit, offset) → limit ≤ 100)
      → IsBounded (with_page env account query folder o w).0
  unfolding with_page
  with_page-IsBounded account query folder none w h = tt
  with_page-IsBounded account query folder (some (limit, offset)) w h =
      let f : SearchEmailsFilter = record {
        account_id = account;
        query = query;
        folder = folder;
        limit = limit;
        offset = offset;
      } in
      let small = h limit offset refl in
      let r = Searches.search env.emails f w in
      let p = search-IsPage env.emails f w (omega (arith, small)) in
      searched-IsBounded f r.0 w r.1 small p.0 p.1

  with_account-IsBounded :
      (l : AccountLookup) (account : ℕ) (query : Text) (q : SearchQuery) (w : Emails.World)
      → IsBounded (with_account env l account query q w).0
  with_account-IsBounded AccountLookup.not_found account query q w = tt
  with_account-IsBounded AccountLookup.failed account query q w = tt
  with_account-IsBounded (AccountLookup.found _) account query q w =
      with_page-IsBounded account query q.folder (parse_pagination_params q.page) w
        (λ limit offset e. (parse_pagination_params-bounds q.page limit offset e).1)

  with_id-IsBounded :
      (id : Option ℕ) (query : Text) (q : SearchQuery) (w : Emails.World)
      → IsBounded (with_id env id query q w).0
  with_id-IsBounded none query q w = tt
  with_id-IsBounded (some account) query q w =
      with_account-IsBounded (env.get_account w.calls account) account query q (Emails.tick w)

  -- Whatever is asked for, a search that is answered shows at most its limit of messages, which is
  -- at most 100, and at most as many as the total it reports.
  pub search-IsBounded : (q : SearchQuery) (w : Emails.World) → IsBounded (search env q w).0
  unfolding search
  search-IsBounded q w =
      let query = env.utf8 (trim_space (env.runes q.q)) in
      if_ind (λ (r : SearchResponse × Emails.World). IsBounded r.0) (is_empty query) _ _ (λ _. tt)
        (λ _.
          if_ind (λ (r : SearchResponse × Emails.World). IsBounded r.0) (is_empty q.account_id) _ _
            (λ _. tt) (λ _. with_id-IsBounded (env.parse_uuid q.account_id) query q w))
