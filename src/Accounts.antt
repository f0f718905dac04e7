-- ===== src/Accounts.antt =====
-- The repository of accounts (internal/repository/account.go), over the table accounts. An
-- operation gives its result and the new state; passwords are encrypted in the table.
pub mod RoundTrip
mod Examples
use letterbox.Prelude.{
  ℕ, ◌+◌, ◌-◌, ◌%◌, ◌^◌, Text, is_empty, Bool, true, false, Option, none, some, List, [], ◌∷◌, ◌++◌,
  length, ltb, ◌||◌, ◌&&◌, ◌==◌, if◌then◌else◌,
}
use letterbox.Prelude.Int.{ℤ, pos, negsuc}
use letterbox.Domain.{Account, CreateAccountInput}
use letterbox.Crypto
use letterbox.Crypto.{Cipher, CryptoError, encrypt, decrypt}

-- db.Account; NULL is `none`.
pub record AccountRow : Type 0 where
  pub id : ℕ
  pub name : Text
  pub imap_host : Text
  pub imap_port : ℤ
  pub imap_user : Text
  pub imap_password : Text
  pub smtp_host : Option Text
  pub smtp_port : Option ℤ
  pub smtp_user : Option Text
  pub smtp_password : Option Text
  pub created_at : ℕ

pub record Env : Type 0 where
  pub cipher : Cipher
  pub encryption_key : Text
  -- what rand.Read fills in
  pub random : ℕ → Option Text
  pub fails : ℕ → Bool
  pub new_id : ℕ → ℕ
  pub now : ℕ → ℕ
  -- how a query orders rows of the same time
  pub ties : ℕ → AccountRow → AccountRow → Bool

pub record World : Type 0 where
  pub accounts : List AccountRow
  pub calls : ℕ

abbrev pub tick : World → World
tick w = record w { calls = w.calls + 1 }

pub data AccountError : Type 0 where
  empty_imap_password account_not_found query_failed : AccountError
  encrypting decrypting : CryptoError → AccountError

pub data Result (A : Type 0) : Type 0 where
  ok : A → Result A
  err : AccountError → Result A

unfoldable pub ptr_string : Text → Option Text
ptr_string s = if is_empty s then none else some s

unfoldable pub deref_string : Option Text → Text
deref_string none = []
deref_string (some s) = s

-- int32(i) of an int
unfoldable pub to_int32 : ℤ → ℤ
to_int32 (pos n) = let m = n % 2 ^ 32 in if ltb m (2 ^ 31) then pos m else negsuc (2 ^ 32 - 1 - m)
to_int32 (negsuc n) =
    let m = n % 2 ^ 32 in if ltb m (2 ^ 31) then negsuc m else pos (2 ^ 32 - 1 - m)

unfoldable pub ptr_int32 : ℤ → Option ℤ
unfolding to_int32
ptr_int32 (pos n) = if n == 0 then none else some (to_int32 (pos n))
ptr_int32 (negsuc n) = some (to_int32 (negsuc n))

unfoldable pub deref_int32 : Option ℤ → ℤ
deref_int32 none = pos 0
deref_int32 (some i) = i

unfoldable pub find_account : ℕ → List AccountRow → Option AccountRow
find_account id [] = none
find_account id (row ∷ rows) =
    let rest = find_account id rows in if row.id == id then some row else rest

unfoldable pub without : ℕ → List AccountRow → List AccountRow
without id [] = []
without id (row ∷ rows) = let rest = without id rows in if row.id == id then rest else row ∷ rest

-- ORDER BY created_at DESC, as an insertion sort. SQL leaves the order of rows of the same time to
-- the database: `ties` says whether a row goes before another such row.
module _ (ties : AccountRow → AccountRow → Bool) where
  abbrev pub precedes : AccountRow → AccountRow → Bool
  precedes row other =
      ltb other.created_at row.created_at || (row.created_at == other.created_at && ties row other)

  unfoldable pub insert_by_created : AccountRow → List AccountRow → List AccountRow
  insert_by_created row [] = row ∷ []
  insert_by_created row (other ∷ rows) =
      let rest = insert_by_created row rows in
      if precedes row other then row ∷ other ∷ rows else other ∷ rest

  unfoldable pub newest_first : List AccountRow → List AccountRow
  unfolding insert_by_created
  newest_first [] = []
  newest_first (row ∷ rows) = insert_by_created row (newest_first rows)

module _ (env : Env) where
  unfoldable pub with_passwords : AccountRow → Crypto.Result → Crypto.Result → Result Account
  unfolding deref_string deref_int32
  with_passwords row (Crypto.err e) smtp = err (decrypting e)
  with_passwords row (Crypto.ok imap) (Crypto.err e) = err (decrypting e)
  with_passwords row (Crypto.ok imap) (Crypto.ok smtp) = ok (record {
    id = row.id;
    name = row.name;
    imap_host = row.imap_host;
    imap_port = row.imap_port;
    imap_user = row.imap_user;
    imap_password = imap;
    smtp_host = deref_string row.smtp_host;
    smtp_port = deref_int32 row.smtp_port;
    smtp_user = deref_string row.smtp_user;
    smtp_password = smtp;
    created_at = row.created_at;
  })

  -- No password is decrypted where there is none.
  unfoldable pub decrypt_optional : Option Text → Crypto.Result
  unfolding decrypt
  decrypt_optional none = Crypto.ok []
  decrypt_optional (some s) =
      if is_empty s then Crypto.ok [] else decrypt env.cipher s env.encryption_key

  unfoldable pub to_account : AccountRow → Result Account
  unfolding with_passwords decrypt_optional decrypt
  to_account row =
      with_passwords row (decrypt env.cipher row.imap_password env.encryption_key)
        (decrypt_optional row.smtp_password)

  abbrev pub inserted : CreateAccountInput → Text → Option Text → ℕ → AccountRow
  inserted input imap smtp n = record {
    id = env.new_id n;
    name = input.name;
    imap_host = input.imap_host;
    imap_port = to_int32 input.imap_port;
    imap_user = input.imap_user;
    imap_password = imap;
    smtp_host = ptr_string input.smtp_host;
    smtp_port = ptr_int32 input.smtp_port;
    smtp_user = ptr_string input.smtp_user;
    smtp_password = smtp;
    created_at = env.now n;
  }

  unfoldable pub insert_account :
      CreateAccountInput → Text → Option Text → World → Result Account × World
  unfolding to_account ptr_string ptr_int32 to_int32
  insert_account input imap smtp w = if env.fails w.calls then (err query_failed, tick w) else (
    to_account (inserted input imap smtp w.calls),
    record (tick w) { accounts = w.accounts ++ inserted input imap smtp w.calls ∷ [] },
  )

  unfoldable pub with_smtp_password :
      CreateAccountInput → Text → Crypto.Result → World → Result Account × World
  unfolding insert_account
  with_smtp_password input imap (Crypto.err e) w = (err (encrypting e), w)
  with_smtp_password input imap (Crypto.ok smtp) w = insert_account input imap (some smtp) w

  unfoldable pub with_imap_password :
      CreateAccountInput → Crypto.Result → World → Result Account × World
  unfolding with_smtp_password encrypt
  with_imap_password input (Crypto.err e) w = (err (encrypting e), w)
  with_imap_password input (Crypto.ok imap) w =
      if is_empty input.smtp_password
      then insert_account input imap none w
      else with_smtp_password input imap
          (encrypt env.cipher input.smtp_password env.encryption_key (env.random w.calls)) (tick w)

  unfoldable pub create : CreateAccountInput → World → Result Account × World
  unfolding with_imap_password encrypt
  create input w =
      if is_empty input.imap_password
      then (err empty_imap_password, w)
      else with_imap_password input
          (encrypt env.cipher input.imap_password env.encryption_key (env.random w.calls)) (tick w)

  abbrev read : Option AccountRow → Result Account
  read none = err account_not_found
  read (some row) = to_account row

  unfoldable pub get : ℕ → World → Result Account × World
  unfolding find_account to_account
  get id w =
      if env.fails w.calls
      then (err query_failed, tick w)
      else (read (find_account id w.accounts), tick w)

  abbrev add_account : Result Account → Result (List Account) → Result (List Account)
  add_account (err e) rest = err e
  add_account (ok account) (err e) = err e
  add_account (ok account) (ok accounts) = ok (account ∷ accounts)

  unfoldable pub to_accounts : List AccountRow → Result (List Account)
  unfolding to_account
  to_accounts [] = ok []
  to_accounts (row ∷ rows) = add_account (to_account row) (to_accounts rows)

  unfoldable pub list : World → Result (List Account) × World
  unfolding to_accounts newest_first
  list w =
      if env.fails w.calls
      then (err query_failed, tick w)
      else (to_accounts (newest_first (env.ties w.calls) w.accounts), tick w)

  -- The error of `Delete`, nil being `none`.
  unfoldable pub delete : ℕ → World → Option AccountError × World
  unfolding without
  delete id w = if env.fails w.calls then (some query_failed, tick w) else (
    (if length (without id w.accounts) == length w.accounts then some account_not_found else none),
    record (tick w) { accounts = without id w.accounts },
  )
