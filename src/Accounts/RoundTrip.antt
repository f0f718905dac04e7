-- ===== src/Accounts/RoundTrip.antt =====
-- An account is read back as it was created (internal/repository/account.go).
use letterbox.Prelude.{
  ℕ, ◌+◌, ◌^◌, ◌<◌, ◌≡◌, ◌≢◌, refl, ap, sym, Text, is_empty, true, false, Bool-cases, inl, inr,
  Option, none, some, List, [], ◌∷◌, ◌++◌, length, ==_iff, arith,
}
use letterbox.Prelude.Int.{ℤ, pos, negsuc}
use letterbox.Domain.{Account, CreateAccountInput}
use letterbox.Crypto
use letterbox.Crypto.{Cipher, IsLawful, encrypt, decrypt}
use letterbox.Crypto.Secrets.{decrypt-encrypt, encrypt-sealed, encrypt-some}
use letterbox.Accounts.{
  AccountRow, Env, World, tick, Result, ok, ptr_string, deref_string, to_int32, ptr_int32,
  deref_int32, with_passwords, decrypt_optional, to_account, inserted, insert_account,
  with_smtp_password, with_imap_password, create, find_account, get,
}

-- The number is an int32.
abbrev pub IsInt32 : ℤ → Type 0
IsInt32 (pos n) = n < 2 ^ 31
IsInt32 (negsuc n) = n < 2 ^ 31

pub to_int32-IsInt32 : (i : ℤ) → IsInt32 i → to_int32 i ≡ i
unfolding to_int32
to_int32-IsInt32 (pos n) h = ground arith
to_int32-IsInt32 (negsuc n) h = ground arith

deref-ptr_int32 : (i : ℤ) → IsInt32 i → deref_int32 (ptr_int32 i) ≡ i
unfolding deref_int32 ptr_int32
deref-ptr_int32 (pos n) h = ground (arith, to_int32-IsInt32 (pos n) h, ==_iff n 0)
deref-ptr_int32 (negsuc n) h = to_int32-IsInt32 (negsuc n) h

pub deref-ptr_string : (s : Text) → deref_string (ptr_string s) ≡ s
unfolding deref_string ptr_string
deref-ptr_string [] = refl
deref-ptr_string (c ∷ s) = refl

is_empty-some : (s : Text) → s ≢ [] → is_empty s ≡ false
is_empty-some [] h = absurd (h refl)
is_empty-some (c ∷ s) h = refl

empty-is_empty : (s : Text) → is_empty s ≡ true → s ≡ []
empty-is_empty [] h = refl
empty-is_empty (c ∷ s) h = absurd (cc (h))

-- The account that an input describes.
abbrev pub account_of : Env → CreateAccountInput → ℕ → Account
account_of env input n = record {
  id = env.new_id n;
  name = input.name;
  imap_host = input.imap_host;
  imap_port = input.imap_port;
  imap_user = input.imap_user;
  imap_password = input.imap_password;
  smtp_host = input.smtp_host;
  smtp_port = input.smtp_port;
  smtp_user = input.smtp_user;
  smtp_password = input.smtp_password;
  created_at = env.now n;
}

-- The surroundings work: the cipher and the encoding keep to their documentation, the key and the
-- nonces have their sizes, and no query fails.
pub record IsWorking (env : Env) : Type 0 where
  pub lawful : IsLawful env.cipher
  pub key : length env.encryption_key ≡ 32
  pub nonces :
      (n : ℕ)
      → (nonce : Text) × (env.random n ≡ some nonce) × (length nonce ≡ env.cipher.nonce_size)
  pub queries : (n : ℕ) → env.fails n ≡ false

-- The text is the encoding of a nonce of the cipher's size and of the password, sealed under the
-- key and that nonce.
abbrev pub IsSealed : Env → Text → Text → Type 0
IsSealed env p s =
    (nonce : Text) × (length nonce ≡ env.cipher.nonce_size)
    × (s ≡ env.cipher.encode_base64 (nonce ++ env.cipher.seal env.encryption_key nonce p))

-- NULL for an empty password
abbrev pub IsSealedIfAny : Env → Text → Option Text → Type 0
IsSealedIfAny env p none = p ≡ []
IsSealedIfAny env p (some s) = IsSealed env p s

same_ok : {a b : Text} {r : Crypto.Result} → r ≡ Crypto.ok a → r ≡ Crypto.ok b → a ≡ b
same_ok is is' = cc (is, is')

module _ (env : Env) (works : IsWorking env) where
  encrypts :
      (p : Text) (n : ℕ)
      → (s : Text) × (encrypt env.cipher p env.encryption_key (env.random n) ≡ Crypto.ok s)
        × (decrypt env.cipher s env.encryption_key ≡ Crypto.ok p)
        × (s ≢ [])
        × IsSealed env p s
  encrypts p n =
      let (nonce, eq, size) = works.nonces n in
      let (s, enc, dec) =
        decrypt-encrypt env.cipher works.lawful p env.encryption_key nonce works.key size in
      (
        s,
        rw eq enc,
        dec,
        encrypt-some env.cipher works.lawful p env.encryption_key nonce s size enc,
        (
          nonce,
          size,
          same_ok enc (encrypt-sealed env.cipher works.lawful p env.encryption_key nonce works.key),
        ),
      )

  to_account-inserted :
      (input : CreateAccountInput) (imap : Text) (smtp : Option Text) (n : ℕ)
      → IsInt32 input.imap_port
      → IsInt32 input.smtp_port
      → decrypt env.cipher imap env.encryption_key ≡ Crypto.ok input.imap_password
      → decrypt_optional env smtp ≡ Crypto.ok input.smtp_password
      → to_account env (inserted env input imap smtp n) ≡ ok (account_of env input n)
  unfolding to_account with_passwords
  to_account-inserted input imap smtp n small small' dec dec' = rw dec (
      rw dec' (
        rw (to_int32-IsInt32 input.imap_port small) (
          rw (deref-ptr_int32 input.smtp_port small')
            (rw (deref-ptr_string input.smtp_host) (rw (deref-ptr_string input.smtp_user) refl)))))

  find_account-last :
      (rows : List AccountRow) (row : AccountRow)
      → find_account row.id rows ≡ none
      → find_account row.id (rows ++ row ∷ []) ≡ some row
  unfolding find_account
  find_account-last [] row h = ground (arith, ==_iff row.id row.id)
  find_account-last (other ∷ rows) row h = ground (arith, find_account-last rows row)

  -- What creating an account gives, what reading it gives afterwards, and what the row that the
  -- table then has more holds for the passwords.
  abbrev pub IsReadBack : CreateAccountInput → List AccountRow → Result Account × World → Type 0
  IsReadBack input before made =
      (n : ℕ) × (row : AccountRow) × (made.0 ≡ ok (account_of env input n))
      × ((get env (env.new_id n) made.1).0 ≡ ok (account_of env input n))
      × (made.1.accounts ≡ before ++ row ∷ [])
      × IsSealed env input.imap_password row.imap_password
      × IsSealedIfAny env input.smtp_password row.smtp_password

  insert_account-IsReadBack :
      (input : CreateAccountInput) (imap : Text) (smtp : Option Text) (w : World)
      → IsInt32 input.imap_port
      → IsInt32 input.smtp_port
      → ((n : ℕ) → find_account (env.new_id n) w.accounts ≡ none)
      → decrypt env.cipher imap env.encryption_key ≡ Crypto.ok input.imap_password
      → decrypt_optional env smtp ≡ Crypto.ok input.smtp_password
      → IsSealed env input.imap_password imap
      → IsSealedIfAny env input.smtp_password smtp
      → IsReadBack input w.accounts (insert_account env input imap smtp w)
  unfolding insert_account get
  insert_account-IsReadBack input imap smtp w small small' fresh dec dec' hidden hidden' =
      rw (works.queries w.calls, IsReadBack)
        (
          w.calls,
          inserted env input imap smtp w.calls,
          to_account-inserted input imap smtp w.calls small small' dec dec',
          rw (works.queries (w.calls + 1)) (
              rw
                (find_account-last w.accounts (inserted env input imap smtp w.calls)
                  (fresh w.calls))
                (to_account-inserted input imap smtp w.calls small small' dec dec')),
          refl,
          hidden,
          hidden',
        )

  with_smtp_password-IsReadBack :
      (input : CreateAccountInput) (imap : Text) (w : World)
      → IsInt32 input.imap_port
      → IsInt32 input.smtp_port
      → ((n : ℕ) → find_account (env.new_id n) w.accounts ≡ none)
      → decrypt env.cipher imap env.encryption_key ≡ Crypto.ok input.imap_password
      → IsSealed env input.imap_password imap
      → IsReadBack input w.accounts (
          with_smtp_password env input imap
            (encrypt env.cipher input.smtp_password env.encryption_key (env.random w.calls))
            (tick w))
  unfolding with_smtp_password decrypt_optional
  with_smtp_password-IsReadBack input imap w small small' fresh dec hidden =
      let (smtp, enc, dec', filled, hidden') = encrypts input.smtp_password w.calls in
      rw (enc, IsReadBack)
        (insert_account-IsReadBack input imap (some smtp) (tick w) small small' fresh dec
          (rw (is_empty-some smtp filled) dec') hidden hidden')

  with_imap_password-IsReadBack :
      (input : CreateAccountInput) (w : World)
      → IsInt32 input.imap_port
      → IsInt32 input.smtp_port
      → ((n : ℕ) → find_account (env.new_id n) w.accounts ≡ none)
      → IsReadBack input w.accounts (
          with_imap_password env input
            (encrypt env.cipher input.imap_password env.encryption_key (env.random w.calls))
            (tick w))
  unfolding with_imap_password decrypt_optional
  with_imap_password-IsReadBack input w small small' fresh =
      let (imap, enc, dec, _, hidden) = encrypts input.imap_password w.calls in
      rw (enc, IsReadBack)
        (elim (Bool-cases (is_empty input.smtp_password)) [
          | inl absent ↦
              rw (absent, IsReadBack)
                (insert_account-IsReadBack input imap none (tick w) small small' fresh dec
                  (ap Crypto.ok (sym (empty-is_empty input.smtp_password absent))) hidden
                  (empty-is_empty input.smtp_password absent))
          | inr present ↦
              rw (present, IsReadBack)
                (with_smtp_password-IsReadBack input imap (tick w) small small' fresh dec hidden)
        ])

  -- Where encryption, the database and its identifiers work, an account with an IMAP password and
  -- ports that are int32 is created with what the input says, passwords included, and read back
  -- unchanged by its identifier. The table then has one row more, which holds of each password the
  -- encoding of a nonce and of the password sealed under the key and that nonce; NULL for an empty
  -- SMTP password.
  pub create-IsReadBack :
      (input : CreateAccountInput) (w : World)
      → input.imap_password ≢ []
      → IsInt32 input.imap_port
      → IsInt32 input.smtp_port
      → ((n : ℕ) → find_account (env.new_id n) w.accounts ≡ none)
      → IsReadBack input w.accounts (create env input w)
  unfolding create
  create-IsReadBack input w given small small' fresh =
      rw (is_empty-some input.imap_password given, IsReadBack)
        (with_imap_password-IsReadBack input w small small' fresh)
