-- ===== src/Emails/Creation.antt =====
-- EmailRepository.Create (internal/repository/email.go) against the insert that ingestion sees.
use letterbox.Prelude.{ℕ, ◌≡◌, refl, Text, some, List, [], ◌∷◌, ◌++◌, Bool-cases, inl, inr, arith}
use letterbox.Domain.{EmailAddress, Email, CreateEmailInput}
use letterbox.Accounts.RoundTrip.{deref-ptr_string}
use letterbox.Ingest
use letterbox.Emails.Rows.{EmailRow}
use letterbox.Emails.{
  Env, World, Result, ok, err, query_failed, email_already_exists, time_to_pgtype, time_of,
  to_email, decoded, inserted, insert_email, create,
}
use letterbox.Emails.Refinement.{Reads, Represents, exists_row-Represents}

-- The addresses are read back from what is written of them.
pub record Encodes (env : Env) (addresses : List EmailAddress) (s : Text) : Type 0 where
  pub written : env.marshal addresses ≡ some s
  pub read_back : decoded env s ≡ some addresses

-- The calls of both models fail alike, and give the same identifiers and times.
pub record Agrees (env : Env) (other : Ingest.Env) : Type 0 where
  pub fails : (n : ℕ) → env.fails n ≡ other.fails n
  pub new_id : (n : ℕ) → env.new_id n ≡ other.new_id n
  pub now : (n : ℕ) → env.now n ≡ other.now n

time_of-time_to_pgtype : (t : ℕ) → time_of (time_to_pgtype t) ≡ t
unfolding time_to_pgtype
time_of-time_to_pgtype t = ground arith

Represents-append :
    (env : Env) (rows : List EmailRow) (es : List Email) (row : EmailRow) (e : Email)
    → Represents env rows es
    → Reads env row e
    → Represents env (rows ++ row ∷ []) (es ++ e ∷ [])
Represents-append env [] [] row e h last = (last, tt)
Represents-append env [] (_ ∷ _) row e h last = absurd h
Represents-append env (_ ∷ _) [] row e h last = absurd h
Represents-append env (other ∷ rows) (e' ∷ es) row e (h, hs) last =
    (h, Represents-append env rows es row e hs last)

-- The repository's result for a result of the insert that ingestion sees.
abbrev pub stored : Ingest.Result Email → Result Email
stored (Ingest.ok e) = ok e
stored (Ingest.err Ingest.email_already_exists) = err email_already_exists
stored (Ingest.err _) = err query_failed

module _ (env : Env) (other : Ingest.Env) (agrees : Agrees env other) where
  inserted-Reads :
      (input : CreateEmailInput) (to cc : Text) (n : ℕ)
      → Encodes env input.to to
      → Encodes env input.cc cc
      → Reads env (inserted env input to cc n) (Ingest.inserted other input n)
  unfolding to_email
  inserted-Reads input to copies n t c = record {
    reads =
        rw
          (
            t.read_back,
            c.read_back,
            deref-ptr_string input.message_id,
            deref-ptr_string input.subject,
            deref-ptr_string input.from_email,
            deref-ptr_string input.from_name,
            deref-ptr_string input.parsed_text,
            deref-ptr_string input.parsed_html,
            deref-ptr_string input.raw,
            time_of-time_to_pgtype,
            agrees.new_id n,
            agrees.now n,
          )
          refl;
    dated = refl;
    flagged = refl;
  }

  -- Let the rows of the table read as the emails that ingestion sees, and let the addresses be
  -- read back from their encoding. Then Create gives the result of ingestion's insert: the same
  -- email, the refusal of a message that is there, or an error of the database; and the rows read as
  -- the emails again.
  pub create-create_email :
      (input : CreateEmailInput) (to cc : Text) (w : World) (w' : Ingest.World)
      → Encodes env input.to to
      → Encodes env input.cc cc
      → Represents env w.emails w'.emails
      → w.calls ≡ w'.calls
      → ((create env input w).0 ≡ stored (Ingest.create_email other input w').0)
        × (Represents env
              (create env input w).1.emails
              (Ingest.create_email other input w').1.emails
            × ((create env input w).1.calls ≡ (Ingest.create_email other input w').1.calls))
  unfolding create insert_email Ingest.create_email
  create-create_email input to copies w w' t c h same =
      let here =
        exists_row-Represents env input.account_id input.folder input.uid w.emails w'.emails h in
      let row = inserted-Reads input to copies w.calls t c in
      let next = Represents-append env w.emails w'.emails _ _ h row in
      rw (t.written, c.written)
        (elim (Bool-cases (other.fails w'.calls)) [
          | inl broken ↦ rw (agrees.fails w.calls, same, broken) (refl, (h, refl))
          | inr fine ↦
              elim (Bool-cases
                (Ingest.exists_by_uid input.account_id input.folder input.uid w'.emails)) [
                  | inl old ↦ rw (agrees.fails w.calls, same, fine, here, old) (refl, (h, refl))
                  | inr new ↦
                      rw (agrees.fails w.calls, here, new, ← same)
                        (rw (same, fine, ← same) (row.reads, (next, refl)))
                ]
        ])
