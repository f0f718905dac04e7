-- ===== src/Emails/Refinement.antt =====
-- The rows of the table emails against the emails that ingestion sees
-- (internal/repository/email.go).
use letterbox.Prelude.{ℕ, ◌≡◌, refl, Text, Option, none, some, List, [], ◌∷◌}
use letterbox.Domain.{EmailAddress, Email}
use letterbox.Ingest
use letterbox.Emails.Rows.{EmailRow, same_message, exists_row}
use letterbox.Emails.{Env, ok, time_to_pgtype, to_email, with_addresses, decoded}

-- The row reads as the email, and its columns are as Create writes them: no date is the zero time,
-- and the flag of deletion is not NULL.
pub record Reads (env : Env) (row : EmailRow) (e : Email) : Type 0 where
  pub reads : to_email env row ≡ ok e
  pub dated : row.date ≡ time_to_pgtype e.date
  pub flagged : row.deleted_upstream ≡ some e.deleted_upstream

-- The rows read as the emails, one by one.
abbrev pub Represents : Env → List EmailRow → List Email → Type 0
Represents env [] [] = Unit
Represents env [] (_ ∷ _) = ⊥
Represents env (_ ∷ _) [] = ⊥
Represents env (row ∷ rows) (e ∷ es) = Reads env row e × Represents env rows es

module _ (env : Env) where
  columns :
      (row : EmailRow) (e : Email) (to cc : Option (List EmailAddress))
      → with_addresses env row to cc ≡ ok e
      → (e.account_id ≡ row.account_id) × ((e.folder ≡ row.folder) × (e.uid ≡ row.uid))
  columns row e none copies h = absurd (cc)
  columns row e (some to) none h = absurd (cc)
  columns row e (some to) (some copies) h = (cc, (cc, cc))

  Reads-columns :
      (row : EmailRow) (e : Email)
      → Reads env row e
      → (e.account_id ≡ row.account_id) × ((e.folder ≡ row.folder) × (e.uid ≡ row.uid))
  unfolding to_email
  Reads-columns row e h =
      columns row e (decoded env row.to_recipients) (decoded env row.cc_recipients) h.reads

  same_message-Reads :
      (account : ℕ) (folder : Text) (uid : ℕ) (row : EmailRow) (e : Email)
      → Reads env row e
      → same_message account folder uid row ≡ Ingest.same_message account folder uid e
  unfolding same_message Ingest.same_message
  same_message-Reads account folder uid row e h =
      let c = Reads-columns row e h in rw (c.0, c.1.0, c.1.1) refl

  pub exists_row-Represents :
      (account : ℕ) (folder : Text) (uid : ℕ) (rows : List EmailRow) (es : List Email)
      → Represents env rows es
      → exists_row (same_message account folder uid) rows
        ≡ Ingest.exists_by_uid account folder uid es
  unfolding exists_row Ingest.exists_by_uid
  exists_row-Represents account folder uid [] [] h = refl
  exists_row-Represents account folder uid [] (_ ∷ _) h = absurd h
  exists_row-Represents account folder uid (_ ∷ _) [] h = absurd h
  exists_row-Represents account folder uid (row ∷ rows) (e ∷ es) (h, hs) =
      rw
        (
          same_message-Reads account folder uid row e h,
          exists_row-Represents account folder uid rows es hs,
        )
        refl
