-- ===== src/Attachments/Rows.antt =====
-- The table attachments: the queries of internal/db/attachments.sql.go that find or delete rows.
use letterbox.Prelude.{ℕ, Option, none, some, List, [], ◌∷◌, ◌==◌, if◌then◌else◌}
use letterbox.Domain.{Attachment}

-- WHERE id = $1
unfoldable pub find_attachment : ℕ → List Attachment → Option Attachment
find_attachment id [] = none
find_attachment id (row ∷ rows) =
    let rest = find_attachment id rows in if row.id == id then some row else rest

-- WHERE email_id = $1
unfoldable pub of_email : ℕ → List Attachment → List Attachment
of_email email_id [] = []
of_email email_id (row ∷ rows) =
    let rest = of_email email_id rows in if row.email_id == email_id then row ∷ rest else rest

unfoldable pub without_email : ℕ → List Attachment → List Attachment
without_email email_id [] = []
without_email email_id (row ∷ rows) =
    let rest = without_email email_id rows in if row.email_id == email_id then rest else row ∷ rest
