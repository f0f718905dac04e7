-- ===== src/Attachments/Stored.antt =====
-- The attachments of an ingested email are read back (internal/repository/attachment.go and
-- internal/ingest/ingest.go).
use mathlib.Core.List.{Perm}
use letterbox.Prelude.{ℕ, ◌≡◌, refl, ◌∙◌, Text, false, some, List, []}
use letterbox.Domain.{Attachment, Email}
use letterbox.Ingest
use letterbox.Ingest.{Env, World, ingest_email}
use letterbox.Ingest.Kept.{of_email-append, IsAdded, IsKept, ingest_email-IsKept}
use letterbox.Attachments.{Result, ok, get_by_email_id}
use letterbox.Attachments.Rows.{of_email}

-- The rows read are the email's, in some order.
pub record AreRead (email : Email) (r : Result (List Attachment)) : Type 0 where
  pub stored : List Attachment
  pub rows : List Attachment
  pub stored_eq : email.attachments ≡ some stored
  pub read_eq : r ≡ ok rows
  pub permuted : Perm rows stored

module _ (env : Env) (arrange : ℕ → List Attachment → List Attachment)
    (arranges : (n : ℕ) (rows : List Attachment) → Perm (arrange n rows) rows) where
  of_email-IsAdded :
      (id : ℕ) (rows before after : List Attachment)
      → IsAdded id rows before after
      → of_email id before ≡ []
      → of_email id after ≡ rows
  of_email-IsAdded id rows before after h new =
      rw h.appended (of_email-append id before rows ∙ rw new h.all_of)

  get_by_email_id-IsKept :
      (before : List Attachment) (r : Ingest.Result Email) (w : World) (email : Email)
      → IsKept env before (r, w)
      → r ≡ Ingest.ok email
      → of_email email.id before ≡ []
      → env.fails w.calls ≡ false
      → AreRead email (get_by_email_id env arrange email.id w).0
  unfolding get_by_email_id
  get_by_email_id-IsKept before (Ingest.err e) w email h same new works = absurd (cc (same))
  get_by_email_id-IsKept before (Ingest.ok email') w email h same new works =
      let same' : email' ≡ email = cc (same) in
      let k : IsKept env before (Ingest.ok email, w) = rw same' at h in
      record {
        stored = k.0;
        rows = arrange w.calls (of_email email.id w.attachments);
        stored_eq = k.1.0;
        read_eq = rw works refl;
        permuted =
            rw (← of_email-IsAdded email.id k.0 before w.attachments k.1.1 new)
              (arranges w.calls (of_email email.id w.attachments));
      }

  -- Let the database return the rows that a query asks for in some order, and let no attachment row
  -- have the new email's id before. Where an ingestion succeeds and the query then works,
  -- GetByEmailID gives the attachments of the email that IngestEmail returned, up to their order.
  pub get_by_email_id-ingest_email :
      (account : ℕ) (folder : Text) (uid : ℕ) (w : World) (email : Email)
      → (ingest_email env account folder uid w).0 ≡ Ingest.ok email
      → of_email email.id w.attachments ≡ []
      → env.fails (ingest_email env account folder uid w).1.calls ≡ false
      → AreRead email
          (get_by_email_id env arrange email.id (ingest_email env account folder uid w).1).0
  get_by_email_id-ingest_email account folder uid w email stored new works =
      let (r, w') = ingest_email env account folder uid w in
      get_by_email_id-IsKept w.attachments r w' email (ingest_email-IsKept env account folder uid w)
        stored new works
