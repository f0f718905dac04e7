-- ===== src/Ingest/Unique.antt =====
-- What an ingestion does to the table emails (internal/ingest/ingest.go and the unique constraint
-- of emails).
use letterbox.Prelude.{
  ℕ, ◌≡◌, ◌≢◌, refl, ap, Text, false, ◌||◌, List, [], ◌∷◌, ◌++◌, Bool-cases, inl, inr, ◌⊎◌, arith,
}
use letterbox.Domain.{Attachment, Email, CreateEmailInput, CreateAttachmentInput}
use letterbox.Ingest.{
  Env, World, tick, Result, ok, err, IngestError, storing_attachment, ParsedEmail, ParsedAttachment,
  same_message, exists_by_uid, inserted, create_email, create_attachment, delete_all, upload_all,
  store_attachments, finish, attachment_input, with_attachments,
}

-- One row of the message was added, and there was none before.
pub record IsInserted (account : ℕ) (folder : Text) (uid : ℕ) (before after : List Email)
    : Type 0 where
  pub row : Email
  pub account_eq : row.account_id ≡ account
  pub folder_eq : row.folder ≡ folder
  pub uid_eq : row.uid ≡ uid
  pub absent : exists_by_uid account folder uid before ≡ false
  pub appended : after ≡ before ++ row ∷ []

pub exists_by_uid-append :
    (account : ℕ) (folder : Text) (uid : ℕ) (es : List Email) (e : Email)
    → exists_by_uid account folder uid (es ++ e ∷ [])
      ≡ (exists_by_uid account folder uid es || same_message account folder uid e)
unfolding exists_by_uid
exists_by_uid-append account folder uid [] e = ground arith
exists_by_uid-append account folder uid (x ∷ es) e =
    ground (arith, exists_by_uid-append account folder uid es e)

module _ (env : Env) where
  pub emails-delete_all : (keys : List Text) (w : World) → (delete_all env keys w).emails ≡ w.emails
  unfolding delete_all
  emails-delete_all [] w = refl
  emails-delete_all (key ∷ keys) w = elim (Bool-cases (env.delete_fails w.calls)) [
    | inl broken ↦ rw (broken, delete_all) (emails-delete_all keys _)
    | inr fine ↦ rw (fine, delete_all) (emails-delete_all keys _)
  ]

  pub emails-upload_all :
      (account : Text) (uid : ℕ) (atts : List ParsedAttachment) (keys : List Text) (w : World)
      → (upload_all env account uid atts keys w).1.emails ≡ w.emails
  unfolding upload_all
  emails-upload_all account uid [] keys w = refl
  emails-upload_all account uid (att ∷ atts) keys w = elim (Bool-cases (env.fails w.calls)) [
    | inl broken ↦ rw broken (emails-delete_all keys (tick w))
    | inr fine ↦ rw fine (emails-upload_all account uid atts _ _)
  ]

  emails-create_attachment :
      (input : CreateAttachmentInput) (w : World)
      → (create_attachment env input w).1.emails ≡ w.emails
  unfolding create_attachment
  emails-create_attachment input w = ground arith

  emails-store_attachments :
      (email_id : ℕ) (atts : List ParsedAttachment) (keys : List Text) (w : World)
      → (store_attachments env email_id atts keys w).1.emails ≡ w.emails
  unfolding store_attachments
  emails-store_attachments email_id [] keys w = refl
  emails-store_attachments email_id (att ∷ atts) [] w = refl
  emails-store_attachments email_id (att ∷ atts) (key ∷ keys) w =
      let input = attachment_input env email_id att key in
      let step = create_attachment env input w in
      ground (
        arith,
        emails-create_attachment input w,
        emails-store_attachments email_id atts keys step.1,
      )

  create_attachment-eq-err :
      (input : CreateAttachmentInput) (w : World) (e : IngestError)
      → (create_attachment env input w).0 ≡ err e
      → e ≡ storing_attachment
  unfolding create_attachment
  create_attachment-eq-err input w e h = ground arith

  pub store_attachments-eq-err :
      (email_id : ℕ) (atts : List ParsedAttachment) (keys : List Text) (w : World) (e : IngestError)
      → (store_attachments env email_id atts keys w).0 ≡ err e
      → e ≡ storing_attachment
  unfolding store_attachments
  store_attachments-eq-err email_id [] keys w e h = absurd (cc)
  store_attachments-eq-err email_id (att ∷ atts) [] w e h = absurd (cc)
  store_attachments-eq-err email_id (att ∷ atts) (key ∷ keys) w e h =
      let input = attachment_input env email_id att key in
      let step = create_attachment env input w in
      ground (
        arith,
        create_attachment-eq-err input w e,
        store_attachments-eq-err email_id atts keys step.1 e,
      )

-- A row was added on success and where only the attachment rows failed; the table is as it was
-- after every other failure.
abbrev pub Changes : ℕ → Text → ℕ → List Email → Result Email × World → Type 0
Changes account folder uid before (ok email, w) = IsInserted account folder uid before w.emails
Changes account folder uid before (err e, w) =
    ((e ≡ storing_attachment) × IsInserted account folder uid before w.emails)
    ⊎ ((e ≢ storing_attachment) × (w.emails ≡ before))

module _ (env : Env) (account : ℕ) (folder : Text) (uid : ℕ) (before : List Email) where
  with_attachments-Changes :
      (email : Email) (r : Result (List Attachment)) (w : World)
      → ((e : IngestError) → r ≡ err e → e ≡ storing_attachment)
      → IsInserted account folder uid before w.emails
      → Changes account folder uid before (with_attachments env email r, w)
  with_attachments-Changes email (err e) w only h = inl (only e refl, h)
  with_attachments-Changes email (ok rows) w only h = h

  pub finish-Changes :
      (email : Email) (parsed : ParsedEmail) (keys : List Text) (w : World)
      → IsInserted account folder uid before w.emails
      → Changes account folder uid before (finish env email parsed keys w)
  unfolding finish
  finish-Changes email parsed keys w h =
      let stored = store_attachments env email.id parsed.attachments keys w in
      with_attachments-Changes email stored.0 stored.1
        (store_attachments-eq-err env email.id parsed.attachments keys w)
        (rw (emails-store_attachments env email.id parsed.attachments keys w) h)

  -- The insert of a message.
  pub create_email-Changes :
      (input : CreateEmailInput) (w : World)
      → input.account_id ≡ account
      → input.folder ≡ folder
      → input.uid ≡ uid
      → w.emails ≡ before
      → Changes account folder uid before (create_email env input w)
  unfolding create_email
  create_email-Changes input w a f u same = elim (Bool-cases (env.fails w.calls)) [
    | inl broken ↦ rw (broken, Changes) (inr (cc, same))
    | inr fine ↦
        rw (fine, Changes)
          (elim (Bool-cases (exists_by_uid input.account_id input.folder input.uid w.emails)) [
            | inl old ↦ rw (old, Changes) (inr (cc, same))
            | inr new ↦
                rw (new, Changes)
                  (record {
                    row = inserted env input w.calls;
                    account_eq = a;
                    folder_eq = f;
                    uid_eq = u;
                    absent = cc (new, a, f, u, same);
                    appended = ap (λ es. es ++ inserted env input w.calls ∷ []) same;
                  })
          ])
  ]
