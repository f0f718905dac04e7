-- ===== src/Ingest/Kept.antt =====
-- The attachment rows that a successful ingestion returns are those it adds (internal/ingest/ingest.go).
use letterbox.Prelude.{
  ℕ, ◌+◌, ◌≡◌, refl, ap, ◌∙◌, Text, Bool-cases, Option, none, some, List, [], ◌∷◌, ◌++◌, ◌==◌,
  ==_iff, append_assoc, if_ind, inl, inr, arith,
}
use letterbox.Domain.{Account, Attachment, Email, CreateEmailInput, CreateAttachmentInput}
use letterbox.Attachments.Rows.{of_email}
use letterbox.Ingest.{
  Env, World, tick, Result, ok, err, ParsedEmail, ParsedAttachment, AccountLookup, Fetched,
  exists_by_uid, create_email, create_attachment, attachment_input, delete_all, upload_all, finish,
  add_row, with_attachments, store_attachments, created, uploaded, parsed_as, fetched,
  unless_exists, with_account, ingest_email, email_input,
}

pub of_email-append :
    (id : ℕ) (xs ys : List Attachment) → of_email id (xs ++ ys) ≡ of_email id xs ++ of_email id ys
unfolding of_email
of_email-append id [] ys = refl
of_email-append id (row ∷ rows) ys = elim (Bool-cases (row.email_id == id)) [
  | inl same ↦ rw same (ap (λ r. row ∷ r) (of_email-append id rows ys))
  | inr other ↦ rw other (of_email-append id rows ys)
]

append_nil : (rows : List Attachment) → rows ≡ rows ++ []
append_nil [] = refl
append_nil (row ∷ rows) = ap (λ r. row ∷ r) (append_nil rows)

-- Rows that were added to a table, all of one email
pub record IsAdded (id : ℕ) (rows before after : List Attachment) : Type 0 where
  pub appended : after ≡ before ++ rows
  pub all_of : of_email id rows ≡ rows

module _ (env : Env) where
  attachments-delete_all :
      (keys : List Text) (w : World) → (delete_all env keys w).attachments ≡ w.attachments
  unfolding delete_all
  attachments-delete_all [] w = refl
  attachments-delete_all (key ∷ keys) w = elim (Bool-cases (env.delete_fails w.calls)) [
    | inl broken ↦ rw (broken, delete_all) (attachments-delete_all keys _)
    | inr fine ↦ rw (fine, delete_all) (attachments-delete_all keys _)
  ]

  attachments-upload_all :
      (account : Text) (uid : ℕ) (atts : List ParsedAttachment) (keys : List Text) (w : World)
      → (upload_all env account uid atts keys w).1.attachments ≡ w.attachments
  unfolding upload_all
  attachments-upload_all account uid [] keys w = refl
  attachments-upload_all account uid (att ∷ atts) keys w = elim (Bool-cases (env.fails w.calls)) [
    | inl broken ↦ rw broken (attachments-delete_all keys (tick w))
    | inr fine ↦ rw fine (attachments-upload_all account uid atts _ _)
  ]

  attachments-create_email :
      (input : CreateEmailInput) (w : World)
      → (create_email env input w).1.attachments ≡ w.attachments
  unfolding create_email
  attachments-create_email input w = ground arith

  -- What a result of storing rows says of the table
  abbrev AreAdded : ℕ → List Attachment → Result (List Attachment) × World → Type 0
  AreAdded id before (ok rows, w) = IsAdded id rows before w.attachments
  AreAdded id before (err e, w) = Unit

  none-AreAdded : (id : ℕ) (before : List Attachment) → IsAdded id [] before before
  unfolding of_email
  none-AreAdded id before = record { appended = append_nil before; all_of = refl }

  -- One row of the email was added.
  abbrev IsOneAdded : ℕ → List Attachment → Result Attachment × World → Type 0
  IsOneAdded id before (ok row, w) = (row.email_id ≡ id) × (w.attachments ≡ before ++ row ∷ [])
  IsOneAdded id before (err e, w) = Unit

  create_attachment-IsOneAdded :
      (input : CreateAttachmentInput) (w : World)
      → IsOneAdded input.email_id w.attachments (create_attachment env input w)
  unfolding create_attachment
  create_attachment-IsOneAdded input w =
      if_ind (IsOneAdded input.email_id w.attachments) (env.fails w.calls) _ _ (λ _. tt)
        (λ _. (refl, refl))

  add_row-AreAdded :
      (id : ℕ) (before : List Attachment) (row : Attachment) (w1 : World)
      (rest : Result (List Attachment)) (w2 : World)
      → IsOneAdded id before (ok row, w1)
      → AreAdded id w1.attachments (rest, w2)
      → AreAdded id before (add_row env row rest, w2)
  unfolding of_email
  add_row-AreAdded id before row w1 (err e) w2 one k = tt
  add_row-AreAdded id before row w1 (ok rows) w2 one k = record {
    appended = k.appended ∙ rw one.1 (append_assoc before (row ∷ []) rows);
    all_of = rw ((==_iff row.email_id id).1 one.0) (ap (λ r. row ∷ r) k.all_of);
  }

  store_attachments-AreAdded :
      (id : ℕ) (atts : List ParsedAttachment) (keys : List Text) (w : World)
      → AreAdded id w.attachments (store_attachments env id atts keys w)
  unfolding store_attachments
  store_attachments-AreAdded id [] keys w = none-AreAdded id w.attachments
  store_attachments-AreAdded id (att ∷ atts) [] w = none-AreAdded id w.attachments
  store_attachments-AreAdded id (att ∷ atts) (key ∷ keys) w =
      let step = create_attachment env (attachment_input env id att key) w in
      go step.0 step.1 (create_attachment-IsOneAdded (attachment_input env id att key) w)
        (store_attachments-AreAdded id atts keys step.1)
    where
      go :
          (stored : Result Attachment) (w1 : World)
          → IsOneAdded id w.attachments (stored, w1)
          → AreAdded id w1.attachments (store_attachments env id atts keys w1)
          → AreAdded id w.attachments (elim stored [
            | err e ↦ (err e, w1)
            | ok row ↦ (
              add_row env row (store_attachments env id atts keys w1).0,
              (store_attachments env id atts keys w1).1,
            )
          ])
      go (err e) w1 one rest = tt
      go (ok row) w1 one rest =
          add_row-AreAdded id w.attachments row w1 (store_attachments env id atts keys w1).0
            (store_attachments env id atts keys w1).1 one rest

  -- The email has the rows that were added.
  abbrev pub IsKept : List Attachment → Result Email × World → Type 0
  IsKept before (ok email, w) =
      (rows : List Attachment) × ((email.attachments ≡ some rows)
        × IsAdded email.id rows before w.attachments)
  IsKept before (err e, w) = Unit

  with_attachments-IsKept :
      (before : List Attachment) (email : Email) (r : Result (List Attachment)) (w : World)
      → AreAdded email.id before (r, w)
      → IsKept before (with_attachments env email r, w)
  with_attachments-IsKept before email (err e) w h = tt
  with_attachments-IsKept before email (ok rows) w h = (rows, (refl, h))

  created-IsKept :
      (before : List Attachment) (parsed : ParsedEmail) (keys : List Text) (r : Result Email)
      (w : World)
      → w.attachments ≡ before
      → IsKept before (created env parsed keys (r, w))
  unfolding created finish
  created-IsKept before parsed keys (err e) w same = tt
  created-IsKept before parsed keys (ok email) w same =
      let stored = store_attachments env email.id parsed.attachments keys w in
      with_attachments-IsKept before email stored.0 stored.1
        (rw (← same) (store_attachments-AreAdded email.id parsed.attachments keys w))

  uploaded-IsKept :
      (before : List Attachment) (input : CreateEmailInput) (parsed : ParsedEmail)
      (r : Result (List Text)) (w : World)
      → w.attachments ≡ before
      → IsKept before (uploaded env input parsed (r, w))
  unfolding uploaded
  uploaded-IsKept before input parsed (err e) w same = tt
  uploaded-IsKept before input parsed (ok keys) w same =
      let stored = create_email env input w in
      created-IsKept before parsed keys stored.0 stored.1 (attachments-create_email input w ∙ same)

  parsed_as-IsKept :
      (account : ℕ) (folder : Text) (uid : ℕ) (bytes : Text) (p : Option ParsedEmail) (w : World)
      → IsKept w.attachments (parsed_as env account folder uid bytes p w)
  unfolding parsed_as
  parsed_as-IsKept account folder uid bytes none w = tt
  parsed_as-IsKept account folder uid bytes (some parsed) w =
      let ups = upload_all env (env.uuid_string account) uid parsed.attachments [] w in
      uploaded-IsKept w.attachments (email_input env account folder uid bytes parsed) parsed ups.0
        ups.1 (attachments-upload_all (env.uuid_string account) uid parsed.attachments [] w)

  fetched-IsKept :
      (account : ℕ) (folder : Text) (uid : ℕ) (f : Fetched) (w : World)
      → IsKept w.attachments (fetched env account folder uid f w)
  unfolding fetched
  fetched-IsKept account folder uid (Fetched.failed e) w = tt
  fetched-IsKept account folder uid (Fetched.raw bytes) w =
      parsed_as-IsKept account folder uid bytes (env.parse bytes) w

  unless_exists-IsKept :
      (acc : Account) (account : ℕ) (folder : Text) (uid : ℕ) (w : World)
      → IsKept w.attachments (unless_exists env acc account folder uid w)
  unfolding unless_exists
  unless_exists-IsKept acc account folder uid w =
      if_ind (IsKept w.attachments) (env.fails w.calls) _ _ (λ _. tt)
        (λ _.
          if_ind (IsKept w.attachments) (exists_by_uid account folder uid w.emails) _ _ (λ _. tt)
            (λ _.
              fetched-IsKept account folder uid (env.fetch_raw (w.calls + 1) acc folder uid)
                (tick (tick w))))

  with_account-IsKept :
      (l : AccountLookup) (account : ℕ) (folder : Text) (uid : ℕ) (w : World)
      → IsKept w.attachments (with_account env l account folder uid w)
  unfolding with_account
  with_account-IsKept AccountLookup.not_found account folder uid w = tt
  with_account-IsKept AccountLookup.failed account folder uid w = tt
  with_account-IsKept (AccountLookup.found acc) account folder uid w =
      unless_exists-IsKept acc account folder uid w

  -- The email that a successful ingestion returns has the attachment rows that it added to the
  -- table.
  pub ingest_email-IsKept :
      (account : ℕ) (folder : Text) (uid : ℕ) (w : World)
      → IsKept w.attachments (ingest_email env account folder uid w)
  unfolding ingest_email
  ingest_email-IsKept account folder uid w =
      with_account-IsKept (env.get_account w.calls account) account folder uid (tick w)
