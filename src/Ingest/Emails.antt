-- ===== src/Ingest/Emails.antt =====
-- The table emails after an ingestion, and after a retry (internal/ingest/ingest.go).
use letterbox.Prelude.{
  ℕ, ◌+◌, ◌≡◌, ◌≢◌, refl, ◌∙◌, Text, text_eq_iff, ==_iff, true, false, Option, none, some, List, [],
  ◌∷◌, Bool-cases, inl, inr, arith,
}
use letterbox.Domain.{Account, Email, CreateEmailInput}
use letterbox.Ingest.{
  Env, World, tick, Result, ok, err, IngestError, storing_attachment, email_already_exists,
  ParsedEmail, ParsedAttachment, AccountLookup, Fetched, same_message, exists_by_uid, create_email,
  upload_all, created, uploaded, parsed_as, fetched, unless_exists, with_account, ingest_email,
  email_input,
}
use letterbox.Ingest.Unique.{
  IsInserted, Changes, exists_by_uid-append, emails-delete_all, emails-upload_all, finish-Changes,
  create_email-Changes,
}

module _ (env : Env) (account : ℕ) (folder : Text) (uid : ℕ) (before : List Email) where
  created-Changes :
      (parsed : ParsedEmail) (keys : List Text) (r : Result Email) (w : World)
      → Changes account folder uid before (r, w)
      → ((e : IngestError) → r ≡ err e → e ≢ storing_attachment)
      → Changes account folder uid before (created env parsed keys (r, w))
  unfolding created
  created-Changes parsed keys (err e) w (inl (same, h)) ne = absurd (ne e refl same)
  created-Changes parsed keys (err e) w (inr (other, h)) ne =
      inr (other, emails-delete_all env keys w ∙ h)
  created-Changes parsed keys (ok email) w h ne =
      finish-Changes env account folder uid before email parsed keys w h

  create_email-ne-storing_attachment :
      (input : CreateEmailInput) (w : World) (e : IngestError)
      → (create_email env input w).0 ≡ err e
      → e ≢ storing_attachment
  unfolding create_email
  create_email-ne-storing_attachment input w e h = ground arith

  upload_all-ne-storing_attachment :
      (atts : List ParsedAttachment) (id : Text) (keys : List Text) (w : World) (e : IngestError)
      → (upload_all env id uid atts keys w).0 ≡ err e
      → e ≢ storing_attachment
  unfolding upload_all
  upload_all-ne-storing_attachment [] id keys w e h = absurd (cc)
  upload_all-ne-storing_attachment (att ∷ atts) id keys w e h =
      elim (Bool-cases (env.fails w.calls)) [
        | inl broken ↦ ground arith
        | inr fine ↦ upload_all-ne-storing_attachment atts id _ _ e (rw fine at h)
      ]

  uploaded-Changes :
      (input : CreateEmailInput) (parsed : ParsedEmail) (r : Result (List Text)) (w : World)
      → input.account_id ≡ account
      → input.folder ≡ folder
      → input.uid ≡ uid
      → w.emails ≡ before
      → ((e : IngestError) → r ≡ err e → e ≢ storing_attachment)
      → Changes account folder uid before (uploaded env input parsed (r, w))
  unfolding uploaded
  uploaded-Changes input parsed (err e) w a f u same ne = inr (ne e refl, same)
  uploaded-Changes input parsed (ok keys) w a f u same ne =
      created-Changes parsed keys (create_email env input w).0 (create_email env input w).1
        (create_email-Changes env account folder uid before input w a f u same)
        (create_email-ne-storing_attachment input w)

  parsed_as-Changes :
      (bytes : Text) (p : Option ParsedEmail) (w : World)
      → w.emails ≡ before
      → Changes account folder uid before (parsed_as env account folder uid bytes p w)
  unfolding parsed_as
  parsed_as-Changes bytes none w same = inr (cc, same)
  parsed_as-Changes bytes (some parsed) w same =
      let ups = upload_all env (env.uuid_string account) uid parsed.attachments [] w in
      uploaded-Changes (email_input env account folder uid bytes parsed) parsed ups.0 ups.1 refl
        refl refl
        (emails-upload_all env (env.uuid_string account) uid parsed.attachments [] w ∙ same)
        (upload_all-ne-storing_attachment parsed.attachments (env.uuid_string account) [] w)

  fetched-Changes :
      (f : Fetched) (w : World)
      → w.emails ≡ before
      → Changes account folder uid before (fetched env account folder uid f w)
  unfolding fetched
  fetched-Changes (Fetched.failed e) w same = inr (cc, same)
  fetched-Changes (Fetched.raw bytes) w same = parsed_as-Changes bytes (env.parse bytes) w same

  unless_exists-Changes :
      (acc : Account) (w : World)
      → w.emails ≡ before
      → Changes account folder uid before (unless_exists env acc account folder uid w)
  unfolding unless_exists
  unless_exists-Changes acc w same = elim (Bool-cases (env.fails w.calls)) [
    | inl broken ↦ rw (broken, Changes) (inr (cc, same))
    | inr fine ↦
        rw (fine, Changes)
          (elim (Bool-cases (exists_by_uid account folder uid w.emails)) [
            | inl old ↦ rw (old, Changes) (inr (cc, same))
            | inr new ↦ rw (new, Changes) (fetched-Changes _ (tick (tick w)) same)
          ])
  ]

  with_account-Changes :
      (l : AccountLookup) (w : World)
      → w.emails ≡ before
      → Changes account folder uid before (with_account env l account folder uid w)
  unfolding with_account
  with_account-Changes AccountLookup.not_found w same = inr (cc, same)
  with_account-Changes AccountLookup.failed w same = inr (cc, same)
  with_account-Changes (AccountLookup.found acc) w same = unless_exists-Changes acc w same

-- Already ingested, and neither table changed.
pub record IsRefused (before : World) (r : Result Email × World) : Type 0 where
  pub refused : r.0 ≡ err email_already_exists
  pub same_emails : r.1.emails ≡ before.emails
  pub same_attachments : r.1.attachments ≡ before.attachments

module _ (env : Env) (account : ℕ) (folder : Text) (uid : ℕ) (w : World) where
  refuses :
      (acc : Account)
      → env.get_account w.calls account ≡ AccountLookup.found acc
      → env.fails (w.calls + 1) ≡ false
      → exists_by_uid account folder uid w.emails ≡ true
      → IsRefused w (ingest_email env account folder uid w)
  unfolding ingest_email with_account unless_exists
  refuses acc found works old = record {
    refused = rw (found, with_account) (rw works (rw old refl));
    same_emails = rw (found, with_account) (rw works (rw old refl));
    same_attachments = rw (found, with_account) (rw works (rw old refl));
  }

module _ (env : Env) (account : ℕ) (folder : Text) (uid : ℕ) (w : World) where
  -- A successful ingestion adds one row to the table emails, of that account, folder and UID, which
  -- had none before; so does one that fails while it stores the attachment rows. Every other
  -- failure leaves the table as it was.
  pub ingest_email-Changes :
      Changes account folder uid w.emails (ingest_email env account folder uid w)
  unfolding ingest_email
  ingest_email-Changes =
      with_account-Changes env account folder uid w.emails (env.get_account w.calls account)
        (tick w) refl

  pub exists-IsInserted :
      (after : List Email)
      → IsInserted account folder uid w.emails after
      → exists_by_uid account folder uid after ≡ true
  unfolding same_message
  exists-IsInserted after h = rw h.appended (
      ground (
        arith,
        exists_by_uid-append account folder uid w.emails h.row,
        ==_iff h.row.account_id account,
        text_eq_iff h.row.folder folder,
        ==_iff h.row.uid uid,
      ))

  exists-Changes :
      (r : Result Email) (w' : World)
      → Changes account folder uid w.emails (r, w')
      → r ≡ err storing_attachment
      → exists_by_uid account folder uid w'.emails ≡ true
  exists-Changes (ok email) w' h e = absurd (cc)
  exists-Changes (err e') w' (inl (same, h)) e = exists-IsInserted w'.emails h
  exists-Changes (err e') w' (inr (other, h)) e = absurd (other (cc))

  -- Where an ingestion failed while it stored the attachment rows, a retry is refused as already
  -- ingested (if it finds the account, and its check of the table works), and leaves the tables
  -- emails and attachments as the failed ingestion did.
  pub ingest_email-retry :
      (acc : Account)
      → (ingest_email env account folder uid w).0 ≡ err storing_attachment
      → env.get_account (ingest_email env account folder uid w).1.calls account
        ≡ AccountLookup.found acc
      → env.fails ((ingest_email env account folder uid w).1.calls + 1) ≡ false
      → let w1 = (ingest_email env account folder uid w).1 in
        IsRefused w1 (ingest_email env account folder uid w1)
  ingest_email-retry acc failed found works =
      let w1 = (ingest_email env account folder uid w).1 in
      let old =
        exists-Changes (ingest_email env account folder uid w).0 w1 ingest_email-Changes failed in
      refuses env account folder uid w1 acc found works old
