-- ===== src/Ingest/Stored.antt =====
-- What an ingestion that finds the message there says of the table (internal/ingest/ingest.go).
use letterbox.Prelude.{
  ℕ, ◌+◌, ◌≡◌, ◌≢◌, refl, Text, true, Option, none, some, List, [], ◌∷◌, Bool-cases, if_ind, inl,
  inr, ◌⊎◌, arith,
}
use letterbox.Domain.{Account, Attachment, Email, CreateEmailInput}
use letterbox.Ingest.{
  Env, World, tick, Result, ok, err, IngestError, email_already_exists, ParsedEmail,
  ParsedAttachment, AccountLookup, Fetched, exists_by_uid, create_email, upload_all, finish,
  with_attachments, store_attachments, created, uploaded, parsed_as, fetched, unless_exists,
  with_account, ingest_email, email_input,
}
use letterbox.Ingest.Unique.{Changes, emails-delete_all, store_attachments-eq-err}
use letterbox.Ingest.Emails.{ingest_email-Changes, exists-IsInserted}

with_attachments-err :
    (env : Env) (email : Email) (r : Result (List Attachment)) (e : IngestError)
    → with_attachments env email r ≡ err e
    → r ≡ err e
with_attachments-err env email (err e') e h = cc (h)
with_attachments-err env email (ok rows) e h = absurd (cc (h))

module _ (env : Env) (account : ℕ) (folder : Text) (uid : ℕ) where
  -- The message is in the table where the result says that it was there.
  abbrev IsThere : Result Email × World → Type 0
  IsThere r = r.0 ≡ err email_already_exists → exists_by_uid account folder uid r.1.emails ≡ true

  create_email-exists :
      (input : CreateEmailInput) (w : World)
      → input.account_id ≡ account
      → input.folder ≡ folder
      → input.uid ≡ uid
      → IsThere (create_email env input w)
  unfolding create_email
  create_email-exists input w a f u = rw (← a, ← f, ← u) (λ e. ground (arith, e))

  finish-ne-exists :
      (email : Email) (parsed : ParsedEmail) (keys : List Text) (w : World)
      → (finish env email parsed keys w).0 ≢ err email_already_exists
  unfolding finish
  finish-ne-exists email parsed keys w h =
      let rows = store_attachments env email.id parsed.attachments keys w in
      let last =
        store_attachments-eq-err env email.id parsed.attachments keys w email_already_exists
          (with_attachments-err env email rows.0 email_already_exists h) in
      absurd (cc (last))

  created-IsThere :
      (parsed : ParsedEmail) (keys : List Text) (r : Result Email) (w : World)
      → IsThere (r, w)
      → IsThere (created env parsed keys (r, w))
  unfolding created
  created-IsThere parsed keys (err e) w h same = rw (emails-delete_all env keys w) (h same)
  created-IsThere parsed keys (ok email) w h same =
      absurd (finish-ne-exists email parsed keys w same)

  upload_all-ne-exists :
      (atts : List ParsedAttachment) (id : Text) (keys : List Text) (w : World)
      → (upload_all env id uid atts keys w).0 ≢ err email_already_exists
  unfolding upload_all
  upload_all-ne-exists [] id keys w h = absurd (cc (h))
  upload_all-ne-exists (att ∷ atts) id keys w h = elim (Bool-cases (env.fails w.calls)) [
    | inl broken ↦ ground arith
    | inr fine ↦ upload_all-ne-exists atts id _ _ (rw fine at h)
  ]

  uploaded-IsThere :
      (input : CreateEmailInput) (parsed : ParsedEmail) (r : Result (List Text)) (w : World)
      → input.account_id ≡ account
      → input.folder ≡ folder
      → input.uid ≡ uid
      → r ≢ err email_already_exists
      → IsThere (uploaded env input parsed (r, w))
  unfolding uploaded
  uploaded-IsThere input parsed (err e) w a f u ne same = absurd (ne (cc (same)))
  uploaded-IsThere input parsed (ok keys) w a f u ne same =
      let stored = create_email env input w in
      created-IsThere parsed keys stored.0 stored.1 (create_email-exists input w a f u) same

  parsed_as-IsThere :
      (bytes : Text) (p : Option ParsedEmail) (w : World)
      → IsThere (parsed_as env account folder uid bytes p w)
  unfolding parsed_as
  parsed_as-IsThere bytes none w same = absurd (cc (same))
  parsed_as-IsThere bytes (some parsed) w same =
      let ups = upload_all env (env.uuid_string account) uid parsed.attachments [] w in
      uploaded-IsThere (email_input env account folder uid bytes parsed) parsed ups.0 ups.1 refl
        refl refl (upload_all-ne-exists parsed.attachments (env.uuid_string account) [] w) same

  fetched-IsThere : (f : Fetched) (w : World) → IsThere (fetched env account folder uid f w)
  unfolding fetched
  fetched-IsThere (Fetched.failed e) w same = absurd (cc (same))
  fetched-IsThere (Fetched.raw bytes) w same = parsed_as-IsThere bytes (env.parse bytes) w same

  unless_exists-IsThere :
      (acc : Account) (w : World) → IsThere (unless_exists env acc account folder uid w)
  unfolding unless_exists
  unless_exists-IsThere acc w =
      if_ind IsThere (env.fails w.calls) _ _ (λ _ same. absurd (cc (same)))
        (λ _.
          if_ind IsThere (exists_by_uid account folder uid w.emails) _ _ (λ old same. old)
            (λ _. fetched-IsThere (env.fetch_raw (w.calls + 1) acc folder uid) (tick (tick w))))

  with_account-IsThere :
      (l : AccountLookup) (w : World) → IsThere (with_account env l account folder uid w)
  unfolding with_account
  with_account-IsThere AccountLookup.not_found w same = absurd (cc (same))
  with_account-IsThere AccountLookup.failed w same = absurd (cc (same))
  with_account-IsThere (AccountLookup.found acc) w same = unless_exists-IsThere acc w same

  stored-Changes :
      (w : World) (r : Result Email) (w' : World) (email : Email)
      → Changes account folder uid w.emails (r, w')
      → r ≡ ok email
      → exists_by_uid account folder uid w'.emails ≡ true
  stored-Changes w (ok e) w' email h same = exists-IsInserted env account folder uid w w'.emails h
  stored-Changes w (err e) w' email h same = absurd (cc (same))

  -- The ingestion succeeded, or the message was there already.
  abbrev pub IsDone : Result Email → Type 0
  IsDone r = ((email : Email) × (r ≡ ok email)) ⊎ (r ≡ err email_already_exists)

  -- After an ingestion that succeeds, or that is refused since the message was there already, the
  -- table holds the message.
  pub ingest_email-exists :
      (w : World)
      → IsDone (ingest_email env account folder uid w).0
      → exists_by_uid account folder uid (ingest_email env account folder uid w).1.emails ≡ true
  unfolding ingest_email
  ingest_email-exists w (inl (email, stored)) =
      stored-Changes w _ _ email (ingest_email-Changes env account folder uid w) stored
  ingest_email-exists w (inr same) =
      with_account-IsThere (env.get_account w.calls account) (tick w) same
