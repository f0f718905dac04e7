-- ===== src/Ingest/Returned.antt =====
-- The email that a successful ingestion returns (internal/ingest/ingest.go).
use letterbox.Prelude.{ℕ, ◌+◌, ◌≡◌, refl, Text, Option, none, some, List, [], if_ind}
use letterbox.Domain.{Account, Attachment, Email, CreateEmailInput}
use letterbox.Ingest.{
  Env, World, tick, Result, ok, err, ParsedEmail, AccountLookup, Fetched, exists_by_uid,
  create_email, upload_all, finish, with_attachments, store_attachments, created, uploaded,
  parsed_as, fetched, unless_exists, with_account, ingest_email, email_input,
}

-- The email, if there is one, is of the account, folder and UID.
abbrev pub IsOf : ℕ → Text → ℕ → Result Email → Type 0
IsOf account folder uid (ok e) = (e.account_id ≡ account) × ((e.folder ≡ folder) × (e.uid ≡ uid))
IsOf account folder uid (err e) = Unit

module _ (env : Env) (account : ℕ) (folder : Text) (uid : ℕ) where
  with_attachments-IsOf :
      (email : Email) (r : Result (List Attachment))
      → IsOf account folder uid (ok email)
      → IsOf account folder uid (with_attachments env email r)
  with_attachments-IsOf email (ok rows) h = h
  with_attachments-IsOf email (err e) h = tt

  created-IsOf :
      (parsed : ParsedEmail) (keys : List Text) (r : Result Email) (w : World)
      → IsOf account folder uid r
      → IsOf account folder uid (created env parsed keys (r, w)).0
  unfolding created finish
  created-IsOf parsed keys (err e) w h = tt
  created-IsOf parsed keys (ok email) w h =
      with_attachments-IsOf email (store_attachments env email.id parsed.attachments keys w).0 h

  create_email-IsOf :
      (input : CreateEmailInput) (w : World)
      → input.account_id ≡ account
      → input.folder ≡ folder
      → input.uid ≡ uid
      → IsOf account folder uid (create_email env input w).0
  unfolding create_email
  create_email-IsOf input w a f u =
      if_ind (λ (r : Result Email × World). IsOf account folder uid r.0) (env.fails w.calls) _ _
        (λ _. tt)
        (λ _.
          if_ind (λ (r : Result Email × World). IsOf account folder uid r.0)
            (exists_by_uid input.account_id input.folder input.uid w.emails) _ _ (λ _. tt)
            (λ _. (a, (f, u))))

  uploaded-IsOf :
      (input : CreateEmailInput) (parsed : ParsedEmail) (r : Result (List Text)) (w : World)
      → input.account_id ≡ account
      → input.folder ≡ folder
      → input.uid ≡ uid
      → IsOf account folder uid (uploaded env input parsed (r, w)).0
  unfolding uploaded
  uploaded-IsOf input parsed (err e) w a f u = tt
  uploaded-IsOf input parsed (ok keys) w a f u =
      let stored = create_email env input w in
      created-IsOf parsed keys stored.0 stored.1 (create_email-IsOf input w a f u)

  parsed_as-IsOf :
      (bytes : Text) (p : Option ParsedEmail) (w : World)
      → IsOf account folder uid (parsed_as env account folder uid bytes p w).0
  unfolding parsed_as
  parsed_as-IsOf bytes none w = tt
  parsed_as-IsOf bytes (some parsed) w =
      let ups = upload_all env (env.uuid_string account) uid parsed.attachments [] w in
      uploaded-IsOf (email_input env account folder uid bytes parsed) parsed ups.0 ups.1 refl refl
        refl

  fetched-IsOf :
      (f : Fetched) (w : World) → IsOf account folder uid (fetched env account folder uid f w).0
  unfolding fetched
  fetched-IsOf (Fetched.failed e) w = tt
  fetched-IsOf (Fetched.raw bytes) w = parsed_as-IsOf bytes (env.parse bytes) w

  unless_exists-IsOf :
      (acc : Account) (w : World)
      → IsOf account folder uid (unless_exists env acc account folder uid w).0
  unfolding unless_exists
  unless_exists-IsOf acc w =
      if_ind (λ (r : Result Email × World). IsOf account folder uid r.0) (env.fails w.calls) _ _
        (λ _. tt)
        (λ _.
          if_ind (λ (r : Result Email × World). IsOf account folder uid r.0)
            (exists_by_uid account folder uid w.emails) _ _ (λ _. tt)
            (λ _. fetched-IsOf (env.fetch_raw (w.calls + 1) acc folder uid) (tick (tick w))))

  with_account-IsOf :
      (l : AccountLookup) (w : World)
      → IsOf account folder uid (with_account env l account folder uid w).0
  unfolding with_account
  with_account-IsOf AccountLookup.not_found w = tt
  with_account-IsOf AccountLookup.failed w = tt
  with_account-IsOf (AccountLookup.found acc) w = unless_exists-IsOf acc w

  -- A successful ingestion returns an email of the account, folder and UID that it was asked for.
  pub ingest_email-IsOf :
      (w : World) → IsOf account folder uid (ingest_email env account folder uid w).0
  unfolding ingest_email
  ingest_email-IsOf w = with_account-IsOf (env.get_account w.calls account) (tick w)
