-- ===== src/Ingest/Cleanup.antt =====
-- What a failed ingestion leaves in the object store (internal/ingest/ingest.go).
use letterbox.Prelude.{
  ℕ, ◌+◌, ◌≡◌, ◌≢◌, refl, ◌∙◌, Text, text_eq, Bool, false, ◌||◌, Option, none, some, List, [], ◌∷◌,
  ◌++◌, if◌then◌else◌, Bool-cases, inl, inr, arith,
}
use letterbox.Domain.{Account, Attachment, Email, CreateEmailInput}
use letterbox.Storage.{Objects, attachment_key, download, delete, upload}
use letterbox.Storage.Keys.{download-delete, download-upload}
use letterbox.Ingest.Unique.{store_attachments-eq-err}
use letterbox.Ingest.{
  Env, World, tick, Result, ok, err, IngestError, storing_attachment, ParsedEmail, ParsedAttachment,
  AccountLookup, Fetched, create_email, delete_all, upload_all, store_attachments, finish, created,
  uploaded, parsed_as, fetched, unless_exists, with_account, ingest_email, exists_by_uid,
  with_attachments,
}

pub has : Text → List Text → Bool
has k [] = false
has k (key ∷ keys) = text_eq key k || has k keys

has-append :
    (k key : Text) (keys : List Text) → has k (keys ++ key ∷ []) ≡ (has k keys || text_eq key k)
unfolding has
has-append k key [] = ground arith
has-append k key (j ∷ keys) = ground (arith, has-append k key keys)

-- Every object of the second store is in the first, unchanged.
abbrev pub NothingNew : Objects → Objects → Type 0
NothingNew before after = (k d : Text) → download k after ≡ some d → download k before ≡ some d

-- The stores differ at most at the given keys.
abbrev SameBut : List Text → Objects → Objects → Type 0
SameBut keys before after = (k : Text) → has k keys ≡ false → download k after ≡ download k before

-- A failure that is not one of the last step has left nothing new.
abbrev Cleans : Objects → Result Email × World → Type 0
Cleans before (err e, w) = (e ≢ storing_attachment) → NothingNew before w.objects
Cleans before (ok email, w) = Unit

Cleans-err :
    (before : Objects) (r : Result Email) (w : World) (e : IngestError)
    → r ≡ err e
    → e ≢ storing_attachment
    → Cleans before (r, w)
    → NothingNew before w.objects
Cleans-err before (ok email) w e h early c = absurd (cc)
Cleans-err before (err e') w e h early c = c (λ same. early (cc))

module _ (env : Env) (deletes : (n : ℕ) → env.delete_fails n ≡ false) where
  download-delete_all :
      (k : Text) (keys : List Text) (w : World)
      → download k (delete_all env keys w).objects
        ≡ (if has k keys then none else download k w.objects)
  unfolding delete_all has
  download-delete_all k [] w = refl
  download-delete_all k (key ∷ keys) w =
      rw (deletes w.calls, delete_all)
        (download-delete_all k keys (record (tick w) { objects = delete key w.objects })
          ∙ ground (arith, download-delete key k w.objects))

  NothingNew-delete_all :
      (before : Objects) (keys : List Text) (w : World)
      → SameBut keys before w.objects
      → NothingNew before (delete_all env keys w).objects
  NothingNew-delete_all before keys w same k d e =
      ground (arith, download-delete_all k keys w, same k)

  SameBut-upload :
      (before objects : Objects) (keys : List Text) (key d : Text)
      → SameBut keys before objects
      → SameBut (keys ++ key ∷ []) before (upload key d objects)
  SameBut-upload before objects keys key d same k out =
      ground (arith, has-append k key keys, download-upload key k d objects, same k)

  -- The upload loop has cleaned up, or knows the keys that it wrote.
  abbrev Uploads : Objects → Result (List Text) × World → Type 0
  Uploads before (err e, w) = NothingNew before w.objects
  Uploads before (ok keys, w) = SameBut keys before w.objects

  upload_all-Uploads :
      (before : Objects) (account : Text) (uid : ℕ) (atts : List ParsedAttachment)
      (keys : List Text) (w : World)
      → SameBut keys before w.objects
      → Uploads before (upload_all env account uid atts keys w)
  unfolding upload_all
  upload_all-Uploads before account uid [] keys w same = same
  upload_all-Uploads before account uid (att ∷ atts) keys w same =
      elim (Bool-cases (env.fails w.calls)) [
        | inl broken ↦ rw (broken, Uploads) (NothingNew-delete_all before keys (tick w) same)
        | inr fine ↦
            let key = attachment_key account uid att.filename in
            rw (fine, Uploads)
              (upload_all-Uploads before account uid atts (keys ++ key ∷ [])
                (record (tick w) { objects = upload key att.content w.objects })
                (SameBut-upload before w.objects keys key att.content same))
      ]

  objects-create_email :
      (input : CreateEmailInput) (w : World) → (create_email env input w).1.objects ≡ w.objects
  unfolding create_email
  objects-create_email input w = ground arith

  finish-Cleans :
      (before : Objects) (email : Email) (parsed : ParsedEmail) (keys : List Text) (w : World)
      → Cleans before (finish env email parsed keys w)
  unfolding finish
  finish-Cleans before email parsed keys w =
      go (store_attachments env email.id parsed.attachments keys w).0 refl
    where
      go :
          (r : Result (List Attachment))
          → (store_attachments env email.id parsed.attachments keys w).0 ≡ r
          → Cleans before (
            with_attachments env email r,
            (store_attachments env email.id parsed.attachments keys w).1,
          )
      go (err e) h =
          λ ne. absurd (ne (store_attachments-eq-err env email.id parsed.attachments keys w e h))
      go (ok rows) h = tt

  created-Cleans :
      (before : Objects) (parsed : ParsedEmail) (keys : List Text) (r : Result Email) (w : World)
      → SameBut keys before w.objects
      → Cleans before (created env parsed keys (r, w))
  unfolding created
  created-Cleans before parsed keys (err e) w same = λ _. NothingNew-delete_all before keys w same
  created-Cleans before parsed keys (ok email) w same = finish-Cleans before email parsed keys w

  uploaded-Cleans :
      (before : Objects) (input : CreateEmailInput) (parsed : ParsedEmail) (r : Result (List Text))
      (w : World)
      → Uploads before (r, w)
      → Cleans before (uploaded env input parsed (r, w))
  unfolding uploaded
  uploaded-Cleans before input parsed (err e) w h = λ _. h
  uploaded-Cleans before input parsed (ok keys) w h =
      let stored = create_email env input w in
      created-Cleans before parsed keys stored.0 stored.1
        (λ k out. rw (objects-create_email input w) (h k out))

  parsed_as-Cleans :
      (account : ℕ) (folder : Text) (uid : ℕ) (bytes : Text) (p : Option ParsedEmail) (w : World)
      → Cleans w.objects (parsed_as env account folder uid bytes p w)
  unfolding parsed_as
  parsed_as-Cleans account folder uid bytes none w = λ _ k d e. e
  parsed_as-Cleans account folder uid bytes (some parsed) w =
      let ups = upload_all env (env.uuid_string account) uid parsed.attachments [] w in
      uploaded-Cleans w.objects _ parsed ups.0 ups.1 (
        upload_all-Uploads w.objects (env.uuid_string account) uid parsed.attachments [] w
          (λ k out. refl))

  fetched-Cleans :
      (account : ℕ) (folder : Text) (uid : ℕ) (f : Fetched) (w : World)
      → Cleans w.objects (fetched env account folder uid f w)
  unfolding fetched
  fetched-Cleans account folder uid (Fetched.failed e) w = λ _ k d h. h
  fetched-Cleans account folder uid (Fetched.raw bytes) w =
      parsed_as-Cleans account folder uid bytes (env.parse bytes) w

  unless_exists-Cleans :
      (acc : Account) (account : ℕ) (folder : Text) (uid : ℕ) (w : World)
      → Cleans w.objects (unless_exists env acc account folder uid w)
  unfolding unless_exists
  unless_exists-Cleans acc account folder uid w = elim (Bool-cases (env.fails w.calls)) [
    | inl broken ↦ rw (broken, Cleans) (λ _ k d h. h)
    | inr fine ↦
        rw (fine, Cleans)
          (elim (Bool-cases (exists_by_uid account folder uid w.emails)) [
            | inl old ↦ rw (old, Cleans) (λ _ k d h. h)
            | inr new ↦
                rw (new, Cleans)
                  (fetched-Cleans account folder uid (env.fetch_raw (w.calls + 1) acc folder uid)
                    (tick (tick w)))
          ])
  ]

  with_account-Cleans :
      (l : AccountLookup) (account : ℕ) (folder : Text) (uid : ℕ) (w : World)
      → Cleans w.objects (with_account env l account folder uid w)
  unfolding with_account
  with_account-Cleans AccountLookup.not_found account folder uid w = λ _ k d h. h
  with_account-Cleans AccountLookup.failed account folder uid w = λ _ k d h. h
  with_account-Cleans (AccountLookup.found acc) account folder uid w =
      unless_exists-Cleans acc account folder uid w

  -- Let every delete in the object store succeed. An ingestion that fails before its last step (the
  -- attachment rows) leaves nothing new in the store: every object there was there before, with
  -- the same content.
  pub ingest_email-NothingNew :
      (account : ℕ) (folder : Text) (uid : ℕ) (w : World) (e : IngestError)
      → (ingest_email env account folder uid w).0 ≡ err e
      → e ≢ storing_attachment
      → NothingNew w.objects (ingest_email env account folder uid w).1.objects
  unfolding ingest_email
  ingest_email-NothingNew account folder uid w e failed early =
      let r = with_account env (env.get_account w.calls account) account folder uid (tick w) in
      let clean =
        with_account-Cleans (env.get_account w.calls account) account folder uid (tick w) in
      Cleans-err w.objects r.0 r.1 e failed early clean
