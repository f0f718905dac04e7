-- ===== src/Api/Reading/Messages.antt =====
-- What GetMessage answers (internal/api/message_handler.go).
use letterbox.Prelude.{
  ℕ, ◌%◌, ◌^◌, ◌≡◌, ◌≢◌, ◌≤◌, ◌<◌, refl, Text, text_eq_iff, ==_iff, true, Option, none, some, List,
  [], ◌∷◌, if_ind, Bool-cases, inl, inr, arith,
}
use letterbox.Domain.{Account, Attachment, Email}
use letterbox.Ingest.{
  World, tick, Result, ok, err, email_already_exists, account_not_found, fetching, FetchError,
  message_not_found, folder_not_found, getting_account, checking_exists, parsing, uploading,
  storing_email, storing_attachment, AccountLookup, ingest_email, same_message, exists_by_uid,
}
use letterbox.Ingest.Stored.{IsDone, ingest_email-exists}
use letterbox.Ingest.Returned.{IsOf, ingest_email-IsOf}
use letterbox.Api.Originals.{
  Found, found, failed, OriginalError, email_not_found, getting_email, get_by_uid, find_by_uid,
  looked_up,
}
use letterbox.Api.Originals
use letterbox.Api.Reading.{
  MessageResponse, Response, message, error, or_inbox, parse_uid, message_response,
  with_attachments, after_ingest, unless_found, with_account, with_params, get_message, after_race,
}

-- A message in the answer is of the folder and UID, and in the table; an error answers with a
-- status of the 400s or 500s.
abbrev pub IsAnswer : ℕ → Text → ℕ → Response × World → Type 0
IsAnswer account folder uid (message m, w) =
    ((m.folder ≡ folder) × (m.uid ≡ uid)) × (exists_by_uid account folder uid w.emails ≡ true)
IsAnswer account folder uid (error status, w) = 399 < status

abbrev IsFound : ℕ → Text → ℕ → Found Email × World → Type 0
IsFound account folder uid (found e, w) =
    ((e.folder ≡ folder) × (e.uid ≡ uid)) × (exists_by_uid account folder uid w.emails ≡ true)
IsFound account folder uid (failed e, w) = Unit

looked_up-IsFound :
    (account : ℕ) (folder : Text) (uid : ℕ) (es : List Email) (w : World)
    → ((a : Email) → same_message account folder uid a ≡ true → (a.folder ≡ folder) × (a.uid ≡ uid))
    → (exists_by_uid account folder uid es ≡ true
        → exists_by_uid account folder uid w.emails ≡ true)
    → IsFound account folder uid (looked_up (find_by_uid account folder uid es), w)
unfolding find_by_uid exists_by_uid
looked_up-IsFound account folder uid [] w same inside = tt
looked_up-IsFound account folder uid (e ∷ es) w same inside =
    elim (Bool-cases (same_message account folder uid e)) [
      | inl this ↦ rw this (same e this, inside (rw this refl))
      | inr other ↦
          rw other (looked_up-IsFound account folder uid es w same (λ h. inside (rw other h)))
    ]

same_message-fields :
    (account : ℕ) (folder : Text) (uid : ℕ) (a : Email)
    → same_message account folder uid a ≡ true
    → (a.folder ≡ folder) × (a.uid ≡ uid)
unfolding same_message
same_message-fields account folder uid a h =
    ground (arith, text_eq_iff a.folder folder, ==_iff a.uid uid)

module _ (env : Originals.Env) (account : ℕ) (folder : Text) (uid : ℕ) where
  get_by_uid-IsFound :
      (w : World) → IsFound account folder uid (get_by_uid env account folder uid w)
  unfolding get_by_uid
  get_by_uid-IsFound w =
      if_ind (IsFound account folder uid) (env.ingester.fails w.calls) _ _ (λ _. tt)
        (λ _.
          looked_up-IsFound account folder uid w.emails (tick w)
            (same_message-fields account folder uid) (λ h. h))

module _ (env : Originals.Env) (parse_uuid : Text → Option ℕ) (presigned : ℕ → Text → Option Text)
    (account : ℕ) (folder : Text) (uid : ℕ) where
  with_attachments-IsAnswer :
      (e : Email) (o : Option (List Attachment)) (w : World)
      → e.folder ≡ folder
      → e.uid ≡ uid
      → exists_by_uid account folder uid w.emails ≡ true
      → IsAnswer account folder uid (with_attachments env parse_uuid presigned e o w)
  unfolding with_attachments
  with_attachments-IsAnswer e (some atts) w f u there = ((f, u), there)
  with_attachments-IsAnswer e none w f u there =
      if_ind (IsAnswer account folder uid) (env.ingester.fails w.calls) _ _ (λ _. omega arith)
        (λ _. ((f, u), there))

  after_race-IsAnswer :
      (r : Found Email × World)
      → IsFound account folder uid r
      → IsAnswer account folder uid (after_race env parse_uuid presigned r)
  after_race-IsAnswer (found e, w) ((f, u), there) =
      with_attachments-IsAnswer e e.attachments w f u there
  after_race-IsAnswer (failed e, w) h = omega arith

  after_ingest-IsAnswer :
      (r : Result Email) (w : World)
      → IsOf account folder uid r
      → (IsDone env.ingester account folder uid r
          → exists_by_uid account folder uid w.emails ≡ true)
      → IsAnswer account folder uid
          (after_ingest env parse_uuid presigned account folder uid (r, w))
  unfolding after_ingest
  after_ingest-IsAnswer (ok e) w (a, (f, u)) stored =
      with_attachments-IsAnswer e e.attachments w f u (stored (inl (e, refl)))
  after_ingest-IsAnswer (err account_not_found) w h stored = omega arith
  after_ingest-IsAnswer (err email_already_exists) w h stored =
      after_race-IsAnswer (get_by_uid env account folder uid w)
        (get_by_uid-IsFound env account folder uid w)
  after_ingest-IsAnswer (err (fetching message_not_found)) w h stored = omega arith
  after_ingest-IsAnswer (err (fetching folder_not_found)) w h stored = omega arith
  after_ingest-IsAnswer (err (fetching FetchError.other)) w h stored = omega arith
  after_ingest-IsAnswer (err getting_account) w h stored = omega arith
  after_ingest-IsAnswer (err checking_exists) w h stored = omega arith
  after_ingest-IsAnswer (err parsing) w h stored = omega arith
  after_ingest-IsAnswer (err uploading) w h stored = omega arith
  after_ingest-IsAnswer (err storing_email) w h stored = omega arith
  after_ingest-IsAnswer (err storing_attachment) w h stored = omega arith

  unless_found-IsAnswer :
      (r : Found Email × World)
      → uid < 2 ^ 32
      → IsFound account folder uid r
      → IsAnswer account folder uid (unless_found env parse_uuid presigned account folder uid r)
  unfolding unless_found
  unless_found-IsAnswer (found e, w) small ((f, u), there) =
      with_attachments-IsAnswer e e.attachments w f u there
  unless_found-IsAnswer (failed getting_email, w) small h = omega arith
  unless_found-IsAnswer (failed (OriginalError.ingesting e), w) small h = omega arith
  unless_found-IsAnswer (failed OriginalError.fetching_attachments, w) small h = omega arith
  unless_found-IsAnswer (failed email_not_found, w) small h =
      let fits : uid % 2 ^ 32 ≡ uid = omega arith in
      let r = ingest_email env.ingester account folder uid w in
      rw fits (
        after_ingest-IsAnswer r.0 r.1 (ingest_email-IsOf env.ingester account folder uid w)
          (ingest_email-exists env.ingester account folder uid w))

  with_account-IsAnswer :
      (l : AccountLookup) (w : World)
      → uid < 2 ^ 32
      → IsAnswer account folder uid (with_account env parse_uuid presigned l account folder uid w)
  unfolding with_account
  with_account-IsAnswer AccountLookup.not_found w small = omega arith
  with_account-IsAnswer AccountLookup.failed w small = omega arith
  with_account-IsAnswer (AccountLookup.found acc) w small =
      unless_found-IsAnswer (get_by_uid env account folder uid w) small
        (get_by_uid-IsFound env account folder uid w)

module _ (env : Originals.Env) (parse_uuid : Text → Option ℕ)
    (presigned : ℕ → Text → Option Text) where
  -- For an account and a UID of 32 bits that the request spells, a message in GetMessage's answer
  -- has this UID and the folder asked for, INBOX where none is, and the table holds it afterwards;
  -- any other answer has a status of 400 or more.
  pub get_message-IsAnswer :
      (account_id uid_text folder : Text) (account uid : ℕ) (w : World)
      → parse_uuid account_id ≡ some account
      → parse_uid uid_text ≡ some uid
      → uid < 2 ^ 32
      → IsAnswer account
          (or_inbox folder)
          uid
          (get_message env parse_uuid presigned account_id uid_text folder w)
  unfolding get_message with_params
  get_message-IsAnswer account_id uid_text folder account uid w a u small =
      rw (a, u)
        (with_account-IsAnswer env parse_uuid presigned account _ uid
          (env.ingester.get_account w.calls account) (tick w) small)

  after_ingest-message :
      (account : ℕ) (folder : Text) (uid : ℕ) (e : Email) (atts : List Attachment)
      (r : Result Email) (w : World)
      → r ≡ ok e
      → e.attachments ≡ some atts
      → (after_ingest env parse_uuid presigned account folder uid (r, w)).0
        ≡ message (message_response env parse_uuid presigned e w.calls)
  unfolding after_ingest with_attachments
  after_ingest-message account folder uid e atts r w stored has = rw stored (rw has refl)

  uid_of :
      (account : ℕ) (folder : Text) (uid : ℕ) (e : Email) (r : Result Email)
      → IsOf account folder uid r
      → r ≡ ok e
      → e.uid ≡ uid
  uid_of account folder uid e (ok e') h same = cc (h.1.1, same)
  uid_of account folder uid e (err e') h same = absurd (cc (same))

  -- For a UID of more than 32 bits that the table does not hold, with an account that is found and
  -- lookups that work: where the ingestion of the UID's lower 32 bits gives an email with its
  -- attachments, GetMessage answers with it, a message of another UID than the one asked for.
  pub get_message-other_uid :
      (account_id uid_text folder : Text) (account uid : ℕ) (acc : Account) (e : Email)
      (atts : List Attachment) (w : World)
      → parse_uuid account_id ≡ some account
      → parse_uid uid_text ≡ some uid
      → env.ingester.get_account w.calls account ≡ AccountLookup.found acc
      → get_by_uid env account (or_inbox folder) uid (tick w)
        ≡ (failed email_not_found, tick (tick w))
      → (ingest_email env.ingester account (or_inbox folder) (uid % 2 ^ 32) (tick (tick w))).0
        ≡ ok e
      → e.attachments ≡ some atts
      → 2 ^ 32 ≤ uid
      → (m : MessageResponse) × ((get_message env parse_uuid presigned account_id uid_text folder
            w).0
          ≡ message m)
        × ((m.uid ≡ uid % 2 ^ 32) × (m.uid ≢ uid))
  unfolding get_message with_params with_account unless_found
  get_message-other_uid account_id uid_text folder account uid acc e atts w a u there miss stored
        has big =
      let r = ingest_email env.ingester account (or_inbox folder) (uid % 2 ^ 32) (tick (tick w)) in
      let low =
        uid_of account (or_inbox folder) (uid % 2 ^ 32) e r.0
          (ingest_email-IsOf env.ingester account (or_inbox folder) (uid % 2 ^ 32) (tick (tick w)))
          stored in
      (
        message_response env parse_uuid presigned e r.1.calls,
        rw (a, u)
            (rw there (
              rw miss
                (after_ingest-message account (or_inbox folder) uid e atts r.0 r.1 stored has))),
        (low, λ same. omega (arith, same, low)),
      )
