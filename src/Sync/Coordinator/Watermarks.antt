-- ===== src/Sync/Coordinator/Watermarks.antt =====
-- The last UIDs of the folders (internal/sync/coordinator.go).
use letterbox.Prelude.{
  ℕ, ◌≡◌, ◌≢◌, ◌≤◌, ◌<◌, refl, ◌∙◌, Text, text_eq_iff, text_eq_refl, ==_iff, false, Option, none,
  some, List, [], ◌∷◌, ◌++◌, Bool-cases, inl, inr, arith,
}
use letterbox.Prelude.Maps.{lookup-insert}
use letterbox.Domain.{Email}
use letterbox.Ingest
use letterbox.Ingest.{
  AccountLookup, Result, ok, err, IngestError, email_already_exists, storing_attachment,
  ingest_email, exists_by_uid, same_message,
}
use letterbox.Ingest.Unique.{Changes, exists_by_uid-append}
use letterbox.Ingest.Emails.{ingest_email-Changes}
use letterbox.Sync.{IdleEvent, new_message, expunge, EventType}
use letterbox.Sync.Coordinator.{
  Env, Coordinator, last_uid, uid_key, tick, ingested, ingest_each, advance, with_uids,
  with_account, with_id, handle_event, process_events,
}

-- No folder's last UID is lowered.
abbrev pub Rises : Coordinator → Coordinator → Type 0
Rises c c' = (k : Text) → last_uid k c ≤ last_uid k c'

Rises-refl : (c : Coordinator) → Rises c c
Rises-refl c k = omega arith

-- Two coordinators with the same last UIDs.
Rises-same : (c c' : Coordinator) → c'.last_uids ≡ c.last_uids → Rises c c'
unfolding last_uid
Rises-same c c' same k = rw same (omega arith)

module _ (env : Env) where
  advance-Rises :
      (key : Text) (last : ℕ) (c : Coordinator) → Rises c (advance env key (some last, c))
  unfolding advance last_uid
  advance-Rises key last c k =
      ground (arith, lookup-insert key k last c.last_uids, text_eq_iff key k)

  ingested-last_uids :
      (uid last : ℕ) (r : Result Email) (w : Ingest.World) (c : Coordinator)
      → (ingested env uid last (r, w) c).1.last_uids ≡ c.last_uids
  unfolding ingested
  ingested-last_uids uid last (ok email) w c = refl
  ingested-last_uids uid last (err e) w c =
      elim e as (λ x. (ingested env uid last (err x, w) c).1.last_uids ≡ c.last_uids) [
        | email_already_exists ↦ refl
        | _ ↦ refl
      ]

  ingest_each-last_uids :
      (account : ℕ) (folder : Text) (uids : List ℕ) (last : ℕ) (c : Coordinator)
      → (ingest_each env account folder uids last c).1.last_uids ≡ c.last_uids
  unfolding ingest_each
  ingest_each-last_uids account folder [] last c = refl
  ingest_each-last_uids account folder (uid ∷ uids) last c =
      let r = ingest_email env.ingester account folder uid (Ingest.tick c.store) in
      let next = ingested env uid last r (tick c) in
      elim (Bool-cases (env.is_done c.store.calls)) [
        | inl done ↦ rw done refl
        | inr more ↦ rw more (
            ingest_each-last_uids account folder uids next.0 next.1
            ∙ ingested-last_uids uid last r.0 r.1 (tick c))
      ]

  advanced-Rises :
      (key : Text) (r : Option ℕ) (c c' : Coordinator)
      → c'.last_uids ≡ c.last_uids
      → Rises c (advance env key (r, c'))
  unfolding advance last_uid
  advanced-Rises key none c c' same k = Rises-same c c' same k
  advanced-Rises key (some last) c c' same k =
      ground (arith, Rises-same c c' same k, advance-Rises key last c' k)

  with_uids-Rises :
      (key : Text) (account : ℕ) (folder : Text) (uids : Option (List ℕ)) (c : Coordinator)
      → Rises c (with_uids env key account folder uids c)
  unfolding with_uids
  with_uids-Rises key account folder none c = Rises-refl c
  with_uids-Rises key account folder (some []) c = Rises-refl c
  with_uids-Rises key account folder (some (uid ∷ uids)) c =
      let r = ingest_each env account folder (uid ∷ uids) 0 c in
      advanced-Rises key r.0 c r.1 (ingest_each-last_uids account folder (uid ∷ uids) 0 c)

  with_account-Rises :
      (event : IdleEvent) (id : ℕ) (l : AccountLookup) (c : Coordinator)
      → Rises c (with_account env event id l c)
  unfolding with_account
  with_account-Rises event id AccountLookup.not_found c = Rises-refl c
  with_account-Rises event id AccountLookup.failed c = Rises-refl c
  with_account-Rises event id (AccountLookup.found account) c =
      with_uids-Rises (uid_key event.account_id event.folder) id event.folder _ (tick c)

  with_id-Rises :
      (event : IdleEvent) (o : Option ℕ) (c : Coordinator) → Rises c (with_id env event o c)
  unfolding with_id
  with_id-Rises event none c = Rises-refl c
  with_id-Rises event (some id) c = with_account-Rises event id _ (tick c)

  handled-Rises :
      (event : IdleEvent) (t : EventType) (c : Coordinator)
      → Rises c (handle_event env (record event { event_type = t }) c)
  unfolding handle_event
  handled-Rises event expunge c = Rises-refl c
  handled-Rises event new_message c = with_id-Rises (record event { event_type = new_message }) _ c

  -- Whatever events are processed, and whatever the servers and the database answer, the last UID
  -- of no folder is lowered.
  pub process_events-Rises :
      (events : List IdleEvent) (c : Coordinator) → Rises c (process_events env events c)
  unfolding process_events
  process_events-Rises [] c k = omega arith
  process_events-Rises (event ∷ events) c k = omega (
    arith,
    handled-Rises event event.event_type c k,
    process_events-Rises events (handle_event env event c) k,
  )

  -- A message that is not stored is not stored after the ingestion of another one.
  ingested-exists :
      (account : ℕ) (folder : Text) (first second : ℕ) (before : List Email) (r : Result Email)
      (w : Ingest.World)
      → Changes account folder second before (r, w)
      → first ≢ second
      → exists_by_uid account folder first before ≡ false
      → exists_by_uid account folder first w.emails ≡ false
  unfolding same_message
  ingested-exists account folder first second before (ok email) w h other absent = rw h.appended (
      ground (
        arith,
        exists_by_uid-append account folder first before h.row,
        ==_iff h.row.uid first,
        h.uid_eq,
      ))
  ingested-exists account folder first second before (err e) w (inl (_, h)) other absent =
      rw h.appended (
        ground (
          arith,
          exists_by_uid-append account folder first before h.row,
          ==_iff h.row.uid first,
          h.uid_eq,
        ))
  ingested-exists account folder first second before (err e) w (inr (_, h)) other absent =
      rw h absent

  -- An ingestion that fails early leaves the table of emails alone.
  failed-emails :
      (account : ℕ) (folder : Text) (uid : ℕ) (before : List Email) (r : Result Email)
      (w : Ingest.World) (e : IngestError)
      → Changes account folder uid before (r, w)
      → r ≡ err e
      → e ≢ storing_attachment
      → w.emails ≡ before
  failed-emails account folder uid before (ok email) w e h failed early = absurd (cc)
  failed-emails account folder uid before (err e') w e (inl (same, h)) failed early =
      absurd (early (cc))
  failed-emails account folder uid before (err e') w e (inr (_, h)) failed early = h

  ingested-err :
      (uid last : ℕ) (w : Ingest.World) (c : Coordinator) (e : IngestError)
      → e ≢ email_already_exists
      → ingested env uid last (err e, w) c ≡ (last, record c { store = w })
  unfolding ingested
  ingested-err uid last w c email_already_exists other = absurd (other refl)
  ingested-err uid last w c _ other = refl

  ingested-failed :
      (uid last : ℕ) (r : Result Email × Ingest.World) (c : Coordinator) (e : IngestError)
      → r.0 ≡ err e
      → e ≢ email_already_exists
      → ingested env uid last r c ≡ (last, record c { store = r.1 })
  ingested-failed uid last (r, w) c e failed other = rw failed (ingested-err uid last w c e other)

  ingested-stored :
      (uid last : ℕ) (r : Result Email × Ingest.World) (c : Coordinator) (email : Email)
      → r.0 ≡ ok email
      → ingested env uid last r c
        ≡ (uid, record c { store = r.1; notified = c.notified ++ email ∷ [] })
  unfolding ingested
  ingested-stored uid last (r, w) c email stored = rw (stored, ingested) refl

module _ (env : Env) (account : ℕ) (folder : Text) (first second : ℕ) (c : Coordinator) where
  abbrev first_result : Result Email × Ingest.World
  first_result = ingest_email env.ingester account folder first (Ingest.tick c.store)

  abbrev second_result : Result Email × Ingest.World
  second_result = ingest_email env.ingester account folder second (Ingest.tick first_result.1)

  abbrev after_both : Email → Coordinator
  after_both email = record c { store = second_result.1; notified = c.notified ++ email ∷ [] }

  ingest_each-skips :
      (e : IngestError) (email : Email)
      → first_result.0 ≡ err e
      → e ≢ email_already_exists
      → second_result.0 ≡ ok email
      → env.is_done c.store.calls ≡ false
      → env.is_done first_result.1.calls ≡ false
      → ingest_each env account folder (first ∷ second ∷ []) 0 c ≡ (some second, after_both email)
  unfolding ingest_each
  ingest_each-skips e email failed other stored on on' = rw on (
      rw (ingested-failed env first 0 first_result (tick c) e failed other)
        (rw on' (rw (ingested-stored env second 0 second_result _ email stored) refl)))

  -- Of two new UIDs let the ingestion of the first fail before anything is stored, and that of the
  -- second succeed, with no shutdown between. Then the folder's last UID becomes the second, though
  -- the first is not stored.
  pub with_uids-skips :
      (key : Text) (e : IngestError) (email : Email)
      → first_result.0 ≡ err e
      → e ≢ email_already_exists
      → e ≢ storing_attachment
      → second_result.0 ≡ ok email
      → env.is_done c.store.calls ≡ false
      → env.is_done first_result.1.calls ≡ false
      → exists_by_uid account folder first c.store.emails ≡ false
      → first < second
      → last_uid key c < second
      → (last_uid key (with_uids env key account folder (some (first ∷ second ∷ [])) c) ≡ second)
        × (exists_by_uid account folder first
              (with_uids env key account folder (some (first ∷ second ∷ [])) c).store.emails
            ≡ false)
  unfolding with_uids advance last_uid
  with_uids-skips key e email failed other early stored on on' absent order behind =
      let first_left =
        failed-emails env account folder first c.store.emails first_result.0 first_result.1 e
          (ingest_email-Changes env.ingester account folder first (Ingest.tick c.store)) failed
          early in
      let second_left =
        ingested-exists env account folder first second first_result.1.emails second_result.0
          second_result.1
          (ingest_email-Changes env.ingester account folder second (Ingest.tick first_result.1))
          (λ same. omega arith) (rw first_left absent) in
      rw (ingest_each-skips e email failed other stored on on')
        (ground (arith, second_left, lookup-insert key key second c.last_uids, text_eq_refl key))
