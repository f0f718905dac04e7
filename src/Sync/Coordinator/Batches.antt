-- ===== src/Sync/Coordinator/Batches.antt =====
-- A batch of new messages without failures (internal/sync/coordinator.go).
use letterbox.Prelude.{
  ◌∙◌, ℕ, ◌≡◌, ◌≤◌, refl, ap, Text, true, false, Option, none, some, List, [], ◌∷◌, All, inl, inr,
  arith, text_eq_refl,
}
use letterbox.Prelude.Maps.{lookup-insert}
use letterbox.Domain.{Email}
use letterbox.Ingest
use letterbox.Ingest.{Result, ok, err, email_already_exists, ingest_email, exists_by_uid}
use letterbox.Ingest.Unique.{Changes, exists_by_uid-append}
use letterbox.Ingest.Emails.{ingest_email-Changes}
use letterbox.Ingest.Stored.{IsDone, ingest_email-exists}
use letterbox.Sync.Coordinator.{
  Env, Coordinator, last_uid, tick, ingested, ingest_each, advance, with_uids,
}

abbrev pub last_of : ℕ → List ℕ → ℕ
last_of last [] = last
last_of last (uid ∷ uids) = last_of uid uids

module _ (env : Env) (account : ℕ) (folder : Text) where
  abbrev result_of : ℕ → Coordinator → Result Email × Ingest.World
  result_of uid c = ingest_email env.ingester account folder uid (Ingest.tick c.store)

  abbrev next_of : ℕ → ℕ → Coordinator → Coordinator
  next_of uid last c = (ingested env uid last (result_of uid c) (tick c)).1

  -- Each ingestion of the batch succeeds or finds its message there, and there is no shutdown.
  abbrev pub AllDone : List ℕ → ℕ → Coordinator → Type 0
  AllDone [] last c = Unit
  AllDone (uid ∷ uids) last c =
      (env.is_done c.store.calls ≡ false)
      × (IsDone env.ingester account folder uid (result_of uid c).0
          × AllDone uids uid (next_of uid last c))

  ingested-store :
      (uid last : ℕ) (r : Result Email) (w : Ingest.World) (c : Coordinator)
      → (ingested env uid last (r, w) c).1.store ≡ w
  unfolding ingested
  ingested-store uid last (ok email) w c = refl
  ingested-store uid last (err e) w c =
      elim e as (λ x. (ingested env uid last (err x, w) c).1.store ≡ w) [
        | email_already_exists ↦ refl
        | _ ↦ refl
      ]

  ingested-done :
      (uid last : ℕ) (r : Result Email) (w : Ingest.World) (c : Coordinator)
      → IsDone env.ingester account folder uid r
      → (ingested env uid last (r, w) c).0 ≡ uid
  unfolding ingested
  ingested-done uid last r w c (inl (email, stored)) = rw (stored, ingested) refl
  ingested-done uid last r w c (inr same) = rw (same, ingested) refl

  Changes-keeps :
      (u uid : ℕ) (before : List Email) (r : Result Email) (w : Ingest.World)
      → Changes account folder uid before (r, w)
      → exists_by_uid account folder u before ≡ true
      → exists_by_uid account folder u w.emails ≡ true
  Changes-keeps u uid before (ok email) w h there =
      rw h.appended (ground (arith, exists_by_uid-append account folder u before h.row))
  Changes-keeps u uid before (err e) w (inl (_, h)) there =
      rw h.appended (ground (arith, exists_by_uid-append account folder u before h.row))
  Changes-keeps u uid before (err e) w (inr (_, h)) there = rw h there

  next_of-keeps :
      (u uid last : ℕ) (c : Coordinator)
      → exists_by_uid account folder u c.store.emails ≡ true
      → exists_by_uid account folder u (next_of uid last c).store.emails ≡ true
  next_of-keeps u uid last c there =
      let r = result_of uid c in
      rw (ingested-store uid last r.0 r.1 (tick c)) (
        Changes-keeps u uid c.store.emails r.0 r.1
          (ingest_email-Changes env.ingester account folder uid (Ingest.tick c.store)) there)

  next_of-exists :
      (uid last : ℕ) (c : Coordinator)
      → IsDone env.ingester account folder uid (result_of uid c).0
      → exists_by_uid account folder uid (next_of uid last c).store.emails ≡ true
  next_of-exists uid last c done =
      let r = result_of uid c in
      rw (ingested-store uid last r.0 r.1 (tick c))
        (ingest_email-exists env.ingester account folder uid (Ingest.tick c.store) done)

  ingest_each-keeps :
      (u : ℕ) (uids : List ℕ) (last : ℕ) (c : Coordinator)
      → AllDone uids last c
      → exists_by_uid account folder u c.store.emails ≡ true
      → exists_by_uid account folder u (ingest_each env account folder uids last c).1.store.emails
        ≡ true
  unfolding ingest_each
  ingest_each-keeps u [] last c done there = there
  ingest_each-keeps u (uid ∷ uids) last c (running, (done, rest)) there =
      let r = result_of uid c in
      rw running (
        rw (ingested-done uid last r.0 r.1 (tick c) done) (
          ingest_each-keeps u uids uid (next_of uid last c) rest
            (next_of-keeps u uid last c there)))

  All-same :
      (uids : List ℕ) (before after : List Email)
      → after ≡ before
      → All (λ u. exists_by_uid account folder u before ≡ true) uids
      → All (λ u. exists_by_uid account folder u after ≡ true) uids
  All-same [] before after same there = tt
  All-same (uid ∷ uids) before after same (first, rest) =
      (rw same first, All-same uids before after same rest)

  ingest_each-next_of :
      (uid : ℕ) (uids : List ℕ) (last : ℕ) (c : Coordinator)
      → AllDone (uid ∷ uids) last c
      → ingest_each env account folder (uid ∷ uids) last c
        ≡ ingest_each env account folder uids uid (next_of uid last c)
  unfolding ingest_each
  ingest_each-next_of uid uids last c (running, (done, rest)) =
      let r = result_of uid c in rw running (rw (ingested-done uid last r.0 r.1 (tick c) done) refl)

  ingest_each-exists :
      (uids : List ℕ) (last : ℕ) (c : Coordinator)
      → AllDone uids last c
      → ((ingest_each env account folder uids last c).0 ≡ some (last_of last uids))
        × All
            (λ u.
              exists_by_uid account folder u
                (ingest_each env account folder uids last c).1.store.emails
              ≡ true)
            uids
  unfolding ingest_each
  ingest_each-exists [] last c done = (refl, tt)
  ingest_each-exists (uid ∷ uids) last c (running, (done, rest)) =
      let c' = next_of uid last c in
      let step = ingest_each-next_of uid uids last c (running, (done, rest)) in
      let tail = ingest_each-exists uids uid c' rest in
      (
        ap (λ r. r.0) step ∙ tail.0,
        All-same (uid ∷ uids) (ingest_each env account folder uids uid c').1.store.emails _
            (ap (λ r. r.1.store.emails) step)
            (ingest_each-keeps uid uids uid c' rest (next_of-exists uid last c done), tail.1),
      )

  advance-reaches :
      (key : Text) (o : Option ℕ) (last : ℕ) (c : Coordinator)
      → o ≡ some last
      → last ≤ last_uid key (advance env key (o, c))
  unfolding advance last_uid
  advance-reaches key none last c h = absurd (cc (h))
  advance-reaches key (some n) last c h =
      ground (arith, lookup-insert key key n c.last_uids, text_eq_refl key)

  advance-store :
      (key : Text) (o : Option ℕ) (c : Coordinator) → (advance env key (o, c)).store ≡ c.store
  unfolding advance
  advance-store key none c = refl
  advance-store key (some last) c = ground arith

  -- If every ingestion of a batch of new UIDs succeeds or finds its message there, with no shutdown
  -- between, then every message of the batch is in the table afterwards, and the folder's last UID
  -- has reached the last of the batch.
  pub with_uids-exists :
      (key : Text) (uid : ℕ) (uids : List ℕ) (c : Coordinator)
      → AllDone (uid ∷ uids) 0 c
      → All
          (λ u.
            exists_by_uid account folder u
              (with_uids env key account folder (some (uid ∷ uids)) c).store.emails
            ≡ true)
          (uid ∷ uids)
        × (last_of uid uids ≤ last_uid key (with_uids env key account folder (some (uid ∷ uids)) c))
  unfolding with_uids
  with_uids-exists key uid uids c done =
      let batch = ingest_each env account folder (uid ∷ uids) 0 c in
      let all = ingest_each-exists (uid ∷ uids) 0 c done in
      (
        All-same (uid ∷ uids) batch.1.store.emails _
            (ap (λ w. w.emails) (advance-store key batch.0 batch.1)) all.1,
        advance-reaches key batch.0 (last_of uid uids) batch.1 all.0,
      )
