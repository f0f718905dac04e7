-- ===== src/Api/Originals/Forwards.antt =====
-- The attachments of a forwarded message (internal/api/message_handler.go).
use letterbox.Prelude.{
  ◌≡◌, refl, ap, Text, Bool, true, false, Option, none, some, List, [], ◌∷◌, map, length, ltb,
  lt→ltb, if◌then◌else◌, arith,
}
use letterbox.Domain.{Attachment, Email}
use letterbox.Ingest.{World, tick}
use letterbox.Composer
use letterbox.Api.Originals.{
  Env, found, ReplyForwardContext, attachments_or_none, downloaded, add_download, all_or_error,
  fetch_original_attachments, forward_context, with_original,
}

abbrev pub filenames : List Attachment → List Text
filenames = map (λ (a : Attachment). a.filename)

abbrev pub composed_filenames : List Composer.Attachment → List Text
composed_filenames = map (λ (a : Composer.Attachment). a.filename)

module _ (env : Env) where
  add_download_complete :
      (att : Attachment) (o : Option Text) (atts : List Attachment)
      (rest : List Composer.Attachment) (complete : Bool)
      → (complete ≡ true → composed_filenames rest ≡ filenames atts)
      → (add_download env att o (rest, complete)).1 ≡ true
      → composed_filenames (add_download env att o (rest, complete)).0 ≡ filenames (att ∷ atts)
  add_download_complete att none atts rest complete ih h = absurd (cc (h))
  add_download_complete att (some bytes) atts rest complete ih h = ap (λ r. att.filename ∷ r) (ih h)

  fetch_original_attachments_complete :
      (atts : List Attachment) (w : World)
      → (fetch_original_attachments env atts w).0.1 ≡ true
      → composed_filenames (fetch_original_attachments env atts w).0.0 ≡ filenames atts
  unfolding fetch_original_attachments
  fetch_original_attachments_complete [] w h = refl
  fetch_original_attachments_complete (att ∷ atts) w h =
      let rest = (fetch_original_attachments env atts (tick w)).0 in
      add_download_complete att (downloaded env w.calls att.s3_key w) atts rest.0 rest.1
        (fetch_original_attachments_complete atts (tick w)) h

  all_found :
      (context context' : ReplyForwardContext) (originals : List Attachment)
      (atts atts' : List Composer.Attachment) (complete : Bool) (w : World)
      → (complete ≡ true → composed_filenames atts ≡ filenames originals)
      → (all_or_error env context ((atts, complete), w)).0 ≡ found (context', atts')
      → composed_filenames atts' ≡ filenames originals
  all_found context context' originals atts atts' false w h e = absurd (cc (e))
  all_found context context' originals atts atts' true w h e =
      let same : atts ≡ atts' = cc (e) in rw (← same) (h refl)

  -- Where a forward that includes the attachments succeeds, it has all attachments of the original
  -- message, in order.
  pub with_original_complete :
      (quote : Bool) (original : Email) (w : World) (context : ReplyForwardContext)
      (atts : List Composer.Attachment)
      → (with_original env quote true (found original, w)).0 ≡ found (context, atts)
      → composed_filenames atts ≡ filenames (attachments_or_none original.attachments)
  unfolding with_original
  with_original_complete quote original w context atts e =
      by_length (attachments_or_none original.attachments) e
    where
      by_length :
          (originals : List Attachment)
          → (if ltb 0 (length originals)
              then all_or_error env
                  (forward_context env quote original)
                  (fetch_original_attachments env originals w)
              else (found (forward_context env quote original, []), w)).0
            ≡ found (context, atts)
          → composed_filenames atts ≡ filenames originals
      by_length [] e =
          let same : ◌≡◌ {A = List Composer.Attachment} [] atts = cc (e) in rw (← same) refl
      by_length (att ∷ rest) e =
          let got = fetch_original_attachments env (att ∷ rest) w in
          all_found (forward_context env quote original) context (att ∷ rest) got.0.0 atts got.0.1
            got.1 (fetch_original_attachments_complete (att ∷ rest) w)
            (rw (lt→ltb 0 (length (att ∷ rest)) (omega arith)) at e)
