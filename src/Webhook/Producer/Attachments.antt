-- ===== src/Webhook/Producer/Attachments.antt =====
-- The attachments of a webhook payload (`buildPayload` of internal/webhook/producer.go).
use letterbox.Prelude.{
  ℕ, ◌≡◌, ◌<◌, refl, Text, Option, none, some, List, [], ◌∷◌, map, All, ltb, ltb→lt, Bool-cases,
  inl, inr, ◌⊎◌,
}
use letterbox.Domain.{Attachment, Email}
use letterbox.Webhook.Producer.{
  Env, World, tick, AttachmentPayload, inline_attachment_threshold, build_attachment,
  build_attachments, with_url, with_content, bare, keep, build_payload, attachments_of,
}

-- The content is not inlined, or there is no URL and the attachment is below the threshold.
abbrev pub IsExclusive : AttachmentPayload → Type 0
IsExclusive p = (p.content ≡ []) ⊎ ((p.url ≡ []) × (p.size < inline_attachment_threshold))

-- What holds of the payload, where there is one.
abbrev WhenSome : (AttachmentPayload → Type 0) → Option AttachmentPayload → Type 0
WhenSome P none = Unit
WhenSome P (some p) = P p

module _ (env : Env) where
  with_url-IsExclusive :
      (att : Attachment) (url : Option Text) → WhenSome IsExclusive (with_url env att url)
  unfolding with_url
  with_url-IsExclusive att none = tt
  with_url-IsExclusive att (some url) = inl refl

  with_content-IsExclusive :
      (att : Attachment) (d : Option Text) (w : World)
      → att.size < inline_attachment_threshold
      → WhenSome IsExclusive (with_content env att d w).0
  unfolding with_content
  with_content-IsExclusive att none w small = with_url-IsExclusive att _
  with_content-IsExclusive att (some d) w small = inr (refl, small)

  build_attachment-IsExclusive :
      (att : Attachment) (w : World) → WhenSome IsExclusive (build_attachment env att w).0
  unfolding build_attachment
  build_attachment-IsExclusive att w =
      elim (Bool-cases (ltb att.size inline_attachment_threshold)) [
        | inl small ↦
            rw (small, WhenSome)
              (with_content-IsExclusive att _ (tick w)
                (ltb→lt att.size inline_attachment_threshold small))
        | inr large ↦ rw (large, WhenSome) (with_url-IsExclusive att _)
      ]

  All-keep :
      (o : Option AttachmentPayload) (rest : List AttachmentPayload)
      → WhenSome IsExclusive o
      → All IsExclusive rest
      → All IsExclusive (keep env o rest)
  All-keep none rest h k = k
  All-keep (some p) rest h k = (h, k)

  build_attachments-IsExclusive :
      (atts : List Attachment) (w : World) → All IsExclusive (build_attachments env atts w).0
  unfolding build_attachments
  build_attachments-IsExclusive [] w = tt
  build_attachments-IsExclusive (att ∷ atts) w =
      All-keep (build_attachment env att w).0 _ (build_attachment-IsExclusive att w)
        (build_attachments-IsExclusive atts (build_attachment env att w).1)

  -- Each attachment of a payload has no inlined content, or it has no URL and a size below the
  -- threshold of 1 MiB: never both, and large ones never inline.
  pub build_payload-IsExclusive :
      (email : Email) (w : World) → All IsExclusive (build_payload env email w).0.email.attachments
  unfolding build_payload
  build_payload-IsExclusive email w =
      build_attachments-IsExclusive (attachments_of email.attachments) w

module _ (env : Env)
    (presigns : (n : ℕ) (key : Text)
      → (url : Text) × (env.generate_presigned_url n key ≡ some url)) where
  with_url-filename :
      (att : Attachment) (n : ℕ)
      → (p : AttachmentPayload) × (with_url env att (env.generate_presigned_url n att.s3_key)
          ≡ some p)
        × (p.filename ≡ att.filename)
  unfolding with_url
  with_url-filename att n =
      let (url, e) = presigns n att.s3_key in (record (bare env att) { url = url }, rw e, refl)

  with_content-filename :
      (att : Attachment) (d : Option Text) (w : World)
      → (p : AttachmentPayload) × ((with_content env att d w).0 ≡ some p)
        × (p.filename ≡ att.filename)
  unfolding with_content
  with_content-filename att none w = with_url-filename att w.calls
  with_content-filename att (some d) w = (_, refl, refl)

  build_attachment-filename :
      (att : Attachment) (w : World)
      → (p : AttachmentPayload) × ((build_attachment env att w).0 ≡ some p)
        × (p.filename ≡ att.filename)
  unfolding build_attachment
  build_attachment-filename att w = elim (Bool-cases (ltb att.size inline_attachment_threshold)) [
    | inl small ↦ rw small (with_content-filename att _ (tick w))
    | inr large ↦ rw large (with_url-filename att w.calls)
  ]

  build_attachments-filename :
      (atts : List Attachment) (w : World)
      → map (λ (p : AttachmentPayload). p.filename) (build_attachments env atts w).0
        ≡ map (λ (a : Attachment). a.filename) atts
  unfolding build_attachments
  build_attachments-filename [] w = refl
  build_attachments-filename (att ∷ atts) w =
      let (p, e, same) = build_attachment-filename att w in
      rw e (cc (same, build_attachments-filename atts (build_attachment env att w).1))

  -- While presigned URLs can be generated, no attachment of the email is left out of the payload,
  -- whatever downloads fail, and their order is kept.
  pub build_payload-filename :
      (email : Email) (w : World)
      → map (λ (p : AttachmentPayload). p.filename) (build_payload env email w).0.email.attachments
        ≡ map (λ (a : Attachment). a.filename) (attachments_of email.attachments)
  unfolding build_payload
  build_payload-filename email w = build_attachments-filename (attachments_of email.attachments) w
