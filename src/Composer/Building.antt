-- ===== src/Composer/Building.antt =====
-- What a message that is built holds (internal/composer/composer.go).
use letterbox.Prelude.{
  ℕ, ◌≡◌, refl, ap, ◌∙◌, Text, Bool, true, false, not, is_empty, codes, Option, none, some, List,
  [], ◌∷◌, ◌++◌, map, length, ltb, Bool-cases, inl, inr,
}
use letterbox.Domain.{EmailAddress}
use letterbox.Composer.{
  Attachment, ComposeEmail, ComposeError, Call, to, bcc, text, html, header, body_calls,
  threading_calls, emails_of, all_recipients, builder_calls, calls_if, attach, validate, raw, build,
  join, encoded, unless_invalid,
}
use letterbox.Composer.Validity.{IsValid, validate_iff}

-- The addresses that a message is sent to, from the calls of its builder.
abbrev pub addressed : List Call → List Text
addressed [] = []
addressed (to name email ∷ calls) = email ∷ addressed calls
addressed (Call.cc name email ∷ calls) = email ∷ addressed calls
addressed (bcc name email ∷ calls) = email ∷ addressed calls
addressed (_ ∷ calls) = addressed calls

addressed-to :
    (addrs : List EmailAddress) (rest : List Call)
    → addressed (map (λ (a : EmailAddress). to a.name a.email) addrs ++ rest)
      ≡ emails_of addrs ++ addressed rest
addressed-to [] rest = refl
addressed-to (a ∷ addrs) rest = ap (λ r. a.email ∷ r) (addressed-to addrs rest)

addressed-cc :
    (addrs : List EmailAddress) (rest : List Call)
    → addressed (map (λ (a : EmailAddress). Call.cc a.name a.email) addrs ++ rest)
      ≡ emails_of addrs ++ addressed rest
addressed-cc [] rest = refl
addressed-cc (a ∷ addrs) rest = ap (λ r. a.email ∷ r) (addressed-cc addrs rest)

addressed-bcc :
    (addrs : List EmailAddress) (rest : List Call)
    → addressed (map (λ (a : EmailAddress). bcc a.name a.email) addrs ++ rest)
      ≡ emails_of addrs ++ addressed rest
addressed-bcc [] rest = refl
addressed-bcc (a ∷ addrs) rest = ap (λ r. a.email ∷ r) (addressed-bcc addrs rest)

addressed-attach : (atts : List Attachment) → addressed (map attach atts) ≡ []
addressed-attach [] = refl
addressed-attach (att ∷ atts) = elim (Bool-cases att.is_inline) [
  | inl inside ↦ rw inside (addressed-attach atts)
  | inr beside ↦ rw beside (addressed-attach atts)
]

-- A call that addresses nobody may be left out.
addressed-calls_if :
    (b : Bool) (call : Call) (rest : List Call)
    → addressed (call ∷ rest) ≡ addressed rest
    → addressed (calls_if b call ++ rest) ≡ addressed rest
addressed-calls_if false call rest h = refl
addressed-calls_if true call rest h = h

append-nil : (s : List Text) → s ++ [] ≡ s
append-nil [] = refl
append-nil (x ∷ s) = ap (λ r. x ∷ r) (append-nil s)

addressed-body_calls : (e : ComposeEmail) → addressed (body_calls e) ≡ []
addressed-body_calls e =
    addressed-calls_if (not (is_empty e.text)) (text e.text)
      (calls_if (not (is_empty e.html)) (html e.html) ++ threading_calls e) refl
    ∙ addressed-calls_if (not (is_empty e.html)) (html e.html) (threading_calls e) refl
    ∙ addressed-calls_if (not (is_empty e.in_reply_to)) (header (codes "In-Reply-To") e.in_reply_to)
        (calls_if (ltb 0 (length e.references)) (header (codes "References") (join e.references))
          ++ map attach e.attachments)
        refl
    ∙ addressed-calls_if (ltb 0 (length e.references))
        (header (codes "References") (join e.references)) (map attach e.attachments) refl
    ∙ addressed-attach e.attachments

addressed-builder_calls :
    (uuid : Text) (now : ℕ) (e : ComposeEmail)
    → addressed (builder_calls uuid now e) ≡ all_recipients e
unfolding builder_calls all_recipients
addressed-builder_calls uuid now e =
    addressed-to e.to _
    ∙ ap (λ r. emails_of e.to ++ r)
        (addressed-cc e.cc _
          ∙ ap (λ r. emails_of e.cc ++ r)
              (addressed-bcc e.bcc (body_calls e)
                ∙ ap (λ r. emails_of e.bcc ++ r) (addressed-body_calls e)
                ∙ append-nil (emails_of e.bcc)))

module _ (parses : Text → Bool) (encode : List Call → Option Text) (uuid : Text) (now : ℕ) where
  -- A message that was built, whose bytes are known.
  pub record IsBuilt (e : ComposeEmail) (bytes : Text) : Type 0 where
    pub valid : IsValid parses e
    pub calls : List Call
    pub recipients : addressed calls ≡ all_recipients e
    pub encoded_as : encode calls ≡ some bytes

  built :
      (e : ComposeEmail) (bytes : Text) (o : Option Text)
      → encode (builder_calls uuid now e) ≡ o
      → encoded o ≡ raw bytes
      → encode (builder_calls uuid now e) ≡ some bytes
  built e bytes none eq h = absurd (cc (h))
  built e bytes (some s) eq h = cc (eq, h)

  from_checks :
      (e : ComposeEmail) (bytes : Text) (o : Option ComposeError)
      → validate parses e ≡ o
      → unless_invalid parses encode o uuid now e ≡ raw bytes
      → IsBuilt e bytes
  from_checks e bytes (some err) eq h = absurd (cc (h))
  from_checks e bytes none eq h = record {
    valid = (validate_iff parses e).0 eq;
    calls = builder_calls uuid now e;
    recipients = addressed-builder_calls uuid now e;
    encoded_as = built e bytes (encode (builder_calls uuid now e)) refl h;
  }

  -- Where Build gives bytes, the message is valid, and they encode a message that is addressed to
  -- the very recipients that AllRecipients gives for the envelope, in that order.
  pub build-IsBuilt :
      (e : ComposeEmail) (bytes : Text)
      → build parses encode uuid now e ≡ raw bytes
      → IsBuilt e bytes
  unfolding build
  build-IsBuilt e bytes h = from_checks e bytes (validate parses e) refl h
