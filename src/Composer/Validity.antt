-- ===== src/Composer/Validity.antt =====
-- Which messages are valid (internal/composer/composer.go).
use letterbox.Prelude.{
  ◌≡◌, ◌≢◌, ◌↔◌, ◌⊎◌, inl, inr, refl, Text, is_empty, Bool, true, false, ◌&&◌, not, Option, none,
  some, List, [], ◌∷◌, ◌++◌, length, ◌==◌, ==_iff, All, Bool-cases, arith,
}
use letterbox.Domain.{EmailAddress}
use letterbox.Composer.{
  Attachment, ComposeEmail, Field, ComposeError, has_line_break, is_valid_message_id, first_error,
  fail_if, check_references, check_attachments, check_addresses, checks, validate, to_field,
  cc_field, bcc_field,
}
use letterbox.Composer.MessageIds.{IsMessageId, is_valid_message_id_iff}

-- No byte ends a line.
abbrev pub IsOneLine : Text → Type 0
IsOneLine = All (λ c. (c ≢ 13) × (c ≢ 10))

-- A content identifier stands with each inline attachment.
abbrev pub IsIdentified : Attachment → Type 0
IsIdentified att = att.is_inline ≡ true → att.content_id ≢ []

-- What a message needs to be sent, for a parser of addresses.
pub record IsValid (parses : Text → Bool) (e : ComposeEmail) : Type 0 where
  pub sender_some : e.sender.email ≢ []
  pub sender : parses e.sender.email ≡ true
  pub some_recipient : e.to ++ (e.cc ++ e.bcc) ≢ []
  pub to : All (λ (a : EmailAddress). parses a.email ≡ true) e.to
  pub cc : All (λ (a : EmailAddress). parses a.email ≡ true) e.cc
  pub bcc : All (λ (a : EmailAddress). parses a.email ≡ true) e.bcc
  pub subject_some : e.subject ≢ []
  pub subject : IsOneLine e.subject
  pub body : (e.text ≢ []) ⊎ (e.html ≢ [])
  pub in_reply_to : (e.in_reply_to ≡ []) ⊎ IsMessageId e.in_reply_to
  pub references : All IsMessageId e.references
  pub attachments : All IsIdentified e.attachments

has_line_break_iff : (s : Text) → (has_line_break s ≡ false) ↔ IsOneLine s
unfolding has_line_break
has_line_break_iff s = (sound s, complete s)
  where
    sound : (s : Text) → has_line_break s ≡ false → IsOneLine s
    sound [] h = tt
    sound (c ∷ s) h =
        ((ground (arith, ==_iff c 13), ground (arith, ==_iff c 10)), sound s (ground arith))

    complete : (s : Text) → IsOneLine s → has_line_break s ≡ false
    complete [] h = refl
    complete (c ∷ s) h = ground (arith, complete s h.1, ==_iff c 13, ==_iff c 10, h.0.0, h.0.1)

check_references_iff : (refs : List Text) → (check_references refs ≡ none) ↔ All IsMessageId refs
unfolding check_references
check_references_iff refs = (sound refs, complete refs)
  where
    sound : (refs : List Text) → check_references refs ≡ none → All IsMessageId refs
    sound [] h = tt
    sound (ref ∷ refs) h = elim (Bool-cases (is_valid_message_id ref)) [
      | inl fine ↦ ((is_valid_message_id_iff ref).0 fine, sound refs (rw fine at h))
      | inr bad ↦
          let wrong : some (ComposeError.invalid_message_id Field.references_field ref) ≡ none =
            rw bad at h in
          absurd (cc)
    ]

    complete : (refs : List Text) → All IsMessageId refs → check_references refs ≡ none
    complete [] h = refl
    complete (ref ∷ refs) h = rw ((is_valid_message_id_iff ref).1 h.0) (complete refs h.1)

is_empty_iff : (s : Text) → (is_empty s ≡ true) ↔ (s ≡ [])
is_empty_iff [] = ((λ h. refl), (λ h. refl))
is_empty_iff (c ∷ s) = ((λ h. absurd (cc)), (λ h. absurd (cc)))

check_attachments_iff :
    (atts : List Attachment) → (check_attachments atts ≡ none) ↔ All IsIdentified atts
unfolding check_attachments
check_attachments_iff atts = (sound atts, complete atts)
  where
    sound : (atts : List Attachment) → check_attachments atts ≡ none → All IsIdentified atts
    sound [] h = tt
    sound (att ∷ atts) h =
        ((λ here empty. ground (arith, is_empty_iff att.content_id)), sound atts (ground arith))

    complete : (atts : List Attachment) → All IsIdentified atts → check_attachments atts ≡ none
    complete [] h = refl
    complete (att ∷ atts) h = ground (arith, complete atts h.1, h.0, is_empty_iff att.content_id)

module _ (parses : Text → Bool) (field : Field) where
  check_addresses_iff :
      (addrs : List EmailAddress)
      → (check_addresses parses field addrs ≡ none)
        ↔ All (λ (a : EmailAddress). parses a.email ≡ true) addrs
  unfolding check_addresses
  check_addresses_iff addrs = (sound addrs, complete addrs)
    where
      sound :
          (addrs : List EmailAddress)
          → check_addresses parses field addrs ≡ none
          → All (λ (a : EmailAddress). parses a.email ≡ true) addrs
      sound [] h = tt
      sound (a ∷ addrs) h = (ground arith, sound addrs (ground arith))

      complete :
          (addrs : List EmailAddress)
          → All (λ (a : EmailAddress). parses a.email ≡ true) addrs
          → check_addresses parses field addrs ≡ none
      complete [] h = refl
      complete (a ∷ addrs) h = rw h.0 (complete addrs h.1)

first_error_iff :
    (checks : List (Option ComposeError)) → (first_error checks ≡ none) ↔ All (λ c. c ≡ none) checks
first_error_iff checks = (sound checks, complete checks)
  where
    sound :
        (checks : List (Option ComposeError))
        → first_error checks ≡ none
        → All (λ c. c ≡ none) checks
    sound [] h = tt
    sound (none ∷ checks) h = (refl, sound checks h)
    sound (some e ∷ checks) h = absurd (cc)

    complete :
        (checks : List (Option ComposeError))
        → All (λ c. c ≡ none) checks
        → first_error checks ≡ none
    complete [] h = refl
    complete (none ∷ checks) h = complete checks h.1
    complete (some e ∷ checks) h = absurd (cc (h.0))

fail_if_iff : (b : Bool) (e : ComposeError) → (fail_if b e ≡ none) ↔ (b ≡ false)
fail_if_iff true e = ((λ h. absurd (cc)), (λ h. absurd (cc)))
fail_if_iff false e = ((λ h. refl), (λ h. refl))

no_recipients_iff :
    (ts cs bs : List EmailAddress)
    → ((length ts == 0 && (length cs == 0 && length bs == 0)) ≡ false) ↔ (ts ++ (cs ++ bs) ≢ [])
no_recipients_iff [] [] [] = ((λ h e. absurd (cc (h))), (λ h. absurd (h refl)))
no_recipients_iff [] [] (b ∷ bs) = ((λ h e. absurd (cc (e))), (λ h. ground arith))
no_recipients_iff [] (c ∷ cs) bs = ((λ h e. absurd (cc (e))), (λ h. ground arith))
no_recipients_iff (t ∷ ts) cs bs = ((λ h e. absurd (cc (e))), (λ h. ground arith))

some-body : (s t : Text) → ((is_empty s && is_empty t) ≡ false) ↔ ((s ≢ []) ⊎ (t ≢ []))
some-body (c ∷ s) t = ((λ h. inl (λ e. absurd (cc (e)))), (λ h. refl))
some-body [] (c ∷ t) = ((λ h. inr (λ e. absurd (cc (e)))), (λ h. refl))
some-body [] [] = ((λ h. absurd (cc (h))), complete)
  where
    complete : (◌≢◌ {A = Text} [] []) ⊎ (◌≢◌ {A = Text} [] []) → true ≡ false
    complete (inl h) = absurd (h refl)
    complete (inr h) = absurd (h refl)

fine-reply :
    (s : Text)
    → ((not (is_empty s) && not (is_valid_message_id s)) ≡ false) ↔ ((s ≡ []) ⊎ IsMessageId s)
fine-reply [] = ((λ h. inl refl), (λ h. refl))
fine-reply (c ∷ s) = ((λ h. inr ((is_valid_message_id_iff (c ∷ s)).0 (ground arith))), complete)
  where
    complete : ((c ∷ s) ≡ []) ⊎ IsMessageId (c ∷ s) → not (is_valid_message_id (c ∷ s)) ≡ false
    complete (inl e) = absurd (cc (e))
    complete (inr m) = rw ((is_valid_message_id_iff (c ∷ s)).1 m) refl

module _ (parses : Text → Bool) (e : ComposeEmail) where
  validate_sound : validate parses e ≡ none → IsValid parses e
  unfolding validate checks
  validate_sound h =
      let (c1, (c2, (c3, (c4, (c5, (c6, (c7, (c8, (c9, (c10, (c11, (c12, _)))))))))))) =
        (first_error_iff (checks parses e)).0 h in
      record {
        sender_some = λ empty. ground (arith, c1, is_empty_iff e.sender.email);
        sender = ground (arith, c2);
        some_recipient = (no_recipients_iff e.to e.cc e.bcc).0 ((fail_if_iff _ _).0 c3);
        to = (check_addresses_iff parses to_field e.to).0 c4;
        cc = (check_addresses_iff parses cc_field e.cc).0 c5;
        bcc = (check_addresses_iff parses bcc_field e.bcc).0 c6;
        subject_some = λ empty. ground (arith, c7, is_empty_iff e.subject);
        subject = (has_line_break_iff e.subject).0 ((fail_if_iff _ _).0 c8);
        body = (some-body e.text e.html).0 ((fail_if_iff _ _).0 c9);
        in_reply_to = (fine-reply e.in_reply_to).0 ((fail_if_iff _ _).0 c10);
        references = (check_references_iff e.references).0 c11;
        attachments = (check_attachments_iff e.attachments).0 c12;
      }

  validate_complete : IsValid parses e → validate parses e ≡ none
  unfolding validate checks
  validate_complete v = (first_error_iff (checks parses e)).1 (
    ground (arith, v.sender_some, is_empty_iff e.sender.email),
    (
      ground (arith, v.sender),
      (
        (fail_if_iff _ _).1 ((no_recipients_iff e.to e.cc e.bcc).1 v.some_recipient),
        (
          (check_addresses_iff parses to_field e.to).1 v.to,
          (
            (check_addresses_iff parses cc_field e.cc).1 v.cc,
            (
              (check_addresses_iff parses bcc_field e.bcc).1 v.bcc,
              (
                ground (arith, v.subject_some, is_empty_iff e.subject),
                (
                  (fail_if_iff _ _).1 ((has_line_break_iff e.subject).1 v.subject),
                  (
                    (fail_if_iff _ _).1 ((some-body e.text e.html).1 v.body),
                    (
                      (fail_if_iff _ _).1 ((fine-reply e.in_reply_to).1 v.in_reply_to),
                      (
                        (check_references_iff e.references).1 v.references,
                        ((check_attachments_iff e.attachments).1 v.attachments, tt),
                      ),
                    ),
                  ),
                ),
              ),
            ),
          ),
        ),
      ),
    ),
  )

  -- Validate gives no error for exactly the valid messages: the sender and every recipient have
  -- addresses that parse, there is a recipient, a subject of one line, a text or an HTML body, any
  -- In-Reply-To and every reference is a message identifier, and every inline attachment has a
  -- content identifier.
  pub validate_iff : (validate parses e ≡ none) ↔ IsValid parses e
  validate_iff = (validate_sound, validate_complete)
