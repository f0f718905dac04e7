-- ===== src/Api/Subjects/Repeats.antt =====
-- A subject is prefixed once (internal/api/message_handler.go).
use letterbox.Prelude.{
  ℕ, ◌≡◌, ◌≢◌, refl, ap, ◌∙◌, Text, codes, text_eq, is_empty, true, false, ◌&&◌, ◌||◌, Bool-cases,
  inl, inr, [], ◌∷◌, ◌++◌, take, if_ind, arith,
}
use letterbox.Api.Subjects.{
  is_space, trim_left, trim_right, trim_space, lower_rune, to_lower, build_reply_subject,
  build_forward_subject,
}

-- Nothing is left to trim on the left.
abbrev Starts : Text → Type 0
Starts [] = Unit
Starts (c ∷ s) = is_space c ≡ false

trim_left-Starts : (s : Text) → Starts (trim_left s)
unfolding trim_left
trim_left-Starts [] = tt
trim_left-Starts (c ∷ s) = elim (Bool-cases (is_space c)) [
  | inl blank ↦ rw blank (trim_left-Starts s)
  | inr fine ↦ rw fine fine
]

trim_left-Starts-same : (s : Text) → Starts s → trim_left s ≡ s
unfolding trim_left
trim_left-Starts-same [] h = refl
trim_left-Starts-same (c ∷ s) h = rw h refl

trim_right-Starts : (s : Text) → Starts s → Starts (trim_right s)
unfolding trim_right
trim_right-Starts [] h = tt
trim_right-Starts (c ∷ s) h =
    if_ind Starts (is_empty (trim_right s) && is_space c) [] (c ∷ trim_right s) (λ _. tt) (λ _. h)

trim_right-trim_right : (s : Text) → trim_right (trim_right s) ≡ trim_right s
unfolding trim_right
trim_right-trim_right [] = refl
trim_right-trim_right (c ∷ s) = ground (arith, trim_right-trim_right s)

-- What was trimmed is not trimmed further.
trim_space-trim_space : (s : Text) → trim_space (trim_space s) ≡ trim_space s
unfolding trim_space
trim_space-trim_space s =
    ap trim_right (
      trim_left-Starts-same (trim_right (trim_left s))
        (trim_right-Starts (trim_left s) (trim_left-Starts s)))
    ∙ trim_right-trim_right (trim_left s)

append-some : (p t : Text) → t ≢ [] → p ++ t ≢ []
append-some [] t some e = some e
append-some (c ∷ p) t some e = absurd (cc (e))

is_empty-some : (s : Text) → s ≢ [] → is_empty s ≡ false
is_empty-some [] some = absurd (some refl)
is_empty-some (c ∷ s) some = refl

trim_right-append : (p t : Text) → t ≢ [] → trim_right t ≡ t → trim_right (p ++ t) ≡ p ++ t
unfolding trim_right
trim_right-append [] t some h = h
trim_right-append (c ∷ p) t some h =
    rw (trim_right-append p t some h) (rw (is_empty-some (p ++ t) (append-some p t some)) refl)

trim_space-prefix :
    (c : ℕ) (p s : Text)
    → is_space c ≡ false
    → trim_space s ≢ []
    → trim_space ((c ∷ p) ++ trim_space s) ≡ (c ∷ p) ++ trim_space s
unfolding trim_space
trim_space-prefix c p s start some =
    ap trim_right (trim_left-Starts-same ((c ∷ p) ++ trim_right (trim_left s)) start)
    ∙ trim_right-append (c ∷ p) (trim_right (trim_left s)) some
        (trim_right-trim_right (trim_left s))

module _ (lower_other : ℕ → ℕ) where
  reply-fixed :
      (r : Text)
      → trim_space r ≡ r
      → text_eq (take 3 (to_lower lower_other r)) (codes "re:") ≡ true
      → build_reply_subject lower_other r ≡ r
  unfolding build_reply_subject
  reply-fixed r trimmed test = rw trimmed (rw test refl)

  forward-fixed :
      (r : Text)
      → trim_space r ≡ r
      → (text_eq (take 4 (to_lower lower_other r)) (codes "fwd:")
          || text_eq (take 3 (to_lower lower_other r)) (codes "fw:"))
        ≡ true
      → build_forward_subject lower_other r ≡ r
  unfolding build_forward_subject
  forward-fixed r trimmed test = rw trimmed (rw test refl)

  abbrev ReplyFixed : Text → Type 0
  ReplyFixed r = build_reply_subject lower_other r ≡ r

  abbrev ForwardFixed : Text → Type 0
  ForwardFixed r = build_forward_subject lower_other r ≡ r

  -- The subject of a reply to a reply, and of a forward of a forward, is the one before: the prefix
  -- is not repeated, where the subject is not blank.
  pub build_subjects-repeated :
      (s : Text)
      → trim_space s ≢ []
      → (build_reply_subject lower_other (build_reply_subject lower_other s)
          ≡ build_reply_subject lower_other s)
        × (build_forward_subject lower_other (build_forward_subject lower_other s)
            ≡ build_forward_subject lower_other s)
  unfolding build_reply_subject build_forward_subject is_space lower_rune
  build_subjects-repeated s some = (
    if_ind ReplyFixed (text_eq (take 3 (to_lower lower_other (trim_space s))) (codes "re:"))
        (trim_space s) (codes "Re: " ++ trim_space s)
        (λ test. reply-fixed (trim_space s) (trim_space-trim_space s) test)
        (λ _.
          reply-fixed (codes "Re: " ++ trim_space s)
            (trim_space-prefix b'R' (codes "e: ") s refl some) refl),
    if_ind ForwardFixed
        (text_eq (take 4 (to_lower lower_other (trim_space s))) (codes "fwd:")
          || text_eq (take 3 (to_lower lower_other (trim_space s))) (codes "fw:"))
        (trim_space s) (codes "Fwd: " ++ trim_space s)
        (λ test. forward-fixed (trim_space s) (trim_space-trim_space s) test)
        (λ _.
          forward-fixed (codes "Fwd: " ++ trim_space s)
            (trim_space-prefix b'F' (codes "wd: ") s refl some) refl),
  )
