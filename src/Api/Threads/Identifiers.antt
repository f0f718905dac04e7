-- ===== src/Api/Threads/Identifiers.antt =====
-- Identifiers written by the composer and read back (internal/api/message_handler.go and
-- internal/composer/composer.go).
use letterbox.Prelude.{
  ◌≡◌, ◌≢◌, refl, ap, sym, ◌∙◌, Text, Option, none, some, List, [], ◌∷◌, ◌++◌, append_assoc, All,
  All-append, Bool-cases, inl, inr, ◌==◌, ==_iff, arith,
}
use letterbox.Composer.{join}
use letterbox.Api.Threads.{scan_ids, parse_message_ids}

-- A text between angle brackets, with none inside.
pub record IsBracketed (id : Text) : Type 0 where
  pub inside : Text
  pub whole : id ≡ b'<' ∷ (inside ++ b'>' ∷ [])
  pub plain : All (λ c. (c ≢ b'<') × (c ≢ b'>')) inside

abbrev IsInside : Text → Type 0
IsInside = All (λ c. (c ≢ b'<') × (c ≢ b'>'))

scan_ids-inside :
    (read s rest : Text)
    → IsInside s
    → scan_ids (some read) (s ++ b'>' ∷ rest) ≡ (read ++ (s ++ b'>' ∷ [])) ∷ scan_ids none rest
unfolding scan_ids
scan_ids-inside read [] rest h = ground arith
scan_ids-inside read (c ∷ s) rest h = ground (
  arith,
  scan_ids-inside (read ++ c ∷ []) s rest h.1,
  append_assoc read (c ∷ []) (s ++ b'>' ∷ []),
  ==_iff c b'<',
  ==_iff c b'>',
  h.0.0,
  h.0.1,
)

scan_ids-id :
    (id rest : Text) → IsBracketed id → scan_ids none (id ++ rest) ≡ id ∷ scan_ids none rest
unfolding scan_ids
scan_ids-id id rest h = rw h.whole (
    rw (append_assoc h.inside (b'>' ∷ []) rest) (scan_ids-inside (b'<' ∷ []) h.inside rest h.plain))

append-nil : (s : Text) → s ++ [] ≡ s
append-nil [] = refl
append-nil (c ∷ s) = ap (λ r. c ∷ r) (append-nil s)

scan_ids-join : (ids : List Text) → All IsBracketed ids → scan_ids none (join ids) ≡ ids
unfolding scan_ids join
scan_ids-join [] h = refl
scan_ids-join (id ∷ []) h = ap (scan_ids none) (sym (append-nil id)) ∙ scan_ids-id id [] h.0
scan_ids-join (id ∷ next ∷ ids) h =
    scan_ids-id id (b' ' ∷ join (next ∷ ids)) h.0
    ∙ ap (λ r. id ∷ r) (scan_ids-join (next ∷ ids) h.1)

-- The identifiers that a References header is written from are read back from it, in order, where
-- each stands in angle brackets with none inside.
pub parse_message_ids-join :
    (ids : List Text) → All IsBracketed ids → parse_message_ids (join ids) ≡ ids
unfolding parse_message_ids
parse_message_ids-join ids h = scan_ids-join ids h

-- What is read since the last '<'.
abbrev IsRead : Option Text → Type 0
IsRead none = Unit
IsRead (some read) = (inside : Text) × (read ≡ b'<' ∷ inside) × IsInside inside

scan_ids-IsBracketed :
    (start : Option Text) (s : Text) → IsRead start → All IsBracketed (scan_ids start s)
unfolding scan_ids
scan_ids-IsBracketed none [] h = tt
scan_ids-IsBracketed (some read) [] h = tt
scan_ids-IsBracketed none (c ∷ s) h = elim (Bool-cases (c == b'<')) [
  | inl opens ↦
      rw opens (
        scan_ids-IsBracketed (some (c ∷ [])) s ([], ap (λ d. d ∷ []) ((==_iff c b'<').0 opens), tt))
  | inr other ↦ rw other (scan_ids-IsBracketed none s tt)
]
scan_ids-IsBracketed (some read) (c ∷ s) (inside, eq, plain) = elim (Bool-cases (c == b'<')) [
  | inl opens ↦
      rw opens (
        scan_ids-IsBracketed (some (c ∷ [])) s ([], ap (λ d. d ∷ []) ((==_iff c b'<').0 opens), tt))
  | inr other ↦ rw other (elim (Bool-cases (c == b'>')) [
    | inl closes ↦ rw closes (
      record {
        inside = inside;
        whole =
            ap (λ r. r ++ c ∷ []) eq
            ∙ ap (λ d. b'<' ∷ (inside ++ d ∷ [])) ((==_iff c b'>').0 closes);
        plain = plain;
      },
      scan_ids-IsBracketed none s tt,
    )
    | inr more ↦ rw more (
        scan_ids-IsBracketed (some (read ++ c ∷ [])) s (
          inside ++ c ∷ [],
          ap (λ r. r ++ c ∷ []) eq,
          All-append (λ d. (d ≢ b'<') × (d ≢ b'>')) inside (c ∷ []) plain
              ((ground (arith, ==_iff c b'<'), ground (arith, ==_iff c b'>')), tt),
        ))
  ])
]

-- Whatever text they are read from, the identifiers stand in angle brackets with none inside.
parse_message_ids-IsBracketed : (s : Text) → All IsBracketed (parse_message_ids s)
unfolding parse_message_ids
parse_message_ids-IsBracketed s = scan_ids-IsBracketed none s tt
