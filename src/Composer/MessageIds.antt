-- ===== src/Composer/MessageIds.antt =====
-- Which message identifiers are valid (internal/composer/composer.go).
use letterbox.Prelude.{
  ℕ, ◌+◌, ◌-◌, ◌<◌, ◌≡◌, ◌≢◌, ◌↔◌, inl, inr, refl, ap, sym, ◌∙◌, Text, true, false, ◌&&◌, [], ◌∷◌,
  ◌++◌, length, length-append, take, ltb, ◌==◌, ==_iff, if◌then◌else◌, Bool-cases, arith,
}
use letterbox.Prelude.Separators.{Lacks}
use letterbox.Composer.{index, ends_with, is_valid_message_id}

-- A message identifier is <left@right>, neither part empty, and no other @ in the left one.
pub record IsMessageId (id : Text) : Type 0 where
  pub left : Text
  pub right : Text
  pub whole : id ≡ b'<' ∷ (left ++ b'@' ∷ (right ++ b'>' ∷ []))
  pub left_some : left ≢ []
  pub right_some : right ≢ []
  pub first_at : Lacks b'@' left

index-Lacks : (c : ℕ) (s t : Text) → Lacks c s → index c (s ++ c ∷ t) ≡ length s
unfolding index
index-Lacks c [] t h = ground arith
index-Lacks c (d ∷ s) t h = ground (arith, index-Lacks c s t h.1, ==_iff d c, h.0)

ends_with-append : (c : ℕ) (s : Text) → ends_with c (s ++ c ∷ []) ≡ true
ends_with-append c [] = ground arith
ends_with-append c (d ∷ []) = ground arith
ends_with-append c (d ∷ e ∷ s) = ends_with-append c (e ∷ s)

take-append : (s t : Text) → take (length s) (s ++ t) ≡ s
take-append [] t = refl
take-append (c ∷ s) t = ap (λ r. c ∷ r) (take-append s t)

take-length-append : (n : ℕ) (s t : Text) → n ≡ length s → take n (s ++ t) ≡ s
take-length-append n s t e = rw e (take-append s t)

append_assoc_one : (s t : Text) (c d : ℕ) → (s ++ c ∷ t) ++ d ∷ [] ≡ s ++ c ∷ (t ++ d ∷ [])
append_assoc_one [] t c d = refl
append_assoc_one (x ∷ s) t c d = ap (λ r. x ∷ r) (append_assoc_one s t c d)

-- The identifier between its brackets.
is_valid_message_id-wrapped :
    (s : Text)
    → is_valid_message_id (b'<' ∷ (s ++ b'>' ∷ [])) ≡ (
        if ltb (length s) 3
        then false
        else ltb 0 (index b'@' s) && ltb (index b'@' s + 1) (length s))
unfolding is_valid_message_id
is_valid_message_id-wrapped [] = ground arith
is_valid_message_id-wrapped (c ∷ s) =
    rw
      (take-length-append (length (b'<' ∷ ((c ∷ s) ++ b'>' ∷ [])) - 2) (c ∷ s) (b'>' ∷ [])
        (omega (arith, length-append s (b'>' ∷ []))))
      (rw (ends_with-append b'>' (c ∷ s)) (ground (arith, length-append s (b'>' ∷ []))))

ends_with-split : (c : ℕ) (t : Text) → ends_with c t ≡ true → (s : Text) × (t ≡ s ++ c ∷ [])
ends_with-split c [] h = absurd (cc)
ends_with-split c (d ∷ []) h = ([], ground (arith, ==_iff d c))
ends_with-split c (d ∷ e ∷ t) h =
    let (s, eq) = ends_with-split c (e ∷ t) h in (d ∷ s, ap (λ r. d ∷ r) eq)

-- A text is split at the first of the bytes.
pub record IsSplit (c : ℕ) (s : Text) : Type 0 where
  pub left : Text
  pub right : Text
  pub whole : s ≡ left ++ c ∷ right
  pub first : Lacks c left
  pub at : length left ≡ index c s

index-IsSplit : (c : ℕ) (s : Text) → index c s < length s → IsSplit c s
unfolding index
index-IsSplit c [] h = absurd (omega arith)
index-IsSplit c (d ∷ s) h = elim (Bool-cases (d == c)) [
  | inl same ↦ record {
    left = [];
    right = s;
    whole = ground (arith, ==_iff d c);
    first = tt;
    at = ground arith;
  }
  | inr other ↦
      let rest = index-IsSplit c s (ground arith) in
      record {
        left = d ∷ rest.left;
        right = rest.right;
        whole = ap (λ r. d ∷ r) rest.whole;
        first = (ground (arith, ==_iff d c), rest.first);
        at = ground (arith, rest.at);
      }
]

wrapped : (id : Text) → is_valid_message_id id ≡ true → (s : Text) × (id ≡ b'<' ∷ (s ++ b'>' ∷ []))
unfolding is_valid_message_id
wrapped [] h = absurd (ground arith)
wrapped (c ∷ []) h = absurd (ground arith)
wrapped (c ∷ d ∷ t) h =
    let (s, eq) = ends_with-split b'>' (d ∷ t) (ground arith) in
    (s, ground (arith, ==_iff c b'<', eq))

wrapped-bounds :
    (s : Text)
    → is_valid_message_id (b'<' ∷ (s ++ b'>' ∷ [])) ≡ true
    → (0 < index b'@' s) × (index b'@' s + 1 < length s)
wrapped-bounds s h = ground (arith, is_valid_message_id-wrapped s)

IsMessageId-wrapped :
    (s : Text)
    → is_valid_message_id (b'<' ∷ (s ++ b'>' ∷ [])) ≡ true
    → IsMessageId (b'<' ∷ (s ++ b'>' ∷ []))
IsMessageId-wrapped s h =
    let split = index-IsSplit b'@' s (omega (arith, wrapped-bounds s h)) in
    record {
      left = split.left;
      right = split.right;
      whole =
          ap (λ r. b'<' ∷ r)
            (ap (λ r. r ++ b'>' ∷ []) split.whole
              ∙ append_assoc_one split.left split.right b'@' b'>');
      left_some = λ none. omega (arith, wrapped-bounds s h, split.at, ap length none);
      right_some = λ none. omega (
        arith,
        wrapped-bounds s h,
        split.at,
        ap length none,
        ap length split.whole,
        length-append split.left (b'@' ∷ split.right),
      );
      first_at = split.first;
    }

length-some : (s : Text) → s ≢ [] → 0 < length s
length-some [] h = absurd (h refl)
length-some (c ∷ s) h = omega arith

-- The program's test accepts exactly the message identifiers: <left@right>, neither part empty,
-- with no other @ in the left one.
pub is_valid_message_id_iff : (id : Text) → (is_valid_message_id id ≡ true) ↔ IsMessageId id
is_valid_message_id_iff id = (sound, complete)
  where
    sound : is_valid_message_id id ≡ true → IsMessageId id
    sound h = let (s, eq) = wrapped id h in rw eq (IsMessageId-wrapped s (rw eq at h))

    complete : IsMessageId id → is_valid_message_id id ≡ true
    complete m =
        let s = m.left ++ b'@' ∷ m.right in
        let eq : id ≡ b'<' ∷ (s ++ b'>' ∷ []) =
          m.whole ∙ ap (λ r. b'<' ∷ r) (sym (append_assoc_one m.left m.right b'@' b'>')) in
        rw eq (
          ground (
            arith,
            is_valid_message_id-wrapped s,
            index-Lacks b'@' m.left m.right m.first_at,
            length-append m.left (b'@' ∷ m.right),
            length-some m.left m.left_some,
            length-some m.right m.right_some,
          ))
