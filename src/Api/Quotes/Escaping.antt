-- ===== src/Api/Quotes/Escaping.antt =====
-- Escaped texts (internal/api/message_handler.go).
use letterbox.Prelude.{
  ℕ, ◌≡◌, ◌≢◌, refl, ap, sym, ◌∙◌, Text, codes, Bool-cases, inl, inr, [], ◌∷◌, ◌++◌, All,
  All-append, append_assoc, ◌==◌, ==_iff, if◌then◌else◌, arith,
}
use letterbox.Api.Quotes.{replace_all, escape_html}

-- The escape of one byte.
abbrev pub escape_byte : ℕ → Text
escape_byte c =
    if c == b'&'
    then codes "&amp;"
    else if c == b'<'
    then codes "&lt;"
    else if c == b'>'
    then codes "&gt;"
    else if c == b'"'
    then codes "&quot;"
    else c ∷ []

abbrev pub escape_bytes : Text → Text
escape_bytes [] = []
escape_bytes (c ∷ s) = escape_byte c ++ escape_bytes s

replace_all-append :
    (c : ℕ) (by s t : Text) → replace_all c by (s ++ t) ≡ replace_all c by s ++ replace_all c by t
unfolding replace_all
replace_all-append c by [] t = refl
replace_all-append c by (d ∷ s) t =
    ap (λ r. (if d == c then by else d ∷ []) ++ r) (replace_all-append c by s t)
    ∙ sym (append_assoc (if d == c then by else d ∷ []) (replace_all c by s) (replace_all c by t))

escape_html-append : (s t : Text) → escape_html (s ++ t) ≡ escape_html s ++ escape_html t
unfolding escape_html
escape_html-append s t = simp replace_all-append refl

escape_html-byte : (c : ℕ) → escape_html (c ∷ []) ≡ escape_byte c
unfolding escape_html replace_all
escape_html-byte c = ground arith

-- The four passes of escapeHTML, the ampersand first, escape each byte once.
pub escape_html-escape_bytes : (s : Text) → escape_html s ≡ escape_bytes s
unfolding escape_html replace_all
escape_html-escape_bytes [] = refl
escape_html-escape_bytes (c ∷ s) =
    escape_html-append (c ∷ []) s
    ∙ rw (escape_html-byte c) (ap (λ r. escape_byte c ++ r) (escape_html-escape_bytes s))

-- A byte that no tag or attribute starts or ends with.
abbrev pub IsPlain : ℕ → Type 0
IsPlain c = (c ≢ b'<') × (c ≢ b'>') × (c ≢ b'"')

escape_byte-IsPlain : (c : ℕ) → All IsPlain (escape_byte c)
escape_byte-IsPlain c = elim (Bool-cases (c == b'&')) [
  | inl e ↦ rw e (ground arith)
  | inr n1 ↦ rw n1 (elim (Bool-cases (c == b'<')) [
    | inl e ↦ rw e (ground arith)
    | inr n2 ↦ rw n2 (elim (Bool-cases (c == b'>')) [
      | inl e ↦ rw e (ground arith)
      | inr n3 ↦ rw n3 (elim (Bool-cases (c == b'"')) [
        | inl e ↦ rw e (ground arith)
        | inr n4 ↦ rw n4 (ground (arith, ==_iff c b'<', ==_iff c b'>', ==_iff c b'"'))
      ])
    ])
  ])
]

escape_bytes-IsPlain : (s : Text) → All IsPlain (escape_bytes s)
escape_bytes-IsPlain [] = tt
escape_bytes-IsPlain (c ∷ s) =
    All-append IsPlain (escape_byte c) (escape_bytes s) (escape_byte-IsPlain c)
      (escape_bytes-IsPlain s)

-- An escaped text holds no angle bracket and no double quote, so that it cannot open or close a tag
-- or end an attribute.
pub escape_html-IsPlain : (s : Text) → All IsPlain (escape_html s)
escape_html-IsPlain s = rw (escape_html-escape_bytes s) (escape_bytes-IsPlain s)

escape_byte-injective :
    (c d : ℕ) (s t : Text) → escape_byte c ++ s ≡ escape_byte d ++ t → (c ≡ d) × (s ≡ t)
escape_byte-injective c d s t e = ground (arith, ==_iff c b'&', ==_iff d b'&')

escape_byte-some : (c : ℕ) (s : Text) → escape_byte c ++ s ≢ []
escape_byte-some c s e = ground arith

escape_bytes-injective : (s t : Text) → escape_bytes s ≡ escape_bytes t → s ≡ t
escape_bytes-injective [] [] e = refl
escape_bytes-injective [] (d ∷ t) e = absurd (escape_byte-some d (escape_bytes t) (sym e))
escape_bytes-injective (c ∷ s) [] e = absurd (escape_byte-some c (escape_bytes s) e)
escape_bytes-injective (c ∷ s) (d ∷ t) e =
    let (same, rest) = escape_byte-injective c d (escape_bytes s) (escape_bytes t) e in
    let tail = escape_bytes-injective s t rest in cc

-- Nothing is lost: different texts have different escapes.
pub escape_html-injective : (s t : Text) → escape_html s ≡ escape_html t → s ≡ t
escape_html-injective s t e =
    escape_bytes-injective s t (sym (escape_html-escape_bytes s) ∙ e ∙ escape_html-escape_bytes t)
