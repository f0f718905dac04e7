-- ===== src/Api/Quotes/Lines.antt =====
-- The lines of a quoted text (internal/api/message_handler.go).
use letterbox.Prelude.{
  ℕ, ◌≡◌, ◌≢◌, refl, ap, ◌∙◌, Text, codes, Bool-cases, inl, inr, List, [], ◌∷◌, ◌++◌, map, drop,
  All, ◌==◌, ==_iff, arith,
}
use letterbox.Prelude.Separators.{Lacks}
use letterbox.Api.Quotes.{add_first, split_lines, join_with, quote_line, quote_lines}

add_first-some : (c : ℕ) (lines : List Text) → add_first c lines ≢ []
add_first-some c [] e = absurd (cc)
add_first-some c (line ∷ lines) e = absurd (cc)

split_lines-some : (s : Text) → split_lines s ≢ []
unfolding split_lines
split_lines-some [] e = absurd (cc)
split_lines-some (c ∷ s) e = elim (Bool-cases (c == 10)) [
  | inl ends ↦ let wrong : [] ∷ split_lines s ≡ [] = rw ends at e in absurd (cc)
  | inr more ↦ add_first-some c (split_lines s) (rw more at e)
]

join_with-add_first :
    (c : ℕ) (lines : List Text)
    → lines ≢ []
    → join_with (codes "\n") (add_first c lines) ≡ c ∷ join_with (codes "\n") lines
unfolding join_with
join_with-add_first c [] some = absurd (some refl)
join_with-add_first c (line ∷ []) some = refl
join_with-add_first c (line ∷ next ∷ lines) some = refl

join_with-new_line :
    (lines : List Text)
    → lines ≢ []
    → join_with (codes "\n") ([] ∷ lines) ≡ 10 ∷ join_with (codes "\n") lines
unfolding join_with
join_with-new_line [] some = absurd (some refl)
join_with-new_line (line ∷ lines) some = refl

join_with-split_lines : (s : Text) → join_with (codes "\n") (split_lines s) ≡ s
unfolding split_lines join_with
join_with-split_lines [] = refl
join_with-split_lines (c ∷ s) = elim (Bool-cases (c == 10)) [
  | inl ends ↦
      let same : c ≡ 10 = (==_iff c 10).0 ends in
      rw ends (
        join_with-new_line (split_lines s) (split_lines-some s)
        ∙ rw same (ap (λ r. 10 ∷ r) (join_with-split_lines s)))
  | inr more ↦ rw more (
      join_with-add_first c (split_lines s) (split_lines-some s)
      ∙ ap (λ r. c ∷ r) (join_with-split_lines s))
]

split_lines-Lacks : (s : Text) → All (Lacks 10) (split_lines s)
unfolding split_lines
split_lines-Lacks [] = (tt, tt)
split_lines-Lacks (c ∷ s) = elim (Bool-cases (c == 10)) [
  | inl ends ↦ rw ends (tt, split_lines-Lacks s)
  | inr more ↦ rw more (first (split_lines s) (split_lines-Lacks s) (ground (arith, ==_iff c 10)))
]
  where
    first : (lines : List Text) → All (Lacks 10) lines → c ≢ 10 → All (Lacks 10) (add_first c lines)
    first [] h n = ((n, tt), tt)
    first (line ∷ lines) h n = ((n, h.0), h.1)

-- A line without a line end is read back whole.
split_lines-line : (line : Text) → Lacks 10 line → split_lines line ≡ line ∷ []
unfolding split_lines
split_lines-line [] h = refl
split_lines-line (c ∷ line) h = ground (arith, split_lines-line line h.1, ==_iff c 10, h.0)

split_lines-append :
    (line rest : Text) → Lacks 10 line → split_lines (line ++ 10 ∷ rest) ≡ line ∷ split_lines rest
unfolding split_lines
split_lines-append [] rest h = ground arith
split_lines-append (c ∷ line) rest h =
    ground (arith, split_lines-append line rest h.1, ==_iff c 10, h.0)

split_lines-join_with :
    (line : Text) (lines : List Text)
    → All (Lacks 10) (line ∷ lines)
    → split_lines (join_with (codes "\n") (line ∷ lines)) ≡ line ∷ lines
unfolding join_with
split_lines-join_with line [] h = split_lines-line line h.0
split_lines-join_with line (next ∷ lines) h =
    split_lines-append line (join_with (codes "\n") (next ∷ lines)) h.0
    ∙ ap (λ r. line ∷ r) (split_lines-join_with next lines h.1)

quoted-Lacks : (lines : List Text) → All (Lacks 10) lines → All (Lacks 10) (map quote_line lines)
quoted-Lacks [] h = tt
quoted-Lacks (line ∷ lines) h = ((omega arith, (omega arith, h.0)), quoted-Lacks lines h.1)

split_lines-quoted :
    (lines : List Text)
    → lines ≢ []
    → All (Lacks 10) lines
    → split_lines (join_with (codes "\n") (map quote_line lines)) ≡ map quote_line lines
split_lines-quoted [] some h = absurd (some refl)
split_lines-quoted (line ∷ lines) some h =
    split_lines-join_with (quote_line line) (map quote_line lines) (quoted-Lacks (line ∷ lines) h)

unquoted : (lines : List Text) → map (drop 2) (map quote_line lines) ≡ lines
unquoted [] = refl
unquoted (line ∷ lines) = ap (λ r. line ∷ r) (unquoted lines)

-- The lines of a quoted text are the text's own, each after "> "; without these two bytes each,
-- they are the text again.
pub quote_lines-split_lines :
    (text : Text)
    → (split_lines (quote_lines text) ≡ map quote_line (split_lines text))
      × (join_with (codes "\n") (map (drop 2) (split_lines (quote_lines text))) ≡ text)
unfolding quote_lines
quote_lines-split_lines text =
    let lines =
      split_lines-quoted (split_lines text) (split_lines-some text) (split_lines-Lacks text) in
    (
      lines,
      ap (λ r. join_with (codes "\n") (map (drop 2) r)) lines
          ∙ ap (join_with (codes "\n")) (unquoted (split_lines text))
          ∙ join_with-split_lines text,
    )
