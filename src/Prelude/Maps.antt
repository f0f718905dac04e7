-- ===== src/Prelude/Maps.antt =====
-- Go maps with string keys as association lists: a write puts its key first and drops older ones.
use mathlib.Core.Path.{◌≡◌}
use mathlib.Core.Option.{Option, none, some}
use mathlib.Core.List.{List, [], ◌∷◌}
use native.Mathlib.Omega.{arith}
use letterbox.Prelude.Tests.{if◌then◌else◌, Bool-cases}
use letterbox.Prelude.Lists.{All}
use letterbox.Prelude.Texts.{Text, text_eq, text_eq_iff}
use mathlib.Core.Logic.{inl, inr}

abbrev pub Map {ℓ} : Type ℓ → Type ℓ
Map V = List (Text × V)

module _ {ℓ} {V : Type ℓ} where
  unfoldable pub lookup : Text → Map V → Option V
  lookup key [] = none
  lookup key ((k, v) ∷ m) = let rest = lookup key m in if text_eq k key then some v else rest

  unfoldable pub delete : Text → Map V → Map V
  delete key [] = []
  delete key ((k, v) ∷ m) = let rest = delete key m in if text_eq k key then rest else (k, v) ∷ rest

  unfoldable pub insert : Text → V → Map V → Map V
  unfolding delete
  insert key v m = (key, v) ∷ delete key m

  pub lookup-delete :
      (key k : Text) (m : Map V)
      → lookup k (delete key m) ≡ (if text_eq key k then none else lookup k m)
  unfolding lookup delete
  lookup-delete key k [] = ground arith
  lookup-delete key k ((j, v) ∷ m) =
      ground (arith, lookup-delete key k m, text_eq_iff j key, text_eq_iff j k, text_eq_iff key k)

  pub lookup-insert :
      (key k : Text) (v : V) (m : Map V)
      → lookup k (insert key v m) ≡ (if text_eq key k then some v else lookup k m)
  unfolding lookup insert
  lookup-insert key k v m = ground (arith, lookup-delete key k m)

  -- What holds of every value holds of every value that is left, or found.
  module _ {κ} (P : V → Type κ) where
    pub All-delete : (key : Text) (m : Map V) → All (λ p. P p.1) m → All (λ p. P p.1) (delete key m)
    unfolding delete
    All-delete key [] h = tt
    All-delete key ((k, v) ∷ m) h = elim (Bool-cases (text_eq k key)) [
      | inl same ↦ rw same (All-delete key m h.1)
      | inr other ↦ rw other (h.0, All-delete key m h.1)
    ]

    pub All-lookup :
        (key : Text) (m : Map V) (v : V) → All (λ p. P p.1) m → lookup key m ≡ some v → P v
    unfolding lookup
    All-lookup key [] v h e = absurd (cc)
    All-lookup key ((k, u) ∷ m) v h e = elim (Bool-cases (text_eq k key)) [
      | inl same ↦ let here : some u ≡ some v = rw same at e in let eq : u ≡ v = cc in rw (← eq) h.0
      | inr other ↦ All-lookup key m v h.1 (rw other at e)
    ]
