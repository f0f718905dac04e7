-- ===== src/Prelude/Separators.antt =====
-- Texts that are joined by a separator which the first part does not hold, and decimal numbers.
use Prim.Native.Nat.{ℕ, zero, suc, ◌+◌, ◌*◌, ◌-◌, ◌/◌, ◌%◌, ◌<◌}
use mathlib.Core.Path.{◌≡◌, refl, ap, sym, ◌∙◌}
use mathlib.Core.Logic.{◌≢◌}
use mathlib.Core.List.{[], ◌∷◌, ◌++◌}
use mathlib.Core.Logic.{inl, inr}
use native.Mathlib.Omega.{arith}
use letterbox.Prelude.Tests.{ltb, if◌then◌else◌, Bool-cases}
use letterbox.Prelude.Lists.{All}
use letterbox.Prelude.Texts.{Text}

-- The text does not hold the byte.
abbrev pub Lacks : ℕ → Text → Type 0
Lacks c = All (λ d. d ≢ c)

pub separator-injective :
    (c : ℕ) (xs xs' ys ys' : Text)
    → Lacks c xs
    → Lacks c xs'
    → xs ++ c ∷ ys ≡ xs' ++ c ∷ ys'
    → (xs ≡ xs') × (ys ≡ ys')
separator-injective c [] [] ys ys' h h' e = (refl, cc)
separator-injective c [] (x ∷ xs') ys ys' h h' e = absurd (h'.0 (cc))
separator-injective c (x ∷ xs) [] ys ys' h h' e = absurd (h.0 (cc))
separator-injective c (x ∷ xs) (x' ∷ xs') ys ys' h h' e =
    let (p, q) = separator-injective c xs xs' ys ys' h.1 h'.1 (cc) in (cc, q)

-- The digits of n before acc; the fuel exceeds n.
unfoldable pub digits : ℕ → ℕ → Text → Text
digits zero n acc = acc
digits (suc f) n acc =
    let rest = digits f (n / 10) ((48 + n % 10) ∷ acc) in if ltb n 10 then (48 + n) ∷ acc else rest

-- %d of a number that is not negative
unfoldable pub decimal : ℕ → Text
unfolding digits
decimal n = digits (suc n) n []

-- The number that digits denote.
value : ℕ → Text → ℕ
value n [] = n
value n (c ∷ s) = value (n * 10 + (c - 48)) s

value-digits : (f n : ℕ) (acc : Text) → n < f → value 0 (digits f n acc) ≡ value n acc
unfolding digits value
value-digits zero n acc h = absurd (omega arith)
value-digits (suc f) n acc h = elim (Bool-cases (ltb n 10)) [
  | inl small ↦ rw small (ap (λ k. value k acc) (omega arith))
  | inr large ↦ rw large (
      value-digits f (n / 10) ((48 + n % 10) ∷ acc) (ground arith)
      ∙ ap (λ k. value k acc) (omega arith))
]

pub decimal-injective : (m n : ℕ) → decimal m ≡ decimal n → m ≡ n
unfolding decimal value
decimal-injective m n e =
    sym (value-digits (suc m) m [] (omega arith))
    ∙ ap (value 0) e
    ∙ value-digits (suc n) n [] (omega arith)

digits-Lacks : (c f n : ℕ) (acc : Text) → c < 48 → Lacks c acc → Lacks c (digits f n acc)
unfolding digits
digits-Lacks c zero n acc small h = h
digits-Lacks c (suc f) n acc small h = elim (Bool-cases (ltb n 10)) [
  | inl one ↦ rw one (omega arith, h)
  | inr more ↦ rw more (digits-Lacks c f (n / 10) ((48 + n % 10) ∷ acc) small (omega arith, h))
]

-- A decimal number holds no byte below the digits, so no '.' and no '/'.
pub decimal-Lacks : (c n : ℕ) → c < 48 → Lacks c (decimal n)
unfolding decimal
decimal-Lacks c n small = digits-Lacks c (suc n) n [] small tt
