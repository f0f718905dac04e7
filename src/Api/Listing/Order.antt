-- ===== src/Api/Listing/Order.antt =====
-- What a page of a listing holds (EmailRepository.List in internal/repository/email.go).
use letterbox.Prelude.{
  ℕ, ◌≤◌, ◌<◌, ◌≡◌, Bool, false, Option, none, some, List, [], ◌∷◌, All, ◌⊎◌, arith,
}
use letterbox.Domain.{Email}
use letterbox.Api.Listing.{ListEmailsFilter}

abbrev IsBefore : Option ℕ → ℕ → Type 0
IsBefore none date = Unit
IsBefore (some t) date = (0 < date) × (date < t)

abbrev IsAfter : Option ℕ → ℕ → Type 0
IsAfter none date = Unit
IsAfter (some t) date = t < date

-- An email that the filter asks for; one without a date is in no interval.
pub record IsListed (f : ListEmailsFilter) (e : Email) : Type 0 where
  pub account_eq : e.account_id ≡ f.account_id
  pub folder_eq : e.folder ≡ f.folder
  pub current : e.deleted_upstream ≡ false
  pub early : IsBefore f.before e.date
  pub late : IsAfter f.after e.date

-- Emails without a date come first, and then each is as new as the next.
abbrev IsNotOlder : ℕ → ℕ → Type 0
IsNotOlder date next = (date ≡ 0) ⊎ ((0 < next) × (next ≤ date))

abbrev pub IsNewestFirst : List Email → Type 0
IsNewestFirst [] = Unit
IsNewestFirst (e ∷ es) = All (λ later. IsNotOlder e.date later.date) es × IsNewestFirst es

module _ (ties : Email → Email → Bool) where
  later :
      (e other : Email) (es : List Email)
      → IsNotOlder e.date other.date
      → All (λ x. IsNotOlder other.date x.date) es
      → All (λ x. IsNotOlder e.date x.date) es
  later e other [] h k = tt
  later e other (x ∷ es) h k = (ground (arith, h, k.0), later e other es h k.1)
