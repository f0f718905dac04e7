-- ===== src/Storage/Examples.antt =====
-- The theorems on object keys at concrete inputs.
use letterbox.Prelude.{ℕ, ◌≡◌, refl, codes, arith}
use letterbox.Storage.{base, attachment_key}
use letterbox.Storage.Keys.{attachment_key-injective}

same_keys :
    attachment_key (codes "id") 42 (codes "a/x") ≡ attachment_key (codes "id") 42 (codes "b/x")
unfolding attachment_key base
same_keys = refl

attachment_key-injective_example :
    (codes "id" ≡ codes "id") × (◌≡◌ {A = ℕ} 42 42) × (base (codes "a/x") ≡ base (codes "b/x"))
attachment_key-injective_example =
    attachment_key-injective (codes "id") (codes "id") (codes "a/x") (codes "b/x") 42 42
      (omega arith, (omega arith, tt)) (omega arith, (omega arith, tt)) same_keys
