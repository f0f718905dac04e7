-- ===== src/Storage/Keys.antt =====
-- The keys of attachments, and reads after writes (internal/storage/s3.go).
use letterbox.Prelude.{
  ℕ, ◌≡◌, ◌≢◌, refl, Text, codes, text_eq, is_empty, none, some, [], ◌∷◌, ◌++◌, ◌==◌, ==_iff,
  if◌then◌else◌, Bool-cases, inl, inr, ◌⊎◌, arith, All-append,
}
use letterbox.Prelude.Maps.{lookup-delete, lookup-insert}
use letterbox.Prelude.Separators.{
  Lacks, separator-injective, decimal, decimal-injective, decimal-Lacks,
}
use letterbox.Storage.{
  strip_trailing, last_segment, base, attachment_key, Objects, download, delete, upload,
}

pub download-delete :
    (key k : Text) (objects : Objects)
    → download k (delete key objects) ≡ (if text_eq key k then none else download k objects)
unfolding download delete
download-delete key k objects = lookup-delete key k objects

pub download-upload :
    (key k d : Text) (objects : Objects)
    → download k (upload key d objects) ≡ (if text_eq key k then some d else download k objects)
unfolding download upload
download-upload key k d objects = lookup-insert key k d objects

last_segment-Lacks : (cur s : Text) → Lacks b'/' cur → Lacks b'/' (last_segment cur s)
unfolding last_segment
last_segment-Lacks cur [] h = h
last_segment-Lacks cur (c ∷ s) h = elim (Bool-cases (c == b'/')) [
  | inl slash ↦ rw slash (last_segment-Lacks [] s tt)
  | inr other ↦ rw other (
      last_segment-Lacks (cur ++ c ∷ []) s
        (All-append (λ d. d ≢ b'/') cur (c ∷ []) h (ground (arith, ==_iff c b'/'), tt)))
]

-- A base name is a slash or holds none.
pub base-Lacks : (filename : Text) → (base filename ≡ codes "/") ⊎ Lacks b'/' (base filename)
unfolding base
base-Lacks [] = inr (omega arith, tt)
base-Lacks (c ∷ s) = elim (Bool-cases (is_empty (strip_trailing (c ∷ s)))) [
  | inl only ↦ inl (rw only)
  | inr more ↦ inr (rw more (last_segment-Lacks [] (strip_trailing (c ∷ s)) tt))
]

-- Two attachment keys of accounts whose identifiers hold no slash are equal only for the same
-- account, the same UID and the same base name of the file.
pub attachment_key-injective :
    (account account' filename filename' : Text) (uid uid' : ℕ)
    → Lacks b'/' account
    → Lacks b'/' account'
    → attachment_key account uid filename ≡ attachment_key account' uid' filename'
    → (account ≡ account') × (uid ≡ uid') × (base filename ≡ base filename')
unfolding attachment_key
attachment_key-injective account account' filename filename' uid uid' h h' e =
    let (same, rest) = separator-injective b'/' account account' _ _ h h' e in
    let (number, name) =
      separator-injective b'/' (decimal uid) (decimal uid') (base filename) (base filename')
        (decimal-Lacks b'/' uid (omega arith)) (decimal-Lacks b'/' uid' (omega arith)) rest in
    (same, decimal-injective uid uid' number, name)

strip_trailing-dotdot : (p : Text) → strip_trailing (p ++ codes "/..") ≡ p ++ codes "/.."
unfolding strip_trailing
strip_trailing-dotdot [] = refl
strip_trailing-dotdot (c ∷ []) = ground arith
strip_trailing-dotdot (c ∷ d ∷ s) = ground (arith, strip_trailing-dotdot (d ∷ s))

last_segment-dotdot : (cur p : Text) → last_segment cur (p ++ codes "/..") ≡ codes ".."
unfolding last_segment
last_segment-dotdot cur [] = refl
last_segment-dotdot cur (c ∷ s) = last_segment-dotdot (if c == b'/' then [] else cur ++ c ∷ []) s

base-dotdot : (p : Text) → base (p ++ codes "/..") ≡ codes ".."
unfolding base
base-dotdot [] = refl
base-dotdot (c ∷ s) = rw (strip_trailing-dotdot (c ∷ s)) (last_segment-dotdot [] (c ∷ s))

-- A filename that ends in "/.." is not made safe: its key ends in "/..", which names the parent of
-- the message's prefix where a path is resolved.
pub attachment_key-dotdot :
    (account p : Text) (uid : ℕ)
    → attachment_key account uid (p ++ codes "/..") ≡ account ++ b'/' ∷ (decimal uid ++ codes "/..")
unfolding attachment_key
attachment_key-dotdot account p uid = rw base-dotdot
