-- ===== src/Sync/Coordinator/Accounts.antt =====
-- The removal of an account (internal/sync/coordinator.go).
use letterbox.Prelude.{
  ℕ, zero, suc, ◌≡◌, ◌≢◌, refl, ap, sym, ◌∙◌, Text, text_eq, text_eq_iff, text_eq_refl, true, false,
  none, [], ◌∷◌, ◌++◌, length, take, drop, if◌then◌else◌, Bool-cases, inl, inr, arith,
}
use letterbox.Prelude.Maps.{Map, lookup, lookup-delete}
use letterbox.Prelude.Separators.{Lacks, separator-injective}
use letterbox.Sync.Pool
use letterbox.Sync.Pool.{IdlePool}
use letterbox.Sync.Poller
use letterbox.Sync.Poller.{Poller}
use letterbox.Sync.Coordinator.{Coordinator, last_uid, or_zero, uid_key}
use letterbox.Sync.Coordinator.Membership.{key_has_prefix, drop_uids, remove_account}

lookup-drop_uids :
    (prefix k : Text) (m : Map ℕ)
    → lookup k (drop_uids prefix m) ≡ (if key_has_prefix prefix k then none else lookup k m)
unfolding lookup drop_uids
lookup-drop_uids prefix k [] = ground arith
lookup-drop_uids prefix k ((j, uid) ∷ m) =
    ground (arith, lookup-drop_uids prefix k m, text_eq_iff j k)

take-append-drop : (n : ℕ) (s : Text) → take n s ++ drop n s ≡ s
take-append-drop zero s = refl
take-append-drop (suc n) [] = refl
take-append-drop (suc n) (c ∷ s) = ap (λ t. c ∷ t) (take-append-drop n s)

take-uid_key :
    (id folder : Text) → take (length (id ++ b':' ∷ [])) (uid_key id folder) ≡ id ++ b':' ∷ []
take-uid_key [] folder = refl
take-uid_key (c ∷ id) folder = ap (λ t. c ∷ t) (take-uid_key id folder)

append-colon : (id rest : Text) → (id ++ b':' ∷ []) ++ rest ≡ id ++ b':' ∷ rest
append-colon [] rest = refl
append-colon (c ∷ id) rest = ap (λ t. c ∷ t) (append-colon id rest)

key_has_prefix-own :
    (id folder : Text) → key_has_prefix (id ++ b':' ∷ []) (uid_key id folder) ≡ true
key_has_prefix-own id folder = rw (take-uid_key id folder) (text_eq_refl (id ++ b':' ∷ []))

key_has_prefix-other :
    (id id' folder : Text)
    → Lacks b':' id
    → Lacks b':' id'
    → id ≢ id'
    → key_has_prefix (id ++ b':' ∷ []) (uid_key id' folder) ≡ false
key_has_prefix-other id id' folder h h' other =
    elim (Bool-cases (key_has_prefix (id ++ b':' ∷ []) (uid_key id' folder))) [
      | inl same ↦
          let n = length (id ++ b':' ∷ []) in
          let start : take n (uid_key id' folder) ≡ id ++ b':' ∷ [] =
            (text_eq_iff (take n (uid_key id' folder)) (id ++ b':' ∷ [])).0 same in
          let whole : id ++ b':' ∷ drop n (uid_key id' folder) ≡ id' ++ b':' ∷ folder =
            sym (append-colon id (drop n (uid_key id' folder)))
            ∙ ap (λ t. t ++ drop n (uid_key id' folder)) (sym start)
            ∙ take-append-drop n (uid_key id' folder) in
          absurd (other ((separator-injective b':' id id' _ folder h h' whole).0))
      | inr different ↦ different
    ]

-- A removal from the pool, or from the poller, leaves the other accounts alone.
lookup-pool :
    (id k : Text) (p : IdlePool)
    → p.closed ≡ false
    → lookup k (Pool.remove_account id p).1.accounts
      ≡ (if text_eq id k then none else lookup k p.accounts)
unfolding Pool.remove_account
lookup-pool id k p on = ground (arith, lookup-delete id k p.accounts, text_eq_iff id k)

lookup-poller :
    (id k : Text) (p : Poller)
    → p.closed ≡ false
    → lookup k (Poller.remove_account id p).1.accounts
      ≡ (if text_eq id k then none else lookup k p.accounts)
unfolding Poller.remove_account
lookup-poller id k p on = ground (arith, lookup-delete id k p.accounts, text_eq_iff id k)

-- Everything that an open coordinator keeps about an account, with its pool and poller open.
pub record IsOpen (c : Coordinator) : Type 0 where
  pub coordinator : c.closed ≡ false
  pub pool : c.pool.closed ≡ false
  pub poller : c.poller.closed ≡ false

dropped :
    (id k : Text) (m : Map ℕ)
    → key_has_prefix (id ++ b':' ∷ []) k ≡ true
    → or_zero (lookup k (drop_uids (id ++ b':' ∷ []) m)) ≡ 0
dropped id k m own = ground (arith, lookup-drop_uids (id ++ b':' ∷ []) k m)

kept :
    (id k : Text) (m : Map ℕ)
    → key_has_prefix (id ++ b':' ∷ []) k ≡ false
    → or_zero (lookup k (drop_uids (id ++ b':' ∷ []) m)) ≡ or_zero (lookup k m)
kept id k m other = ground (arith, lookup-drop_uids (id ++ b':' ∷ []) k m)

-- After a removal on an open coordinator of an account whose identifier holds no colon, whether the
-- coordinator has the account or not, the account is in neither the pool nor the poller, and the
-- last UIDs of its folders are 0. Any other account whose identifier holds no colon is where it
-- was, with its last UIDs as they were.
pub remove_account-only :
    (id id' : Text) (c : Coordinator)
    → IsOpen c
    → Lacks b':' id
    → Lacks b':' id'
    → id ≢ id'
    → ((lookup id (remove_account id c).1.pool.accounts ≡ none)
        × (lookup id (remove_account id c).1.poller.accounts ≡ none)
        × ((folder : Text) → last_uid (uid_key id folder) (remove_account id c).1 ≡ 0))
      × ((lookup id' (remove_account id c).1.pool.accounts ≡ lookup id' c.pool.accounts)
          × (lookup id' (remove_account id c).1.poller.accounts ≡ lookup id' c.poller.accounts)
          × ((folder : Text)
              → last_uid (uid_key id' folder) (remove_account id c).1
                ≡ last_uid (uid_key id' folder) c))
unfolding remove_account last_uid
remove_account-only id id' c on h h' other = rw on.coordinator (
  (
    ground (arith, lookup-pool id id c.pool on.pool, text_eq_refl id),
    ground (arith, lookup-poller id id c.poller on.poller, text_eq_refl id),
    λ folder. dropped id (uid_key id folder) c.last_uids (key_has_prefix-own id folder),
  ),
  (
    ground (arith, lookup-pool id id' c.pool on.pool, text_eq_iff id id'),
    ground (arith, lookup-poller id id' c.poller on.poller, text_eq_iff id id'),
    λ folder.
        kept id (uid_key id' folder) c.last_uids (key_has_prefix-other id id' folder h h' other),
  ),
)
