-- ===== src/Api/Access.antt =====
-- The API key (internal/api/middleware.go), and which routes ask for it (internal/api/router.go).
use letterbox.Prelude.{
  Text, codes, is_empty, text_eq, text_eq_iff, Bool, true, false, [], ◌∷◌, if◌then◌else◌, ◌≡◌, ◌≢◌,
  inl, inr, refl, Bool-cases,
}

-- The status and the message of an error, or what the next handler answers.
pub data Answer (R : Type 0) : Type 0 where
  unauthorized : Text → Answer R
  served : R → Answer R

-- The handlers of the routes.
pub data Handler : Type 0 where
  health ready create_account list_accounts get_account delete_account list_folders : Handler
  list_messages get_message send_message create_webhook list_webhooks delete_webhook search :
      Handler

-- Whether the route stands in the group that uses APIKeyAuth.
abbrev pub is_protected : Handler → Bool
is_protected health = false
is_protected ready = false
is_protected _ = true

is_protected_other :
    (handler : Handler) → handler ≢ health → handler ≢ ready → is_protected handler ≡ true
is_protected_other health h r = absurd (h refl)
is_protected_other ready h r = absurd (r refl)
is_protected_other create_account h r = refl
is_protected_other list_accounts h r = refl
is_protected_other get_account h r = refl
is_protected_other delete_account h r = refl
is_protected_other list_folders h r = refl
is_protected_other list_messages h r = refl
is_protected_other get_message h r = refl
is_protected_other send_message h r = refl
is_protected_other create_webhook h r = refl
is_protected_other list_webhooks h r = refl
is_protected_other delete_webhook h r = refl
is_protected_other search h r = refl

module _ {W R : Type 0} where
  -- ConstantTimeCompare is 1 exactly for equal byte slices.
  unfoldable pub api_key_auth : Text → (W → R × W) → Text → W → Answer R × W
  api_key_auth api_key next provided w =
      if is_empty provided
      then (unauthorized (codes "missing API key"), w)
      else if text_eq provided api_key
      then (let (r, w') = next w in (served r, w'))
      else (unauthorized (codes "invalid API key"), w)

  unfoldable pub serve : (Handler → W → R × W) → Text → Handler → Text → W → Answer R × W
  unfolding api_key_auth
  serve handlers api_key handler provided w =
      if is_protected handler
      then api_key_auth api_key (handlers handler) provided w
      else (let (r, w') = handlers handler w in (served r, w'))

  api_key_auth-refuses :
      (api_key : Text) (next : W → R × W) (provided : Text) (w : W)
      → provided ≢ api_key
      → (message : Text) × (api_key_auth api_key next provided w ≡ (unauthorized message, w))
  unfolding api_key_auth
  api_key_auth-refuses api_key next [] w ne = (codes "missing API key", refl)
  api_key_auth-refuses api_key next (c ∷ s) w ne = elim (Bool-cases (text_eq (c ∷ s) api_key)) [
    | inl same ↦ absurd (ne ((text_eq_iff (c ∷ s) api_key).0 same))
    | inr other ↦ (codes "invalid API key", rw other refl)
  ]

  -- A handler other than those of the health checks runs only for a request with the server's own
  -- key: any other request is refused, and nothing is changed.
  pub serve-unauthorized :
      (handlers : Handler → W → R × W) (api_key : Text) (handler : Handler) (provided : Text)
      (w : W)
      → handler ≢ health
      → handler ≢ ready
      → provided ≢ api_key
      → (message : Text) × (serve handlers api_key handler provided w ≡ (unauthorized message, w))
  unfolding serve
  serve-unauthorized handlers api_key handler provided w h r ne =
      rw (is_protected_other handler h r)
        (api_key_auth-refuses api_key (handlers handler) provided w ne)
