-- ===== src/Smtp/Login.antt =====
-- The mechanism LOGIN (loginAuth in internal/smtp/client.go).
use letterbox.Prelude.{
  ◌≡◌, Text, codes, text_eq, Bool, true, false, Option, none, some, if◌then◌else◌, ◌||◌, Bool-cases,
  inl, inr, ◌≢◌,
}

-- The bytes and the error of Next: no bytes, some bytes, or an error.
pub data Reply : Type 0 where
  nothing unexpected : Reply
  bytes : Text → Reply

pub start : Text × Option Text
start = (codes "LOGIN", none)

abbrev is_username : Text → Bool
is_username prompt =
    text_eq prompt (codes "Username:")
    || (text_eq prompt (codes "Username") || text_eq prompt (codes "username:"))

abbrev is_password : Text → Bool
is_password prompt =
    text_eq prompt (codes "Password:")
    || (text_eq prompt (codes "Password") || text_eq prompt (codes "password:"))

-- base64.StdEncoding.DecodeString is the parameter, none its error.
module _ (decode_string : Text → Option Text) where
  abbrev or_plain : Text → Option Text → Text
  or_plain from_server none = from_server
  or_plain from_server (some prompt) = prompt

  abbrev answer : Text → Text → Text → Reply
  answer username password prompt =
      if is_username prompt
      then bytes username
      else if is_password prompt
      then bytes password
      else unexpected

  unfoldable pub next : Text → Text → Text → Bool → Reply
  next username password from_server false = nothing
  next username password from_server true =
      answer username password (or_plain from_server (decode_string from_server))

  -- Credentials are only given for a prompt that asks for them: the password for one of three
  -- spellings of Password.
  next-password :
      (username password from_server : Text) (more : Bool)
      → username ≢ password
      → next username password from_server more ≡ bytes password
      → is_password (or_plain from_server (decode_string from_server)) ≡ true
  unfolding next
  next-password username password from_server false ne h = absurd (cc (h))
  next-password username password from_server true ne h =
      let prompt = or_plain from_server (decode_string from_server) in
      elim (Bool-cases (is_username prompt)) [
        | inl asks ↦
            let here : bytes username ≡ bytes password = rw asks at h in absurd (ne (cc (here)))
        | inr other ↦ elim (Bool-cases (is_password prompt)) [
          | inl asks ↦ asks
          | inr neither ↦
              let here : unexpected ≡ bytes password = rw (other, neither) at h in
              absurd (cc (here))
        ]
      ]
