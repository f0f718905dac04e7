-- ===== src/Config.antt =====
-- The configuration (internal/config/config.go), over the variables that envconfig reads. What
-- encoding/hex decodes is modelled, the rest of the variables are passed on.
pub mod Keys
mod Examples
use letterbox.Prelude.{
  ℕ, ◌+◌, ◌-◌, ◌*◌, Text, Bool, ◌&&◌, Option, none, some, List, [], ◌∷◌, length, leb, ◌==◌,
  if◌then◌else◌,
}

pub record Config : Type 0 where
  pub port : Text
  pub database_url : Text
  pub encryption_key : Text
  pub api_key : Text
  pub s3_endpoint : Text
  pub s3_bucket : Text
  pub s3_access_key : Text
  pub s3_secret_key : Text
  pub s3_region : Text
  pub log_level : Text
  pub log_format : Text
  pub encryption_key_bytes : Text

pub data ConfigError : Type 0 where
  loading not_hex : ConfigError
  wrong_length : ℕ → ConfigError

pub data Result : Type 0 where
  ok : Config → Result
  err : ConfigError → Result

-- The digits of hex.DecodeString, of either case
unfoldable pub hex_value : ℕ → Option ℕ
hex_value c =
    if leb b'0' c && leb c b'9'
    then some (c - b'0')
    else if leb b'a' c && leb c b'f'
    then some (c - b'a' + 10)
    else if leb b'A' c && leb c b'F'
    then some (c - b'A' + 10)
    else none

abbrev pub hex_byte : Option ℕ → Option ℕ → Option Text → Option Text
hex_byte (some high) (some low) (some bytes) = some ((high * 16 + low) ∷ bytes)
hex_byte none _ _ = none
hex_byte (some _) none _ = none
hex_byte (some _) (some _) none = none

-- Its errors, a byte that is no digit and an odd length, are `none`.
unfoldable pub decode_string : Text → Option Text
unfolding hex_value
decode_string [] = some []
decode_string (c ∷ []) = none
decode_string (c ∷ d ∷ s) = hex_byte (hex_value c) (hex_value d) (decode_string s)

abbrev pub with_key : Config → Option Text → Result
with_key cfg none = err not_hex
with_key cfg (some key_bytes) =
    if length key_bytes == 32
    then ok (record cfg { encryption_key_bytes = key_bytes })
    else err (wrong_length (length key_bytes))

-- What envconfig.Process fills in, none being its error
unfoldable pub load : Option Config → Result
unfolding decode_string
load none = err loading
load (some cfg) = with_key cfg (decode_string cfg.encryption_key)
