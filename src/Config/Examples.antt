-- ===== src/Config/Examples.antt =====
-- The theorem on the configuration at a concrete input.
use letterbox.Prelude.{◌≡◌, ◌↔◌, refl, Text, codes, some, [], ◌∷◌}
use letterbox.Config.{Config, ok, load, decode_string, hex_value}
use letterbox.Config.Keys.{IsLoaded, IsHex, load_iff}

abbrev thirty_two : Text
thirty_two =
    1 ∷ 1 ∷ 1 ∷ 1 ∷ 1 ∷ 1 ∷ 1 ∷ 1 ∷ 1 ∷ 1 ∷ 1 ∷ 1 ∷ 1 ∷ 1 ∷ 1 ∷ 1 ∷ 1 ∷ 1 ∷ 1 ∷ 1 ∷ 1 ∷ 1 ∷ 1 ∷ 1
    ∷ 1 ∷ 1 ∷ 1 ∷ 1 ∷ 1 ∷ 1 ∷ 171 ∷ 171 ∷ []

abbrev with_bytes : Text → Config
with_bytes key = record {
  port = codes "8080";
  database_url = codes "db";
  encryption_key = codes "010101010101010101010101010101010101010101010101010101010101abAB";
  api_key = codes "k";
  s3_endpoint = codes "s";
  s3_bucket = codes "b";
  s3_access_key = codes "a";
  s3_secret_key = codes "c";
  s3_region = codes "auto";
  log_level = codes "info";
  log_format = codes "json";
  encryption_key_bytes = key;
}

load_iff_example : IsLoaded (with_bytes []) ↔ IsHex (with_bytes []).encryption_key 32
load_iff_example = load_iff (with_bytes [])

loads : load (some (with_bytes [])) ≡ ok (with_bytes thirty_two)
unfolding load decode_string hex_value
loads = refl
