-- ===== src/Storage.antt =====
-- The object store (internal/storage/s3.go): the keys of attachments, and a bucket as the
-- operations on it leave it.
pub mod Keys
mod Examples
use letterbox.Prelude.{
  ℕ, ◌+◌, Text, codes, text_eq, is_empty, Bool, true, false, ◌&&◌, ◌||◌, Option, none, some, List,
  [], ◌∷◌, ◌++◌, ◌==◌, if◌then◌else◌,
}
use letterbox.Prelude.Maps
use letterbox.Prelude.Maps.{Map, lookup, insert}
use letterbox.Prelude.Separators.{decimal}

-- filepath.Base strips trailing slashes, and keeps what follows the last slash.
unfoldable pub strip_trailing : Text → Text
strip_trailing [] = []
strip_trailing (c ∷ s) =
    let rest = strip_trailing s in if (c == b'/') && is_empty rest then [] else c ∷ rest

unfoldable pub last_segment : Text → Text → Text
last_segment cur [] = cur
last_segment cur (c ∷ s) = last_segment (if c == b'/' then [] else cur ++ c ∷ []) s

unfoldable pub base : Text → Text
unfolding strip_trailing last_segment
base [] = codes "."
base (c ∷ s) =
    let stripped = strip_trailing (c ∷ s) in
    if is_empty stripped then codes "/" else last_segment [] stripped

unfoldable pub attachment_key : Text → ℕ → Text → Text
unfolding base decimal
attachment_key account_id email_uid filename =
    account_id ++ b'/' ∷ (decimal email_uid ++ b'/' ∷ base filename)

-- NewS3Storage; the S3 client stands for its endpoint, region and credentials.
pub record S3Config : Type 0 where
  pub endpoint : Text
  pub bucket : Text
  pub access_key : Text
  pub secret_key : Text
  pub region : Text

pub data S3Error : Type 0 where
  endpoint_required bucket_required credentials_required : S3Error

pub data NewResult : Type 0 where
  created : S3Config → NewResult
  refused : S3Error → NewResult

unfoldable pub new_s3_storage : S3Config → NewResult
new_s3_storage cfg =
    if is_empty cfg.endpoint
    then refused endpoint_required
    else if is_empty cfg.bucket
    then refused bucket_required
    else if is_empty cfg.access_key || is_empty cfg.secret_key
    then refused credentials_required
    else created
        (record cfg { region = if is_empty cfg.region then codes "us-east-1" else cfg.region })

-- The URL that Upload returns
abbrev pub object_url : S3Config → Text → Text
object_url s key = s.endpoint ++ b'/' ∷ (s.bucket ++ b'/' ∷ key)

-- The answers of HeadObject, and what Exists says of them, none being its error
pub data Head : Type 0 where
  present not_found no_such_key head_failed : Head

unfoldable pub exists : Head → Option Bool
exists present = some true
exists not_found = some false
exists no_such_key = some false
exists head_failed = none

-- The objects of the bucket, as the operations leave them where they succeed.
abbrev pub Objects : Type 0
Objects = Map Text

unfoldable pub download : Text → Objects → Option Text
unfolding lookup
download key objects = lookup key objects

unfoldable pub delete : Text → Objects → Objects
unfolding Maps.delete
delete key objects = Maps.delete key objects

unfoldable pub upload : Text → Text → Objects → Objects
unfolding insert
upload key content objects = insert key content objects
