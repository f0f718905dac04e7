-- ===== src/Crypto.antt =====
-- Encryption at rest (internal/crypto/crypto.go), over AES-GCM and base64 of the standard library,
-- which are parameters.
pub mod Secrets
use letterbox.Prelude.{
  ℕ, Text, Bool, true, false, Option, none, some, List, [], ◌∷◌, ◌++◌, length, take, drop, ltb,
  ◌==◌, ◌≡◌, ◌≢◌, ◌<◌, if◌then◌else◌,
}

-- The cipher under a key of 32 bytes: NonceSize, Seal and Open, by key and nonce.
pub record Cipher : Type 0 where
  pub nonce_size : ℕ
  pub seal : Text → Text → Text → Text
  pub open_sealed : Text → Text → Text → Option Text
  pub encode_base64 : Text → Text
  pub decode_base64 : Text → Option Text

-- What the documentation of these packages says: there is a nonce, Open undoes Seal, DecodeString
-- undoes EncodeToString, and the encoding of some bytes is not empty.
pub record IsLawful (c : Cipher) : Type 0 where
  pub opens :
      (key nonce plaintext : Text)
      → c.open_sealed key nonce (c.seal key nonce plaintext) ≡ some plaintext
  pub nonce_some : 0 < c.nonce_size
  pub encodes_some : (s : Text) → s ≢ [] → c.encode_base64 s ≢ []
  pub decodes : (s : Text) → c.decode_base64 (c.encode_base64 s) ≡ some s

pub data CryptoError : Type 0 where
  invalid_key generating_nonce decoding ciphertext_too_short decryption_failed : CryptoError

pub data Result : Type 0 where
  ok : Text → Result
  err : CryptoError → Result

module _ (c : Cipher) where
  sealed : Text → Text → Option Text → Result
  sealed plaintext key none = err generating_nonce
  sealed plaintext key (some nonce) = ok (c.encode_base64 (nonce ++ c.seal key nonce plaintext))

  -- The nonce is what rand.Read filled in, none being its error. The errors of NewCipher and NewGCM
  -- cannot occur for a key of 32 bytes.
  unfoldable pub encrypt : Text → Text → Option Text → Result
  unfolding sealed
  encrypt plaintext key nonce =
      if length key == 32 then sealed plaintext key nonce else err invalid_key

  opened : Option Text → Result
  opened none = err decryption_failed
  opened (some plaintext) = ok plaintext

  split : Text → Option Text → Result
  unfolding opened
  split key none = err decoding
  split key (some bytes) =
      if ltb (length bytes) c.nonce_size
      then err ciphertext_too_short
      else opened (c.open_sealed key (take c.nonce_size bytes) (drop c.nonce_size bytes))

  unfoldable pub decrypt : Text → Text → Result
  unfolding split
  decrypt ciphertext key =
      if length key == 32 then split key (c.decode_base64 ciphertext) else err invalid_key
