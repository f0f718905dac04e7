-- ===== src/Config/Keys.antt =====
-- Which keys the configuration accepts (internal/config/config.go).
use letterbox.Prelude.{
  ℕ, zero, suc, ◌+◌, ◌*◌, ◌≤◌, ◌≡◌, ◌⊎◌, ◌↔◌, ◌≢◌, refl, sym, ap, inl, inr, Text, Option, none,
  some, Option-cases, Bool-cases, [], ◌∷◌, length, All, ◌==◌, ==_iff, arith,
}
use letterbox.Crypto
use letterbox.Crypto.{Cipher, IsLawful, encrypt, decrypt}
use letterbox.Crypto.Secrets.{decrypt-encrypt}
use letterbox.Config.{Config, ok, hex_value, hex_byte, decode_string, with_key, load}

abbrev pub IsHexDigit : ℕ → Type 0
IsHexDigit c = ((b'0' ≤ c) × (c ≤ b'9')) ⊎ (((b'a' ≤ c) × (c ≤ b'f')) ⊎ ((b'A' ≤ c) × (c ≤ b'F')))

hex_value-IsHexDigit : (c v : ℕ) → hex_value c ≡ some v → IsHexDigit c
unfolding hex_value
hex_value-IsHexDigit c v h = ground (arith, h)

IsHexDigit-hex_value : (c : ℕ) → IsHexDigit c → hex_value c ≢ none
unfolding hex_value
IsHexDigit-hex_value c h e = ground (arith, h, e)

some_injective : {a b : Text} → some a ≡ some b → a ≡ b
some_injective e = cc (e)

-- A byte of two digits, before the bytes of the rest
record IsByte (a b : Option ℕ) (r : Option Text) (bytes : Text) : Type 0 where
  high : ℕ
  low : ℕ
  rest : Text
  high_eq : a ≡ some high
  low_eq : b ≡ some low
  rest_eq : r ≡ some rest
  longer : length bytes ≡ suc (length rest)

hex_byte-IsByte :
    (a b : Option ℕ) (r : Option Text) (bytes : Text)
    → hex_byte a b r ≡ some bytes
    → IsByte a b r bytes
hex_byte-IsByte (some high) (some low) (some rest) bytes h =
    let same : (high * 16 + low) ∷ rest ≡ bytes = cc (h) in
    record {
      high = high;
      low = low;
      rest = rest;
      high_eq = refl;
      low_eq = refl;
      rest_eq = refl;
      longer = ap length (sym same);
    }
hex_byte-IsByte none b r bytes h = absurd (cc (h))
hex_byte-IsByte (some _) none r bytes h = absurd (cc (h))
hex_byte-IsByte (some _) (some _) none bytes h = absurd (cc (h))

-- Hexadecimal digits, two for each of n bytes
unfoldable pub IsHex : Text → ℕ → Type 0
IsHex s n = (length s ≡ 2 * n) × All IsHexDigit s

decode_string-IsHex : (s bytes : Text) → decode_string s ≡ some bytes → IsHex s (length bytes)
unfolding decode_string IsHex
decode_string-IsHex [] bytes h = (rw (← some_injective h) (omega arith), tt)
decode_string-IsHex (c ∷ []) bytes h = absurd (cc (h))
decode_string-IsHex (c ∷ d ∷ s) bytes h =
    let e = hex_byte-IsByte (hex_value c) (hex_value d) (decode_string s) bytes h in
    let rest = decode_string-IsHex s e.rest e.rest_eq in
    (
      omega (arith, rest.0, e.longer),
      (hex_value-IsHexDigit c e.high e.high_eq, (hex_value-IsHexDigit d e.low e.low_eq, rest.1)),
    )

hex_value-some : (c : ℕ) → IsHexDigit c → (v : ℕ) × (hex_value c ≡ some v)
hex_value-some c h = elim (Option-cases (hex_value c)) [
  | inl none_eq ↦ absurd (IsHexDigit-hex_value c h none_eq)
  | inr some_eq ↦ some_eq
]

IsHex-decode_string :
    (s : Text) (n : ℕ)
    → IsHex s n
    → (bytes : Text) × ((decode_string s ≡ some bytes) × (length bytes ≡ n))
unfolding decode_string IsHex
IsHex-decode_string [] n h = ([], (refl, omega (arith, h.0)))
IsHex-decode_string (c ∷ []) n h = absurd (omega (arith, h.0))
IsHex-decode_string (c ∷ d ∷ s) zero h = absurd (omega (arith, h.0))
IsHex-decode_string (c ∷ d ∷ s) (suc n) h =
    let (high, high_eq) = hex_value-some c h.1.0 in
    let (low, low_eq) = hex_value-some d h.1.1.0 in
    let (bytes, (decoded, size)) = IsHex-decode_string s n (omega (arith, h.0), h.1.1.1) in
    ((high * 16 + low) ∷ bytes, (rw (high_eq, low_eq, decoded) refl, ap (λ k. suc k) size))

-- Load gives a configuration, whose key has 32 bytes.
abbrev pub IsLoaded : Config → Type 0
IsLoaded c = (cfg : Config) × ((load (some c) ≡ ok cfg) × (length cfg.encryption_key_bytes ≡ 32))

with_key-length :
    (c cfg : Config) (o : Option Text)
    → with_key c o ≡ ok cfg
    → (key : Text) × ((o ≡ some key) × (length key ≡ 32))
with_key-length c cfg none h = absurd (cc (h))
with_key-length c cfg (some key) h = elim (Bool-cases (length key == 32)) [
  | inl fits ↦ (key, (refl, (==_iff (length key) 32).0 fits))
  | inr other ↦ absurd (cc (rw other at h))
]

with_key-key :
    (c cfg : Config) (o : Option Text)
    → with_key c o ≡ ok cfg
    → length cfg.encryption_key_bytes ≡ 32
with_key-key c cfg none h = absurd (cc (h))
with_key-key c cfg (some key) h = elim (Bool-cases (length key == 32)) [
  | inl fits ↦
      let here : ok (record c { encryption_key_bytes = key }) ≡ ok cfg = rw fits at h in
      let same : record c { encryption_key_bytes = key } ≡ cfg = cc (here) in
      rw (← same) ((==_iff (length key) 32).0 fits)
  | inr other ↦ absurd (cc (rw other at h))
]

IsLoaded-IsHex : (c : Config) → IsLoaded c → IsHex c.encryption_key 32
unfolding load
IsLoaded-IsHex c (cfg, (loaded, size)) =
    let (key, (decoded, long)) = with_key-length c cfg (decode_string c.encryption_key) loaded in
    let shape = decode_string-IsHex c.encryption_key key decoded in rw long at shape

IsHex-IsLoaded : (c : Config) → IsHex c.encryption_key 32 → IsLoaded c
unfolding load
IsHex-IsLoaded c h =
    let (key, (decoded, size)) = IsHex-decode_string c.encryption_key 32 h in
    (
      record c { encryption_key_bytes = key },
      (rw decoded (rw ((==_iff (length key) 32).1 size) refl), size),
    )

-- Load succeeds exactly where the encryption key is 64 hexadecimal digits, of either case; the key
-- that it decodes then has 32 bytes.
pub load_iff : (c : Config) → IsLoaded c ↔ IsHex c.encryption_key 32
load_iff c = (IsLoaded-IsHex c, IsHex-IsLoaded c)

-- Let the cipher and the encoding keep to their documentation. Under the key of a configuration that
-- Load gives, Encrypt with a nonce of the cipher's size succeeds, and Decrypt gives the plaintext
-- back.
pub decrypt-load :
    (cipher : Cipher) (lawful : IsLawful cipher) (read cfg : Config) (plaintext nonce : Text)
    → load (some read) ≡ ok cfg
    → length nonce ≡ cipher.nonce_size
    → (ciphertext : Text) × (encrypt cipher plaintext cfg.encryption_key_bytes (some nonce)
        ≡ Crypto.ok ciphertext)
      × (decrypt cipher ciphertext cfg.encryption_key_bytes ≡ Crypto.ok plaintext)
unfolding load
decrypt-load cipher lawful read cfg plaintext nonce loaded size =
    decrypt-encrypt cipher lawful plaintext cfg.encryption_key_bytes nonce
      (with_key-key read cfg (decode_string read.encryption_key) loaded) size
