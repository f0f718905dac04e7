-- ===== src/Crypto/Secrets.antt =====
-- Secrets are read back (internal/crypto/crypto.go).
use letterbox.Prelude.{
  ◌≡◌, ◌≢◌, refl, ap, Text, Bool-cases, inl, inr, some, [], ◌∷◌, ◌++◌, length, length-append, take,
  drop, ◌==◌, ==_iff, arith,
}
use letterbox.Crypto.{
  Cipher, IsLawful, CryptoError, ok, err, sealed, encrypt, opened, split, decrypt,
}

take-append : (s t : Text) → take (length s) (s ++ t) ≡ s
take-append [] t = refl
take-append (c ∷ s) t = ap (λ r. c ∷ r) (take-append s t)

drop-append : (s t : Text) → drop (length s) (s ++ t) ≡ t
drop-append [] t = refl
drop-append (c ∷ s) t = drop-append s t

module _ (c : Cipher) (lawful : IsLawful c) where
  split-sealed :
      (plaintext key nonce : Text)
      → length nonce ≡ c.nonce_size
      → split c key (some (nonce ++ c.seal key nonce plaintext)) ≡ ok plaintext
  unfolding split opened
  split-sealed plaintext key nonce size = rw (← size) (
      rw (take-append nonce (c.seal key nonce plaintext)) (
        rw (drop-append nonce (c.seal key nonce plaintext)) (
          rw (lawful.opens key nonce plaintext)
            (ground (arith, length-append nonce (c.seal key nonce plaintext))))))

  -- Let the cipher and the encoding keep to their documentation. For a key of 32 bytes and a nonce
  -- of the cipher's size, Encrypt succeeds, and Decrypt under the same key gives the plaintext back.
  pub decrypt-encrypt :
      (plaintext key nonce : Text)
      → length key ≡ 32
      → length nonce ≡ c.nonce_size
      → (ciphertext : Text) × (encrypt c plaintext key (some nonce) ≡ ok ciphertext)
        × (decrypt c ciphertext key ≡ ok plaintext)
  unfolding encrypt decrypt sealed
  decrypt-encrypt plaintext key nonce long size =
      let test = (==_iff (length key) 32).1 long in
      (
        c.encode_base64 (nonce ++ c.seal key nonce plaintext),
        rw test refl,
        rw test (
            rw (lawful.decodes (nonce ++ c.seal key nonce plaintext))
              (split-sealed plaintext key nonce size)),
      )

  -- What Encrypt gives: the encoding of the nonce and of the sealed plaintext.
  pub encrypt-sealed :
      (plaintext key nonce : Text)
      → length key ≡ 32
      → encrypt c plaintext key (some nonce)
        ≡ ok (c.encode_base64 (nonce ++ c.seal key nonce plaintext))
  unfolding encrypt sealed
  encrypt-sealed plaintext key nonce long = rw ((==_iff (length key) 32).1 long) refl

  -- What Encrypt gives is not empty.
  pub encrypt-some :
      (plaintext key nonce ciphertext : Text)
      → length nonce ≡ c.nonce_size
      → encrypt c plaintext key (some nonce) ≡ ok ciphertext
      → ciphertext ≢ []
  unfolding encrypt sealed
  encrypt-some plaintext key nonce ciphertext size h empty = elim (Bool-cases (length key == 32)) [
    | inl fits ↦
        let here : ok (c.encode_base64 (nonce ++ c.seal key nonce plaintext)) ≡ ok ciphertext =
          rw fits at h in
        lawful.encodes_some (nonce ++ c.seal key nonce plaintext) (some-nonce nonce _ size)
          (cc (here, empty))
    | inr short ↦
        let wrong : err CryptoError.invalid_key ≡ ok ciphertext = rw short at h in
        absurd (cc (wrong))
  ]
    where
      some-nonce : (nonce rest : Text) → length nonce ≡ c.nonce_size → nonce ++ rest ≢ []
      some-nonce [] rest size e = omega (arith, lawful.nonce_some, size)
      some-nonce (x ∷ nonce) rest size e = absurd (cc (e))
