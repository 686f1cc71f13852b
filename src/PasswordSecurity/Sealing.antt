-- ===== src/PasswordSecurity/Sealing.antt =====
-- What is stored by password_security.rs, and what is read back.
use pc_trade.Prelude.{
  ℕ, suc, ◌≤◌, ◌≡◌, ◌≢◌, refl, ap, ◌∙◌, List, [], ◌∷◌, ◌++◌, some, true, false, ltb, arith, length,
}
use pc_trade.PasswordSecurity.{
  Crypto, version_00, resize, symmetric_crypt, encrypt, decrypt, decrypt_vec_or_original,
  encrypt_vec_or_original,
}

-- What the libraries promise: a sealed text opens again under the same key, base64 is decoded
-- again, and the code of a sealed text has a character.
pub record Opens (c : Crypto) : Type 0 where
  pub unseal : (bytes key : List ℕ) → c.unseal (c.seal bytes key) key ≡ some bytes
  pub decode : (bytes : List ℕ) → c.decode (c.encode bytes) ≡ some bytes
  pub present : (bytes key : List ℕ) → length (c.encode (c.seal bytes key)) ≢ 0

module _ (c : Crypto) (opens : Opens c) where
  decrypt_present :
      (s : List ℕ) (v : List ℕ)
      → length s ≢ 0
      → c.decode s ≡ some v
      → decrypt c s ≡ symmetric_crypt c v false
  unfolding decrypt
  decrypt_present [] v ne e = absurd (omega arith)
  decrypt_present (x ∷ xs) v ne e = rw (e, decrypt) refl

  -- Bytes that are not empty are sealed, and are opened to themselves.
  pub decrypt-encrypt :
      (v : List ℕ)
      → length v ≢ 0
      → (s : List ℕ) × (encrypt c v ≡ some s) × (length s ≢ 0) × (decrypt c s ≡ some v)
  unfolding encrypt symmetric_crypt
  decrypt-encrypt [] ne = absurd (omega arith)
  decrypt-encrypt (x ∷ xs) ne =
      let sealed = c.seal (x ∷ xs) (resize c.uuid) in
      let present = opens.present (x ∷ xs) (resize c.uuid) in
      (
        c.encode sealed,
        refl,
        present,
        decrypt_present (c.encode sealed) sealed present (opens.decode sealed)
            ∙ opens.unseal (x ∷ xs) (resize c.uuid),
      )

  decrypt_stored :
      (s v : List ℕ)
      → length s ≢ 0
      → decrypt c s ≡ some v
      → decrypt_vec_or_original c (version_00 ++ s) version_00
        ≡ record { plain = v; success = true; store = false }
  unfolding decrypt_vec_or_original
  decrypt_stored s v ne e = rw (long (length s) ne, e) refl
    where
      long : (n : ℕ) → n ≢ 0 → ltb 2 (suc (suc n)) ≡ true
      long n ne = ground arith

  encrypt_fresh :
      (v : List ℕ) (max_len : ℕ) (s : List ℕ)
      → length v ≤ max_len
      → (decrypt_vec_or_original c v version_00).success ≡ false
      → encrypt c v ≡ some s
      → encrypt_vec_or_original c v version_00 max_len ≡ version_00 ++ s
  unfolding encrypt_vec_or_original
  encrypt_fresh v max_len s short unsealed sealed =
      let fits : ltb max_len (length v) ≡ false = ground arith in rw (unsealed, fits, sealed) refl

  encrypt_again :
      (v : List ℕ) (max_len : ℕ)
      → (decrypt_vec_or_original c v version_00).success ≡ true
      → encrypt_vec_or_original c v version_00 max_len ≡ v
  unfolding encrypt_vec_or_original
  encrypt_again v max_len e = rw e refl

  -- Bytes that are not sealed yet and are neither empty nor too long are read back as they were,
  -- under version 00, and need not be stored again; to seal them once more changes nothing.
  pub decrypt-encrypt_vec :
      (v : List ℕ) (max_len : ℕ)
      → length v ≢ 0
      → length v ≤ max_len
      → (decrypt_vec_or_original c v version_00).success ≡ false
      → let stored = encrypt_vec_or_original c v version_00 max_len in
        (decrypt_vec_or_original c stored version_00
          ≡ record { plain = v; success = true; store = false })
        × (encrypt_vec_or_original c stored version_00 max_len ≡ stored)
  decrypt-encrypt_vec v max_len present short unsealed =
      let (s, sealed, ne, e) = decrypt-encrypt v present in
      let back = decrypt_stored s v ne e in
      rw (encrypt_fresh v max_len s short unsealed sealed)
        (back, encrypt_again (version_00 ++ s) max_len (ap (λ d. d.success) back))
