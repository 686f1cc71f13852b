-- ===== src/Config/Secrets.antt =====
-- A secret of config.rs: what is written of it, and what is read back.
use pc_trade.Prelude.{
  ℕ, suc, ◌≤◌, ◌≡◌, ◌≢◌, ◌⊎◌, inl, inr, refl, ap, ◌∙◌, List, [], ◌∷◌, ◌++◌, some, true, false, not,
  ltb, arith, length, Bool-cases,
}
use pc_trade.PasswordSecurity.{
  Crypto, version_00, encrypt, decrypt, decrypt_str_or_original, encrypt_str_or_original,
}
use pc_trade.PasswordSecurity.Sealing.{Opens, decrypt-encrypt}
use pc_trade.Config.Main.{encrypt_max_len, opened, sealed}
use pc_trade.Config.Options.{is_empty}

-- A text of at most 128 characters that is valid UTF-8 and is not itself the code of a sealed one
pub record IsSealable (c : Crypto) (text : List ℕ) : Type 0 where
  pub fresh : (opened c text).success ≡ false
  pub short : c.char_count text ≤ encrypt_max_len
  pub valid : c.lossy text ≡ text

-- Nothing of the text can be read without the key.
abbrev pub IsHidden : Crypto → List ℕ → Type 0
IsHidden c text = (text ≡ []) ⊎ ((opened c text).success ≡ true)

module _ (c : Crypto) (opens : Opens c) where
  opened_stored :
      (s v : List ℕ)
      → length s ≢ 0
      → decrypt c s ≡ some v
      → opened c (version_00 ++ s) ≡ record { plain = c.lossy v; success = true; store = false }
  unfolding opened decrypt_str_or_original
  opened_stored s v ne e = rw (long (length s) ne, e) refl
    where
      long : (n : ℕ) → n ≢ 0 → ltb 2 (suc (suc n)) ≡ true
      long n ne = ground arith

  sealed_fresh :
      (v s : List ℕ)
      → c.char_count v ≤ encrypt_max_len
      → (opened c v).success ≡ false
      → encrypt c v ≡ some s
      → sealed c v ≡ version_00 ++ s
  unfolding opened sealed encrypt_str_or_original
  sealed_fresh v s short fresh e =
      let fits : ltb encrypt_max_len (c.char_count v) ≡ false = ground arith in
      rw (fresh, fits, e) refl

  pub opened-sealed :
      (v : List ℕ)
      → IsSealable c v
      → opened c (sealed c v) ≡ record { plain = v; success = not (is_empty v); store = false }
  unfolding sealed opened encrypt_str_or_original encrypt decrypt_str_or_original
  opened-sealed [] h =
      let short = h.short in
      let fits : ltb encrypt_max_len (c.char_count []) ≡ false = ground arith in rw fits refl
  opened-sealed (x ∷ xs) h =
      let (s, e, ne, back) = decrypt-encrypt c opens (x ∷ xs) (omega arith) in
      rw (sealed_fresh (x ∷ xs) s h.short h.fresh e) (
        opened_stored s (x ∷ xs) ne back
        ∙ ap (λ t. record { plain = t; success = true; store = false }) h.valid)

  -- A secret that does not read as a sealed one, and that is not too long.
  IsHidden-fresh :
      (v : List ℕ)
      → (opened c v).success ≡ false
      → c.char_count v ≤ encrypt_max_len
      → IsHidden c (sealed c v)
  unfolding sealed opened encrypt_str_or_original encrypt decrypt_str_or_original
  IsHidden-fresh [] fresh short =
      let fits : ltb encrypt_max_len (c.char_count []) ≡ false = ground arith in inl (rw fits refl)
  IsHidden-fresh (x ∷ xs) fresh short =
      let (s, e, ne, back) = decrypt-encrypt c opens (x ∷ xs) (omega arith) in
      inr (
        rw (sealed_fresh (x ∷ xs) s short fresh e)
          (ap (λ d. d.success) (opened_stored s (x ∷ xs) ne back)))

  sealed_long :
      (v : List ℕ)
      → (opened c v).success ≡ false
      → ltb encrypt_max_len (c.char_count v) ≡ true
      → sealed c v ≡ []
  unfolding sealed opened encrypt_str_or_original
  sealed_long v fresh long = rw (fresh, long) refl

  sealed_again : (v : List ℕ) → (opened c v).success ≡ true → sealed c v ≡ v
  unfolding sealed opened encrypt_str_or_original
  sealed_again v e = rw e refl

  pub sealed-IsHidden : (v : List ℕ) → IsHidden c (sealed c v)
  sealed-IsHidden v = elim (Bool-cases (opened c v).success) [
    | inl e ↦ inr (rw (sealed_again v e) e)
    | inr fresh ↦ elim (Bool-cases (ltb encrypt_max_len (c.char_count v))) [
      | inl long ↦ inl (sealed_long v fresh long)
      | inr fits ↦ IsHidden-fresh v fresh (ground arith)
    ]
  ]
