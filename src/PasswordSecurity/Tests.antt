-- ===== src/PasswordSecurity/Tests.antt =====
-- password_security.rs with a sealing that puts the key's first byte in front.
use pc_trade.Prelude.{ℕ, ◌≡◌, refl, List, [], ◌∷◌, Option, none, some, false, arith, length}
use pc_trade.PasswordSecurity.{Crypto, Options, version_00, codes, decrypt_vec_or_original}
use pc_trade.PasswordSecurity.Sealing.{Opens}

abbrev tail_of : List ℕ → Option (List ℕ)
tail_of [] = none
tail_of (x ∷ xs) = some xs

abbrev plain_crypto : Crypto
plain_crypto = record {
  uuid = 5 ∷ [];
  seal = λ bytes key. 1 ∷ bytes;
  unseal = λ bytes key. tail_of bytes;
  encode = λ bytes. 2 ∷ bytes;
  decode = tail_of;
  lossy = λ bytes. bytes;
  char_count = λ bytes. length bytes;
}

plain_crypto-Opens : Opens plain_crypto
plain_crypto-Opens = record {
  unseal = λ bytes key. refl;
  decode = λ bytes. refl;
  present = λ bytes key. omega arith;
}

abbrev secret : List ℕ
secret = b's' ∷ b'3' ∷ []

unsealed : (decrypt_vec_or_original plain_crypto secret version_00).success ≡ false
unfolding decrypt_vec_or_original
unsealed = refl

abbrev permanent_only : Options
permanent_only = record {
  verification_method = codes "use-permanent-password";
  temporary_password_length = codes "8";
  approve_mode = codes "password";
  allow_hide_cm = codes "Y";
  permanent_password = secret;
}
