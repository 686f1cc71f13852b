-- ===== src/PasswordSecurity.antt =====
-- libs/hbb_common/src/password_security.rs. Texts are lists of bytes in UTF-8. The options come from
-- config.rs and are the parameter `Options`; `secretbox` and `base64` of sodiumoxide and
-- `from_utf8_lossy` of std are the parameter `Crypto`. The lock of the temporary password is left
-- out, and so is the random choice of a new one.
pub mod Sealing
pub mod Methods
mod Tests
use Prim.Native.Char.{code}
use Prim.Native.String.{String}
use pc_trade.Prelude.{
  ℕ, zero, suc, ◌+◌, List, [], ◌∷◌, ◌++◌, Option, none, some, Bool, true, false, not, ltb, leb,
  ◌==◌, ◌&&◌, ◌||◌, if◌then◌else◌, length, replicate, take, drop,
}
use pc_trade.Fuse.Path.{name_eq}

abbrev pub codes : String → List ℕ
codes String.[] = []
codes (String.◌∷◌ c s) = code c ∷ codes s

pub data VerificationMethod : Type 0 where
  only_use_temporary_password only_use_permanent_password use_both_passwords : VerificationMethod

pub data ApproveMode : Type 0 where
  both password click : ApproveMode

-- The options that the file asks `Config` for.
pub record Options : Type 0 where
  pub verification_method : List ℕ
  pub temporary_password_length : List ℕ
  pub approve_mode : List ℕ
  pub allow_hide_cm : List ℕ
  pub permanent_password : List ℕ

unfoldable pub method_of : Options → VerificationMethod
method_of o =
    if name_eq o.verification_method (codes "use-temporary-password")
    then only_use_temporary_password
    else if name_eq o.verification_method (codes "use-permanent-password")
    then only_use_permanent_password
    else use_both_passwords

unfoldable pub length_of : Options → ℕ
length_of o =
    if name_eq o.temporary_password_length (codes "8")
    then 8
    else if name_eq o.temporary_password_length (codes "10")
    then 10
    else 6

abbrev pub is_permanent_only : VerificationMethod → Bool
is_permanent_only only_use_permanent_password = true
is_permanent_only _ = false

abbrev pub is_temporary_only : VerificationMethod → Bool
is_temporary_only only_use_temporary_password = true
is_temporary_only _ = false

unfoldable pub temporary_enabled : Options → Bool
unfolding method_of
temporary_enabled o = not (is_permanent_only (method_of o))

unfoldable pub permanent_enabled : Options → Bool
unfolding method_of
permanent_enabled o = not (is_temporary_only (method_of o))

-- `temporary` is the temporary password.
unfoldable pub has_valid_password : Options → (temporary : List ℕ) → Bool
unfolding temporary_enabled permanent_enabled
has_valid_password o temporary =
    (temporary_enabled o && not (length temporary == 0))
    || (permanent_enabled o && not (length o.permanent_password == 0))

unfoldable pub mode_of : Options → ApproveMode
mode_of o =
    if name_eq o.approve_mode (codes "password")
    then password
    else if name_eq o.approve_mode (codes "click")
    then click
    else both

abbrev pub is_password : ApproveMode → Bool
is_password password = true
is_password _ = false

-- `option2bool` on an option that begins with "allow-"
abbrev pub allows : List ℕ → Bool
allows value = name_eq value (codes "Y")

unfoldable pub hide_cm : Options → Bool
unfolding mode_of method_of
hide_cm o = is_password (mode_of o) && is_permanent_only (method_of o) && allows o.allow_hide_cm

-- `seal` and `unseal` are `secretbox::seal` and `open` with the zero nonce; `encode` and `decode`
-- are base64's; `lossy` is `from_utf8_lossy`, `char_count` is `chars().count()`.
pub record Crypto : Type 0 where
  pub uuid : List ℕ
  pub seal : (data_bytes key : List ℕ) → List ℕ
  pub unseal : (data_bytes key : List ℕ) → Option (List ℕ)
  pub encode : List ℕ → List ℕ
  pub decode : List ℕ → Option (List ℕ)
  pub lossy : List ℕ → List ℕ
  pub char_count : List ℕ → ℕ

abbrev pub version_len : ℕ
version_len = 2

-- `Vec::resize` to 32 bytes, `KEYBYTES`
unfoldable pub resize : List ℕ → List ℕ
resize key = take 32 (key ++ replicate (32) 0)

-- "00"
abbrev pub version_00 : List ℕ
version_00 = 48 ∷ 48 ∷ []

-- The text or bytes, whether decryption succeeded, and whether to store them again.
pub record Decrypted : Type 0 where
  pub plain : List ℕ
  pub success : Bool
  pub store : Bool

module _ (c : Crypto) where
  unfoldable pub symmetric_crypt : List ℕ → Bool → Option (List ℕ)
  unfolding resize
  symmetric_crypt bytes true = some (c.seal bytes (resize c.uuid))
  symmetric_crypt bytes false = c.unseal bytes (resize c.uuid)

  unfoldable pub encrypt : List ℕ → Option (List ℕ)
  unfolding symmetric_crypt
  encrypt [] = none
  encrypt (x ∷ xs) = elim (symmetric_crypt (x ∷ xs) true) [
    | none ↦ none
    | some v ↦ some (c.encode v)
  ]

  unfoldable pub decrypt : List ℕ → Option (List ℕ)
  unfolding symmetric_crypt
  decrypt [] = none
  decrypt (x ∷ xs) = elim (c.decode (x ∷ xs)) [ none ↦ none | some v ↦ symmetric_crypt v false ]

  abbrev pub as_it_is : List ℕ → Decrypted
  as_it_is v = record { plain = v; success = false; store = not (length v == 0) }

  abbrev pub decrypted_or : List ℕ → List ℕ → Option (List ℕ) → Decrypted
  decrypted_or v current_version none = as_it_is v
  decrypted_or v current_version (some p) = record {
    plain = p;
    success = true;
    store = not (name_eq version_00 current_version);
  }

  unfoldable pub decrypt_vec_or_original : List ℕ → (current_version : List ℕ) → Decrypted
  unfolding decrypt
  decrypt_vec_or_original v current_version =
      if ltb version_len (length v) && name_eq (take version_len v) version_00
      then decrypted_or v current_version (decrypt (drop version_len v))
      else as_it_is v

  abbrev pub lossy_text : Option (List ℕ) → Option (List ℕ)
  lossy_text none = none
  lossy_text (some v) = some (c.lossy v)

  unfoldable pub decrypt_str_or_original : List ℕ → (current_version : List ℕ) → Decrypted
  unfolding decrypt
  decrypt_str_or_original s current_version =
      if ltb version_len (length s) && name_eq (take version_len s) version_00
      then decrypted_or s current_version (lossy_text (decrypt (drop version_len s)))
      else as_it_is s

  abbrev pub with_version : List ℕ → List ℕ → Option (List ℕ) → List ℕ
  with_version v version none = v
  with_version v version (some s) = version ++ s

  unfoldable pub encrypt_vec_or_original : List ℕ → (version : List ℕ) → (max_len : ℕ) → List ℕ
  unfolding decrypt_vec_or_original encrypt
  encrypt_vec_or_original v version max_len =
      if (decrypt_vec_or_original v version).success
      then v
      else if ltb max_len (length v)
      then []
      else if name_eq version version_00
      then with_version v version (encrypt v)
      else v

  unfoldable pub encrypt_str_or_original : List ℕ → (version : List ℕ) → (max_len : ℕ) → List ℕ
  unfolding decrypt_str_or_original encrypt
  encrypt_str_or_original s version max_len =
      if (decrypt_str_or_original s version).success
      then s
      else if ltb max_len (c.char_count s)
      then []
      else if name_eq version version_00
      then with_version s version (encrypt s)
      else s
