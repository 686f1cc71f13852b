-- ===== src/Config/Main.antt =====
-- `Config` of libs/hbb_common/src/config.rs, which holds the id and the password, and how it is read
-- from its file and written to it. The file is what it holds, or none where there is no file that
-- can be read; the serialization is confy's and is left out.
use pc_trade.Prelude.{
  ℕ, List, [], Option, none, some, Bool, true, false, not, ◌&&◌, ◌||◌, if◌then◌else◌,
}
use pc_trade.PasswordSecurity.{
  Crypto, Decrypted, version_00, decrypt_str_or_original, encrypt_str_or_original,
}
use pc_trade.Config.Options.{first_of, is_empty}

abbrev pub encrypt_max_len : ℕ
encrypt_max_len = 128

pub record Config : Type 0 where
  pub id : List ℕ
  pub enc_id : List ℕ
  pub password : List ℕ
  pub salt : List ℕ
  pub key_pair : List ℕ × List ℕ
  pub key_confirmed : Bool
  pub keys_confirmed : List (List ℕ × Bool)

-- `load_path` and `load_`: the default where the file is missing or cannot be read
abbrev pub load_path : {T : Type 0} → (default : T) → Option T → T
load_path default none = default
load_path default (some config) = config

abbrev pub default_config : Config
default_config = record {
  id = [];
  enc_id = [];
  password = [];
  salt = [];
  key_pair = ([], []);
  key_confirmed = false;
  keys_confirmed = [];
}

-- What three calls of `get_auto_id` answer
abbrev pub Attempts : Type 0
Attempts = Option (List ℕ) × Option (List ℕ) × Option (List ℕ)

abbrev pub generated : Config → Option (List ℕ) → Config × Bool
generated config none = (config, false)
generated config (some id) = (record config { id = id }, true)

-- What is left in memory and in the file, where `T` is the type of the settings.
abbrev pub rewritten : {T : Type 0} → (T → T) → T → Bool → Option T → T × Option T
rewritten store config true file = (config, some (store config))
rewritten store config false file = (config, file)

module _ (c : Crypto) where
  unfoldable pub opened : List ℕ → Decrypted
  opened text = decrypt_str_or_original c text version_00

  unfoldable pub sealed : List ℕ → List ℕ
  sealed text = encrypt_str_or_original c text version_00 encrypt_max_len

  unfoldable pub store : Config → Config
  unfolding sealed
  store config = record config {
    password = sealed config.password;
    enc_id = sealed config.id;
    id = [];
  }

  -- The id, which may stand in the file as it is, and whether to store it.
  unfoldable pub load_id : Config → Attempts → Config × Bool
  unfolding opened
  load_id config (first, second, third) =
      let id = opened config.enc_id in
      if id.success
      then (record config { id = id.plain }, id.store)
      else if not (is_empty config.id) && is_empty config.enc_id && not (opened config.id).success
      then (config, true)
      else generated config (first_of first (first_of second third))

  unfoldable pub load : Option Config → Attempts → Config × Option Config
  unfolding opened store load_id
  load file attempts =
      let config = load_path default_config file in
      let password = opened config.password in
      let (read, changed) = load_id (record config { password = password.plain }) attempts in
      rewritten store read (password.store || changed) file
