-- ===== src/Config/Identity.antt =====
-- Who this computer is in libs/hbb_common/src/config.rs: its id, password, salt and keys, in memory
-- and in the file. The random choices, the address of the network card and the printing of numbers
-- are arguments; the locks are left out.
use pc_trade.Prelude.{
  ℕ, ◌+◌, ◌*◌, ◌%◌, ◌^◌, List, [], ◌∷◌, Option, none, some, Bool, true, false, if◌then◌else◌, drop,
}
use pc_trade.Fuse.Path.{name_eq}
use pc_trade.PasswordSecurity.{Crypto, codes}
use pc_trade.Config.Main.{Config, store, load_path, default_config}
use pc_trade.Config.Options.{Texts, get, is_value, is_empty, text_or_empty}
use pc_trade.Config.Devices.{Text, Devices, clear_trusted_devices}

abbrev pub KeyPair : Type 0
KeyPair = List ℕ × List ℕ

-- `CONFIG` with its file, the keys that were read, the trusted devices, and `HARD_SETTINGS`
pub record Identity : Type 0 where
  pub config : Config
  pub file : Option Config
  pub key_pair : Option KeyPair
  pub devices : Devices
  pub hard : Texts

-- The low 29 bits of the last four bytes of the address, in decimal
abbrev pub number_of : List ℕ → ℕ → ℕ
number_of [] id = id
number_of (x ∷ xs) id = number_of xs ((id * 256) % 2 ^ 32 + x)

abbrev pub get_auto_id : (to_string : ℕ → List ℕ) → Option (List ℕ) → Option (List ℕ)
get_auto_id to_string none = none
get_auto_id to_string (some ma) = some (to_string (number_of (drop 2 ma) 0 % 2 ^ 29))

unfoldable pub get_permanent_password : Identity → List ℕ
unfolding get
get_permanent_password s =
    if is_empty s.config.password
    then text_or_empty (get s.hard (codes "password"))
    else s.config.password

-- The keys, and whether they are written by a thread of their own; `fresh` are new ones. The file
-- is read, not the settings in memory.
abbrev pub keys_of : Identity → (fresh : KeyPair) → Option KeyPair → (KeyPair × Bool) × Identity
keys_of s fresh (some p) = ((p, false), s)
keys_of s fresh none =
    let stored = (load_path default_config s.file).key_pair in
    if is_empty stored.0
    then ((fresh, true), record s { key_pair = some fresh })
    else ((stored, false), record s { key_pair = some stored })

unfoldable pub get_key_pair : Identity → (fresh : KeyPair) → (KeyPair × Bool) × Identity
get_key_pair s fresh = keys_of s fresh s.key_pair

module _ (c : Crypto) where
  -- The settings are changed and written.
  abbrev pub written : Identity → Config → Identity
  unfolding store
  written s config = record s { config = config; file = some (store c config) }

  unfoldable pub set_id : Identity → List ℕ → Identity
  unfolding store
  set_id s id = if name_eq id s.config.id then s else written s (record s.config { id = id })

  abbrev pub id_or : Identity → Option (List ℕ) → List ℕ × Identity
  unfolding set_id
  id_or s none = (s.config.id, s)
  id_or s (some id) = (id, set_id s id)

  unfoldable pub get_id : Identity → (auto : Option (List ℕ)) → List ℕ × Identity
  unfolding set_id
  get_id s auto = if is_empty s.config.id then id_or s auto else (s.config.id, s)

  unfoldable pub set_salt : Identity → List ℕ → Identity
  unfolding store
  set_salt s salt =
      if name_eq salt s.config.salt then s else written s (record s.config { salt = salt })

  -- `auto` is what `get_auto_password` answers.
  unfoldable pub get_salt : Identity → (auto : List ℕ) → List ℕ × Identity
  unfolding set_salt
  get_salt s auto = if is_empty s.config.salt then (auto, set_salt s auto) else (s.config.salt, s)

  unfoldable pub set_permanent_password : Text → (now : ℕ) → Identity → List ℕ → Identity
  unfolding store get clear_trusted_devices
  set_permanent_password text now s password =
      if is_value (get s.hard (codes "password")) password
      then s
      else if name_eq password s.config.password
      then s
      else record (written s (record s.config { password = password })) {
        devices = clear_trusted_devices text now s.devices;
      }

  -- What that thread does
  unfoldable pub write_key_pair : Identity → KeyPair → Identity
  unfolding store
  write_key_pair s key_pair = written s (record s.config { key_pair = key_pair })
