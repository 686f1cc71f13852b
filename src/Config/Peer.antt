-- ===== src/Config/Peer.antt =====
-- `PeerConfig` of libs/hbb_common/src/config.rs: how the settings of a peer are read and written. The
-- settings that are neither the password, the options, the platform nor the styles are the parameter
-- `Rest`: TOML gives them back as they were written.
use pc_trade.Prelude.{
  ℕ, List, [], ◌∷◌, Option, none, some, Bool, false, ◌||◌, ◌&&◌, leb, if◌then◌else◌,
}
use pc_trade.Fuse.Path.{name_eq}
use pc_trade.PasswordSecurity.{
  Crypto, version_00, codes, decrypt_vec_or_original, encrypt_vec_or_original,
}
use pc_trade.Config.Main.{opened, sealed, rewritten, encrypt_max_len}
use pc_trade.Config.Options.{Texts, get}

-- The change of a value in place (`HashMap::get_mut`)
abbrev pub get_mut : (List ℕ → List ℕ) → Texts → List ℕ → Texts
get_mut change [] k = []
get_mut change ((j, v) ∷ rest) k =
    let later = get_mut change rest k in
    if name_eq j k then (j, change v) ∷ rest else (j, v) ∷ later

abbrev pub secret_options : List (List ℕ)
secret_options = codes "rdp_password" ∷ codes "os-username" ∷ codes "os-password" ∷ []

-- The settings whose deserializers give the defaults of the user in place of some values. An i32 is its
-- 32-bit pattern.
pub record Styles : Type 0 where
  pub view_style : List ℕ
  pub scroll_style : List ℕ
  pub image_quality : List ℕ
  pub custom_image_quality : List ℕ
  pub reverse_mouse_wheel : List ℕ
  pub displays_as_individual_windows : List ℕ
  pub use_all_my_displays_for_the_remote_session : List ℕ

-- `serde_field_string`
abbrev pub or_default : (default : List ℕ) → List ℕ → List ℕ
or_default default [] = default
or_default default (x ∷ xs) = x ∷ xs

-- `deserialize_custom_image_quality`
abbrev pub quality_or_default : (default : List ℕ) → List ℕ → List ℕ
quality_or_default default [] = default
quality_or_default default (v ∷ []) = if leb 10 v && leb v 0xFFF then v ∷ [] else default
quality_or_default default (v ∷ w ∷ vs) = default

-- What is read of the styles of a file. An empty one is not written, and a missing one is the default.
unfoldable pub deserialized : (defaults : Styles) → Styles → Styles
deserialized d s = record {
  view_style = or_default d.view_style s.view_style;
  scroll_style = or_default d.scroll_style s.scroll_style;
  image_quality = or_default d.image_quality s.image_quality;
  custom_image_quality = quality_or_default d.custom_image_quality s.custom_image_quality;
  reverse_mouse_wheel = or_default d.reverse_mouse_wheel s.reverse_mouse_wheel;
  displays_as_individual_windows =
      or_default d.displays_as_individual_windows s.displays_as_individual_windows;
  use_all_my_displays_for_the_remote_session =
      or_default d.use_all_my_displays_for_the_remote_session
        s.use_all_my_displays_for_the_remote_session;
}

pub record PeerConfig (Rest : Type 0) : Type 0 where
  pub password : List ℕ
  pub options : Texts
  pub platform : List ℕ
  pub styles : Styles
  pub rest : Rest

module _ (c : Crypto) where
  abbrev pub is_stale : Option (List ℕ) → Bool
  is_stale none = false
  is_stale (some v) = (opened c v).store

  -- The loop of `store` over the options that are secrets
  abbrev pub seal_options : List (List ℕ) → Texts → Texts
  seal_options [] options = options
  seal_options (opt ∷ opts) options = seal_options opts (get_mut (sealed c) options opt)

  -- The loop of `load`, with whether to store so far
  abbrev pub open_options : List (List ℕ) → Texts → Bool → Texts × Bool
  open_options [] options store = (options, store)
  open_options (opt ∷ opts) options store =
      open_options opts (get_mut (λ v. (opened c v).plain) options opt)
        (store || is_stale (get options opt))

  module _ {Rest : Type 0} where
    unfoldable pub store : PeerConfig Rest → PeerConfig Rest
    unfolding sealed
    store config = record config {
      password = encrypt_vec_or_original c config.password version_00 encrypt_max_len;
      options = seal_options secret_options config.options;
    }

    abbrev pub with_secrets :
        (file config : PeerConfig Rest)
        → (password : List ℕ) → Texts × Bool
        → PeerConfig Rest × Option (PeerConfig Rest)
    unfolding store
    with_secrets file config password (options, changed) =
        rewritten store (record config { password = password; options = options }) changed
          (some file)

    abbrev pub loaded : Styles → PeerConfig Rest → PeerConfig Rest × Option (PeerConfig Rest)
    unfolding opened
    loaded defaults file =
        let config : PeerConfig Rest = record file { styles = deserialized defaults file.styles } in
        let password = decrypt_vec_or_original c config.password version_00 in
        with_secrets file config password.plain
          (open_options secret_options config.options password.store)

    -- A file that is missing or cannot be read gives the default. `defaults` are the user's.
    unfoldable pub load :
        (defaults : Styles)
        → (default : PeerConfig Rest) → Option (PeerConfig Rest)
        → PeerConfig Rest × Option (PeerConfig Rest)
    unfolding opened
    load defaults default none = (default, none)
    load defaults default (some file) = loaded defaults file
