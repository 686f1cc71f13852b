-- ===== src/Config/SecretTests.antt =====
-- Settings of libs/hbb_common/src/config.rs with secrets, under a sealing that puts a byte in front.
use pc_trade.Prelude.{
  ℕ, ◌≡◌, ◌⊎◌, inr, refl, List, [], ◌∷◌, Option, none, some, true, false, ◌≢◌, arith, length,
}
use pc_trade.Hosts.{contains}
use pc_trade.PasswordSecurity.{Crypto, codes, version_00, decrypt_vec_or_original}
use pc_trade.PasswordSecurity.{decrypt_str_or_original, encrypt_str_or_original, encrypt}
use pc_trade.PasswordSecurity.Sealing.{Opens}
use pc_trade.Config.Options.{Sources, get, get_option}
use pc_trade.Config.Main.{Config, load, store, opened, sealed}
use pc_trade.Config.Various.{Config2, Socks5Server, default_config2}
use pc_trade.Config.Various as Various
use pc_trade.Config.Peer.{Styles, PeerConfig, secret_options}
use pc_trade.Config.Peer as Peer
use pc_trade.Config.Secrets.{IsSealable, IsHidden}
use pc_trade.Config.Reload.{load-store, stores-IsHidden, IsHiddenSocks}
use pc_trade.Config.PeerReload.{load-store_peer, AreSealable}
use pc_trade.Fuse.Path.{split_on}
use pc_trade.Config.PeerFiles.{
  Names, path, encoded, last_split, with_extension, stem_of, in_peers, beside_peers, unnamed,
}
use pc_trade.Config.PeerNames.{Decodes, IsListedAs, listed_id-path}
use pc_trade.Config.Identity.{Identity, write_key_pair, get_key_pair}
use pc_trade.Config.Servers.{
  ServerNames, with_port, next_or_empty, get_rendezvous_server, get_rendezvous_servers,
}
use pc_trade.Config.Consistent.{get_rendezvous_server_lem, keys_kept, restarted}

abbrev tail_of : List ℕ → Option (List ℕ)
tail_of [] = none
tail_of (x ∷ xs) = some xs

abbrev crypto : Crypto
crypto = record {
  uuid = 5 ∷ [];
  seal = λ bytes key. 1 ∷ bytes;
  unseal = λ bytes key. tail_of bytes;
  encode = λ bytes. 2 ∷ bytes;
  decode = tail_of;
  lossy = λ bytes. bytes;
  char_count = λ bytes. length bytes;
}

crypto-Opens : Opens crypto
crypto-Opens = record {
  unseal = λ bytes key. refl;
  decode = λ bytes. refl;
  present = λ bytes key. omega arith;
}

abbrev config : Config
config = record {
  id = codes "123";
  enc_id = [];
  password = codes "s3";
  salt = [];
  key_pair = ([], []);
  key_confirmed = false;
  keys_confirmed = [];
}

id-IsSealable : IsSealable crypto (codes "123")
unfolding opened decrypt_str_or_original
id-IsSealable = record { fresh = refl; short = omega arith; valid = refl }

password-IsSealable : IsSealable crypto (codes "s3")
unfolding opened decrypt_str_or_original
password-IsSealable = record { fresh = refl; short = omega arith; valid = refl }

-- The password of this file is sealed.
stored : (store crypto config).password ≡ 48 ∷ 48 ∷ 2 ∷ 1 ∷ codes "s3"
unfolding store sealed opened encrypt_str_or_original decrypt_str_or_original encrypt
stored = refl

load-store_example :
    load crypto (some (store crypto config)) (none, none, none)
    ≡ (record config { enc_id = sealed crypto (codes "123") }, some (store crypto config))
load-store_example =
    load-store crypto crypto-Opens config (none, none, none) refl id-IsSealable password-IsSealable

abbrev proxy : Socks5Server
proxy = record { proxy = codes "p:1"; username = codes "u"; password = codes "s3" }

abbrev config2 : Config2
config2 = record default_config2 { socks = some proxy }

stores-IsHidden_example :
    IsHidden crypto (store crypto config).password
    × IsHidden crypto (store crypto config).enc_id
    × ((store crypto config).id ≡ [])
    × IsHidden crypto (Various.store crypto config2).unlock_pin
    × IsHiddenSocks crypto crypto-Opens (Various.store crypto config2).socks
stores-IsHidden_example = stores-IsHidden crypto crypto-Opens config config2

abbrev user_defaults : Styles
user_defaults = record {
  view_style = codes "original";
  scroll_style = codes "scrollauto";
  image_quality = codes "balanced";
  custom_image_quality = 50 ∷ [];
  reverse_mouse_wheel = [];
  displays_as_individual_windows = codes "N";
  use_all_my_displays_for_the_remote_session = codes "N";
}

abbrev peer : PeerConfig ℕ
peer = record {
  password = 7 ∷ 8 ∷ [];
  options = (codes "os-password", codes "s3") ∷ (codes "zoom", codes "2") ∷ [];
  platform = codes "Linux";
  styles = record user_defaults { view_style = []; custom_image_quality = 5000 ∷ [] };
  rest = 0;
}

peer_unsealed : (decrypt_vec_or_original crypto (7 ∷ 8 ∷ []) version_00).success ≡ false
unfolding decrypt_vec_or_original
peer_unsealed = refl

peer-AreSealable : AreSealable crypto secret_options peer.options
unfolding get
peer-AreSealable = (tt, (tt, (password-IsSealable, tt)))

load-store_peer_example : Peer.load crypto user_defaults peer (some (Peer.store crypto peer)) ≡ (
  record peer { styles = Peer.deserialized user_defaults peer.styles },
  some (Peer.store crypto peer),
)
load-store_peer_example =
    load-store_peer crypto crypto-Opens user_defaults peer peer (omega arith) peer_unsealed
      peer-AreSealable

abbrev sources : Sources
sources = record { overwrite = []; options = []; defaults = (codes "proxy-url", codes "p:1") ∷ [] }

abbrev names : ServerNames
names = record {
  exe_rendezvous_server = [];
  prod_rendezvous_server = [];
  sources = sources;
  config2 = record default_config2 { rendezvous_server = codes "a:5" };
}

stored_server : get_rendezvous_server names ≡ codes "a:5"
unfolding get_rendezvous_server
stored_server = refl

get_rendezvous_server_lem_example :
    (contains b':' (get_rendezvous_server names) ≡ true)
    × (get_rendezvous_servers names ≢ [])
    × ((get_rendezvous_server names ≡ with_port (next_or_empty (get_rendezvous_servers names)))
        ⊎ ((names.exe_rendezvous_server ≡ [])
            × (get_option sources (codes "custom-rendezvous-server") ≡ [])
            × (names.prod_rendezvous_server ≡ [])
            × (codes "a:5" ≢ [])
            × (get_rendezvous_server names ≡ with_port (codes "a:5"))))
get_rendezvous_server_lem_example = get_rendezvous_server_lem names

abbrev identity : Identity
identity = record {
  config = config;
  file = none;
  key_pair = none;
  devices = record { stored = []; cached = none };
  hard = [];
}

keys_kept_example :
    (get_key_pair
      (restarted crypto (write_key_pair crypto identity (1 ∷ [], 2 ∷ [])) (none, none, none))
      (3 ∷ [], 4 ∷ [])).0
    ≡ ((1 ∷ [], 2 ∷ []), false)
keys_kept_example =
    keys_kept crypto crypto-Opens identity (none, none, none) (1 ∷ [], 2 ∷ []) (3 ∷ [], 4 ∷ []) refl
      refl id-IsSealable password-IsSealable

-- An id is coded by a letter in front.
abbrev file_names : Names
file_names = record {
  is_match = contains b':';
  encode = λ id. b'x' ∷ id;
  decode = tail_of;
  lossy = λ id. id;
}

file_names-Decodes : Decodes file_names
file_names-Decodes = record { decode = λ id. refl; present = λ id ne. omega arith }

address : path file_names (codes "1:2") ≡ in_peers [] (codes "base64_x1:2.toml")
unfolding path encoded last_split with_extension stem_of split_on
address = refl

-- The id "." has a file beside the directory, and ".." has none that ends in ".toml".
dots : (path file_names (codes ".") ≡ beside_peers) × (path file_names (codes "..") ≡ unnamed [])
unfolding path encoded last_split with_extension stem_of split_on
dots = (refl, refl)

listed_id-path_example : IsListedAs file_names (codes "1:2") 3
listed_id-path_example =
    listed_id-path file_names (codes "1:2") 3 file_names-Decodes (omega arith)
      (inr (refl, refl, refl))
