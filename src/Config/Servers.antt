-- ===== src/Config/Servers.antt =====
-- Which rendezvous servers libs/hbb_common/src/config.rs names, and through which proxy.
use pc_trade.Prelude.{
  ℕ, ◌^◌, List, [], ◌∷◌, ◌++◌, Option, none, some, Bool, true, false, not, ◌&&◌, ltb, if◌then◌else◌,
}
use pc_trade.Fuse.Path.{split_on}
use pc_trade.Hosts.{contains}
use pc_trade.PasswordSecurity.{codes}
use pc_trade.Config.Options.{Texts, Sources, get, get_option, text_or_empty, is_empty, is_present}
use pc_trade.Config.Various.{Config2, Socks5Server}

-- What the servers are taken from: the name of the program, what was built in, the options, and the
-- stored settings.
pub record ServerNames : Type 0 where
  pub exe_rendezvous_server : List ℕ
  pub prod_rendezvous_server : List ℕ
  pub sources : Sources
  pub config2 : Config2

abbrev pub rendezvous_servers : List (List ℕ)
rendezvous_servers = codes "rs-ny.rustdesk.com" ∷ []

-- `SERIAL`
abbrev pub built_serial : ℕ
built_serial = 3

-- `a > b` of an i32 and a small number
abbrev pub is_above : ℕ → ℕ → Bool
is_above a b = ltb b a && ltb a (2 ^ 31)

unfoldable pub get_serial : Config2 → ℕ
get_serial config = if is_above config.serial built_serial then config.serial else built_serial

abbrev pub or_text : List ℕ → List ℕ → List ℕ
or_text [] b = b
or_text (c ∷ cs) b = c ∷ cs

abbrev pub with_dot : List (List ℕ) → List (List ℕ)
with_dot [] = []
with_dot (x ∷ xs) = let rest = with_dot xs in if contains b'.' x then x ∷ rest else rest

abbrev pub or_built_in : List (List ℕ) → List (List ℕ)
or_built_in [] = rendezvous_servers
or_built_in (s ∷ ss) = s ∷ ss

-- The pieces of the option, where it is newer than what was built in
abbrev pub listed : (obsolete : Bool) → (pieces : List (List ℕ)) → List (List ℕ)
listed false pieces = rendezvous_servers
listed true pieces = or_built_in (with_dot pieces)

-- The first of three names that is not empty is the only server.
abbrev pub only_or : (exe custom prod : List ℕ) → List (List ℕ) → List (List ℕ)
only_or exe custom prod others =
    if not (is_empty exe)
    then exe ∷ []
    else if not (is_empty custom)
    then custom ∷ []
    else if not (is_empty prod)
    then prod ∷ []
    else others

unfoldable pub get_rendezvous_servers : ServerNames → List (List ℕ)
unfolding get_option split_on
get_rendezvous_servers s =
    only_or s.exe_rendezvous_server (get_option s.sources (codes "custom-rendezvous-server"))
      s.prod_rendezvous_server
      (listed (is_above s.config2.serial built_serial)
        (split_on b',' (get_option s.sources (codes "rendezvous-servers"))))

abbrev pub next_or_empty : List (List ℕ) → List ℕ
next_or_empty [] = []
next_or_empty (s ∷ ss) = s

abbrev pub with_port : List ℕ → List ℕ
with_port server = if contains b':' server then server else server ++ codes ":21116"

unfoldable pub get_rendezvous_server : ServerNames → List ℕ
unfolding get_option get_rendezvous_servers
get_rendezvous_server s = with_port (
    or_text s.exe_rendezvous_server (
      or_text (get_option s.sources (codes "custom-rendezvous-server")) (
        or_text s.prod_rendezvous_server
          (or_text s.config2.rendezvous_server (next_or_empty (get_rendezvous_servers s))))))

pub data NetworkType : Type 0 where
  direct proxy_socks : NetworkType

-- The proxy of the custom client, where it names one
abbrev pub with_account :
    (url : Option (List ℕ)) → (username password : Option (List ℕ)) → Option Socks5Server
with_account none username password = none
with_account (some url) username password =
    some
      (record { proxy = url; username = text_or_empty username; password = text_or_empty password })

unfoldable pub get_socks_from_custom_client_advanced_settings : Texts → Option Socks5Server
unfolding get
get_socks_from_custom_client_advanced_settings settings =
    with_account (get settings (codes "proxy-url")) (get settings (codes "proxy-username"))
      (get settings (codes "proxy-password"))

abbrev pub or_socks : Option Socks5Server → Option Socks5Server → Option Socks5Server
or_socks none b = b
or_socks (some a) b = some a

unfoldable pub get_socks : Sources → Config2 → Option Socks5Server
unfolding get_socks_from_custom_client_advanced_settings
get_socks s config =
    or_socks (get_socks_from_custom_client_advanced_settings s.overwrite)
      (or_socks config.socks (get_socks_from_custom_client_advanced_settings s.defaults))

abbrev pub has_socks : Option Socks5Server → Bool
has_socks none = false
has_socks (some s) = true

unfoldable pub get_network_type : Sources → Config2 → NetworkType
unfolding get
get_network_type s config =
    if is_present (get s.overwrite (codes "proxy-url"))
    then proxy_socks
    else if has_socks config.socks
    then proxy_socks
    else if is_present (get s.defaults (codes "proxy-url"))
    then proxy_socks
    else direct

abbrev pub is_indirect : NetworkType → Bool
is_indirect direct = false
is_indirect proxy_socks = true

unfoldable pub is_proxy : Sources → Config2 → Bool
unfolding get_network_type
is_proxy s config = is_indirect (get_network_type s config)
