-- ===== src/Config/Consistent.antt =====
-- What the answers of libs/hbb_common/src/config.rs on servers, proxies, passwords and keys have to
-- do with each other.
use mathlib.Core.Path.{sym}
use pc_trade.Prelude.{
  ℕ, ◌≡◌, ◌≢◌, ◌⊎◌, inl, inr, refl, ap, ap₂, ◌∙◌, List, [], ◌∷◌, ◌++◌, Option, none, some, Bool,
  true, false, ◌==◌, ◌||◌, Bool-cases, if◌then◌else◌,
}
use pc_trade.Fuse.Path.{name_eq, name_eq_iff, split_on}
use pc_trade.Hosts.{contains}
use pc_trade.PasswordSecurity.{Crypto, codes}
use pc_trade.PasswordSecurity.Sealing.{Opens}
use pc_trade.Config.Options.{Sources, get, get_option, is_empty, is_present, is_value}
use pc_trade.Config.Various.{Config2, Socks5Server}
use pc_trade.Config.Main.{Config, Attempts, store, load, sealed}
use pc_trade.Config.Main as Main
use pc_trade.Config.Secrets.{IsSealable}
use pc_trade.Config.Reload.{load-store}
use pc_trade.Config.Devices.{Text}
use pc_trade.Config.Servers.{
  ServerNames, get_rendezvous_server, get_rendezvous_servers, with_port, next_or_empty, only_or,
  or_text, get_socks, is_proxy, get_network_type, has_socks, is_indirect, or_socks, with_account,
  get_socks_from_custom_client_advanced_settings, direct, proxy_socks, listed, or_built_in,
  with_dot, is_above, built_serial,
}
use pc_trade.Config.Identity.{
  Identity, KeyPair, set_permanent_password, get_permanent_password, get_key_pair, write_key_pair,
}

has_socks-with_account :
    (url username password : Option (List ℕ))
    → has_socks (with_account url username password) ≡ is_present url
has_socks-with_account none username password = refl
has_socks-with_account (some url) username password = refl

has_socks-or_socks :
    (a b : Option Socks5Server) → has_socks (or_socks a b) ≡ (has_socks a || has_socks b)
has_socks-or_socks none b = refl
has_socks-or_socks (some a) b = refl

-- Whether the network is said to go through a proxy is whether there is a proxy to take.
pub is_proxy-get_socks :
    (s : Sources) (config : Config2) → is_proxy s config ≡ has_socks (get_socks s config)
unfolding is_proxy get_network_type get_socks get_socks_from_custom_client_advanced_settings
is_proxy-get_socks s config =
    let name = codes "proxy-url" in
    let first = get_socks_from_custom_client_advanced_settings s.overwrite in
    let third = get_socks_from_custom_client_advanced_settings s.defaults in
    let has_first : has_socks first ≡ is_present (get s.overwrite name) =
      has_socks-with_account (get s.overwrite name) (get s.overwrite (codes "proxy-username"))
        (get s.overwrite (codes "proxy-password")) in
    let has_third : has_socks third ≡ is_present (get s.defaults name) =
      has_socks-with_account (get s.defaults name) (get s.defaults (codes "proxy-username"))
        (get s.defaults (codes "proxy-password")) in
    branches (is_present (get s.overwrite name)) (is_present (get s.defaults name))
      (has_socks config.socks)
    ∙ sym (
        has_socks-or_socks first (or_socks config.socks third)
        ∙ ap₂ (λ a b. a || b) has_first
            (has_socks-or_socks config.socks third
              ∙ ap (λ b. has_socks config.socks || b) has_third))
  where
    branches :
        (first third stored : Bool)
        → is_indirect (
            if first
            then proxy_socks
            else if stored
            then proxy_socks
            else if third
            then proxy_socks
            else direct)
          ≡ (first || (stored || third))
    branches true third stored = refl
    branches false third true = refl
    branches false true false = refl
    branches false false false = refl

contains-append_port : (server : List ℕ) → contains b':' (server ++ codes ":21116") ≡ true
contains-append_port [] = refl
contains-append_port (c ∷ cs) = rw (contains-append_port cs) (or_true (c == b':'))
  where
    or_true : (b : Bool) → (b || true) ≡ true
    or_true true = refl
    or_true false = refl

with_port-contains : (server : List ℕ) → contains b':' (with_port server) ≡ true
with_port-contains server = elim (Bool-cases (contains b':' server)) [
  | inl e ↦ rw (e, e) refl
  | inr e ↦ rw e (contains-append_port server)
]

present_or_built_in : (ss : List (List ℕ)) → or_built_in ss ≢ []
present_or_built_in [] e = cc
present_or_built_in (s ∷ ss) e = cc

listed_present : (obsolete : Bool) (pieces : List (List ℕ)) → listed obsolete pieces ≢ []
listed_present false pieces e = cc
listed_present true pieces e = present_or_built_in (with_dot pieces) e

only_or_present :
    (exe custom prod : List ℕ) (others : List (List ℕ))
    → others ≢ []
    → only_or exe custom prod others ≢ []
only_or_present (x ∷ exe) custom prod others ne e = cc
only_or_present [] (x ∷ custom) prod others ne e = cc
only_or_present [] [] (x ∷ prod) others ne e = cc
only_or_present [] [] [] others ne e = ne e

-- The server that is taken from five places, and the list
taken :
    (exe custom prod stored : List ℕ) (others : List (List ℕ))
    → let first = next_or_empty (only_or exe custom prod others) in
      let server = or_text exe (or_text custom (or_text prod (or_text stored first))) in
      (server ≡ first)
      ⊎ ((exe ≡ []) × (custom ≡ []) × (prod ≡ []) × (stored ≢ []) × (server ≡ stored))
taken (x ∷ exe) custom prod stored others = inl refl
taken [] (x ∷ custom) prod stored others = inl refl
taken [] [] (x ∷ prod) stored others = inl refl
taken [] [] [] [] others = inl refl
taken [] [] [] (x ∷ stored) others = inr (refl, refl, refl, (λ e. cc), refl)

-- The text of the server has a colon, and the list of servers is not empty. The server is the first
-- of the list, or a server is stored, none is named by the program, the option or the build, and it is
-- the stored one; in both cases with ":21116" after it where its text has no colon.
pub get_rendezvous_server_lem :
    (s : ServerNames)
    → let server = get_rendezvous_server s in
      let stored = s.config2.rendezvous_server in
      (contains b':' server ≡ true)
      × (get_rendezvous_servers s ≢ [])
      × ((server ≡ with_port (next_or_empty (get_rendezvous_servers s)))
          ⊎ ((s.exe_rendezvous_server ≡ [])
              × (get_option s.sources (codes "custom-rendezvous-server") ≡ [])
              × (s.prod_rendezvous_server ≡ [])
              × (stored ≢ [])
              × (server ≡ with_port stored)))
unfolding get_rendezvous_server get_rendezvous_servers
get_rendezvous_server_lem s =
    let custom = get_option s.sources (codes "custom-rendezvous-server") in
    let pieces = split_on b',' (get_option s.sources (codes "rendezvous-servers")) in
    let others = listed (is_above s.config2.serial built_serial) pieces in
    let present = listed_present (is_above s.config2.serial built_serial) pieces in
    (
      with_port-contains (
          or_text s.exe_rendezvous_server (
            or_text custom (
              or_text s.prod_rendezvous_server
                (or_text s.config2.rendezvous_server (next_or_empty (get_rendezvous_servers s)))))),
      only_or_present s.exe_rendezvous_server custom s.prod_rendezvous_server others present,
      elim (taken s.exe_rendezvous_server custom s.prod_rendezvous_server
          s.config2.rendezvous_server others) [
            | inl e ↦ inl (ap with_port e)
            | inr (a, b, d, ne, e) ↦ inr (a, b, d, ne, ap with_port e)
          ],
    )

-- A password is set: if it is the one of the hard settings, nothing changes; otherwise, if it is not
-- empty, it is the permanent password from then on.
pub set_permanent_password_lem :
    (c : Crypto) (text : Text) (now : ℕ) (s : Identity) (password : List ℕ)
    → is_empty password ≡ false
    → let after = set_permanent_password c text now s password in
      ((is_value (get s.hard (codes "password")) password ≡ true) × (after ≡ s))
      ⊎ (get_permanent_password after ≡ password)
unfolding set_permanent_password get_permanent_password
set_permanent_password_lem c text now s password full =
    elim (Bool-cases (is_value (get s.hard (codes "password")) password)) [
      | inl hard ↦ inl (hard, rw hard refl)
      | inr free ↦ elim (Bool-cases (name_eq password s.config.password)) [
        | inl same ↦
            let equal = (name_eq_iff password s.config.password).0 same in
            let stored : is_empty s.config.password ≡ false = ap is_empty (sym equal) ∙ full in
            inr (rw (free, same, stored) (sym equal))
        | inr other ↦ inr (rw (free, other, full) refl)
      ]
    ]

-- What starting again makes of the settings
abbrev pub restarted : Crypto → Identity → Attempts → Identity
restarted c s attempts =
    let (config, file) = load c s.file attempts in
    record s { config = config; file = file; key_pair = none }

module _ (c : Crypto) (opens : Opens c) where
  -- New keys that are not empty, once they are written, are the keys after the program is started
  -- again, whatever other keys could be generated then, and are not written again. (Where a sealed
  -- text opens again, the id is not empty, and the id and the password are at most 128 characters of
  -- valid UTF-8 that are not the code of a sealed text.)
  pub keys_kept :
      (s : Identity) (attempts : Attempts) (fresh other : KeyPair)
      → is_empty fresh.0 ≡ false
      → is_empty s.config.id ≡ false
      → IsSealable c s.config.id
      → IsSealable c s.config.password
      → let again = restarted c (write_key_pair c s fresh) attempts in
        (get_key_pair again other).0 ≡ (fresh, false)
  unfolding get_key_pair write_key_pair Main.store
  keys_kept s attempts fresh other full named id password =
      rw
        (load-store c opens (record s.config { key_pair = fresh }) attempts named id password, full)
        refl
