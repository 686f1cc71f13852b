-- ===== src/Config/Various.antt =====
-- `Config2` of libs/hbb_common/src/config.rs, which holds the settings that change more often, with
-- the secrets in them: how it is read from its file and written to it.
use pc_trade.Prelude.{ℕ, List, [], Option, none, some, Bool, false, ◌||◌}
use pc_trade.PasswordSecurity.{Crypto}
use pc_trade.Config.Main.{opened, sealed, load_path, rewritten}
use pc_trade.Config.Options.{Texts}

pub record Socks5Server : Type 0 where
  pub proxy : List ℕ
  pub username : List ℕ
  pub password : List ℕ

-- An i32 by its 32-bit pattern
pub record Config2 : Type 0 where
  pub rendezvous_server : List ℕ
  pub nat_type : ℕ
  pub serial : ℕ
  pub unlock_pin : List ℕ
  pub trusted_devices : List ℕ
  pub socks : Option Socks5Server
  pub options : Texts

abbrev pub default_config2 : Config2
default_config2 = record {
  rendezvous_server = [];
  nat_type = 0;
  serial = 0;
  unlock_pin = [];
  trusted_devices = [];
  socks = none;
  options = [];
}

module _ (c : Crypto) where
  abbrev pub seal_socks : Option Socks5Server → Option Socks5Server
  seal_socks none = none
  seal_socks (some socks) = some (record socks { password = sealed c socks.password })

  abbrev pub open_socks : Option Socks5Server → Option Socks5Server × Bool
  open_socks none = (none, false)
  open_socks (some socks) =
      let password = opened c socks.password in
      (some (record socks { password = password.plain }), password.store)

  unfoldable pub store : Config2 → Config2
  unfolding sealed
  store config = record config {
    socks = seal_socks config.socks;
    unlock_pin = sealed c config.unlock_pin;
  }

  unfoldable pub load : Option Config2 → Config2 × Option Config2
  unfolding opened store
  load file =
      let config = load_path default_config2 file in
      let (socks, changed) = open_socks config.socks in
      let pin = opened c config.unlock_pin in
      rewritten store (record config { socks = socks; unlock_pin = pin.plain })
        (changed || pin.store) file
