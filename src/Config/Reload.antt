-- ===== src/Config/Reload.antt =====
-- What is read again of the settings that libs/hbb_common/src/config.rs writes, and what stands in
-- the files.
use pc_trade.Prelude.{ℕ, ◌≡◌, refl, List, [], Option, none, some, false}
use pc_trade.PasswordSecurity.{Crypto}
use pc_trade.PasswordSecurity.Sealing.{Opens}
use pc_trade.Config.Main.{Config, Attempts, opened, sealed, load_id, rewritten}
use pc_trade.Config.Main as Main
use pc_trade.Config.Various as Various
use pc_trade.Config.Various.{Config2, Socks5Server, seal_socks, open_socks}
use pc_trade.Config.Secrets.{IsSealable, IsHidden, opened-sealed, sealed-IsHidden}
use pc_trade.Config.Options.{is_empty}

module _ (c : Crypto) (opens : Opens c) where
  load_id-sealed :
      (config : Config) (id : List ℕ) (attempts : Attempts)
      → is_empty id ≡ false
      → IsSealable c id
      → config.enc_id ≡ sealed c id
      → load_id c config attempts ≡ (record config { id = id }, false)
  unfolding load_id
  load_id-sealed config id attempts present h e = rw (e, opened-sealed c opens id h, present) refl

  -- Settings whose password and id are at most 128 characters of valid UTF-8 each, neither of them
  -- itself the code of a sealed text, and whose id is not empty, are read from the file that was
  -- written for them as they were, but for `enc_id`, which holds the sealed id; no new id is
  -- generated, and the file is not written again. (Where a sealed text opens again.)
  pub load-store :
      (config : Config) (attempts : Attempts)
      → is_empty config.id ≡ false
      → IsSealable c config.id
      → IsSealable c config.password
      → Main.load c (some (Main.store c config)) attempts
        ≡ (record config { enc_id = sealed c config.id }, some (Main.store c config))
  unfolding Main.load Main.store
  load-store config attempts present id password =
      rw
        (
          opened-sealed c opens config.password password,
          load_id-sealed (record config { enc_id = sealed c config.id; id = [] }) config.id attempts
              present id refl,
        )
        refl

  abbrev pub IsSealableSocks : Option Socks5Server → Type 0
  IsSealableSocks none = Unit
  IsSealableSocks (some socks) = IsSealable c socks.password

  open_socks-seal_socks :
      (socks : Option Socks5Server)
      → IsSealableSocks socks
      → open_socks c (seal_socks c socks) ≡ (socks, false)
  open_socks-seal_socks none h = refl
  open_socks-seal_socks (some socks) h = rw (opened-sealed c opens socks.password h) refl

  -- Settings whose secrets, the pin and the password of the proxy where there is one, are at most 128
  -- characters of valid UTF-8 each and none the code of a sealed text, are read from the file that
  -- was written for them exactly as they were, and the file is not written again.
  pub load-store_config2 :
      (config : Config2)
      → IsSealable c config.unlock_pin
      → IsSealableSocks config.socks
      → Various.load c (some (Various.store c config)) ≡ (config, some (Various.store c config))
  unfolding Various.load Various.store
  load-store_config2 config pin socks =
      rw (open_socks-seal_socks config.socks socks, opened-sealed c opens config.unlock_pin pin)
        refl

  abbrev pub IsHiddenSocks : Option Socks5Server → Type 0
  IsHiddenSocks none = Unit
  IsHiddenSocks (some socks) = IsHidden c socks.password

  seal_socks-IsHidden : (socks : Option Socks5Server) → IsHiddenSocks (seal_socks c socks)
  seal_socks-IsHidden none = tt
  seal_socks-IsHidden (some socks) = sealed-IsHidden c opens socks.password

  -- Whatever the settings are, each secret in the files that are written for them is empty or opens
  -- under the key: the password and the id, the pin, and the password of the proxy. The plain id is
  -- not in the file. (Where a sealed text opens again.)
  pub stores-IsHidden :
      (config : Config) (config2 : Config2)
      → let file = Main.store c config in
        let file2 = Various.store c config2 in
        IsHidden c file.password
        × IsHidden c file.enc_id
        × (file.id ≡ [])
        × IsHidden c file2.unlock_pin
        × IsHiddenSocks file2.socks
  unfolding Main.store Various.store
  stores-IsHidden config config2 = (
    sealed-IsHidden c opens config.password,
    sealed-IsHidden c opens config.id,
    refl,
    sealed-IsHidden c opens config2.unlock_pin,
    seal_socks-IsHidden config2.socks,
  )
