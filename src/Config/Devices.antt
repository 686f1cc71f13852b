-- ===== src/Config/Devices.antt =====
-- The trusted devices of libs/hbb_common/src/config.rs. Their text (JSON, sealed) and the clock are
-- parameters; `stored` is the text in the file, `cached` the list in memory if it was read. Times are
-- milliseconds, far below the limits of an i64.
use pc_trade.Prelude.{
  ℕ, ◌+◌, ◌*◌, ◌++◌, List, [], ◌∷◌, Option, none, some, Bool, true, false, not, ◌==◌, ◌||◌, ltb,
  if◌then◌else◌, length,
}
use pc_trade.Fuse.Path.{name_eq}

pub record TrustedDevice : Type 0 where
  pub hwid : List ℕ
  pub time : ℕ
  pub id : List ℕ
  pub name : List ℕ
  pub platform : List ℕ

-- `to_json` and `from_json` are serde's; `seal` is `encrypt_str_or_original` and `unseal` is
-- `decrypt_str_or_original`, with whether it succeeded and whether the text is to be stored again.
pub record Text : Type 0 where
  pub to_json : List TrustedDevice → List ℕ
  pub from_json : List ℕ → List TrustedDevice
  pub seal : List ℕ → List ℕ
  pub unseal : List ℕ → List ℕ × Bool × Bool

pub record Devices : Type 0 where
  pub stored : List ℕ
  pub cached : Option (List TrustedDevice)

-- 90 days in milliseconds
abbrev pub days_90 : ℕ
days_90 = 90 * 24 * 60 * 60 * 1000

unfoldable pub outdate : (now : ℕ) → TrustedDevice → Bool
outdate now d = ltb (d.time + days_90) now

unfoldable pub retain_fresh : (now : ℕ) → List TrustedDevice → List TrustedDevice
unfolding outdate
retain_fresh now [] = []
retain_fresh now (d ∷ ds) =
    let rest = retain_fresh now ds in if outdate now d then rest else d ∷ rest

abbrev pub is_among : List (List ℕ) → List ℕ → Bool
is_among [] hwid = false
is_among (h ∷ hs) hwid = name_eq h hwid || is_among hs hwid

unfoldable pub without : List (List ℕ) → List TrustedDevice → List TrustedDevice
without hwids [] = []
without hwids (d ∷ ds) =
    let rest = without hwids ds in if is_among hwids d.hwid then rest else d ∷ rest

module _ (text : Text) (now : ℕ) where
  -- A text of more than 1 MiB is not stored, and nothing changes.
  unfoldable pub set_trusted_devices : Devices → List TrustedDevice → Devices
  unfolding retain_fresh
  set_trusted_devices s devices =
      let fresh = retain_fresh now devices in
      let json = text.to_json fresh in
      if ltb (1024 * 1024) (length json)
      then s
      else record { stored = text.seal json; cached = some fresh }

  -- The list that was unsealed and read, and the state after it.
  abbrev pub read_as : Devices → List ℕ × Bool × Bool → List TrustedDevice × Devices
  read_as s (json, false, store) = ([], s)
  read_as s (json, true, store) =
      let all = text.from_json json in
      let devices = retain_fresh now all in
      let kept = set_trusted_devices s devices in
      (
        devices,
        if store || not (length devices == length all)
            then record kept { cached = some devices }
            else record s { cached = some devices },
      )

  abbrev pub get_as : Devices → Option (List TrustedDevice) → List TrustedDevice × Devices
  get_as s (some devices) = (devices, s)
  get_as s none = read_as s (text.unseal s.stored)

  unfoldable pub get_trusted_devices : Devices → List TrustedDevice × Devices
  unfolding set_trusted_devices
  get_trusted_devices s = get_as s s.cached

  unfoldable pub add_trusted_device : Devices → TrustedDevice → Devices
  unfolding get_trusted_devices set_trusted_devices without
  add_trusted_device s device =
      let (devices, read) = get_trusted_devices s in
      set_trusted_devices read (without (device.hwid ∷ []) devices ++ (device ∷ []))

  unfoldable pub remove_trusted_devices : Devices → List (List ℕ) → Devices
  unfolding get_trusted_devices set_trusted_devices without
  remove_trusted_devices s hwids =
      let (devices, read) = get_trusted_devices s in
      set_trusted_devices read (without hwids devices)

  unfoldable pub clear_trusted_devices : Devices → Devices
  unfolding set_trusted_devices
  clear_trusted_devices s = set_trusted_devices s []
