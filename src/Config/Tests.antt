-- ===== src/Config/Tests.antt =====
-- Options of libs/hbb_common/src/config.rs at work.
use pc_trade.Prelude.{ℕ, ◌≡◌, ◌≢◌, refl, List, [], ◌∷◌, true, false}
use pc_trade.Fuse.Path.{name_eq, name_eq_iff}
use pc_trade.PasswordSecurity.{codes}
use pc_trade.Config.Options.{Sources, option2bool, get_option, set_option, get_bool_option}
use pc_trade.Config.Settings.{Settings, update_latency}
use pc_trade.Config.Latency.{Told, update_latency_lem}
use pc_trade.Config.Latencies.{AreDistinct}
use pc_trade.Config.Stored.{Stores, set_option_lem}

abbrev sources : Sources
sources = record {
  overwrite = (codes "theme", codes "dark") ∷ [];
  options = (codes "enable-audio", codes "N") ∷ [];
  defaults = (codes "enable-audio", codes "Y") ∷ [];
}

set_option_lem_example :
    Stores sources (codes "enable-audio") [] (set_option sources (codes "enable-audio") [])
set_option_lem_example = set_option_lem sources (codes "enable-audio") []

-- An option that is set to its default keeps what was stored; to remove it gives the default.
kept :
    (get_option (set_option sources (codes "enable-audio") (codes "Y")) (codes "enable-audio")
      ≡ codes "N")
    × (get_option (set_option sources (codes "enable-audio") []) (codes "enable-audio") ≡ codes "Y")
    × (get_bool_option sources (codes "enable-audio") ≡ false)
    × (option2bool (codes "allow-x") [] ≡ false)
unfolding get_option set_option get_bool_option option2bool
kept = (refl, refl, refl, refl)

abbrev settings : Settings
settings = record {
  id = codes "1";
  key_confirmed = true;
  keys_confirmed = [];
  rendezvous_server = codes "a";
  nat_type = 0;
  serial = 0;
  unlock_pin = [];
  online = (codes "a", 30) ∷ (codes "c", 0) ∷ [];
}

online-AreDistinct : AreDistinct settings.online
online-AreDistinct = ((differ (codes "c") (codes "a") refl, tt), (tt, tt))
  where
    differ : (a b : List ℕ) → name_eq a b ≡ false → a ≢ b
    differ a b e same = let equal = (name_eq_iff a b).1 same in cc

update_latency_lem_example : Told settings (codes "b") 20 (update_latency settings (codes "b") 20).1
update_latency_lem_example = update_latency_lem settings (codes "b") 20 online-AreDistinct

moved : (update_latency settings (codes "b") 20).1.rendezvous_server ≡ codes "b"
unfolding update_latency
moved = refl
