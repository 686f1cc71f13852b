-- ===== src/Hosts/Tests.antt =====
-- Texts of servers and versions.
use pc_trade.Prelude.{
  ℕ, ◌+◌, ◌-◌, ◌≡◌, refl, List, [], ◌∷◌, Option, none, some, ltb, ◌&&◌, if◌then◌else◌,
}
use pc_trade.PasswordSecurity.{codes}
use pc_trade.Fuse.Path.{name_eq}
use pc_trade.Hosts.{Texts, check_port, increase_port, get_version_number, get_version_from_url}

-- Numbers of one digit and "10".
abbrev digits : List ℕ → Option ℕ
digits (d ∷ []) = if ltb 47 d && ltb d 58 then some (d - 48) else none
digits text = if name_eq text (codes "10") then some 10 else none

abbrev texts : Texts
texts = record {
  is_ipv6_str = λ host. name_eq host (codes "1::2");
  parse = digits;
  to_string = λ n. (48 + n) ∷ [];
}

hosts :
    (check_port texts (codes "host") 7 ≡ codes "host:7")
    × (check_port texts (codes "host:1") 7 ≡ codes "host:1")
    × (check_port texts (codes "1::2") 7 ≡ codes "[1::2]:7")
    × (increase_port texts (codes "host:1") 2 ≡ codes "host:3")
unfolding check_port increase_port
hosts = (refl, refl, refl, refl)

-- As the comments in the source have it.
versions :
    (get_version_number texts (codes "1.1.10") ≡ 1001100)
    × (get_version_number texts (codes "1.2.3") ≡ 1002030)
    × (get_version_number texts (codes "1.1.10-1") ≡ 1001101)
    × (get_version_from_url digits (codes "x/a-1.2.exe") ≡ codes "1.2")
unfolding get_version_number get_version_from_url
versions = (refl, refl, refl, refl)
