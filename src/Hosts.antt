-- ===== src/Hosts.antt =====
-- The texts of servers and versions: `check_port` and `increase_port` of
-- libs/hbb_common/src/socket_client.rs, and the version functions of libs/hbb_common/src/lib.rs.
-- `is_ipv6_str` is a regular expression; it, `parse` and `to_string` of std are parameters. Ports,
-- offsets and the parts of versions are not negative, and sums are below the limits of their integers.
mod Tests
use pc_trade.Prelude.{
  ℕ, zero, suc, ◌+◌, ◌-◌, ◌*◌, List, [], ◌∷◌, ◌++◌, Option, none, some, Bool, true, false, not,
  ◌==◌, ◌&&◌, ◌||◌, ltb, if◌then◌else◌, length, take, drop,
}
use pc_trade.Fuse.Path.{prepend, split_on}

pub record Texts : Type 0 where
  pub is_ipv6_str : List ℕ → Bool
  pub parse : List ℕ → Option ℕ
  pub to_string : ℕ → List ℕ

abbrev pub begins : ℕ → List ℕ → Bool
begins c [] = false
begins c (x ∷ xs) = x == c

abbrev pub contains : ℕ → List ℕ → Bool
contains c [] = false
contains c (x ∷ xs) = x == c || contains c xs

abbrev pub or_zero : Option ℕ → ℕ
or_zero none = 0
or_zero (some n) = n

module _ (t : Texts) where
  unfoldable pub check_port : (host : List ℕ) → (port : ℕ) → List ℕ
  check_port host port =
      if t.is_ipv6_str host
      then (if begins b'[' host then host else (b'[' ∷ host) ++ (b']' ∷ b':' ∷ t.to_string port))
      else if contains b':' host
      then host
      else host ++ (b':' ∷ t.to_string port)

  -- The pieces between "]:".
  abbrev pub split_bracket : List ℕ → List (List ℕ)
  split_bracket [] = [] ∷ []
  split_bracket (x ∷ []) = (x ∷ []) ∷ []
  split_bracket (x ∷ y ∷ rest) =
      let after = split_bracket rest in
      let next = split_bracket (y ∷ rest) in
      if x == b']' && y == b':' then [] ∷ after else prepend x next

  -- The port of a host in two parts is increased, if it is a positive number.
  abbrev pub increased : (host end : List ℕ) → (offset : ℕ) → List (List ℕ) → List ℕ
  increased host end offset (name ∷ port ∷ []) =
      let n = or_zero (t.parse port) in
      if ltb 0 n then name ++ end ++ t.to_string (n + offset) else host
  increased host end offset _ = host

  unfoldable pub increase_port : (host : List ℕ) → (offset : ℕ) → List ℕ
  unfolding split_on
  increase_port host offset =
      if t.is_ipv6_str host
      then (if begins b'[' host
          then increased host (b']' ∷ b':' ∷ []) offset (split_bracket host)
          else host)
      else if contains b':' host
      then increased host (b':' ∷ []) offset (split_on b':' host)
      else host

  -- The number of the parts so far and the last part.
  abbrev pub number_parts : ℕ × ℕ → List (List ℕ) → ℕ × ℕ
  number_parts x [] = x
  number_parts (n, last) (p ∷ ps) =
      let part = or_zero (t.parse p) in number_parts (n * 1000 + part, part) ps

  abbrev pub patch_of : List (List ℕ) → ℕ
  patch_of [] = 0
  patch_of (p ∷ ps) = or_zero (t.parse p)

  -- The last part counts ten times, and what follows the first dash is added.
  abbrev pub version_as : List (List ℕ) → ℕ
  version_as [] = 0
  version_as (v ∷ rest) =
      let (n, last) = number_parts (0, 0) (split_on b'.' v) in n - last + last * 10 + patch_of rest

  unfoldable pub get_version_number : List ℕ → ℕ
  unfolding split_on
  get_version_number v = version_as (split_on b'-' v)

-- How many characters follow the last of this kind.
abbrev pub after_last : ℕ → List ℕ → Option ℕ
after_last c [] = none
after_last c (x ∷ xs) = elim (after_last c xs) [
  | some k ↦ some k
  | none ↦ if x == c then some (length xs) else none
]

abbrev pub version_in : (parse : List ℕ → Option ℕ) → List ℕ → Option ℕ → Option ℕ → List ℕ
version_in parse url none b = []
version_in parse url (some a) none = []
version_in parse url (some a) (some b) =
    let tail = drop (length url - a) url in
    if ltb b a
    then elim (parse (drop (length url - b) url)) [ some _ ↦ tail | none ↦ take (a - b - 1) tail ]
    else tail

-- The version is what follows the last dash of a name of a file, without its ending.
unfoldable pub get_version_from_url : (parse : List ℕ → Option ℕ) → List ℕ → List ℕ
get_version_from_url parse url = version_in parse url (after_last b'-' url) (after_last b'.' url)
