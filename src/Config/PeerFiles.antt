-- ===== src/Config/PeerFiles.antt =====
-- The names of the files of peers in libs/hbb_common/src/config.rs, and the list of peers that is
-- made from the directory. The regular expression, base64 and `from_utf8_lossy` are the parameter
-- `Names`. A path is what follows the directory of peers.
use pc_trade.Prelude.{
  ℕ, List, [], ◌∷◌, ◌++◌, Option, none, some, Bool, true, not, ◌==◌, ◌&&◌, ltb, if◌then◌else◌,
  length, drop,
}
use pc_trade.Fuse.Path.{name_eq, dot_dot, named, split_on}
use pc_trade.PasswordSecurity.{codes}
use pc_trade.Config.Options.{starts_with, is_empty, is_among, text_or_empty}
use pc_trade.Config.Peer.{PeerConfig}

-- `is_match` asks for one of the characters < > : / \ | ? * in an id.
pub record Names : Type 0 where
  pub is_match : List ℕ → Bool
  pub encode : List ℕ → List ℕ
  pub decode : List ℕ → Option (List ℕ)
  pub lossy : List ℕ → List ℕ

abbrev pub split_more : ℕ → ℕ → List ℕ → Option (List ℕ × List ℕ) → Option (List ℕ × List ℕ)
split_more c x xs none = if x == c then some ([], xs) else none
split_more c x xs (some (before, after)) = some (x ∷ before, after)

-- What is before and after the last of a character
unfoldable pub last_split : ℕ → List ℕ → Option (List ℕ × List ℕ)
last_split c [] = none
last_split c (x ∷ xs) = split_more c x xs (last_split c xs)

abbrev pub stem_as : List ℕ → Option (List ℕ × List ℕ) → List ℕ × Option (List ℕ)
stem_as name none = (name, none)
stem_as name (some ([], after)) = (name, none)
stem_as name (some (x ∷ before, after)) = (x ∷ before, some after)

-- `file_stem` and `extension` of std
unfoldable pub stem_of : List ℕ → List ℕ × Option (List ℕ)
unfolding last_split
stem_of name = stem_as name (last_split b'.' name)

abbrev pub toml_after : Option (List ℕ) → List ℕ
toml_after none = codes "toml"
toml_after (some ext) = ext ++ codes ".toml"

unfoldable pub with_extension : List ℕ → List ℕ
unfolding stem_of
with_extension name = let (stem, ext) = stem_of name in stem ++ (b'.' ∷ toml_after ext)

-- Where a path ends: in a directory at or below the one of peers; beside that one, as "peers.toml",
-- where no component follows it; or in "..", which has no name to add an extension to.
pub data PeerPath : Type 0 where
  in_peers : (dirs : List (List ℕ)) → (name : List ℕ) → PeerPath
  beside_peers : PeerPath
  unnamed : (dirs : List (List ℕ)) → PeerPath

abbrev pub placed_at : List (List ℕ) → List ℕ → PeerPath
placed_at dirs name =
    if name_eq name dot_dot then unnamed dirs else in_peers dirs (with_extension name)

abbrev pub placed_in : List (List ℕ) → List ℕ → List (List ℕ) → PeerPath
placed_in dirs name [] = placed_at dirs name
placed_in dirs name (next ∷ rest) = placed_in (dirs ++ (name ∷ [])) next rest

abbrev pub placed : List (List ℕ) → PeerPath
placed [] = beside_peers
placed (name ∷ rest) = placed_in [] name rest

-- A file in the directory that is listed
pub record Entry : Type 0 where
  pub name : List ℕ
  pub is_file : Bool
  pub modified : ℕ

module _ (n : Names) where
  unfoldable pub encoded : List ℕ → List ℕ
  encoded id = if n.is_match id then codes "base64_" ++ n.encode id else id

  -- `PathBuf` leaves out empty components and ".".
  unfoldable pub path : List ℕ → PeerPath
  unfolding encoded split_on with_extension
  path id = placed (named (split_on b'/' (encoded id)))

  abbrev pub decoded : List ℕ → List ℕ
  decoded stem =
      if starts_with stem (codes "base64_") && not (length stem == 7)
      then n.lossy (text_or_empty (n.decode (drop 7 stem)))
      else stem

  abbrev pub id_as : List ℕ × Option (List ℕ) → Option (List ℕ)
  id_as (stem, none) = none
  id_as (stem, some ext) = if name_eq ext (codes "toml") then some (decoded stem) else none

  -- The id that a file stands for
  unfoldable pub listed_id : Entry → Option (List ℕ)
  unfolding stem_of
  listed_id e = if e.is_file then id_as (stem_of e.name) else none

  abbrev pub is_asked : Option (List (List ℕ)) → List ℕ → Bool
  is_asked none id = true
  is_asked (some filters) id = is_among filters id

  module _ {Rest : Type 0} (load : List ℕ → PeerConfig Rest) where
    abbrev pub Peer : Type 0
    Peer = List ℕ × ℕ × PeerConfig Rest

    -- A peer whose platform is not known is left out, and its file is removed.
    abbrev pub with_peer :
        Option (List (List ℕ))
        → Entry
        → Option (List ℕ)
        → List Peer × List (List ℕ)
        → List Peer × List (List ℕ)
    with_peer filters e none (peers, removed) = (peers, removed)
    with_peer filters e (some id) (peers, removed) =
        let config = load id in
        if not (is_asked filters id)
        then (peers, removed)
        else if is_empty config.platform
        then (peers, e.name ∷ removed)
        else ((id, e.modified, config) ∷ peers, removed)

    unfoldable pub all_peers : Option (List (List ℕ)) → List Entry → List Peer × List (List ℕ)
    unfolding listed_id
    all_peers filters [] = ([], [])
    all_peers filters (e ∷ entries) = with_peer filters e (listed_id e) (all_peers filters entries)

    abbrev pub put_newest : Peer → List Peer → List Peer
    put_newest p [] = p ∷ []
    put_newest p (q ∷ rest) =
        let later = put_newest p rest in if ltb p.1 q.1 then q ∷ later else p ∷ q ∷ rest

    abbrev pub newest_first : List Peer → List Peer
    newest_first [] = []
    newest_first (p ∷ rest) = put_newest p (newest_first rest)

    -- The peers, the newest first, and the names of the files that are removed
    unfoldable pub peers : Option (List (List ℕ)) → List Entry → List Peer × List (List ℕ)
    unfolding all_peers
    peers filters entries =
        let (found, removed) = all_peers filters entries in (newest_first found, removed)
