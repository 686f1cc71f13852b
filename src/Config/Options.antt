-- ===== src/Config/Options.antt =====
-- The options of libs/hbb_common/src/config.rs: how a value is read as a flag, and where an option's
-- value comes from. A text is a list of bytes.
use pc_trade.Prelude.{
  Option, none, some, ℕ, List, [], ◌∷◌, Bool, true, false, not, ◌==◌, ◌&&◌, ◌||◌, if◌then◌else◌,
}
use pc_trade.Fuse.Path.{name_eq}
use pc_trade.PasswordSecurity.{codes}

abbrev pub starts_with : List ℕ → List ℕ → Bool
starts_with text [] = true
starts_with [] (c ∷ cs) = false
starts_with (t ∷ ts) (c ∷ cs) = t == c && starts_with ts cs

unfoldable pub option2bool : (option value : List ℕ) → Bool
option2bool option value =
    if starts_with option (codes "enable-")
    then not (name_eq value (codes "N"))
    else if starts_with option (codes "allow-")
        || name_eq option (codes "stop-service")
        || name_eq option (codes "direct-server")
        || name_eq option (codes "force-always-relay")
    then name_eq value (codes "Y")
    else not (name_eq value (codes "N"))

-- A map of texts: the first entry with a key counts.
abbrev pub Texts : Type 0
Texts = List (List ℕ × List ℕ)

unfoldable pub get : Texts → List ℕ → Option (List ℕ)
get [] k = none
get ((j, v) ∷ rest) k = if name_eq j k then some v else get rest k

unfoldable pub remove : Texts → List ℕ → Texts
remove [] k = []
remove ((j, v) ∷ rest) k =
    let later = remove rest k in if name_eq j k then later else (j, v) ∷ later

unfoldable pub insert : Texts → (k v : List ℕ) → Texts
unfolding remove
insert m k v = (k, v) ∷ remove m k

abbrev pub first_of : Option (List ℕ) → Option (List ℕ) → Option (List ℕ)
first_of none b = b
first_of (some a) b = some a

abbrev pub text_or_empty : Option (List ℕ) → List ℕ
text_or_empty none = []
text_or_empty (some t) = t

abbrev pub is_value : Option (List ℕ) → List ℕ → Bool
is_value none v = false
is_value (some x) v = name_eq x v

abbrev pub is_present : Option (List ℕ) → Bool
is_present none = false
is_present (some x) = true

abbrev pub is_empty : List ℕ → Bool
is_empty [] = true
is_empty (c ∷ cs) = false

unfoldable pub get_or : (a b c : Texts) → List ℕ → Option (List ℕ)
unfolding get
get_or a b c k = first_of (get a k) (first_of (get b k) (get c k))

unfoldable pub is_option_can_save :
    (overwrite : Texts) → List ℕ → (defaults : Texts) → List ℕ → Bool
unfolding get
is_option_can_save overwrite k defaults v =
    not (is_present (get overwrite k) || is_value (get defaults k) v)

-- The settings that overrule, the options that are stored, and the defaults.
pub record Sources : Type 0 where
  pub overwrite : Texts
  pub options : Texts
  pub defaults : Texts

unfoldable pub get_option : Sources → List ℕ → List ℕ
unfolding get_or
get_option s k = text_or_empty (get_or s.overwrite s.options s.defaults k)

unfoldable pub get_bool_option : Sources → List ℕ → Bool
unfolding option2bool get_option
get_bool_option s k = option2bool k (get_option s k)

-- The entries of the second map over those of the first (`HashMap::extend`).
abbrev pub extend : Texts → Texts → Texts
extend m [] = m
extend m ((k, v) ∷ rest) = insert (extend m rest) k v

unfoldable pub get_options : Sources → Texts
unfolding insert
get_options s = extend (extend s.defaults s.options) s.overwrite

abbrev pub purified : Texts → Texts → Texts → Texts
purified overwrite defaults [] = []
purified overwrite defaults ((k, v) ∷ rest) =
    let others = purified overwrite defaults rest in
    if is_option_can_save overwrite k defaults v then (k, v) ∷ others else others

-- The new options replace the stored ones; where they are equal the source has nothing to write.
unfoldable pub set_options : Sources → Texts → Sources
unfolding is_option_can_save
set_options s v = record s { options = purified s.overwrite s.defaults v }

-- An empty value removes the option; a value that is stored already is not written again.
abbrev pub put : Texts → (k v : List ℕ) → Texts
put m k v =
    if is_empty v
    then (if is_present (get m k) then remove m k else m)
    else if is_value (get m k) v
    then m
    else insert m k v

unfoldable pub set_option : Sources → (k v : List ℕ) → Sources
unfolding is_option_can_save get remove insert
set_option s k v =
    if is_option_can_save s.overwrite k s.defaults v
    then record s { options = put s.options k v }
    else s

-- `LocalConfig::set_option`: the default language is stored as an empty text.
unfoldable pub set_local_option : Sources → (k v : List ℕ) → Sources
unfolding is_option_can_save get remove insert
set_local_option s k v =
    if is_option_can_save s.overwrite k s.defaults v
    then (if name_eq k (codes "lang") && name_eq v (codes "default")
        then record s { options = insert s.options k [] }
        else record s { options = put s.options k v })
    else s

-- `UserDefaultConfig::set`
unfoldable pub set_default : Sources → (key value : List ℕ) → Sources
unfolding is_option_can_save remove insert
set_default s key value =
    if is_option_can_save s.overwrite key s.defaults value
    then record s {
      options = if is_empty value then remove s.options key else insert s.options key value;
    }
    else s

abbrev pub is_among : List (List ℕ) → List ℕ → Bool
is_among [] v = false
is_among (x ∷ xs) v = name_eq x v || is_among xs v

abbrev pub known_or : Option (List ℕ) → List ℕ → List (List ℕ) → List ℕ
known_or none d others = d
known_or (some option) d others = if is_among others option then option else d

unfoldable pub get_string : Sources → (key d : List ℕ) → (others : List (List ℕ)) → List ℕ
unfolding get_or
get_string s key d others = known_or (get_or s.overwrite s.options s.defaults key) d others

-- `is_some_hard_opton`, and the settings that are read through it
unfoldable pub is_some_hard_option : Texts → (name : List ℕ) → Bool
unfolding get
is_some_hard_option hard name = is_value (get hard name) (codes "Y")

unfoldable pub is_incoming_only : Texts → Bool
unfolding get
is_incoming_only hard = is_value (get hard (codes "conn-type")) (codes "incoming")

unfoldable pub is_outgoing_only : Texts → Bool
unfolding get
is_outgoing_only hard = is_value (get hard (codes "conn-type")) (codes "outgoing")
