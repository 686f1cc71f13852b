-- ===== src/Config/PeerNames.antt =====
-- An id that names a file in libs/hbb_common/src/config.rs is read from that name again.
use mathlib.Core.Path.{subst, sym}
use pc_trade.Prelude.{
  ℕ, suc, ◌≡◌, ◌≢◌, ◌⊎◌, inl, inr, refl, ap, ◌∙◌, List, [], ◌∷◌, ◌++◌, append_assoc, Option, none,
  some, true, false, ◌==◌, length, arith, Bool-cases,
}
use pc_trade.Hosts.{contains}
use pc_trade.Fuse.Path.{name_eq, dot, dot_dot, named, split_on}
use pc_trade.PasswordSecurity.{codes}
use pc_trade.Config.Options.{starts_with}
use pc_trade.Config.PeerFiles.{
  Names, split_more, last_split, stem_as, stem_of, with_extension, toml_after, encoded, path,
  decoded, listed_id, in_peers, placed,
}

-- There is none of the character, or the text is put together from what is before and after.
abbrev IsSplit : ℕ → List ℕ → Option (List ℕ × List ℕ) → Type 0
IsSplit c xs none = Unit
IsSplit c xs (some (before, after)) = xs ≡ before ++ (c ∷ after)

split_more-IsSplit :
    (c x : ℕ) (xs : List ℕ) (o : Option (List ℕ × List ℕ))
    → IsSplit c xs o
    → IsSplit c (x ∷ xs) (split_more c x xs o)
split_more-IsSplit c x xs (some (before, after)) h = ap (λ t. x ∷ t) h
split_more-IsSplit c x xs none h = elim (Bool-cases (x == c)) [
  | inl e ↦ let same : x ≡ c = ground arith in rw e (ap (λ t. t ∷ xs) same)
  | inr e ↦ rw e tt
]

last_split-IsSplit : (c : ℕ) (xs : List ℕ) → IsSplit c xs (last_split c xs)
unfolding last_split
last_split-IsSplit c [] = tt
last_split-IsSplit c (x ∷ xs) =
    split_more-IsSplit c x xs (last_split c xs) (last_split-IsSplit c xs)

unsplit : (c : ℕ) (xs : List ℕ) → contains c xs ≡ false → last_split c xs ≡ none
unfolding last_split
unsplit c [] e = refl
unsplit c (x ∷ xs) e = elim (Bool-cases (x == c)) [
  | inl same ↦ let absurd_it : true ≡ false = rw same at e in absurd cc
  | inr other ↦
      let later : contains c xs ≡ false = rw other at e in rw (unsplit c xs later, other) refl
]

last_split_at :
    (c : ℕ) (before after : List ℕ)
    → contains c after ≡ false
    → last_split c (before ++ (c ∷ after)) ≡ some (before, after)
unfolding last_split
last_split_at c [] after e =
    let same : (c == c) ≡ true = ground arith in rw (unsplit c after e, same) refl
last_split_at c (x ∷ before) after e = rw (last_split_at c before after e) refl

-- The extension is added to the whole name.
extended : List ℕ × Option (List ℕ) → List ℕ
extended (stem, ext) = stem ++ (b'.' ∷ toml_after ext)

extended_lem :
    (name : List ℕ) (o : Option (List ℕ × List ℕ))
    → IsSplit b'.' name o
    → extended (stem_as name o) ≡ name ++ codes ".toml"
unfolding extended
extended_lem name none h = refl
extended_lem name (some ([], after)) h = refl
extended_lem name (some (x ∷ before, after)) h =
    sym (ap (λ t. t ++ codes ".toml") h ∙ append_assoc (x ∷ before) (b'.' ∷ after) (codes ".toml"))

with_extension_lem : (name : List ℕ) → with_extension name ≡ name ++ codes ".toml"
unfolding with_extension stem_of extended
with_extension_lem name = extended_lem name (last_split b'.' name) (last_split-IsSplit b'.' name)

stem_of-with_extension :
    (name : List ℕ) → length name ≢ 0 → stem_of (with_extension name) ≡ (name, some (codes "toml"))
unfolding stem_of
stem_of-with_extension name ne =
    ap (λ t. stem_as t (last_split b'.' t)) (with_extension_lem name)
    ∙ ap (stem_as (name ++ codes ".toml")) (last_split_at b'.' name (codes "toml") refl)
    ∙ present name (codes "toml") ne
  where
    present :
        (n after : List ℕ)
        → length n ≢ 0
        → stem_as (n ++ (b'.' ∷ after)) (some (n, after)) ≡ (n, some after)
    present [] after ne = absurd (ne refl)
    present (x ∷ n) after ne = refl

-- What base64 promises: a code is read again, and there is one where there is a text.
pub record Decodes (n : Names) : Type 0 where
  pub decode : (id : List ℕ) → n.decode (n.encode id) ≡ some id
  pub present : (id : List ℕ) → length id ≢ 0 → length (n.encode id) ≢ 0

-- A name without a "/" is one component, if it is not empty and not ".".
split_on_one : (name : List ℕ) → contains b'/' name ≡ false → split_on b'/' name ≡ name ∷ []
unfolding split_on
split_on_one [] e = refl
split_on_one (x ∷ xs) e = elim (Bool-cases (x == b'/')) [
  | inl same ↦ let absurd_it : true ≡ false = rw same at e in absurd cc
  | inr other ↦
      let later : contains b'/' xs ≡ false = rw other at e in rw (split_on_one xs later, other) refl
]

-- The text is the name of a file.
abbrev IsName : List ℕ → Type 0
IsName name = (length name ≢ 0) × (name_eq name dot ≡ false) × (name_eq name dot_dot ≡ false)

placed_one :
    (name : List ℕ) → IsName name → placed (named (name ∷ [])) ≡ in_peers [] (with_extension name)
placed_one [] (ne, one, two) = absurd (ne refl)
placed_one (x ∷ xs) (ne, one, two) = rw (one, two) refl

-- An id that is stored under a name from which it can be read: it has no character that is not
-- allowed, is neither "." nor ".." and does not begin as the codes do, or its code has no "/".
abbrev pub IsPlain : Names → List ℕ → Type 0
IsPlain n id =
    (n.is_match id ≡ false)
    × (contains b'/' id ≡ false)
    × (name_eq id dot ≡ false)
    × (name_eq id dot_dot ≡ false)
    × (starts_with id (codes "base64_") ≡ false)

abbrev pub IsCoded : Names → List ℕ → Type 0
IsCoded n id = (n.is_match id ≡ true) × (contains b'/' (n.encode id) ≡ false) × (n.lossy id ≡ id)

-- The file of the settings of an id is in the directory of peers, and the list of peers gives it this
-- id.
abbrev pub IsListedAs : Names → List ℕ → ℕ → Type 0
IsListedAs n id time =
    (name : List ℕ) × (path n id ≡ in_peers [] name)
    × (listed_id n (record { name = name; is_file = true; modified = time }) ≡ some id)

module _ (n : Names) where
  -- The file of a name without a "/" is found under that name.
  found :
      (id : List ℕ) (time : ℕ)
      → IsName (encoded n id)
      → contains b'/' (encoded n id) ≡ false
      → decoded n (encoded n id) ≡ id
      → IsListedAs n id time
  unfolding path listed_id
  found id time is_name plain back =
      let stem = stem_of-with_extension (encoded n id) is_name.0 in
      (
        with_extension (encoded n id),
        ap (λ p. placed (named p)) (split_on_one (encoded n id) plain)
            ∙ placed_one (encoded n id) is_name,
        rw stem (ap some back),
      )

  -- A code is decoded.
  decoded_lem :
      (id : List ℕ)
      → Decodes n
      → length id ≢ 0
      → n.lossy id ≡ id
      → decoded n (codes "base64_" ++ n.encode id) ≡ id
  decoded_lem id laws ne valid =
      let long : (length (codes "base64_" ++ n.encode id) == 7) ≡ false =
        above (length (n.encode id)) (laws.present id ne) in
      rw (long, laws.decode id) valid
    where
      above : (k : ℕ) → k ≢ 0 → (suc (suc (suc (suc (suc (suc (suc k)))))) == 7) ≡ false
      above k h = ground arith

  -- The settings of a peer are in the directory of peers itself, and the list of peers gives the file
  -- this id, if the id is not empty and either is stored in plain, is neither "." nor "..", has no "/"
  -- and does not begin with "base64_", or is stored as its code and that has no "/". (Where base64 is
  -- decoded again, and for an id of valid UTF-8 in the second case.)
  pub listed_id-path :
      (id : List ℕ) (time : ℕ)
      → Decodes n
      → length id ≢ 0
      → IsPlain n id ⊎ IsCoded n id
      → IsListedAs n id time
  unfolding encoded
  listed_id-path id time laws ne (inl (free, plain, one, two, other)) =
      let name : encoded n id ≡ id = rw free refl in
      let same : decoded n id ≡ id = rw other refl in
      found id time (subst IsName (sym name) (ne, one, two)) (ap (contains b'/') name ∙ plain)
        (ap (decoded n) name ∙ same)
  listed_id-path id time laws ne (inr (forbidden, plain, valid)) =
      let name : encoded n id ≡ codes "base64_" ++ n.encode id = rw forbidden refl in
      found id time (subst IsName (sym name) (omega arith, refl, refl))
        (ap (contains b'/') name ∙ plain) (ap (decoded n) name ∙ decoded_lem id laws ne valid)
