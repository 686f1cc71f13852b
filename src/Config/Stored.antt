-- ===== src/Config/Stored.antt =====
-- What setting an option of libs/hbb_common/src/config.rs changes.
use pc_trade.Prelude.{
  ℕ, ◌≡◌, ◌≢◌, refl, inl, inr, List, [], ◌∷◌, Option, none, some, Bool, true, false, not, ◌||◌,
  Bool-cases, if◌then◌else◌, arith, sym, ◌∙◌, ap,
}
use pc_trade.Fuse.Path.{name_eq, name_eq_iff}
use pc_trade.Config.Options.{
  Texts, get, remove, insert, first_of, text_or_empty, is_value, is_present, is_empty, get_or,
  is_option_can_save, Sources, get_option, put, set_option,
}

get-remove_same : (m : Texts) (k : List ℕ) → get (remove m k) k ≡ none
unfolding get remove
get-remove_same [] k = refl
get-remove_same ((j, v) ∷ rest) k = elim (Bool-cases (name_eq j k)) [
  | inl same ↦ rw same (get-remove_same rest k)
  | inr other ↦ rw (other, other) (get-remove_same rest k)
]

pub name_eq-differ : (i j k : List ℕ) → j ≢ k → name_eq i k ≡ true → name_eq i j ≡ false
name_eq-differ i j k ne same = elim (Bool-cases (name_eq i j)) [
  | inl also ↦ absurd (ne (sym ((name_eq_iff i j).0 also) ∙ (name_eq_iff i k).0 same))
  | inr other ↦ other
]

get-remove_other : (m : Texts) (j k : List ℕ) → j ≢ k → get (remove m k) j ≡ get m j
unfolding get remove
get-remove_other [] j k ne = refl
get-remove_other ((i, v) ∷ rest) j k ne = elim (Bool-cases (name_eq i k)) [
  | inl same ↦ rw (same, name_eq-differ i j k ne same) (get-remove_other rest j k ne)
  | inr kept ↦ elim (Bool-cases (name_eq i j)) [
    | inl found ↦ rw (kept, found) refl
    | inr other ↦ rw (kept, other) (get-remove_other rest j k ne)
  ]
]

get-insert_same : (m : Texts) (k v : List ℕ) → get (insert m k v) k ≡ some v
unfolding get insert
get-insert_same m k v = rw ((name_eq_iff k k).1 refl) refl

get-insert_other : (m : Texts) (j k v : List ℕ) → j ≢ k → get (insert m k v) j ≡ get m j
unfolding get insert
get-insert_other m j k v ne =
    rw (name_eq-differ k j k ne ((name_eq_iff k k).1 refl)) (get-remove_other m j k ne)

get-put_other : (m : Texts) (j k v : List ℕ) → j ≢ k → get (put m k v) j ≡ get m j
get-put_other m j k v ne = elim (Bool-cases (is_empty v)) [
  | inl empty ↦ elim (Bool-cases (is_present (get m k))) [
    | inl there ↦ rw (empty, there) (get-remove_other m j k ne)
    | inr missing ↦ rw (empty, missing) refl
  ]
  | inr full ↦ elim (Bool-cases (is_value (get m k) v)) [
    | inl same ↦ rw (full, same) refl
    | inr other ↦ rw (full, other) (get-insert_other m j k v ne)
  ]
]

not_present : (o : Option (List ℕ)) → is_present o ≡ false → o ≡ none
not_present none e = refl
not_present (some x) e = cc

has_value : (o : Option (List ℕ)) (v : List ℕ) → is_value o v ≡ true → o ≡ some v
has_value none v e = cc
has_value (some x) v e = ap some ((name_eq_iff x v).0 e)

-- What is read of the stored options after a value is put there: an empty value is none.
get-put_same :
    (m : Texts) (k v : List ℕ) → get (put m k v) k ≡ (if is_empty v then none else some v)
get-put_same m k v = elim (Bool-cases (is_empty v)) [
  | inl empty ↦ elim (Bool-cases (is_present (get m k))) [
    | inl there ↦ rw (empty, there) (get-remove_same m k)
    | inr missing ↦ rw (empty, missing) (not_present (get m k) missing)
  ]
  | inr full ↦ elim (Bool-cases (is_value (get m k) v)) [
    | inl same ↦ rw (full, same) (has_value (get m k) v same)
    | inr other ↦ rw (full, other) (get-insert_same m k v)
  ]
]

-- What setting an option promises: no other option changes, and the option has the value, where the
-- empty value stands for the default; but an option that is overruled keeps its value, and so
-- does one that is set to its default.
pub record Stores (s : Sources) (k v : List ℕ) (after : Sources) : Type 0 where
  pub others : (j : List ℕ) → j ≢ k → get_option after j ≡ get_option s j
  pub value : get_option after k ≡ (
      if is_option_can_save s.overwrite k s.defaults v
      then (if is_empty v then text_or_empty (get s.defaults k) else v)
      else get_option s k)

read_as :
    (overwrite defaults : Option (List ℕ)) (stored : Option (List ℕ)) (v : List ℕ)
    → is_present overwrite ≡ false
    → stored ≡ (if is_empty v then none else some v)
    → text_or_empty (first_of overwrite (first_of stored defaults))
      ≡ (if is_empty v then text_or_empty defaults else v)
read_as (some x) defaults stored v missing e = cc
read_as none defaults stored v missing e = elim (Bool-cases (is_empty v)) [
  | inl empty ↦ rw (e, empty) refl
  | inr full ↦ rw (e, full) refl
]

not_overruled :
    (overwrite : Texts) (k : List ℕ) (defaults : Texts) (v : List ℕ)
    → is_option_can_save overwrite k defaults v ≡ true
    → is_present (get overwrite k) ≡ false
unfolding is_option_can_save
not_overruled overwrite k defaults v e =
    left (is_present (get overwrite k)) (is_value (get defaults k) v) e
  where
    left : (a b : Bool) → not (a || b) ≡ true → a ≡ false
    left a b e = ground arith

set_as :
    (s : Sources) (k v : List ℕ) (can : Bool)
    → is_option_can_save s.overwrite k s.defaults v ≡ can
    → Stores s k v (if can then record s { options = put s.options k v } else s)
unfolding get_option get_or
set_as s k v true e = record {
  others = λ j ne.
      ap (λ x. text_or_empty (first_of (get s.overwrite j) (first_of x (get s.defaults j))))
        (get-put_other s.options j k v ne);
  value = rw e (
      read_as (get s.overwrite k) (get s.defaults k) (get (put s.options k v) k) v
        (not_overruled s.overwrite k s.defaults v e) (get-put_same s.options k v));
}
set_as s k v false e = record { others = λ j ne. refl; value = rw e refl }

-- When an option is set, no other option changes, and it has the value from then on, where the empty
-- value stands for the default; but an option that is overruled keeps its value, and so does one that
-- is set to its default, whatever is stored for it.
pub set_option_lem : (s : Sources) (k v : List ℕ) → Stores s k v (set_option s k v)
unfolding set_option
set_option_lem s k v = set_as s k v (is_option_can_save s.overwrite k s.defaults v) refl
