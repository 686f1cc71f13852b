-- ===== src/Fuse/Path.antt =====
-- `std::path` as fuse.rs uses it: a path is read as its components, and two paths are the same key
-- of a `HashMap` if their components are equal. A text is a list of characters.
use pc_trade.Prelude.{
  ℕ, List, [], ◌∷◌, Option, none, some, Bool, true, false, not, ◌&&◌, ◌||◌, ◌==◌, if◌then◌else◌,
  ◌≡◌, ◌↔◌, refl, arith,
}

-- `root` for a leading `/`; `parts` are the names, `.` only where it comes first.
pub record Components : Type 0 where
  pub root : Bool
  pub parts : List (List ℕ)

abbrev pub name_eq : List ℕ → List ℕ → Bool
name_eq [] [] = true
name_eq [] (y ∷ ys) = false
name_eq (x ∷ xs) [] = false
name_eq (x ∷ xs) (y ∷ ys) = x == y && name_eq xs ys

abbrev pub parts_eq : List (List ℕ) → List (List ℕ) → Bool
parts_eq [] [] = true
parts_eq [] (y ∷ ys) = false
parts_eq (x ∷ xs) [] = false
parts_eq (x ∷ xs) (y ∷ ys) = name_eq x y && parts_eq xs ys

abbrev bool_eq : Bool → Bool → Bool
bool_eq true b = b
bool_eq false b = not b

unfoldable pub key_eq : Components → Components → Bool
key_eq a b = bool_eq a.root b.root && parts_eq a.parts b.parts

-- the pieces between separators
abbrev pub prepend : ℕ → List (List ℕ) → List (List ℕ)
prepend c [] = (c ∷ []) ∷ []
prepend c (s ∷ ss) = (c ∷ s) ∷ ss

unfoldable pub split_on : ℕ → List ℕ → List (List ℕ)
split_on sep [] = [] ∷ []
split_on sep (c ∷ cs) = let rest = split_on sep cs in if c == sep then [] ∷ rest else prepend c rest

abbrev pub dot : List ℕ
dot = b'.' ∷ []

abbrev pub dot_dot : List ℕ
dot_dot = b'.' ∷ b'.' ∷ []

abbrev pub named : List (List ℕ) → List (List ℕ)
named [] = []
named (s ∷ ss) = let rest = named ss in if name_eq s [] || name_eq s dot then rest else s ∷ rest

abbrev relative_parts : List (List ℕ) → List (List ℕ)
relative_parts [] = []
relative_parts (s ∷ ss) = if name_eq s dot then s ∷ named ss else named (s ∷ ss)

abbrev starts_at_root : List ℕ → Bool
starts_at_root [] = false
starts_at_root (c ∷ cs) = c == b'/'

unfoldable pub components : List ℕ → Components
unfolding split_on
components path =
    if starts_at_root path
    then record { root = true; parts = named (split_on b'/' path) }
    else record { root = false; parts = relative_parts (split_on b'/' path) }

abbrev init : List (List ℕ) → List (List ℕ)
init [] = []
init (x ∷ []) = []
init (x ∷ y ∷ ys) = x ∷ init (y ∷ ys)

abbrev last : List (List ℕ) → Option (List ℕ)
last [] = none
last (x ∷ []) = some x
last (x ∷ y ∷ ys) = last (y ∷ ys)

-- `Path::parent`
unfoldable pub parent : Components → Option Components
parent p = elim p.parts [ [] ↦ none | _ ∷ _ ↦ some (record p { parts = init p.parts }) ]

abbrev normal : List ℕ → Option (List ℕ)
normal s = if name_eq s dot || name_eq s dot_dot then none else some s

-- `Path::file_name`
unfoldable pub file_name : Components → Option (List ℕ)
file_name p = elim (last p.parts) [ none ↦ none | some s ↦ normal s ]

pub name_eq_iff : (xs ys : List ℕ) → (name_eq xs ys ≡ true) ↔ (xs ≡ ys)
name_eq_iff [] [] = (λ _. refl, λ _. refl)
name_eq_iff [] (y ∷ ys) = (λ h. cc, λ h. cc)
name_eq_iff (x ∷ xs) [] = (λ h. cc, λ h. cc)
name_eq_iff (x ∷ xs) (y ∷ ys) = ground (arith, name_eq_iff xs ys)

pub parts_eq_iff : (xs ys : List (List ℕ)) → (parts_eq xs ys ≡ true) ↔ (xs ≡ ys)
parts_eq_iff [] [] = (λ _. refl, λ _. refl)
parts_eq_iff [] (y ∷ ys) = (λ h. cc, λ h. cc)
parts_eq_iff (x ∷ xs) [] = (λ h. cc, λ h. cc)
parts_eq_iff (x ∷ xs) (y ∷ ys) = ground (arith, name_eq_iff x y, parts_eq_iff xs ys)

pub key_eq_iff : (a b : Components) → (key_eq a b ≡ true) ↔ (a ≡ b)
unfolding key_eq
key_eq_iff a b = ground (arith, parts_eq_iff a.parts b.parts)
