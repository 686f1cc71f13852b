-- ===== src/Fuse/Handles/Search.antt =====
-- Binary search on a sorted list finds exactly the elements.
use pc_trade.Prelude.{
  ℕ, zero, suc, ◌+◌, ◌-◌, ◌/◌, ◌≤◌, ◌<◌, ◌≡◌, ◌≢◌, ap, ◌⊎◌, List, [], ◌∷◌, none, some, Bool, true,
  false, arith, ◌==◌, ◌||◌, length, All, Bool-cases, Option-cases, inl, inr, ==_iff,
}
use pc_trade.Fuse.Handles.{at_index, search_loop, binary_search}

-- Strictly increasing.
abbrev pub IsSorted : List ℕ → Type 0
IsSorted [] = Unit {0}
IsSorted (x ∷ xs) = All (λ y. x < y) xs × IsSorted xs

abbrev pub contains : List ℕ → ℕ → Bool
contains [] x = false
contains (y ∷ ys) x = y == x || contains ys x

All-at_index :
    (x : ℕ) (xs : List ℕ) (j : ℕ) → All (λ y. x < y) xs → j < length xs → x < at_index xs j
All-at_index x [] j h hj = elim hj [ ]
All-at_index x (y ∷ ys) zero h hj = h.0
All-at_index x (y ∷ ys) (suc j) h hj = All-at_index x ys j h.1 (omega arith)

at_index_mono :
    (xs : List ℕ) (i j : ℕ) → IsSorted xs → i < j → j < length xs → at_index xs i < at_index xs j
at_index_mono [] i j h hij hj = elim hj [ ]
at_index_mono (x ∷ xs) zero zero h hij hj = elim hij [ ]
at_index_mono (x ∷ xs) zero (suc j) h hij hj = All-at_index x xs j h.0 (omega arith)
at_index_mono (x ∷ xs) (suc i) zero h hij hj = elim hij [ ]
at_index_mono (x ∷ xs) (suc i) (suc j) h hij hj =
    at_index_mono xs i j h.1 (omega arith) (omega arith)

pub search_loop_found :
    (f : ℕ) (xs : List ℕ) (x left right i : ℕ)
    → right ≤ length xs
    → search_loop f xs x left right ≡ some i
    → (i < length xs) × (at_index xs i ≡ x)
unfolding search_loop
search_loop_found zero xs x left right i h e = cc
search_loop_found (suc f) xs x left right i h e = ground (
  arith,
  search_loop_found f xs x (left + (right - left) / 2 + 1) right i,
  search_loop_found f xs x left (left + (right - left) / 2) i,
)

-- What lies between the ends of a search that fails is not the element.
search_loop-none :
    (f : ℕ) (xs : List ℕ) (x left right k : ℕ)
    → IsSorted xs
    → right ≤ length xs
    → right - left ≤ f
    → search_loop f xs x left right ≡ none
    → left ≤ k
    → k < right
    → at_index xs k ≢ x
unfolding search_loop
search_loop-none zero xs x left right k s h hf e hl hr = absurd (omega arith)
search_loop-none (suc f) xs x left right k s h hf e hl hr = λ q.
    let mid = left + (right - left) / 2 in
    ground (
      arith,
      at_index_mono xs k mid s,
      at_index_mono xs mid k s,
      ap (at_index xs) {x = k} {y = mid},
      search_loop-none f xs x (mid + 1) right k s,
      search_loop-none f xs x left mid k s,
    )

contains-at_index : (xs : List ℕ) (k : ℕ) → k < length xs → contains xs (at_index xs k) ≡ true
contains-at_index [] k h = elim h [ ]
contains-at_index (x ∷ xs) zero h = ground arith
contains-at_index (x ∷ xs) (suc k) h = ground (arith, contains-at_index xs k (omega arith))

index_of :
    (xs : List ℕ) (x : ℕ) → contains xs x ≡ true → (k : ℕ) × (k < length xs) × (at_index xs k ≡ x)
index_of [] x h = cc
index_of (y ∷ ys) x h = elim (Bool-cases (y == x)) [
  | inl e ↦ (0, omega arith, (==_iff y x).0 e)
  | inr n ↦ let (k, hk, e) = index_of ys x (ground arith) in (suc k, omega arith, e)
]

-- On a sorted list the search answers an index of the element if the list has it, else `none`.
pub binary_search_lem :
    (xs : List ℕ) (x : ℕ)
    → IsSorted xs
    → ((i : ℕ) × (binary_search xs x ≡ some i)
        × (i < length xs)
        × (at_index xs i ≡ x)
        × (contains xs x ≡ true))
      ⊎ ((binary_search xs x ≡ none) × (contains xs x ≡ false))
unfolding binary_search
binary_search_lem xs x s = elim (Option-cases (binary_search xs x)) [
  | inl missing ↦ elim (Bool-cases (contains xs x)) [
    | inr absent ↦ inr (missing, absent)
    | inl there ↦
        let (k, hk, e) = index_of xs x there in
        absurd (
          search_loop-none (length xs) xs x 0 (length xs) k s (omega arith) (omega arith) missing
            (omega arith) hk e)
  ]
  | inr (i, found) ↦
      let (hi, e) = search_loop_found (length xs) xs x 0 (length xs) i (omega arith) found in
      inl (i, found, hi, e, (rw e at (contains-at_index xs i hi)))
]
