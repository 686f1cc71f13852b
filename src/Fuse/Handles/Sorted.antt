-- ===== src/Fuse/Handles/Sorted.antt =====
-- The handle list of fuse.rs stays sorted, so that its binary search decides membership.
use pc_trade.Prelude.{
  ℕ, zero, suc, ◌+◌, ◌≤◌, ◌<◌, ◌≡◌, ◌⊎◌, refl, ap, sym, ◌∙◌, List, [], ◌∷◌, ◌++◌, none, some, true,
  false, not, arith, ◌==◌, ◌||◌, ◌&&◌, length, All, inl, inr,
}
use pc_trade.Fuse.Handles.{FileHandles, at_index, add_handler, have_handler, remove_at, unregister}
use pc_trade.Fuse.Handles.Search.{IsSorted, contains, binary_search_lem}

-- The handles of a node are sorted and were given out below the counter, and the node is not in gc.
pub record IsGood (counter : ℕ) (h : FileHandles) : Type 0 where
  pub sorted : IsSorted h.handlers
  pub below : All (λ y. y < counter) h.handlers
  pub live : h.gc ≡ false

All-le : (xs : List ℕ) (a b : ℕ) → a ≤ b → All (λ y. y < a) xs → All (λ y. y < b) xs
All-le [] a b h p = tt
All-le (x ∷ xs) a b h p = (omega arith, All-le xs a b h p.1)

-- A larger counter keeps the handles good.
pub IsGood-le : (h : FileHandles) (a b : ℕ) → a ≤ b → IsGood a h → IsGood b h
IsGood-le h a b le g = record {
  sorted = g.sorted;
  below = All-le h.handlers a b le g.below;
  live = g.live;
}

All-snoc :
    (x fh : ℕ) (xs : List ℕ) → All (λ y. x < y) xs → x < fh → All (λ y. x < y) (xs ++ (fh ∷ []))
All-snoc x fh [] h l = (l, tt)
All-snoc x fh (y ∷ ys) h l = (h.0, All-snoc x fh ys h.1 l)

IsSorted-snoc :
    (xs : List ℕ) (fh : ℕ) → IsSorted xs → All (λ y. y < fh) xs → IsSorted (xs ++ (fh ∷ []))
IsSorted-snoc [] fh s h = (tt, tt)
IsSorted-snoc (x ∷ xs) fh s h = (All-snoc x fh xs s.0 h.0, IsSorted-snoc xs fh s.1 h.1)

below_snoc : (xs : List ℕ) (fh : ℕ) → All (λ y. y < fh) xs → All (λ y. y < fh + 1) (xs ++ (fh ∷ []))
below_snoc [] fh h = omega arith
below_snoc (x ∷ xs) fh h = (omega arith, below_snoc xs fh h.1)

contains-snoc : (xs : List ℕ) (fh y : ℕ) → contains (xs ++ (fh ∷ [])) y ≡ contains xs y || fh == y
contains-snoc [] fh y = ground arith
contains-snoc (x ∷ xs) fh y = ground (arith, contains-snoc xs fh y)

contains_below : (xs : List ℕ) (c y : ℕ) → All (λ x. x < c) xs → c ≤ y → contains xs y ≡ false
contains_below [] c y h l = refl
contains_below (x ∷ xs) c y h l = ground (arith, contains_below xs c y)

not_above : (xs : List ℕ) (x y : ℕ) → All (λ z. x < z) xs → y ≤ x → contains xs y ≡ false
not_above [] x y h l = refl
not_above (z ∷ xs) x y h l = ground (arith, not_above xs x y)

All-remove_at {κ} : (P : ℕ → Type κ) (xs : List ℕ) (i : ℕ) → All P xs → All P (remove_at xs i)
All-remove_at P [] i h = h
All-remove_at P (x ∷ xs) zero h = h.1
All-remove_at P (x ∷ xs) (suc i) h = (h.0, All-remove_at P xs i h.1)

IsSorted-remove_at : (xs : List ℕ) (i : ℕ) → IsSorted xs → IsSorted (remove_at xs i)
IsSorted-remove_at [] i s = s
IsSorted-remove_at (x ∷ xs) zero s = s.1
IsSorted-remove_at (x ∷ xs) (suc i) s = (All-remove_at _ xs i s.0, IsSorted-remove_at xs i s.1)

contains-remove_at :
    (xs : List ℕ) (i x y : ℕ)
    → IsSorted xs
    → i < length xs
    → at_index xs i ≡ x
    → contains (remove_at xs i) y ≡ contains xs y && not (x == y)
contains-remove_at [] i x y s h e = elim h [ ]
contains-remove_at (z ∷ xs) zero x y s h e = ground (arith, not_above xs z y)
contains-remove_at (z ∷ xs) (suc i) x y s h e =
    ground (arith, contains-remove_at xs i x y, at_above z xs i)
  where
    at_above :
        (z : ℕ) (xs : List ℕ) (i : ℕ) → All (λ w. z < w) xs → i < length xs → z < at_index xs i
    at_above z [] i p h = elim h [ ]
    at_above z (w ∷ xs) zero p h = p.0
    at_above z (w ∷ xs) (suc i) p h = at_above z xs i p.1 (omega arith)

-- `have_handler` decides whether the handle is registered.
have_handler-contains :
    (c : ℕ) (h : FileHandles) (x : ℕ) → IsGood c h → have_handler h x ≡ contains h.handlers x
unfolding have_handler
have_handler-contains c h x g = elim (binary_search_lem h.handlers x g.sorted) [
  | inl (i, found, hi, e, there) ↦ rw (found, there)
  | inr (missing, absent) ↦ rw (missing, absent)
]

-- What registering the next handle leaves: no panic, good handles, and that handle besides the
-- others.
pub add_handler_lem :
    (c : ℕ) (h : FileHandles)
    → IsGood c h
    → (h' : FileHandles) × (add_handler h c ≡ some h')
      × IsGood (c + 1) h'
      × ((y : ℕ) → have_handler h' y ≡ (have_handler h y || c == y))
unfolding add_handler
add_handler_lem c h g =
    let h' : FileHandles = record h { handlers = h.handlers ++ (c ∷ []) } in
    let good : IsGood (c + 1) h' = record {
      sorted = IsSorted-snoc h.handlers c g.sorted g.below;
      below = below_snoc h.handlers c g.below;
      live = g.live;
    } in
    (
      h',
      rw g.live,
      good,
      λ y.
          have_handler-contains (c + 1) h' y good
          ∙ contains-snoc h.handlers c y
          ∙ ap (λ b. b || c == y) (sym (have_handler-contains c h y g)),
    )

-- Taking a handle away succeeds exactly if it is registered; the others stay registered.
pub unregister_lem :
    (c : ℕ) (h : FileHandles) (x : ℕ)
    → IsGood c h
    → ((h' : FileHandles) × (unregister h x ≡ some h')
        × (have_handler h x ≡ true)
        × IsGood c h'
        × ((y : ℕ) → have_handler h' y ≡ (have_handler h y && not (x == y))))
      ⊎ ((unregister h x ≡ none) × (have_handler h x ≡ false))
unfolding unregister
unregister_lem c h x g = elim (binary_search_lem h.handlers x g.sorted) [
  | inr (missing, absent) ↦ inr (rw missing, have_handler-contains c h x g ∙ absent)
  | inl (i, found, hi, e, there) ↦
      let h' : FileHandles = record h { handlers = remove_at h.handlers i } in
      let good : IsGood c h' = record {
        sorted = IsSorted-remove_at h.handlers i g.sorted;
        below = All-remove_at _ h.handlers i g.below;
        live = g.live;
      } in
      inl (
        h',
        rw found,
        have_handler-contains c h x g ∙ there,
        good,
        λ y.
            have_handler-contains c h' y good
            ∙ contains-remove_at h.handlers i x y g.sorted hi e
            ∙ ap (λ b. b && not (x == y)) (sym (have_handler-contains c h y g)),
      )
]
