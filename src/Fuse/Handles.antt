-- ===== src/Fuse/Handles.antt =====
-- `FileHandles` of libs/clipboard/src/platform/fuse.rs: the open handles of a node. The condition
-- variable `waiter`, which is notified and never waited on, is left out.
pub mod Search
pub mod Sorted
mod Tests
use pc_trade.Prelude.{
  ℕ, zero, suc, ◌+◌, ◌-◌, ◌/◌, List, [], ◌∷◌, ◌++◌, Option, none, some, Bool, true, false, ltb,
  ◌==◌, if◌then◌else◌, length, get_elem?,
}

pub record FileHandles : Type 0 where
  pub handlers : List ℕ
  pub gc : Bool

abbrev pub new : FileHandles
new = record { handlers = []; gc = false }

unfoldable pub marked : FileHandles → Bool
marked h = h.gc

-- `none` is the panic on a marked counter.
unfoldable pub add_handler : FileHandles → ℕ → Option FileHandles
unfolding marked
add_handler h fh = if marked h then none else some (record h { handlers = h.handlers ++ (fh ∷ []) })

-- the element at an index in range
abbrev pub at_index : List ℕ → ℕ → ℕ
at_index xs i = elim (get_elem? xs i) [ none ↦ 0 | some v ↦ v ]

-- `slice::binary_search`, between `left` and `right`; the fuel is at least their distance.
unfoldable pub search_loop : ℕ → List ℕ → ℕ → ℕ → ℕ → Option ℕ
search_loop zero xs x left right = none
search_loop (suc f) xs x left right =
    let mid = left + (right - left) / 2 in
    let above = search_loop f xs x (mid + 1) right in
    let below = search_loop f xs x left mid in
    if ltb left right
    then (if at_index xs mid == x
        then some mid
        else if ltb (at_index xs mid) x
        then above
        else below)
    else none

unfoldable pub binary_search : List ℕ → ℕ → Option ℕ
unfolding search_loop
binary_search xs x = search_loop (length xs) xs x 0 (length xs)

abbrev is_some : Option ℕ → Bool
is_some none = false
is_some (some _) = true

unfoldable pub have_handler : FileHandles → ℕ → Bool
unfolding binary_search
have_handler h handler = is_some (binary_search h.handlers handler)

abbrev remove_at : List ℕ → ℕ → List ℕ
remove_at [] i = []
remove_at (x ∷ xs) zero = xs
remove_at (x ∷ xs) (suc i) = x ∷ remove_at xs i

abbrev remove_found : FileHandles → Option ℕ → Option FileHandles
remove_found h none = none
remove_found h (some idx) = some (record h { handlers = remove_at h.handlers idx })

-- `none` is the error `InvalidInput`.
unfoldable pub unregister : FileHandles → ℕ → Option FileHandles
unfolding binary_search
unregister h handler = remove_found h (binary_search h.handlers handler)
