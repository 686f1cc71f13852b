-- ===== src/Fuse/Handles/Tests.antt =====
-- The search of `FileHandles` on three handles.
use pc_trade.Prelude.{◌≡◌, [], ◌∷◌, false, refl, true}
use pc_trade.Fuse.Handles.{FileHandles, have_handler}

abbrev three : FileHandles
three = record { handlers = 2 ∷ 5 ∷ 9 ∷ []; gc = false }

has_five : have_handler three 5 ≡ true
unfolding have_handler
has_five = refl
