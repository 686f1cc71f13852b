-- ===== src/Fuse/Server/Invariant.antt =====
-- The handles of the FUSE server in fuse.rs.
use pc_trade.Prelude.{
  ℕ, ◌+◌, ◌%◌, ◌^◌, ◌≤◌, ◌<◌, ◌≡◌, ◌⊎◌, refl, ap, sym, ◌∙◌, List, none, some, Bool, true, false,
  not, arith, ◌==◌, ◌&&◌, ◌||◌, get_elem?, set, Bool-cases, Option-cases, inl, inr, get_elem?-set,
  get_elem?-set_self, get_elem?_lt,
}
use pc_trade.Fuse.Handles
use pc_trade.Fuse.Handles.{FileHandles}
use pc_trade.Fuse.Handles.Sorted.{IsGood, IsGood-le, add_handler_lem, unregister_lem}
use pc_trade.Fuse.Node.{FileType, FuseNode, is_file}
use pc_trade.Fuse.Server.{
  FuseServer, Errno, enoent, ebadf, enfile, Reply, error, opened, done, slot, put_node, open_node,
  open_as, open_file, release,
}

-- The handles of every node are sorted, were given out by the counter, and no node is in gc.
abbrev pub IsServing : FuseServer → Type 0
IsServing s =
    (i : ℕ) (n : FuseNode)
    → get_elem? s.files i ≡ some n
    → IsGood s.file_handle_counter n.file_handlers

-- The handle is registered with the node at this inode.
abbrev pub is_open : FuseServer → ℕ → ℕ → Bool
is_open s ino fh = elim (get_elem? s.files (slot ino)) [
  | none ↦ false
  | some n ↦ Handles.have_handler n.file_handlers fh
]

-- Replacing the handles of one node by good ones.
put_IsServing :
    (files : List FuseNode) (k a b : ℕ) (n : FuseNode)
    → a ≤ b
    → ((i : ℕ) (m : FuseNode) → get_elem? files i ≡ some m → IsGood a m.file_handlers)
    → IsGood b n.file_handlers
    → (i : ℕ) (m : FuseNode) → get_elem? (set files k n) i ≡ some m
    → IsGood b m.file_handlers
put_IsServing files k a b n le old new i m e = elim (get_elem?-set files k i n m e) [
  | inl (at, same) ↦ rw same new
  | inr (ne, there) ↦ IsGood-le m.file_handlers a b le (old i m there)
]

unmarked : (c : ℕ) (h : FileHandles) → IsGood c h → Handles.marked h ≡ false
unfolding Handles.marked
unmarked c h g = g.live

-- A reply that opened the node at `ino`: the handle is the counter's value, which is now registered
-- there besides what was open before, and the counter has moved on.
pub record Opens (s : FuseServer) (ino : ℕ) (r : Reply × FuseServer) : Type 0 where
  pub reply : r.0 ≡ opened s.file_handle_counter
  pub counter : r.1.file_handle_counter ≡ s.file_handle_counter + 1
  pub still : IsServing r.1
  pub handles : (fh : ℕ) → is_open r.1 ino fh ≡ (is_open s ino fh || s.file_handle_counter == fh)

-- A reply that released the handle `fh` of the node at `ino`.
pub record Releases (s : FuseServer) (ino fh : ℕ) (r : Reply × FuseServer) : Type 0 where
  pub reply : r.0 ≡ done
  pub was_open : is_open s ino fh ≡ true
  pub still : IsServing r.1
  pub handles : (x : ℕ) → is_open r.1 ino x ≡ (is_open s ino x && not (fh == x))

-- A reply that refused and changed nothing.
abbrev pub Refuses : FuseServer → Errno → Reply × FuseServer → Type 0
Refuses s e r = r ≡ (error e, s)

module _ (s : FuseServer) (ino : ℕ) (n : FuseNode) (serving : IsServing s)
    (there : get_elem? s.files (slot ino) ≡ some n) where
  is_open_there : (fh : ℕ) → is_open s ino fh ≡ Handles.have_handler n.file_handlers fh
  is_open_there fh = rw (there, is_open)

  is_open_put :
      (h : FileHandles) (c fh : ℕ)
      → is_open (put_node s (slot ino) (record n { file_handlers = h }) c) ino fh
        ≡ Handles.have_handler h fh
  is_open_put h c fh = rw (
    get_elem?-set_self s.files (slot ino) (record n { file_handlers = h })
        (get_elem?_lt s.files (slot ino) n there),
    is_open,
  )

  open_node-Opens : s.file_handle_counter + 1 < 2 ^ 64 → Opens s ino (open_node s (slot ino) n)
  open_node-Opens room =
      let c = s.file_handle_counter in
      let (h', added, good, holds) =
        add_handler_lem c n.file_handlers (serving (slot ino) n there) in
      let next : (c + 1) % 2 ^ 64 ≡ c + 1 = omega arith in
      rw (added, next, open_node)
        (record {
          reply = refl;
          counter = refl;
          still =
              put_IsServing s.files (slot ino) c (c + 1) (record n { file_handlers = h' })
                (omega arith) serving good;
          handles = λ fh.
              is_open_put h' (c + 1) fh
              ∙ holds fh
              ∙ ap (λ b. b || c == fh) (sym (is_open_there fh));
        })

  pub open_as-Opens :
      (allowed : FileType → Bool) (refusal : Errno)
      → allowed n.attributes.kind ≡ true
      → s.file_handle_counter + 1 < 2 ^ 64
      → Opens s ino (open_as allowed refusal s ino)
  open_as-Opens allowed refusal kind room =
      rw
        (
          there,
          kind,
          unmarked s.file_handle_counter n.file_handlers (serving (slot ino) n there),
          open_as,
        )
        (open_node-Opens room)

  release_found :
      (fh : ℕ)
      → Releases s ino fh (release s ino fh)
        ⊎ (Refuses s ebadf (release s ino fh) × (is_open s ino fh ≡ false))
  unfolding release
  release_found fh =
      elim (unregister_lem s.file_handle_counter n.file_handlers fh (serving (slot ino) n there)) [
        | inr (missing, absent) ↦ inr ((rw (there, missing, release)), (rw (there, is_open) absent))
        | inl (h', taken, was, good, holds) ↦ inl (
            rw (there, taken, release)
              (record {
                reply = refl;
                was_open = rw (there, is_open) was;
                still =
                    put_IsServing s.files (slot ino) s.file_handle_counter s.file_handle_counter
                      (record n { file_handlers = h' }) (omega arith) serving good;
                handles = λ x.
                    is_open_put h' s.file_handle_counter x
                    ∙ holds x
                    ∙ ap (λ b. b && not (fh == x)) (sym (is_open_there x));
              }))
      ]

-- `open` on an inode of the tree opens exactly files: it answers with a handle that the server has
-- not given out, which is registered with that node from then on. It refuses other nodes and
-- unknown inodes, and then changes nothing. (While the 64-bit counter of handles has not run out.)
pub open_file_lem :
    (s : FuseServer) (ino : ℕ)
    → IsServing s
    → s.file_handle_counter + 1 < 2 ^ 64
    → ((n : FuseNode) × (get_elem? s.files (slot ino) ≡ some n)
        × (((is_file n.attributes.kind ≡ true) × Opens s ino (open_file s ino))
            ⊎ ((is_file n.attributes.kind ≡ false) × Refuses s enfile (open_file s ino))))
      ⊎ ((get_elem? s.files (slot ino) ≡ none) × Refuses s enoent (open_file s ino))
unfolding open_file
open_file_lem s ino serving room = elim (Option-cases (get_elem? s.files (slot ino))) [
  | inl gone ↦ inr (gone, (rw (gone, open_file, open_as)))
  | inr (n, there) ↦ elim (Bool-cases (is_file n.attributes.kind)) [
    | inl kind ↦
        inl (n, there, inl (kind, open_as-Opens s ino n serving there is_file enfile kind room))
    | inr kind ↦ inl (n, there, inr (kind, (rw (there, kind, open_file, open_as))))
  ]
]

-- `release` takes the handle from the node if it is registered there, and only that handle;
-- otherwise it refuses and changes nothing.
pub release_lem :
    (s : FuseServer) (ino fh : ℕ)
    → IsServing s
    → Releases s ino fh (release s ino fh)
      ⊎ ((Refuses s ebadf (release s ino fh) ⊎ Refuses s enoent (release s ino fh))
          × (is_open s ino fh ≡ false))
unfolding release
release_lem s ino fh serving = elim (Option-cases (get_elem? s.files (slot ino))) [
  | inl gone ↦ inr (inr (rw (gone, release)), (rw (gone, is_open)))
  | inr (n, there) ↦ elim (release_found s ino n serving there fh) [
    | inl ok' ↦ inl ok'
    | inr (no', shut) ↦ inr (inl no', shut)
  ]
]
