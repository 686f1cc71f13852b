-- ===== src/Fuse/Server/Runs.antt =====
-- Sequences of the calls that open and release in fuse.rs.
use pc_trade.Prelude.{
  ℕ, ◌+◌, ◌^◌, ◌≤◌, ◌<◌, ◌≡◌, ◌⊎◌, refl, List, [], ◌∷◌, Bool, not, arith, length, get_elem?, inl,
  inr, Option-cases, Bool-cases,
}
use pc_trade.Fuse.Handles
use pc_trade.Fuse.Node.{FileType, is_directory, is_file}
use pc_trade.Fuse.Server.{
  FuseServer, Errno, enotdir, enfile, Reply, slot, open_as, opendir, open_file, release, releasedir,
}
use pc_trade.Fuse.Server.Invariant.{IsServing, Opens, open_as-Opens, release_lem}

-- The server after a call keeps the invariant, and its counter has moved by at most one.
pub record Kept (s after : FuseServer) : Type 0 where
  pub serving : IsServing after
  pub from_below : s.file_handle_counter ≤ after.file_handle_counter
  pub by_one : after.file_handle_counter ≤ s.file_handle_counter + 1

same-Kept : (s : FuseServer) → IsServing s → Kept s s
same-Kept s serving = record { serving = serving; from_below = omega arith; by_one = omega arith }

Opens-Kept : (s : FuseServer) (ino : ℕ) (r : Reply × FuseServer) → Opens s ino r → Kept s r.1
Opens-Kept s ino r o =
    let next = o.counter in
    record { serving = o.still; from_below = omega arith; by_one = omega arith }

module _ (s : FuseServer) (ino : ℕ) (serving : IsServing s) where
  open_as-Kept :
      (allowed : FileType → Bool) (refusal : Errno)
      → s.file_handle_counter + 1 < 2 ^ 64
      → Kept s (open_as allowed refusal s ino).1
  open_as-Kept allowed refusal room = elim (Option-cases (get_elem? s.files (slot ino))) [
    | inl gone ↦ rw (gone, open_as) (same-Kept s serving)
    | inr (n, there) ↦ elim (Bool-cases (allowed n.attributes.kind)) [
      | inl kind ↦
          Opens-Kept s ino (open_as allowed refusal s ino)
            (open_as-Opens s ino n serving there allowed refusal kind room)
      | inr kind ↦ rw (there, kind, open_as) (same-Kept s serving)
    ]
  ]

  release_counter : (fh : ℕ) → (release s ino fh).1.file_handle_counter ≡ s.file_handle_counter
  unfolding release
  release_counter fh = elim (Option-cases (get_elem? s.files (slot ino))) [
    | inl gone ↦ rw (gone, release) refl
    | inr (n, there) ↦ elim (Option-cases (Handles.unregister n.file_handlers fh)) [
      | inl missing ↦ rw (there, missing, release) refl
      | inr (h, taken) ↦ rw (there, taken, release) refl
    ]
  ]

  release-Kept : (fh : ℕ) → Kept s (release s ino fh).1
  release-Kept fh = elim (release_lem s ino fh serving) [
    | inl r ↦
        let same = release_counter fh in
        record { serving = r.still; from_below = omega arith; by_one = omega arith }
    | inr (refused, shut) ↦ elim refused [
      | inl e ↦ rw e (same-Kept s serving)
      | inr e ↦ rw e (same-Kept s serving)
    ]
  ]

  -- `releasedir` leaves the server as it is or as `release` does.
  releasedir-release :
      (fh : ℕ) → ((releasedir s ino fh).1 ≡ s) ⊎ ((releasedir s ino fh).1 ≡ (release s ino fh).1)
  unfolding release releasedir
  releasedir-release fh = elim (Option-cases (get_elem? s.files (slot ino))) [
    | inl gone ↦ inl (rw (gone, releasedir) refl)
    | inr (n, there) ↦ elim (Bool-cases (not (is_directory n.attributes.kind))) [
      | inl plain ↦ inl (rw (there, plain, releasedir) refl)
      | inr dir ↦ elim (Bool-cases (not (Handles.have_handler n.file_handlers fh))) [
        | inl missing ↦ inl (rw (there, dir, missing, releasedir) refl)
        | inr held ↦ elim (Option-cases (Handles.unregister n.file_handlers fh)) [
          | inl absent ↦ inl (rw (there, dir, held, absent, releasedir) refl)
          | inr (h, taken) ↦ inr (rw (there, dir, held, taken, releasedir, release) refl)
        ]
      ]
    ]
  ]

  releasedir-Kept : (fh : ℕ) → Kept s (releasedir s ino fh).1
  releasedir-Kept fh = elim (releasedir-release fh) [
    | inl e ↦ rw e (same-Kept s serving)
    | inr e ↦ rw e (release-Kept fh)
  ]

-- A call of the kernel that opens or releases.
pub data Call : Type 0 where
  call_open call_opendir : ℕ → Call
  call_release call_releasedir : (ino fh : ℕ) → Call

unfoldable pub answer : FuseServer → Call → Reply × FuseServer
unfolding open_file opendir release releasedir
answer s (call_open ino) = open_file s ino
answer s (call_opendir ino) = opendir s ino
answer s (call_release ino fh) = release s ino fh
answer s (call_releasedir ino fh) = releasedir s ino fh

unfoldable pub run : FuseServer → List Call → FuseServer
unfolding answer
run s [] = s
run s (c ∷ cs) = run (answer s c).1 cs

answer-Kept :
    (s : FuseServer) (c : Call)
    → IsServing s
    → s.file_handle_counter + 1 < 2 ^ 64
    → Kept s (answer s c).1
unfolding answer open_file opendir
answer-Kept s (call_open ino) serving room = open_as-Kept s ino serving is_file enfile room
answer-Kept s (call_opendir ino) serving room = open_as-Kept s ino serving is_directory enotdir room
answer-Kept s (call_release ino fh) serving room = release-Kept s ino serving fh
answer-Kept s (call_releasedir ino fh) serving room = releasedir-Kept s ino serving fh

-- Any sequence of opening and releasing files and directories keeps the invariant of the handles: in
-- every node they are sorted and were given out by the counter, and no node is in gc. The counter
-- never goes back and moves by at most one for each call. (While the calls do not exhaust its 64
-- bits.)
pub run-IsServing :
    (s : FuseServer) (calls : List Call)
    → IsServing s
    → s.file_handle_counter + length calls < 2 ^ 64
    → IsServing (run s calls)
      × (s.file_handle_counter ≤ (run s calls).file_handle_counter)
      × ((run s calls).file_handle_counter ≤ s.file_handle_counter + length calls)
unfolding run
run-IsServing s [] serving room = (serving, omega arith, omega arith)
run-IsServing s (c ∷ cs) serving room =
    let kept = answer-Kept s c serving (omega arith) in
    let low = kept.from_below in
    let high = kept.by_one in
    let (still, below, above) = run-IsServing (answer s c).1 cs kept.serving (omega arith) in
    (still, omega arith, omega arith)
