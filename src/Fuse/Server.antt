-- ===== src/Fuse/Server.antt =====
-- The operations of `FuseServer` in libs/clipboard/src/platform/fuse.rs. `FuseClient` only takes the
-- lock and calls them. An operation gives its reply and the new state.
pub mod Invariant
pub mod Runs
mod Tests
use pc_trade.Prelude.{
  ℕ, zero, suc, ◌+◌, ◌-◌, ◌/◌, ◌%◌, ◌^◌, List, [], ◌∷◌, ◌++◌, Option, none, some, Bool, true, false,
  not, Result, ok, err, ltb, ◌==◌, if◌then◌else◌, length, get_elem?, set, take, drop,
}
use pc_trade.Cliprdr.{ClipboardFile, Failure}
use pc_trade.Fuse.Path.{name_eq}
use pc_trade.Fuse.Handles
use pc_trade.Fuse.Handles.{FileHandles}
use pc_trade.Fuse.Node.{
  FileType, directory, is_directory, is_file, FileDescription, FileAttr, file_attr, InodeAttributes,
  FuseNode, Outside, new_root, block_size, max_name_len,
}
use pc_trade.Fuse.Tree.{build_tree}
use pc_trade.Fuse.Read.{ReadOutcome, outcome, read_node}

-- The timeout and the channel of replies are arguments of `read`.
pub record FuseServer : Type 0 where
  pub generation : ℕ
  pub files : List FuseNode
  pub file_handle_counter : ℕ

abbrev pub new : FuseServer
new = record { generation = 0; files = []; file_handle_counter = 0 }

pub data Errno : Type 0 where
  enoent enotdir enametoolong ebusy ebadf enfile eio : Errno

pub record DirEntry : Type 0 where
  pub ino : ℕ
  pub offset : ℕ
  pub kind : FileType
  pub name : List ℕ

-- `crash` is a panic: an index out of range, or a handle on a node in gc.
pub data Reply : Type 0 where
  error : Errno → Reply
  entry : FileAttr → (generation : ℕ) → Reply
  opened : (fh : ℕ) → Reply
  entries : List DirEntry → Reply
  done : Reply
  bytes : List ℕ → Reply
  attr : FileAttr → Reply
  statfs_reply : (blocks : ℕ) → Reply
  crash : Reply

-- `ino as usize - 1`, which wraps at 0
abbrev pub slot : ℕ → ℕ
slot ino = (ino + 2 ^ 64 - 1) % 2 ^ 64

unfoldable pub load_file_list :
    Outside → FuseServer → List FileDescription → Result Failure FuseServer
load_file_list o s files = elim (build_tree o files) [
  | err e ↦ err e
  | ok tree ↦ ok (record s { files = tree; generation = (s.generation + 1) % 2 ^ 64 })
]

unfoldable pub init : Outside → FuseServer → FuseServer
init o s = elim s.files [ [] ↦ record s { files = new_root o ∷ [] } | _ ∷ _ ↦ s ]

-- the loop of `lookup` over the children
unfoldable pub find_child : List FuseNode → ℕ → List ℕ → List ℕ → Reply
find_child files generation name [] = error enoent
find_child files generation name (inode ∷ inodes) =
    let later = find_child files generation name inodes in
    elim (get_elem? files (slot inode)) [
      | none ↦ crash
      | some child ↦
          if name_eq child.name name then entry (file_attr child.attributes) generation else later
    ]

-- `name_len` is the length of the name in bytes.
unfoldable pub lookup : FuseServer → ℕ → List ℕ → (name_len : ℕ) → Reply
unfolding find_child
lookup s parent name name_len =
    if ltb max_name_len name_len
    then error enametoolong
    else elim (get_elem? s.files (slot parent)) [
      | none ↦ error enoent
      | some p ↦
          if is_directory p.attributes.kind
          then find_child s.files s.generation name p.children
          else error enotdir
    ]

-- the new counter wraps at 64 bits
abbrev pub put_node : FuseServer → ℕ → FuseNode → ℕ → FuseServer
put_node s i n counter = record s { files = set s.files i n; file_handle_counter = counter }

-- `alloc_fd` and `add_handler`
abbrev pub open_node : FuseServer → ℕ → FuseNode → Reply × FuseServer
open_node s i n =
    let fh = s.file_handle_counter in
    elim (Handles.add_handler n.file_handlers fh) [
      | none ↦ (crash, record s { file_handle_counter = (fh + 1) % 2 ^ 64 })
      | some h ↦ (opened fh, put_node s i (record n { file_handlers = h }) ((fh + 1) % 2 ^ 64))
    ]

abbrev pub open_as : (FileType → Bool) → Errno → FuseServer → ℕ → Reply × FuseServer
open_as allowed refusal s ino = elim (get_elem? s.files (slot ino)) [
  | none ↦ (error enoent, s)
  | some n ↦
      if allowed n.attributes.kind
      then (if Handles.marked n.file_handlers then (error ebusy, s) else open_node s (slot ino) n)
      else (error refusal, s)
]

unfoldable pub opendir : FuseServer → ℕ → Reply × FuseServer
opendir s ino = open_as is_directory enotdir s ino

unfoldable pub open_file : FuseServer → ℕ → Reply × FuseServer
open_file s ino = open_as is_file enfile s ino

abbrev dir_entry : ℕ → ℕ → FileType → List ℕ → DirEntry
dir_entry ino offset kind name = record { ino = ino; offset = offset; kind = kind; name = name }

-- the entries of the children, numbered from `i`; `none` is an index out of range
unfoldable pub child_entries : List FuseNode → ℕ → List ℕ → Option (List DirEntry)
child_entries files i [] = some []
child_entries files i (inode ∷ inodes) = elim (get_elem? files (slot inode)) [
  | none ↦ none
  | some child ↦ elim (child_entries files (i + 1) inodes) [
    | none ↦ none
    | some rest ↦ some (dir_entry inode (i + 1) child.attributes.kind child.name ∷ rest)
  ]
]

-- `.`, then `..` below the root
abbrev dot_entries : ℕ → Option ℕ → List DirEntry
dot_entries ino none = dir_entry ino 1 directory (b'.' ∷ []) ∷ []
dot_entries ino (some p) =
    dir_entry ino 1 directory (b'.' ∷ []) ∷ dir_entry p 2 directory (b'.' ∷ b'.' ∷ []) ∷ []

-- `room` is the number of entries that the reply's buffer takes before `reply.add` says it is full.
unfoldable pub readdir : FuseServer → ℕ → ℕ → (offset room : ℕ) → Reply
unfolding child_entries
readdir s ino fh offset room = elim (get_elem? s.files (slot ino)) [
  | none ↦ error enoent
  | some n ↦
      if not (Handles.have_handler n.file_handlers fh)
      then error ebadf
      else if not (is_directory n.attributes.kind)
      then error enotdir
      else (let dots = dot_entries ino n.parent in
          elim (child_entries s.files (length dots) n.children) [
            | none ↦ crash
            | some rest ↦ entries (take room (drop offset (dots ++ rest)))
          ])
]

unfoldable pub releasedir : FuseServer → ℕ → ℕ → Reply × FuseServer
releasedir s ino fh = elim (get_elem? s.files (slot ino)) [
  | none ↦ (error enoent, s)
  | some n ↦
      if not (is_directory n.attributes.kind)
      then (error enotdir, s)
      else if not (Handles.have_handler n.file_handlers fh)
      then (error ebadf, s)
      else elim (Handles.unregister n.file_handlers fh) [
        | none ↦ (done, s)
        | some h ↦
            (done, put_node s (slot ino) (record n { file_handlers = h }) s.file_handle_counter)
      ]
]

unfoldable pub release : FuseServer → ℕ → ℕ → Reply × FuseServer
release s ino fh = elim (get_elem? s.files (slot ino)) [
  | none ↦ (error enoent, s)
  | some n ↦ elim (Handles.unregister n.file_handlers fh) [
    | none ↦ (error ebadf, s)
    | some h ↦ (done, put_node s (slot ino) (record n { file_handlers = h }) s.file_handle_counter)
  ]
]

abbrev data_reply : ReadOutcome → Reply × ReadOutcome
data_reply o = elim o.result [ ok b ↦ (bytes b, o) | err e ↦ (error eio, o) ]

abbrev refused : Errno → List ClipboardFile → Reply × ReadOutcome
refused e replies = (error e, outcome (ok []) [] replies)

-- The reply, with what was sent to the peer and the replies that are left in the channel.
unfoldable pub read :
    FuseServer → ℕ → ℕ → (offset size : ℕ) → List ClipboardFile → Reply × ReadOutcome
read s ino fh offset size replies = elim (get_elem? s.files (slot ino)) [
  | none ↦ refused enoent replies
  | some n ↦
      if not (Handles.have_handler n.file_handlers fh)
      then refused ebadf replies
      else if not (is_file n.attributes.kind)
      then refused enfile replies
      else if Handles.marked n.file_handlers
      then refused ebusy replies
      else data_reply (read_node n offset size replies)
]

unfoldable pub getattr : FuseServer → ℕ → Reply
getattr s ino = elim (get_elem? s.files (slot ino)) [
  | none ↦ error enoent
  | some n ↦ attr (file_attr n.attributes)
]

unfoldable pub count_blocks : List FuseNode → ℕ
count_blocks [] = 0
count_blocks (n ∷ ns) =
    n.attributes.size / block_size
    + (if n.attributes.size % block_size == 0 then 0 else 1)
    + count_blocks ns

unfoldable pub statfs : FuseServer → Reply
unfolding count_blocks
statfs s = statfs_reply (count_blocks s.files)

abbrev pub child_names : List FuseNode → List ℕ → Option (List (List ℕ))
child_names files [] = some []
child_names files (inode ∷ inodes) = elim (get_elem? files (slot inode)) [
  | none ↦ none
  | some child ↦ elim (child_names files inodes) [
    | none ↦ none
    | some rest ↦ some (child.name ∷ rest)
  ]
]

-- `none` is the panic of an index out of range.
unfoldable pub list_root : FuseServer → Option (List (List ℕ))
list_root s = elim s.files [ [] ↦ none | root ∷ _ ↦ child_names s.files root.children ]
