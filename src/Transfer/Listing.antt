-- ===== src/Transfer/Listing.antt =====
-- The lists of files of libs/hbb_common/src/fs.rs on a system that is not Windows: `read_dir`, the
-- recursive lists, a job that reads them, and the digest of a file that would be overwritten. What the
-- disk shows below a path is a tree of entries; a name that is not UTF-8 is empty.
use pc_trade.Prelude.{
  ℕ, List, [], ◌∷◌, ◌++◌, Option, none, some, Bool, true, false, not, Result, ok, err, ◌>>=◌, ◌==◌,
  ◌&&◌, if◌then◌else◌,
}
use pc_trade.Transfer.Job.{
  EntryType, dir, dir_link, dir_drive, plain, file_link, FileEntry, TransferJob, Error, io_error,
  not_exists, new_write,
}
use pc_trade.Transfer.Outside.{FileTransferDigest}

-- The metadata of an entry, a link not followed, with its time in seconds if it is known and after
-- 1970; then the metadata, `is_dir` and `is_file` of what a link leads to.
pub record Meta : Type 0 where
  pub is_symlink : Bool
  pub len : ℕ
  pub modified : Option ℕ

pub record Stat : Type 0 where
  pub meta : Option Meta
  pub target : Option Meta
  pub is_dir : Bool
  pub is_file : Bool

-- The entries of what is no directory, or cannot be listed, are `unlisted`.
mutual
  pub data Node : Type 0 where
    node : (name : List ℕ) → Stat → Nodes → Node

  pub data Nodes : Type 0 where
    unlisted no_more : Nodes
    also : Node → Nodes → Nodes

abbrev pub seconds : Option ℕ → ℕ
seconds none = 0
seconds (some t) = t

abbrev pub begins_with_point : List ℕ → Bool
begins_with_point [] = false
begins_with_point (c ∷ cs) = c == b'.'

abbrev pub type_of : (is_dir is_symlink : Bool) → EntryType
type_of true true = dir_link
type_of true false = dir
type_of false true = file_link
type_of false false = plain

abbrev pub size_of : EntryType → ℕ → ℕ
size_of plain len = len
size_of _ len = 0

-- The entry of a directory, or none where it is passed over.
abbrev pub entry_as : (include_hidden : Bool) → List ℕ → Stat → Option Meta → Option FileEntry
entry_as include_hidden name stat none = none
entry_as include_hidden name stat (some meta) =
    let hidden = begins_with_point name in
    let kind = type_of stat.is_dir meta.is_symlink in
    if hidden && not include_hidden
    then none
    else some (record {
      entry_type = kind;
      name = name;
      is_hidden = hidden;
      size = size_of kind meta.len;
      modified_time = seconds meta.modified;
    })

unfoldable pub entry_of : (include_hidden : Bool) → List ℕ → Stat → Option FileEntry
entry_of include_hidden [] stat = none
entry_of include_hidden (c ∷ cs) stat = entry_as include_hidden (c ∷ cs) stat stat.meta

abbrev pub and_entry : Option FileEntry → List FileEntry → List FileEntry
and_entry none es = es
and_entry (some e) es = e ∷ es

-- `read_dir`: the entries in the order of the system
unfoldable pub read_dir : Nodes → (include_hidden : Bool) → Result Error (List FileEntry)
unfolding entry_of
read_dir unlisted include_hidden = err io_error
read_dir no_more include_hidden = ok []
read_dir (also (node name stat nodes) rest) include_hidden =
    read_dir rest include_hidden >>= (λ es. ok (and_entry (entry_of include_hidden name stat) es))

abbrev pub files_or_none : Result Error (List FileEntry) → List FileEntry
files_or_none (ok fs) = fs
files_or_none (err e) = []

-- The files of an entry: a file gets its place below the directory, a directory gives its own files,
-- unless it cannot be listed.
abbrev pub files_of :
    Option FileEntry → (placed : List ℕ) → (below : Result Error (List FileEntry)) → List FileEntry
files_of none placed below = []
files_of (some e) placed below = elim e.entry_type [
  | dir ↦ files_or_none below
  | dir_link ↦ []
  | dir_drive ↦ []
  | plain ↦ record e { name = placed } ∷ []
  | file_link ↦ []
]

-- The one file of a path that is a file.
abbrev pub single : Option Meta → FileEntry
single none = record {
  entry_type = plain;
  name = [];
  is_hidden = false;
  size = 0;
  modified_time = 0;
}
single (some meta) = record {
  entry_type = plain;
  name = [];
  is_hidden = false;
  size = meta.len;
  modified_time = seconds meta.modified;
}

abbrev pub name_of : Node → List ℕ
name_of (node name stat nodes) = name

abbrev pub entry_at : (include_hidden : Bool) → Node → Option FileEntry
entry_at include_hidden (node name stat nodes) = entry_of include_hidden name stat

abbrev pub if_empty : List FileEntry → (path : List ℕ) → List (List ℕ) → List (List ℕ)
if_empty [] path inside = path ∷ []
if_empty (e ∷ es) path inside = inside

abbrev pub dirs_of : Option FileEntry → Result Error (List (List ℕ)) → List (List ℕ)
dirs_of none below = []
dirs_of (some e) (err _) = []
dirs_of (some e) (ok dirs) = elim e.entry_type [
  | dir ↦ dirs
  | dir_link ↦ []
  | dir_drive ↦ []
  | plain ↦ []
  | file_link ↦ []
]

module _ (join : List ℕ → List ℕ → List ℕ) where
  unfoldable mutual
    unfolding entry_of

    pub read_dir_recursive : Node → (prefix : List ℕ) → Bool → Result Error (List FileEntry)
    read_dir_recursive (node name stat nodes) prefix include_hidden =
        let inside = read_nodes nodes prefix include_hidden in
        if stat.is_dir
        then inside
        else if stat.is_file
        then ok (single stat.target ∷ [])
        else err not_exists

    pub read_nodes : Nodes → (prefix : List ℕ) → Bool → Result Error (List FileEntry)
    read_nodes unlisted prefix include_hidden = err io_error
    read_nodes no_more prefix include_hidden = ok []
    read_nodes (also n rest) prefix include_hidden =
        let others = read_nodes rest prefix include_hidden in
        let found = files_at n prefix include_hidden in others >>= (λ fs. ok (found ++ fs))

    pub files_at : Node → (prefix : List ℕ) → Bool → List FileEntry
    files_at (node name stat nodes) prefix include_hidden =
        let inside = read_nodes nodes (join prefix name) include_hidden in
        files_of (entry_of include_hidden name stat) (join prefix name) inside

  unfoldable pub get_recursive_files :
      Node → (include_hidden : Bool) → Result Error (List FileEntry)
  unfolding read_dir_recursive
  get_recursive_files path include_hidden = read_dir_recursive path [] include_hidden

  unfoldable mutual
    unfolding entry_of read_dir

    -- The paths of the directories without entries.
    pub read_empty_dirs_recursive : Node → (path : List ℕ) → Bool → Result Error (List (List ℕ))
    read_empty_dirs_recursive (node name stat nodes) path include_hidden =
        let inside = read_empty_dirs nodes path include_hidden in
        if stat.is_dir
        then read_dir nodes include_hidden >>= (λ es. ok (if_empty es path inside))
        else if stat.is_file
        then ok []
        else err not_exists

    pub read_empty_dirs : Nodes → (path : List ℕ) → Bool → List (List ℕ)
    read_empty_dirs unlisted path include_hidden = []
    read_empty_dirs no_more path include_hidden = []
    read_empty_dirs (also n rest) path include_hidden =
        let others = read_empty_dirs rest path include_hidden in
        let below = read_empty_dirs_recursive n (join path (name_of n)) include_hidden in
        dirs_of (entry_at include_hidden n) below ++ others

  -- `new_read`; `path` is the path as a text, and `there` what the disk shows at it.
  unfoldable pub new_read :
      {F : Type 0} (id : ℕ) (remote path : List ℕ) (there : Node) (file_num : ℕ)
      (show_hidden is_remote enable_overwrite_detection : Bool)
      → Result Error (TransferJob F)
  unfolding get_recursive_files new_write
  new_read id remote path there file_num show_hidden is_remote enable_overwrite_detection =
      get_recursive_files there show_hidden >>= (λ files.
        ok (
          new_write id remote path file_num show_hidden is_remote files enable_overwrite_detection))

-- `transform_windows_path`
abbrev pub slashes : List ℕ → List ℕ
slashes [] = []
slashes (c ∷ cs) = (if c == 92 then b'/' else c) ∷ slashes cs

unfoldable pub transform_windows_path : List FileEntry → List FileEntry
transform_windows_path [] = []
transform_windows_path (e ∷ es) = record e { name = slashes e.name } ∷ transform_windows_path es

pub data DigestCheckResult : Type 0 where
  need_confirm : FileTransferDigest → (is_identical : Bool) → DigestCheckResult
  no_such_file : DigestCheckResult

-- The file at the path, if there is one: its length, and its time in seconds and nanoseconds if it is
-- known and after 1970.
pub record Existing : Type 0 where
  pub len : ℕ
  pub modified : Option (ℕ × ℕ)

abbrev pub confirm_as : FileTransferDigest → ℕ → Option (ℕ × ℕ) → Result Error DigestCheckResult
confirm_as digest len none = err io_error
confirm_as digest len (some (secs, nanos)) = ok (
    need_confirm (record digest { last_modified = secs; file_size = len })
      (digest.last_modified == secs && nanos == 0 && digest.file_size == len))

unfoldable pub is_write_need_confirmation :
    Option Existing → FileTransferDigest → Result Error DigestCheckResult
is_write_need_confirmation none digest = ok no_such_file
is_write_need_confirmation (some there) digest = confirm_as digest there.len there.modified
