-- ===== src/LocalFile/Walk.antt =====
-- `construct_file_list` of local_file.rs. What the disk shows below a path is a tree of entries, which
-- is finite; a symbolic link to a directory is one.
use pc_trade.Prelude.{
  ℕ, List, [], ◌∷◌, ◌++◌, Option, none, some, Bool, false, Result, ok, err, ◌||◌, if◌then◌else◌,
}
use pc_trade.Cliprdr.{CliprdrError, file_error}
use pc_trade.Fuse.Path.{components, key_eq}
use pc_trade.LocalFile.{LocalFile, Metadata, try_open}
use pc_trade.LocalFile.Handle.{OpenFile}

-- An entry: its path, its metadata and content if they can be read, and its entries if it is a
-- directory. A listing may fail, at once or at one of its entries.
mutual
  pub data Entry : Type 0 where
    entry : (path : List ℕ) → Option Metadata → Option (List ℕ) → Entries → Entry

  pub data Entries : Type 0 where
    no_more failed : Entries
    also : Entry → Entries → Entries

-- A file of the list, with its reader, which is closed.
abbrev pub Listed : Type 0
Listed = LocalFile × OpenFile

unfoldable pub list_file : List ℕ → Metadata → Option (List ℕ) → Listed
unfolding try_open
list_file path mt content = (
  try_open path mt,
  record { size = mt.len; is_dir = mt.is_dir; content = content; handle = none; offset = 0 },
)

-- The result so far, the files found and the paths visited.
pub record Walk : Type 0 where
  pub result : Result CliprdrError (Unit {0})
  pub file_list : List Listed
  pub visited : List (List ℕ)

abbrev pub is_visited : List (List ℕ) → List ℕ → Bool
is_visited [] path = false
is_visited (v ∷ vs) path = key_eq (components v) (components path) || is_visited vs path

abbrev pub fail : Walk → Walk
fail w = record w { result = err file_error }

-- What follows if there was no error.
abbrev pub and_then : Walk → (Walk → Walk) → Walk
and_then w k = elim w.result [ ok _ ↦ k w | err e ↦ w ]

abbrev pub visit : Walk → List ℕ → Walk
visit w path = record w { visited = path ∷ w.visited }

abbrev pub push : Walk → Listed → Walk
push w f = record w { file_list = w.file_list ++ (f ∷ []) }

unfoldable mutual
  unfolding list_file

  pub constr_file_lst : Entry → Walk → Walk
  constr_file_lst (entry path none content entries) w =
      if is_visited w.visited path then w else fail (visit w path)
  constr_file_lst (entry path (some mt) content entries) w =
      let opened = push (visit w path) (list_file path mt content) in
      let inside = constr_entries entries opened in
      if is_visited w.visited path then w else (if mt.is_dir then inside else opened)

  pub constr_entries : Entries → Walk → Walk
  constr_entries no_more w = w
  constr_entries failed w = fail w
  constr_entries (also e es) w = and_then (constr_file_lst e w) (constr_entries es)

unfoldable pub constr_all : List Entry → Walk → Walk
unfolding constr_file_lst
constr_all [] w = w
constr_all (e ∷ es) w = and_then (constr_file_lst e w) (constr_all es)

abbrev pub empty_walk : Walk
empty_walk = record { result = ok tt; file_list = []; visited = [] }

unfoldable pub construct_file_list : List Entry → Result CliprdrError (List Listed)
unfolding constr_all
construct_file_list entries =
    let w = constr_all entries empty_walk in elim w.result [ ok _ ↦ ok w.file_list | err e ↦ err e ]
