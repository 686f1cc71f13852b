-- ===== src/Fuse/Tree.antt =====
-- `FuseNode::build_tree` of libs/clipboard/src/platform/fuse.rs.
pub mod Shape
pub mod Build
pub mod Loop
mod Tests
use pc_trade.Prelude.{
  ℕ, ◌+◌, ◌-◌, List, [], ◌∷◌, ◌++◌, Option, none, some, Bool, true, false, Result, ok, err, ◌>>=◌,
  if◌then◌else◌, length, get_elem?, set,
}
use pc_trade.Cliprdr.{Failure, error, panic, file_error}
use pc_trade.Fuse.Path.{Components, components, key_eq, parent, file_name}
use pc_trade.Fuse.Node.{
  FileType, is_directory, FileDescription, FuseNode, Outside, fuse_root_id, from_description,
  new_root, add_child,
}

-- The `HashMap` of directories, the newest entry first.
abbrev pub SubRoots : Type 0
SubRoots = List (Components × ℕ)

unfoldable pub find_root : Components → SubRoots → Option ℕ
find_root k [] = none
find_root k ((j, inode) ∷ m) = if key_eq j k then some inode else find_root k m

-- The `tree_list` and the `sub_root_map` of the loop.
pub record Builder : Type 0 where
  pub tree_list : List FuseNode
  pub sub_root_map : SubRoots

abbrev pub slash : Components
slash = record { root = true; parts = [] }

abbrev pub empty_path : Components
empty_path = record { root = false; parts = [] }

unfoldable pub start : Outside → Builder
start o = record {
  tree_list = new_root o ∷ [];
  sub_root_map = (empty_path, fuse_root_id) ∷ (slash, fuse_root_id) ∷ [];
}

abbrev pub or_root : Option ℕ → ℕ
or_root none = fuse_root_id
or_root (some inode) = inode

unfoldable pub parent_inode_of : SubRoots → Components → ℕ
unfolding find_root
parent_inode_of m path = elim (parent path) [
  | none ↦ fuse_root_id
  | some p ↦ or_root (find_root p m)
]

-- `tree_list[i].add_child(inode)`, which panics out of range
abbrev add_child_at : List FuseNode → ℕ → ℕ → Result Failure (List FuseNode)
add_child_at nodes i inode = elim (get_elem? nodes i) [
  | none ↦ err panic
  | some n ↦ ok (set nodes i (add_child n inode))
]

abbrev base_name : Components → Result Failure (List ℕ)
base_name path = elim (file_name path) [ none ↦ err (error file_error) | some s ↦ ok s ]

-- the new node of a file at `inode`, below `parent_inode`, named by the last component
unfoldable pub node_of : Outside → FileDescription → ℕ → ℕ → List ℕ → FuseNode
node_of o desc inode parent_inode base =
    record (from_description o inode (record desc { name = base })) { parent = some parent_inode }

-- One round of the loop over the files.
unfoldable pub add_file : Outside → Builder → FileDescription → Result Failure Builder
unfolding node_of
add_file o b desc = do
  let path = components desc.name
  let inode = length b.tree_list + fuse_root_id
  let parent_inode = parent_inode_of b.sub_root_map path
  nodes ← add_child_at b.tree_list (parent_inode - 1) inode
  base ← base_name path
  ok (record {
    tree_list = nodes ++ (node_of o desc inode parent_inode base ∷ []);
    sub_root_map =
        if is_directory desc.kind then (path, inode) ∷ b.sub_root_map else b.sub_root_map;
  })

unfoldable pub add_files : Outside → Builder → List FileDescription → Result Failure Builder
add_files o b [] = ok b
add_files o b (f ∷ fs) = add_file o b f >>= λ b'. add_files o b' fs

unfoldable pub build_tree : Outside → List FileDescription → Result Failure (List FuseNode)
unfolding add_files start
build_tree o files = add_files o (start o) files >>= λ b. ok b.tree_list
