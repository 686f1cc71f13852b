-- ===== src/Fuse/Tree/Tests.antt =====
-- `build_tree` of fuse.rs on a directory with a file in it.
use pc_trade.Prelude.{
  ℕ, ◌≡◌, ◌⊎◌, refl, List, [], ◌∷◌, some, Result, ok, err, length, get_elem?, All,
}
use pc_trade.Cliprdr.{Failure, error, file_error}
use pc_trade.Fuse.Path.{components, parent, file_name, key_eq, split_on}
use pc_trade.Fuse.Node.{
  FileType, file, directory, FileDescription, FuseNode, Outside, from_description, attributes_from,
  new_root, new_attributes, add_child,
}
use pc_trade.Fuse.Tree.{build_tree, add_files, add_file, find_root, start, parent_inode_of}
use pc_trade.Fuse.Tree.Shape.{IsTree}
use pc_trade.Fuse.Tree.Build.{HasName, Shows}
use pc_trade.Fuse.Tree.Loop.{build_tree_outcome, build_tree-IsTree, build_tree-Shows}

abbrev outside : Outside
outside = record { now = 1000; random = λ i. i }

abbrev described : List ℕ → FileType → FileDescription
described name kind = record {
  conn_id = 3;
  name = name;
  kind = kind;
  atime = 0;
  last_modified = 0;
  last_metadata_changed = 0;
  creation_time = 0;
  size = 10;
  perm = 0;
}

abbrev two_files : List FileDescription
two_files = described (b'd' ∷ []) directory ∷ described (b'd' ∷ b'/' ∷ b'f' ∷ []) file ∷ []

abbrev tree_of : Result Failure (List FuseNode) → List FuseNode
tree_of (ok nodes) = nodes
tree_of (err e) = []

children_of_all : List FuseNode → List (List ℕ)
children_of_all [] = []
children_of_all (n ∷ ns) = n.children ∷ children_of_all ns

build_tree_outcome_example :
    ((nodes : List FuseNode) × (build_tree outside two_files ≡ ok nodes)
      × (length nodes ≡ 3)
      × All HasName two_files)
    ⊎ ((build_tree outside two_files ≡ err (error file_error)) × (¬ All HasName two_files))
build_tree_outcome_example = build_tree_outcome outside two_files

built_two : build_tree outside two_files ≡ ok (tree_of (build_tree outside two_files))
unfolding build_tree add_files add_file find_root start parent_inode_of key_eq components parent
    file_name split_on from_description attributes_from new_root new_attributes add_child
built_two = refl

build_tree-IsTree_example : IsTree (tree_of (build_tree outside two_files))
build_tree-IsTree_example =
    build_tree-IsTree outside two_files (tree_of (build_tree outside two_files)) built_two

build_tree-Shows_example :
    (n : FuseNode) × (get_elem? (tree_of (build_tree outside two_files)) 2 ≡ some n)
    × Shows 1 (described (b'd' ∷ b'/' ∷ b'f' ∷ []) file) n
build_tree-Shows_example =
    build_tree-Shows outside two_files (tree_of (build_tree outside two_files)) 1
      (described (b'd' ∷ b'/' ∷ b'f' ∷ []) file) built_two refl
