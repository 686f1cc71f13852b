-- ===== src/Fuse/Tree/Loop.antt =====
-- The loop of `build_tree` of fuse.rs over all files.
use pc_trade.Prelude.{
  ℕ, suc, ◌+◌, ◌-◌, ◌≡◌, ◌⊎◌, refl, ◌∙◌, List, [], ◌∷◌, ◌++◌, some, ok, err, arith, length,
  get_elem?, All, inl, inr, Option-cases, append_assoc, append-nil, get_elem?_in,
}
use pc_trade.Cliprdr.{Failure, error, file_error}
use pc_trade.Fuse.Path.{components, file_name}
use pc_trade.Fuse.Node.{FileDescription, FuseNode, Outside}
use pc_trade.Fuse.Tree.{Builder, start, add_file, add_files, build_tree}
use pc_trade.Fuse.Tree.Shape.{IsTree}
use pc_trade.Fuse.Tree.Build.{
  HasName, Shows, Built, Built-start, up, up_range, next_builder, add_file_eq, add_file_err,
  Built-next,
}

-- The entry of the parent is there.
host :
    (o : Outside) (seen : List FileDescription) (b : Builder) (f : FileDescription)
    (built : Built seen b)
    → (above : FuseNode) × (get_elem? b.tree_list (up o seen b f built - 1) ≡ some above)
host o seen b f built =
    get_elem?_in b.tree_list (up o seen b f built - 1) (omega (arith, up_range o seen b f built))

add_files_cons :
    (o : Outside) (b b' : Builder) (f : FileDescription) (fs : List FileDescription)
    → add_file o b f ≡ ok b'
    → add_files o b (f ∷ fs) ≡ add_files o b' fs
unfolding add_files
add_files_cons o b b' f fs e = rw e

add_files_cons_err :
    (o : Outside) (b : Builder) (x : Failure) (f : FileDescription) (fs : List FileDescription)
    → add_file o b f ≡ err x
    → add_files o b (f ∷ fs) ≡ err x
unfolding add_files
add_files_cons_err o b x f fs e = rw e

-- The loop ends in a list of nodes if each file has a name, else in the error of a file.
add_files_outcome :
    (o : Outside) (seen : List FileDescription) (b : Builder) (rest : List FileDescription)
    → Built seen b
    → ((b' : Builder) × (add_files o b rest ≡ ok b') × Built (seen ++ rest) b' × All HasName rest)
      ⊎ ((add_files o b rest ≡ err (error file_error)) × (¬ All HasName rest))
add_files_outcome o seen b [] built = inl (b, (unfold add_files in refl), (rw append-nil built), tt)
add_files_outcome o seen b (f ∷ fs) built =
    let (above, there) = host o seen b f built in
    elim (Option-cases (file_name (components f.name))) [
      | inl e ↦ inr (
        add_files_cons_err o b (error file_error) f fs
            (add_file_err o seen b f built above there e),
        λ names. names.0 e,
      )
      | inr (base, e) ↦
          let b' = next_builder o seen b f built above base in
          let eq = add_files_cons o b b' f fs (add_file_eq o seen b f built above base there e) in
          elim (add_files_outcome o (seen ++ (f ∷ [])) b' fs
            (Built-next o seen b f built above base there e)) [
              | inl (b'', run, done, names) ↦
                  inl (b'', eq ∙ run, (rw append_assoc at done), ((λ n. cc (e, n)), names))
              | inr (run, unnamed) ↦ inr (eq ∙ run, λ names. unnamed names.1)
            ]
    ]

-- `build_tree` gives one node for each file and one for the root, exactly if the path of every file
-- ends in a name; otherwise it answers `FileError`. It never panics.
pub build_tree_outcome :
    (o : Outside) (files : List FileDescription)
    → ((nodes : List FuseNode) × (build_tree o files ≡ ok nodes)
        × (length nodes ≡ length files + 1)
        × All HasName files)
      ⊎ ((build_tree o files ≡ err (error file_error)) × (¬ All HasName files))
unfolding build_tree
build_tree_outcome o files = elim (add_files_outcome o [] (start o) files (Built-start o)) [
  | inl (b, run, built, names) ↦ inl (b.tree_list, rw run, built.count, names)
  | inr (run, unnamed) ↦ inr (rw run, unnamed)
]

build_tree-Built :
    (o : Outside) (files : List FileDescription) (nodes : List FuseNode)
    → build_tree o files ≡ ok nodes
    → (b : Builder) × (add_files o (start o) files ≡ ok b) × Built files b × (b.tree_list ≡ nodes)
unfolding build_tree
build_tree-Built o files nodes e = elim (add_files_outcome o [] (start o) files (Built-start o)) [
  | inl (b, run, built, names) ↦ (b, run, built, cc (rw run at e))
  | inr (run, unnamed) ↦ cc (rw run at e)
]

-- The nodes form a tree: each node stands at the place of its inode, its parent before it and its
-- children after it, and a node is among the children of another exactly if that is its parent.
pub build_tree-IsTree :
    (o : Outside) (files : List FileDescription) (nodes : List FuseNode)
    → build_tree o files ≡ ok nodes
    → IsTree nodes
build_tree-IsTree o files nodes e =
    let (b, run, built, same) = build_tree-Built o files nodes e in rw same at built.tree

-- The node of the file at place `i` of the peer's list comes at place `i + 1`, keeps `i` as its
-- index, has the file's connection, kind, size, permissions and times of creation, of the last change
-- and of the last change of metadata, and is named by the last component of the file's path.
pub build_tree-Shows :
    (o : Outside) (files : List FileDescription) (nodes : List FuseNode) (i : ℕ)
    (f : FileDescription)
    → build_tree o files ≡ ok nodes
    → get_elem? files i ≡ some f
    → (n : FuseNode) × (get_elem? nodes (suc i) ≡ some n) × Shows i f n
build_tree-Shows o files nodes i f e h =
    let (b, run, built, same) = build_tree-Built o files nodes e in rw same at (built.shows i f h)
