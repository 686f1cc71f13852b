-- ===== src/Fuse/Tree/Build.antt =====
-- `build_tree` of fuse.rs: when it succeeds, and what each node holds.
use pc_trade.Prelude.{
  ℕ, zero, suc, ◌+◌, ◌-◌, ◌≤◌, ◌≡◌, ◌≢◌, refl, ap, sym, ◌∙◌, List, [], ◌∷◌, ◌++◌, none, some, ok,
  err, arith, length, get_elem?, set, All, inl, inr, if◌then◌else◌, length-append, length-set,
  get_elem?-snoc, get_elem?-append_left, get_elem?-snoc_last, get_elem?-set_self, get_elem?-set_ne,
  get_elem?_lt, Bool-cases, Option-cases,
}
use native.Mathlib.Decide.{ℕ_discrete}
use pc_trade.Cliprdr.{error, file_error}
use pc_trade.Fuse.Path.{Components, components, parent, file_name}
use pc_trade.Fuse.Node.{
  is_directory, FileDescription, FuseNode, Outside, from_description, new_root, add_child,
}
use pc_trade.Fuse.Tree.{SubRoots, find_root, Builder, start, parent_inode_of, node_of, add_file}
use pc_trade.Fuse.Tree.Shape.{IsTree, NodeFits, holds, is_just, IsTree-grow}

-- The path of a file ends in a name.
abbrev pub HasName : FileDescription → Type 0
HasName f = file_name (components f.name) ≢ none

-- A node shows a file of the peer's list: its place there, its kind, size, permissions
-- and the three times that the list gives, and its last name.
pub record Shows (place : ℕ) (f : FileDescription) (n : FuseNode) : Type 0 where
  pub index : n.index ≡ place
  pub conn_id : n.conn_id ≡ f.conn_id
  pub kind : n.attributes.kind ≡ f.kind
  pub size : n.attributes.size ≡ f.size
  pub perm : n.attributes.perm ≡ f.perm
  pub last_modified : n.attributes.last_modified ≡ f.last_modified
  pub last_metadata_changed : n.attributes.last_metadata_changed ≡ f.last_metadata_changed
  pub creation_time : n.attributes.creation_time ≡ f.creation_time
  pub name : file_name (components f.name) ≡ some n.name

abbrev InRange : ℕ → Components × ℕ → Type 0
InRange len e = (1 ≤ e.1) × (e.1 ≤ len)

-- The loop has processed the files `seen`.
pub record Built (seen : List FileDescription) (b : Builder) : Type 0 where
  pub tree : IsTree b.tree_list
  pub count : length b.tree_list ≡ length seen + 1
  pub roots : All (InRange (length b.tree_list)) b.sub_root_map
  pub shows :
      (i : ℕ) (f : FileDescription)
      → get_elem? seen i ≡ some f
      → (n : FuseNode) × (get_elem? b.tree_list (suc i) ≡ some n) × Shows i f n

find_root_range :
    (len : ℕ) (k : Components) (m : SubRoots) (v : ℕ)
    → All (InRange len) m
    → find_root k m ≡ some v
    → (1 ≤ v) × (v ≤ len)
unfolding find_root
find_root_range len k [] v h e = cc
find_root_range len k ((j, i) ∷ m) v h e = ground (arith, find_root_range len k m v h.1)

parent_inode_of_range :
    (len : ℕ) (m : SubRoots) (p : Components)
    → 1 ≤ len
    → All (InRange len) m
    → (1 ≤ parent_inode_of m p) × (parent_inode_of m p ≤ len)
unfolding parent_inode_of
parent_inode_of_range len m p hl h = elim (Option-cases (parent p)) [
  | inl e ↦ rw (e, parent_inode_of) (omega arith)
  | inr (q, e) ↦ elim (Option-cases (find_root q m)) [
    | inl e' ↦ rw (e, parent_inode_of, e') (omega arith)
    | inr (v, e') ↦ rw (e, parent_inode_of, e') (find_root_range len q m v h e')
  ]
]

roots_mono : (a b : ℕ) (m : SubRoots) → a ≤ b → All (InRange a) m → All (InRange b) m
roots_mono a b [] h p = tt
roots_mono a b (e ∷ m) h p = (omega arith, roots_mono a b m h p.1)

pub Built-start : (o : Outside) → Built [] (start o)
unfolding start new_root
Built-start o = record {
  tree = record { fits = λ i n e. first i n e; linked = λ i c n m e e'. alone i c n m e e' };
  count = omega arith;
  roots = omega arith;
  shows = λ i f e. cc;
}
  where
    first : (i : ℕ) (n : FuseNode) → get_elem? (new_root o ∷ []) i ≡ some n → NodeFits 1 i n
    first zero n e =
        let same : new_root o ≡ n = cc in
        rw (← same)
          (record { inode = refl; children = λ k h. cc; parent = λ p h. cc; handlers = refl })
    first (suc i) n e = cc

    alone :
        (i c : ℕ) (n m : FuseNode)
        → get_elem? (new_root o ∷ []) i ≡ some n
        → get_elem? (new_root o ∷ []) c ≡ some m
        → holds n.children (c + 1) ≡ is_just m.parent (i + 1)
    alone zero zero n m e e' =
        let same : new_root o ≡ n = cc in
        let same' : new_root o ≡ m = cc in rw (← same, ← same') refl
    alone zero (suc c) n m e e' = cc
    alone (suc i) c n m e e' = cc

-- One round, at the entry that it finds for the parent.
module _ (o : Outside) (seen : List FileDescription) (b : Builder) (f : FileDescription)
    (built : Built seen b) where
  abbrev pub path : Components
  path = components f.name

  abbrev pub up : ℕ
  up = parent_inode_of b.sub_root_map path

  pub up_range : (1 ≤ up) × (up ≤ length b.tree_list)
  up_range =
      parent_inode_of_range (length b.tree_list) b.sub_root_map path (omega (arith, built.count))
        built.roots

  abbrev pub new_node : List ℕ → FuseNode
  new_node base = node_of o f (length b.tree_list + 1) up base

  abbrev pub next_builder : FuseNode → List ℕ → Builder
  next_builder above base = record {
    tree_list =
        set b.tree_list (up - 1) (add_child above (length b.tree_list + 1)) ++ (new_node base ∷ []);
    sub_root_map =
        if is_directory f.kind
        then (path, length b.tree_list + 1) ∷ b.sub_root_map
        else b.sub_root_map;
  }

  pub add_file_eq :
      (above : FuseNode) (base : List ℕ)
      → get_elem? b.tree_list (up - 1) ≡ some above
      → file_name path ≡ some base
      → add_file o b f ≡ ok (next_builder above base)
  unfolding add_file
  add_file_eq above base e e' = ground arith

  pub add_file_err :
      (above : FuseNode)
      → get_elem? b.tree_list (up - 1) ≡ some above
      → file_name path ≡ none
      → add_file o b f ≡ err (error file_error)
  unfolding add_file
  add_file_err above e e' = ground arith

  length-next :
      (above : FuseNode) (base : List ℕ)
      → length (next_builder above base).tree_list ≡ length b.tree_list + 1
  length-next above base = omega (
    arith,
    length-append (set b.tree_list (up - 1) (add_child above (length b.tree_list + 1)))
        (new_node base ∷ []),
    length-set b.tree_list (up - 1) (add_child above (length b.tree_list + 1)),
  )

  roots_next :
      (above : FuseNode) (base : List ℕ)
      → All
          (InRange (length (next_builder above base).tree_list))
          (next_builder above base).sub_root_map
  roots_next above base = rw (length-next above base) (
      let old =
        roots_mono (length b.tree_list) (length b.tree_list + 1) b.sub_root_map (omega arith)
          built.roots in
      elim (Bool-cases (is_directory f.kind)) [
        | inl dir ↦ rw dir ((omega arith, omega arith), old)
        | inr plain ↦ rw plain old
      ])

  get_last :
      (above : FuseNode) (base : List ℕ) (i : ℕ)
      → i ≡ length seen
      → get_elem? (next_builder above base).tree_list (suc i) ≡ some (new_node base)
  get_last above base i e =
      let front = set b.tree_list (up - 1) (add_child above (length b.tree_list + 1)) in
      let at : suc i ≡ length front = omega (
        arith,
        built.count,
        length-set b.tree_list (up - 1) (add_child above (length b.tree_list + 1)),
      ) in
      ap (get_elem? (front ++ (new_node base ∷ []))) at ∙ get_elem?-snoc_last front (new_node base)

  kept :
      (above : FuseNode) (base : List ℕ) (i : ℕ) (g : FileDescription) (n : FuseNode)
      → get_elem? b.tree_list (up - 1) ≡ some above
      → get_elem? b.tree_list (suc i) ≡ some n
      → Shows i g n
      → (n' : FuseNode) × (get_elem? (next_builder above base).tree_list (suc i) ≡ some n')
        × Shows i g n'
  unfolding add_child
  kept above base i g n e there s =
      let child = add_child above (length b.tree_list + 1) in
      let front = set b.tree_list (up - 1) child in
      let stays : get_elem? (front ++ (new_node base ∷ [])) (suc i) ≡ get_elem? front (suc i) =
        get_elem?-append_left front (new_node base ∷ []) (suc i) (
          omega (
            arith,
            get_elem?_lt b.tree_list (suc i) n there,
            length-set b.tree_list (up - 1) child,
          )) in
      elim (ℕ_discrete (suc i) (up - 1)) [
        | no ne ↦ (
          n,
          stays ∙ get_elem?-set_ne b.tree_list (up - 1) (suc i) child (λ q. ne (sym q)) ∙ there,
          s,
        )
        | yes same ↦
            let n≡above : n ≡ above = cc (there, e, ap (get_elem? b.tree_list) same) in
            (
              child,
              stays
                  ∙ ap (get_elem? front) same
                  ∙ get_elem?-set_self b.tree_list (up - 1) child
                      (get_elem?_lt b.tree_list (up - 1) above e),
              let s' : Shows i g above = rw n≡above at s in
                  record {
                    index = s'.index;
                    conn_id = s'.conn_id;
                    kind = s'.kind;
                    size = s'.size;
                    perm = s'.perm;
                    last_modified = s'.last_modified;
                    last_metadata_changed = s'.last_metadata_changed;
                    creation_time = s'.creation_time;
                    name = s'.name;
                  },
            )
      ]

  shown_new :
      (base : List ℕ) (i : ℕ) (g : FileDescription)
      → i ≡ length seen
      → g ≡ f
      → file_name path ≡ some base
      → Shows i g (new_node base)
  unfolding node_of from_description
  shown_new base i g last same e' = rw same (record {
    index = omega (arith, built.count);
    conn_id = refl;
    kind = refl;
    size = refl;
    perm = refl;
    last_modified = refl;
    last_metadata_changed = refl;
    creation_time = refl;
    name = e';
  })

  Shows-next :
      (above : FuseNode) (base : List ℕ)
      → get_elem? b.tree_list (up - 1) ≡ some above
      → file_name path ≡ some base
      → (i : ℕ) (g : FileDescription) → get_elem? (seen ++ (f ∷ [])) i ≡ some g
      → (n : FuseNode) × (get_elem? (next_builder above base).tree_list (suc i) ≡ some n)
        × Shows i g n
  Shows-next above base e e' i g h = elim (get_elem?-snoc seen f g i h) [
    | inl (last, same) ↦
        (new_node base, get_last above base i last, shown_new base i g last same e')
    | inr old ↦ let (n, there, shown) = built.shows i g old in kept above base i g n e there shown
  ]

  pub Built-next :
      (above : FuseNode) (base : List ℕ)
      → get_elem? b.tree_list (up - 1) ≡ some above
      → file_name path ≡ some base
      → Built (seen ++ (f ∷ [])) (next_builder above base)
  unfolding node_of from_description
  Built-next above base e e' = record {
    tree =
        IsTree-grow b.tree_list (up - 1) above (new_node base) built.tree e refl refl
          (ap some (omega (arith, up_range))) refl;
    count = omega (arith, built.count, length-append seen (f ∷ []), length-next above base);
    roots = roots_next above base;
    shows = Shows-next above base e e';
  }
