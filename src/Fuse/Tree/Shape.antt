-- ===== src/Fuse/Tree/Shape.antt =====
-- The list of nodes that `build_tree` of fuse.rs makes is a tree.
use pc_trade.Prelude.{
  ℕ, ◌+◌, ◌≤◌, ◌<◌, ◌≡◌, ◌≢◌, ap, sym, ◌∙◌, List, [], ◌∷◌, ◌++◌, Option, none, some, Bool, true,
  false, arith, ◌==◌, ◌||◌, length, get_elem?, set, inl, inr, length-append, length-set, Bool-cases,
  Option-cases, get_elem?-snoc, get_elem?-set, get_elem?_lt,
}
use pc_trade.Fuse.Handles
use pc_trade.Fuse.Node.{FuseNode, add_child}

abbrev pub holds : List ℕ → ℕ → Bool
holds [] x = false
holds (y ∷ ys) x = y == x || holds ys x

abbrev pub is_just : Option ℕ → ℕ → Bool
is_just none x = false
is_just (some y) x = y == x

-- The node at place `i` of `len` nodes: its inode is its place, its children come after it, and its
-- parent before it; the first node has none.
pub record NodeFits (len i : ℕ) (n : FuseNode) : Type 0 where
  pub inode : n.attributes.inode ≡ i + 1
  pub children : (k : ℕ) → holds n.children k ≡ true → (i + 1 < k) × (k ≤ len)
  pub parent : (p : ℕ) → n.parent ≡ some p → (1 ≤ p) × (p ≤ i)
  pub handlers : n.file_handlers ≡ Handles.new

-- Every node fits its place, and children and parents agree.
pub record IsTree (nodes : List FuseNode) : Type 0 where
  pub fits : (i : ℕ) (n : FuseNode) → get_elem? nodes i ≡ some n → NodeFits (length nodes) i n
  pub linked :
      (i c : ℕ) (n m : FuseNode)
      → get_elem? nodes i ≡ some n
      → get_elem? nodes c ≡ some m
      → holds n.children (c + 1) ≡ is_just m.parent (i + 1)

holds-snoc : (xs : List ℕ) (y x : ℕ) → holds (xs ++ (y ∷ [])) x ≡ holds xs x || y == x
holds-snoc [] y x = ground arith
holds-snoc (z ∷ xs) y x = ground (arith, holds-snoc xs y x)

-- One more node, below the node at `k`.
module _ (nodes : List FuseNode) (k : ℕ) (above new : FuseNode) (tree : IsTree nodes)
    (there : get_elem? nodes k ≡ some above) (inode : new.attributes.inode ≡ length nodes + 1)
    (childless : new.children ≡ []) (below : new.parent ≡ some (k + 1))
    (idle : new.file_handlers ≡ Handles.new) where
  grown : List FuseNode
  grown = set nodes k (add_child above (length nodes + 1)) ++ (new ∷ [])

  length-grown : length grown ≡ length nodes + 1
  unfolding grown
  length-grown = omega (
    arith,
    length-append (set nodes k (add_child above (length nodes + 1))) (new ∷ []),
    length-set nodes k (add_child above (length nodes + 1)),
  )

  -- What stands at a place of the grown list.
  data Entry (i : ℕ) (n : FuseNode) : Type 0 where
    last : i ≡ length nodes → n ≡ new → Entry i n
    host : i ≡ k → n ≡ add_child above (length nodes + 1) → Entry i n
    other : i ≢ k → get_elem? nodes i ≡ some n → Entry i n

  entry : (i : ℕ) (n : FuseNode) → get_elem? grown i ≡ some n → Entry i n
  unfolding grown
  entry i n e = elim (get_elem?-snoc (set nodes k (add_child above (length nodes + 1))) new n i e) [
    | inl (p, q) ↦ last (p ∙ length-set nodes k (add_child above (length nodes + 1))) q
    | inr old ↦ elim (get_elem?-set nodes k i (add_child above (length nodes + 1)) n old) [
      | inl (p, q) ↦ host p q
      | inr (ne, h) ↦ other ne h
    ]
  ]

  k_lt : k < length nodes
  k_lt = get_elem?_lt nodes k above there

  NodeFits-grow : (i : ℕ) (n : FuseNode) → NodeFits (length nodes) i n → NodeFits (length grown) i n
  NodeFits-grow i n f = record {
    inode = f.inode;
    children = λ c h. omega (arith, f.children c h, length-grown);
    parent = f.parent;
    handlers = f.handlers;
  }

  NodeFits-entry : (i : ℕ) (n : FuseNode) → Entry i n → NodeFits (length grown) i n
  unfolding add_child
  NodeFits-entry i n (other ne h) = NodeFits-grow i n (tree.fits i n h)
  NodeFits-entry i n (last p q) = record {
    inode = ap (λ (x : FuseNode). x.attributes.inode) q ∙ inode ∙ omega arith;
    children =
        λ c h. cc (h, ap (λ (x : FuseNode). holds x.children c) q, ap (λ t. holds t c) childless);
    parent = λ c h.
        let e : some c ≡ some (k + 1) = sym h ∙ ap (λ (x : FuseNode). x.parent) q ∙ below in
        ground (arith, k_lt);
    handlers = ap (λ (x : FuseNode). x.file_handlers) q ∙ idle;
  }
  NodeFits-entry i n (host p q) =
      let f = tree.fits k above there in
      record {
        inode = ap (λ (x : FuseNode). x.attributes.inode) q ∙ f.inode ∙ omega arith;
        children = λ c h. ground (
          arith,
          ap (λ (x : FuseNode). holds x.children c) q,
          holds-snoc above.children (length nodes + 1) c,
          f.children c,
          length-grown,
          k_lt,
        );
        parent = λ c h. ground (arith, ap (λ (x : FuseNode). x.parent) q, f.parent c);
        handlers = ap (λ (x : FuseNode). x.file_handlers) q ∙ f.handlers;
      }

  children_old :
      (i : ℕ) (n : FuseNode)
      → get_elem? nodes i ≡ some n
      → holds n.children (length nodes + 1) ≡ false
  children_old i n h = elim (Bool-cases (holds n.children (length nodes + 1))) [
    | inr e ↦ e
    | inl e ↦ absurd (omega (arith, (tree.fits i n h).children (length nodes + 1) e))
  ]

  parent_old :
      (i : ℕ) (n : FuseNode)
      → get_elem? nodes i ≡ some n
      → is_just n.parent (length nodes + 1) ≡ false
  parent_old i n h = elim (Option-cases n.parent) [
    | inl e ↦ rw e
    | inr (p, e) ↦ rw e (ground (arith, (tree.fits i n h).parent p e, get_elem?_lt nodes i n h))
  ]

  linked_entries :
      (i c : ℕ) (n m : FuseNode)
      → Entry i n
      → Entry c m
      → holds n.children (c + 1) ≡ is_just m.parent (i + 1)
  unfolding add_child
  linked_entries i c n m (other ne h) (other ne' h') = tree.linked i c n m h h'
  linked_entries i c n m (other ne h) (last p q) =
      ground (arith, children_old i n h, ap (λ (x : FuseNode). x.parent) q, below)
  linked_entries i c n m (other ne h) (host p q) =
      ground (arith, tree.linked i k n above h there, ap (λ (x : FuseNode). x.parent) q)
  linked_entries i c n m (last p q) (other ne h) =
      ground (arith, parent_old c m h, ap (λ (x : FuseNode). x.children) q, childless)
  linked_entries i c n m (last p q) (last p' q') = ground (
    arith,
    ap (λ (x : FuseNode). x.parent) q',
    below,
    ap (λ (x : FuseNode). x.children) q,
    childless,
    k_lt,
  )
  linked_entries i c n m (last p q) (host p' q') = ground (
    arith,
    ap (λ (x : FuseNode). x.parent) q',
    parent_old k above there,
    ap (λ (x : FuseNode). x.children) q,
    childless,
  )
  linked_entries i c n m (host p q) (other ne h) = ground (
    arith,
    ap (λ (x : FuseNode). x.children) q,
    holds-snoc above.children (length nodes + 1) (c + 1),
    tree.linked k c above m there h,
    get_elem?_lt nodes c m h,
  )
  linked_entries i c n m (host p q) (last p' q') = ground (
    arith,
    ap (λ (x : FuseNode). x.children) q,
    holds-snoc above.children (length nodes + 1) (c + 1),
    ap (λ (x : FuseNode). x.parent) q',
    below,
  )
  linked_entries i c n m (host p q) (host p' q') = ground (
    arith,
    ap (λ (x : FuseNode). x.children) q,
    holds-snoc above.children (length nodes + 1) (c + 1),
    tree.linked k k above above there there,
    ap (λ (x : FuseNode). x.parent) q',
    k_lt,
  )

  pub IsTree-grow : IsTree (set nodes k (add_child above (length nodes + 1)) ++ (new ∷ []))
  unfolding grown
  IsTree-grow = record {
    fits = λ i n e. NodeFits-entry i n (entry i n e);
    linked = λ i c n m e e'. linked_entries i c n m (entry i n e) (entry c m e');
  }
