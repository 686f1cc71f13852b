-- ===== src/Context/Paste.antt =====
-- Copy on one side and paste on the other, through unix/mod.rs, local_file.rs and fuse.rs.
use pc_trade.Prelude.{
  ℕ, zero, suc, ◌+◌, ◌%◌, ◌^◌, ◌≤◌, ◌<◌, ◌≡◌, refl, ap, List, [], ◌∷◌, Option, none, some, true, ok,
  arith, length, get_elem?, get_elem?_in, map, All, inl, inr,
}
use pc_trade.Cliprdr.{monitor_ready, format_data_response}
use pc_trade.Fuse.Node.{FileDescription, FuseNode, Outside}
use pc_trade.Fuse.Tree.{build_tree}
use pc_trade.Fuse.Tree.Shape.{IsTree, holds}
use pc_trade.Fuse.Tree.Build.{HasName, Shows}
use pc_trade.Fuse.Tree.Loop.{build_tree_outcome, build_tree-IsTree, build_tree-Shows}
use pc_trade.Fuse.Server.{FuseServer, load_file_list, list_root, child_names, slot}
use pc_trade.Fuse.Descriptor.{parse_file_descriptors}
use pc_trade.LocalFile.{LocalFile}
use pc_trade.LocalFile.RoundTrip.{Readable, described, parse_file_descriptors-build}
use pc_trade.Context.{
  System, Context, Outcome, same_paths, sync_local_files, send_file_list, serve_format_data,
  serve_message,
}

-- Inodes in range have names.
child_names_total :
    (files : List FuseNode) (inodes : List ℕ)
    → length files < 2 ^ 64
    → ((k : ℕ) → holds inodes k ≡ true → (1 ≤ k) × (k ≤ length files))
    → (names : List (List ℕ)) × (child_names files inodes ≡ some names)
child_names_total files [] few inside = ([], refl)
child_names_total files (k ∷ ks) few inside =
    let (low, high) = inside k (here k ks) in
    let (n, there) = get_elem?_in files (slot k) (slot_in k (length files) few low high) in
    let (names, rest) = child_names_total files ks few (λ j h. inside j (later j k ks h)) in
    (n.name ∷ names, rw (there, rest, child_names) refl)
  where
    slot_in : (k n : ℕ) → n < 2 ^ 64 → 1 ≤ k → k ≤ n → slot k < n
    slot_in k n few low high = omega arith

    here : (k : ℕ) (ks : List ℕ) → holds (k ∷ ks) k ≡ true
    here k ks = ground arith

    later : (j k : ℕ) (ks : List ℕ) → holds ks j ≡ true → holds (k ∷ ks) j ≡ true
    later j k ks h = ground arith

-- The root of a tree can be listed.
list_root_total :
    (s : FuseServer)
    → IsTree s.files
    → 1 ≤ length s.files
    → length s.files < 2 ^ 64
    → (names : List (List ℕ)) × (list_root s ≡ some names)
unfolding list_root
list_root_total s tree some_node few = rooted s.files tree some_node few
  where
    rooted :
        (files : List FuseNode)
        → IsTree files
        → 1 ≤ length files
        → length files < 2 ^ 64
        → (names : List (List ℕ)) × (elim files as (λ _. Option (List (List ℕ))) [
          | [] ↦ none
          | root ∷ _ ↦ child_names files root.children
        ]
            ≡ some names)
    rooted [] tree h few = absurd (omega arith)
    rooted (root ∷ rest) tree h few =
        let fits = tree.fits 0 root refl in
        child_names_total (root ∷ rest) root.children few
          (λ k inside. let (low, high) = fits.children k inside in (omega arith, high))

-- What `load_file_list` leaves when the nodes can be built.
load_built :
    (o : Outside) (s : FuseServer) (files : List FileDescription) (nodes : List FuseNode)
    → build_tree o files ≡ ok nodes
    → load_file_list o s files
      ≡ ok (record s { files = nodes; generation = (s.generation + 1) % 2 ^ 64 })
unfolding load_file_list
load_built o s files nodes e = rw (e, load_file_list) refl

length-map-described :
    (conn_id : ℕ) (files : List LocalFile) → length (map (described conn_id) files) ≡ length files
length-map-described conn_id [] = refl
length-map-described conn_id (f ∷ fs) = ap suc (length-map-described conn_id fs)

get_elem?-map-described :
    (conn_id : ℕ) (files : List LocalFile) (i : ℕ) (f : LocalFile)
    → get_elem? files i ≡ some f
    → get_elem? (map (described conn_id) files) i ≡ some (described conn_id f)
get_elem?-map-described conn_id [] i f e = cc
get_elem?-map-described conn_id (g ∷ fs) zero f e =
    ap (λ (x : Option LocalFile). elim x [ none ↦ none | some y ↦ some (described conn_id y) ]) e
get_elem?-map-described conn_id (g ∷ fs) (suc i) f e = get_elem?-map-described conn_id fs i f e

module _ (encode_utf16 : List ℕ → List ℕ) (decode_utf16 : List ℕ → Option (List ℕ)) (o o' : Outside)
    (sys sys' : System) where
  -- The peer shows the files of a list: a tree with one node for each.
  pub record Pasted (files : List LocalFile) (conn_id : ℕ) (after : Outcome) : Type 0 where
    pub tree : IsTree after.context.fuse.files
    pub count : length after.context.fuse.files ≡ length files + 1
    pub shows :
        (i : ℕ) (f : LocalFile)
        → get_elem? files i ≡ some f
        → (n : FuseNode) × (get_elem? after.context.fuse.files (suc i) ≡ some n)
          × Shows i (described conn_id f) n
    pub accepted : sys'.takes_list ≡ true → after.result ≡ ok tt

  -- The list is parsed, and its nodes are built.
  paste_built :
      (b : Context) (conn_id : ℕ) (files : List LocalFile) (pdu : List ℕ) (nodes : List FuseNode)
      → length files < 2 ^ 32
      → parse_file_descriptors decode_utf16 pdu conn_id ≡ ok (map (described conn_id) files)
      → build_tree o' (map (described conn_id) files) ≡ ok nodes
      → length nodes ≡ length (map (described conn_id) files) + 1
      → Pasted files conn_id
          (serve_message encode_utf16 decode_utf16 o' sys' b conn_id (format_data_response 1 pdu))
  unfolding serve_message serve_format_data
  paste_built b conn_id files pdu nodes few parsed built count =
      let list = map (described conn_id) files in
      let tree = build_tree-IsTree o' list nodes built in
      let same = length-map-described conn_id files in
      let fuse : FuseServer = record b.fuse {
        files = nodes;
        generation = (b.fuse.generation + 1) % 2 ^ 64;
      } in
      let (names, listed) = list_root_total fuse tree (omega arith) (omega arith) in
      rw (parsed, load_built o' b.fuse list nodes built, listed)
        (record {
          tree = tree;
          count = omega arith;
          shows = λ i f there.
              build_tree-Shows o' list nodes i (described conn_id f) built
                (get_elem?-map-described conn_id files i f there);
          accepted = λ takes. rw takes refl;
        })

  -- A peer whose list of files is in step with its clipboard answers `MonitorReady` with the list; the
  -- other peer, on that answer, does not fail, and then shows the files: as a tree with one node for
  -- each and one for the root, where the file at place `i` of the list has the place `i + 1`, keeps
  -- `i` as the index under which its content is asked for, and has the file's kind, size, time and
  -- low mode bits, and its last name. (For fewer than 2 ^ 32 readable files whose paths end in a
  -- name, if the system's clipboard takes the pasted paths.)
  pub paste_lem :
      (a b : Context) (conn_id conn_id' : ℕ)
      → same_paths a.local_files sys.file_list ≡ true
      → All (Readable encode_utf16 decode_utf16 conn_id) a.local_files
      → All HasName (map (described conn_id) a.local_files)
      → length a.local_files < 2 ^ 32
      → (pdu : List ℕ) × ((serve_message encode_utf16 decode_utf16 o sys a conn_id'
            monitor_ready).sent
          ≡ format_data_response 1 pdu ∷ [])
        × Pasted a.local_files conn_id
            (serve_message encode_utf16 decode_utf16 o' sys' b conn_id (format_data_response 1 pdu))
  unfolding serve_message send_file_list sync_local_files
  paste_lem a b conn_id conn_id' in_step readable named few =
      let files = a.local_files in
      let (pdu, put, parsed) =
        parse_file_descriptors-build encode_utf16 decode_utf16 conn_id files readable few in
      elim (build_tree_outcome o' (map (described conn_id) files)) [
        | inl (nodes, built, count, all) ↦ (
          pdu,
          rw (in_step, put) refl,
          paste_built b conn_id files pdu nodes few parsed built count,
        )
        | inr (failed, unnamed) ↦ absurd (unnamed named)
      ]
