-- ===== src/Fuse/Server/Tests.antt =====
-- The server of fuse.rs on one file, whose handle 0 is open.
use pc_trade.Prelude.{zero, suc, ◌≡◌, refl, sym, [], ◌∷◌, none, some, false, arith}
use pc_trade.Cliprdr.{Failure}
use pc_trade.Fuse.Path.{components, parent, file_name, split_on, key_eq}
use pc_trade.Fuse.Node.{
  FileDescription, Outside, from_description, attributes_from, new_root, new_attributes, add_child,
}
use pc_trade.Fuse.Tree.{build_tree, add_files, add_file, find_root, start, parent_inode_of}
use pc_trade.Fuse.Server.{new, load_file_list}
use pc_trade.Fuse.Server.Runs.{Call, call_open, call_release, call_opendir, run, run-IsServing}
use pc_trade.Prelude.{◌≤◌, Result, ok, err, List}
use pc_trade.Fuse.Handles
use pc_trade.Fuse.Handles.{have_handler}
use pc_trade.Fuse.Handles.Sorted.{IsGood}
use pc_trade.Fuse.Node.{FuseNode, file}
use pc_trade.Fuse.Server.{FuseServer, opened, open_file}
use pc_trade.Fuse.Server.Invariant.{IsServing}

abbrev file_node : FuseNode
file_node = record {
  conn_id = 7;
  stream_id = 9;
  index = 0;
  name = b'a' ∷ [];
  parent = none;
  attributes = record {
    inode = 1;
    size = 5;
    last_accessed = 0;
    last_modified = 0;
    last_metadata_changed = 0;
    creation_time = 0;
    kind = file;
    perm = 0;
  };
  children = [];
  file_handlers = record { handlers = 0 ∷ []; gc = false };
}

abbrev server : FuseServer
server = record { generation = 1; files = file_node ∷ []; file_handle_counter = 1 }

server-IsServing : IsServing server
server-IsServing zero n e = good n (some_inj e)
  where
    some_inj : {a b : FuseNode} → some a ≡ some b → a ≡ b
    some_inj e = cc

    good : (n : FuseNode) → file_node ≡ n → IsGood 1 n.file_handlers
    good n e = rw (sym e) (record { sorted = (tt, tt); below = (omega arith, tt); live = refl })
server-IsServing (suc i) n e = cc

open_one : (open_file server 1).0 ≡ opened 1
unfolding open_file Handles.marked Handles.add_handler
open_one = refl

abbrev calls : List Call
calls = call_open 1 ∷ call_release 1 0 ∷ call_opendir 1 ∷ call_release 1 7 ∷ []

run-IsServing_example :
    IsServing (run server calls)
    × (1 ≤ (run server calls).file_handle_counter)
    × ((run server calls).file_handle_counter ≤ 5)
run-IsServing_example = run-IsServing server calls server-IsServing (omega arith)

abbrev outside : Outside
outside = record { now = 1000; random = λ i. i }

abbrev described : FileDescription
described = record {
  conn_id = 3;
  name = b'f' ∷ [];
  kind = file;
  atime = 0;
  last_modified = 0;
  last_metadata_changed = 0;
  creation_time = 0;
  size = 10;
  perm = 0;
}

abbrev server_of : Result Failure FuseServer → FuseServer
server_of (ok s) = s
server_of (err e) = new

abbrev after_load : FuseServer
unfolding load_file_list
after_load = server_of (load_file_list outside server (described ∷ []))

load_one : load_file_list outside server (described ∷ []) ≡ ok after_load
unfolding load_file_list build_tree add_files add_file find_root parent_inode_of key_eq start
    components parent file_name split_on from_description attributes_from new_root new_attributes
    add_child
load_one = refl
