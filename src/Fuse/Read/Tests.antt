-- ===== src/Fuse/Read/Tests.antt =====
-- A read of fuse.rs whose first reply refuses and whose second one answers.
use pc_trade.Prelude.{ℕ, ◌≡◌, ◌≤◌, refl, List, [], ◌∷◌, none, false, ok, length, All}
use pc_trade.Cliprdr.{ClipboardFile, file_contents_response}
use pc_trade.Fuse.Node.{FuseNode, file}
use pc_trade.Fuse.Read.{request_for, read_node}
use pc_trade.Fuse.Read.Replies.{Answer, read_node_lem}

abbrev node : FuseNode
node = record {
  conn_id = 7;
  stream_id = 9;
  index = 0;
  name = b'a' ∷ [];
  parent = none;
  attributes = record {
    inode = 2;
    size = 5;
    last_accessed = 0;
    last_modified = 0;
    last_metadata_changed = 0;
    creation_time = 0;
    kind = file;
    perm = 0;
  };
  children = [];
  file_handlers = record { handlers = []; gc = false };
}

abbrev replies : List ClipboardFile
replies =
    file_contents_response 2 9 []
    ∷ file_contents_response 1 8 (6 ∷ [])
    ∷ file_contents_response 1 9 (5 ∷ [])
    ∷ []

answered : (read_node node 0 5 replies).result ≡ ok (5 ∷ [])
unfolding read_node
answered = refl

asked_twice : length (read_node node 0 5 replies).sent ≡ 2
unfolding read_node
asked_twice = refl

read_node_lem_example :
    (length (read_node node 0 5 replies).sent ≤ 4)
    × All (λ m. m ≡ request_for node 0 5) (read_node node 0 5 replies).sent
    × ((bytes : List ℕ) → (read_node node 0 5 replies).result ≡ ok bytes → Answer 9 bytes replies)
read_node_lem_example = read_node_lem node 0 5 replies
