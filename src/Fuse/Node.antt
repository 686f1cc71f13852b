-- ===== src/Fuse/Node.antt =====
-- The data of libs/clipboard/src/platform/fuse.rs. A time is in nanoseconds after the Unix epoch.
use pc_trade.Prelude.{
  ℕ, ◌-◌, ◌+◌, ◌*◌, ◌/◌, ◌%◌, List, [], ◌∷◌, ◌++◌, Option, none, Bool, true, false, ◌==◌,
  if◌then◌else◌,
}
use pc_trade.Fuse.Handles
use pc_trade.Fuse.Handles.{FileHandles}

pub data FileType : Type 0 where
  file directory symlink : FileType

abbrev pub is_directory : FileType → Bool
is_directory directory = true
is_directory _ = false

abbrev pub is_file : FileType → Bool
is_file file = true
is_file _ = false

abbrev pub block_size : ℕ
block_size = 4 * 1024 * 1024

abbrev pub max_name_len : ℕ
max_name_len = 255

abbrev pub read_retry : ℕ
read_retry = 3

abbrev pub fuse_root_id : ℕ
fuse_root_id = 1

abbrev pub perm_read : ℕ
perm_read = 0o444

abbrev pub perm_rw : ℕ
perm_rw = 0o644

abbrev pub perm_self_ro : ℕ
perm_self_ro = 0o400

abbrev pub perm_rwx : ℕ
perm_rwx = 0o755

-- `name` is the text of the path.
pub record FileDescription : Type 0 where
  pub conn_id : ℕ
  pub name : List ℕ
  pub kind : FileType
  pub atime : ℕ
  pub last_modified : ℕ
  pub last_metadata_changed : ℕ
  pub creation_time : ℕ
  pub size : ℕ
  pub perm : ℕ

-- `_xattrs`, which is always empty, is left out.
pub record InodeAttributes : Type 0 where
  pub inode : ℕ
  pub size : ℕ
  pub last_accessed : ℕ
  pub last_modified : ℕ
  pub last_metadata_changed : ℕ
  pub creation_time : ℕ
  pub kind : FileType
  pub perm : ℕ

pub record FuseNode : Type 0 where
  pub conn_id : ℕ
  pub stream_id : ℕ
  pub index : ℕ
  pub parent : Option ℕ
  pub name : List ℕ
  pub attributes : InodeAttributes
  pub children : List ℕ
  pub file_handlers : FileHandles

-- The attributes that the kernel is told: `From<&InodeAttributes> for fuser::FileAttr`. The user and
-- group of the process, the constant `nlink`, `rdev` and `flags` are left out.
pub record FileAttr : Type 0 where
  pub ino : ℕ
  pub size : ℕ
  pub blocks : ℕ
  pub atime : ℕ
  pub mtime : ℕ
  pub ctime : ℕ
  pub crtime : ℕ
  pub kind : FileType
  pub perm : ℕ
  pub blksize : ℕ

unfoldable pub file_attr : InodeAttributes → FileAttr
file_attr value = record {
  ino = value.inode;
  size = value.size;
  blocks =
      if value.size % block_size == 0 then value.size / block_size else value.size / block_size + 1;
  atime = value.last_accessed;
  mtime = value.last_modified;
  ctime = value.last_metadata_changed;
  crtime = value.creation_time;
  kind = value.kind;
  perm = value.perm;
  blksize = block_size;
}

-- What the source takes from outside: the clock, and a random number for each inode.
pub record Outside : Type 0 where
  pub now : ℕ
  pub random : ℕ → ℕ

unfoldable pub new_attributes : Outside → ℕ → ℕ → ℕ → FileType → InodeAttributes
new_attributes o inode size perm kind = record {
  inode = inode;
  size = size;
  last_accessed = o.now;
  last_modified = o.now;
  last_metadata_changed = o.now;
  creation_time = o.now;
  kind = kind;
  perm = perm;
}

unfoldable pub attributes_from : Outside → ℕ → FileDescription → InodeAttributes
attributes_from o inode desc = record {
  inode = inode;
  size = desc.size;
  last_accessed = o.now;
  last_modified = desc.last_modified;
  last_metadata_changed = desc.last_metadata_changed;
  creation_time = desc.creation_time;
  kind = desc.kind;
  perm = desc.perm;
}

unfoldable pub from_description : Outside → ℕ → FileDescription → FuseNode
unfolding attributes_from
from_description o inode desc = record {
  conn_id = desc.conn_id;
  stream_id = o.random inode;
  index = inode - 2;
  parent = none;
  name = desc.name;
  attributes = attributes_from o inode desc;
  children = [];
  file_handlers = Handles.new;
}

unfoldable pub new_root : Outside → FuseNode
unfolding new_attributes
new_root o = record {
  conn_id = 0;
  stream_id = o.random fuse_root_id;
  index = 0;
  parent = none;
  name = b'/' ∷ [];
  attributes = new_attributes o fuse_root_id 0 perm_rwx directory;
  children = [];
  file_handlers = Handles.new;
}

unfoldable pub add_child : FuseNode → ℕ → FuseNode
add_child n inode = record n { children = n.children ++ (inode ∷ []) }
