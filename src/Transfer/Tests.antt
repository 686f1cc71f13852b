-- ===== src/Transfer/Tests.antt =====
-- The jobs of fs.rs with a small file system: the world is what was written.
use pc_trade.Prelude.{
  ℕ, ◌≡◌, ◌≢◌, ◌⊎◌, refl, List, [], ◌∷◌, ◌++◌, none, some, Bool, true, false, not, ok, take,
}
use pc_trade.Transfer.Job.{
  FileEntry, TransferJob, plain, FileTransferBlock, FileTransferSendConfirmRequest, ConfirmUnion,
  skip, confirm,
}
use pc_trade.Transfer.Outside.{Outside}
use pc_trade.Transfer.Listing.{
  Stat, Node, node, unlisted, no_more, also, get_recursive_files, need_confirm,
  is_write_need_confirmation,
}
use pc_trade.Transfer.Write.{write}
use pc_trade.Transfer.Confirm.{Answered, confirm_lem}

-- A file is its path; every file holds ten bytes for ever.
abbrev ten : List ℕ
ten = 1 ∷ 2 ∷ 3 ∷ 4 ∷ 5 ∷ 6 ∷ 7 ∷ 8 ∷ 9 ∷ 10 ∷ []

abbrev small : Outside (List ℕ) (List ℕ)
small = record {
  open_file = λ path w. (some path, w);
  read_some = λ f n w. (some (take n ten), w);
  metadata = λ f w. (some (3, 10), w);
  create = λ path w. (some path, w);
  write_all = λ f bytes w. (true, w ++ bytes);
  sync_all = λ f w. (true, w);
  rename = λ from to w. w;
  set_file_mtime = λ path t w. w;
  create_dir_all = λ path w. w;
  remove_file = λ path w. w;
  send = λ m w. (true, w);
  join_path = λ path name. path ++ name;
  parent = λ path. none;
  compress = λ bytes. bytes;
  decompress = λ bytes. bytes;
}

abbrev job : TransferJob (List ℕ)
job = record {
  id = 4;
  remote = [];
  path = b'd' ∷ [];
  show_hidden = false;
  is_remote = false;
  is_last_job = false;
  file_num = 0;
  files =
      record {
        entry_type = plain;
        name = b'a' ∷ [];
        is_hidden = false;
        size = 10;
        modified_time = 3;
      }
      ∷ [];
  conn_id = 0;
  file = none;
  total_size = 10;
  finished_size = 0;
  transferred = 0;
  enable_overwrite_detection = true;
  is_confirmed = false;
  is_skipped = false;
  is_waiting = true;
  default_overwrite_strategy = none;
}

abbrev first_block : FileTransferBlock
first_block = record { id = 4; file_num = 0; bytes = ten; compressed = false }

written_ten : (write small job first_block []).world ≡ ten
unfolding write
written_ten = refl

abbrev skip_it : FileTransferSendConfirmRequest
skip_it = record { id = 4; file_num = 0; union = some (skip true) }

confirm_lem_example :
    ((u : ConfirmUnion) × (job.file_num ≡ 0)
      × (some (skip true) ≡ some u)
      × Answered job u (confirm job skip_it))
    ⊎ (((job.file_num ≢ 0) ⊎ (some (skip true) ≡ none)) × (confirm job skip_it ≡ job))
confirm_lem_example = confirm_lem job skip_it

abbrev no_link : (is_dir : Bool) → ℕ → Stat
no_link is_dir len = record {
  meta = some (record { is_symlink = false; len = len; modified = some 9 });
  target = some (record { is_symlink = false; len = len; modified = some 9 });
  is_dir = is_dir;
  is_file = not is_dir;
}

-- A directory with a file, a hidden file and a directory with a file.
abbrev disk : Node
disk = node (b't' ∷ []) (no_link true 0) (
    also (node (b'a' ∷ []) (no_link false 5) unlisted) (
      also (node (b'.' ∷ b'h' ∷ []) (no_link false 6) unlisted) (
        also
          (node (b'd' ∷ []) (no_link true 0)
            (also (node (b'e' ∷ []) (no_link false 7) unlisted) no_more))
          no_more)))

abbrev plain_file : List ℕ → ℕ → FileEntry
plain_file name size = record {
  entry_type = plain;
  name = name;
  is_hidden = false;
  size = size;
  modified_time = 9;
}

listed :
    get_recursive_files (λ prefix name. prefix ++ (b'/' ∷ name)) disk false
    ≡ ok (plain_file (b'/' ∷ b'a' ∷ []) 5 ∷ plain_file (b'/' ∷ b'd' ∷ b'/' ∷ b'e' ∷ []) 7 ∷ [])
unfolding get_recursive_files
listed = refl

-- A file with the same second and length is the same only if it has no nanoseconds.
compared :
    (is_write_need_confirmation
        (some (record { len = 4; modified = some (9, 0) }))
        (record { id = 1; file_num = 0; last_modified = 9; file_size = 4 })
      ≡ ok (need_confirm (record { id = 1; file_num = 0; last_modified = 9; file_size = 4 }) true))
    × (is_write_need_confirmation
          (some (record { len = 4; modified = some (9, 5) }))
          (record { id = 1; file_num = 0; last_modified = 9; file_size = 4 })
        ≡ ok (
            need_confirm (record { id = 1; file_num = 0; last_modified = 9; file_size = 4 }) false))
unfolding is_write_need_confirmation
compared = (refl, refl)
