-- ===== src/Transfer/RelayTests.antt =====
-- A file on its way through the jobs of libs/hbb_common/src/fs.rs, where the world of the sender is
-- what is left of its file, and the world of the receiver what was written.
use mathlib.Core.Path.{sym}
use pc_trade.Prelude.{
  ℕ, zero, suc, ◌≤◌, ◌≡◌, ◌⊎◌, inl, inr, refl, List, [], ◌∷◌, ◌++◌, none, some, true, false, arith,
  length, take, drop, take-append-drop, length-take,
}
use pc_trade.Transfer.Job.{FileEntry, TransferJob, plain}
use pc_trade.Transfer.Outside.{Outside}
use pc_trade.Transfer.Blocks.{Reads, Writes, Relayed, relay}
use pc_trade.Transfer.Sides.{IsSending, IsTaking}
use pc_trade.Transfer.Relay.{Arrived, relay_lem}

abbrev moving : Outside (List ℕ) (List ℕ)
moving = record {
  open_file = λ path w. (some path, w);
  read_some = λ f n w. (some (take n w), drop n w);
  metadata = λ f w. (some (3, 10), w);
  create = λ path w. (some path, w);
  write_all = λ f bytes w. (true, w ++ bytes);
  sync_all = λ f w. (true, w);
  rename = λ from to w. w;
  set_file_mtime = λ path t w. w;
  create_dir_all = λ path w. w;
  remove_file = λ path w. w;
  send = λ m w. (true, w);
  join_path = λ path name. path ++ name;
  parent = λ path. none;
  compress = λ bytes. bytes;
  decompress = λ bytes. bytes;
}

abbrev world : List ℕ → List ℕ → List ℕ
world f w = w

some_byte : (n : ℕ) (w : List ℕ) → (1 ≤ length (take n w)) ⊎ (n ≡ 0) ⊎ (w ≡ [])
some_byte zero w = inr (inl refl)
some_byte (suc n) [] = inr (inr refl)
some_byte (suc n) (x ∷ w) = inl (omega arith)

moving-Reads : Reads moving world
moving-Reads = record {
  some_read = λ f n w. (
    take n w,
    drop n w,
    refl,
    sym (take-append-drop n w),
    omega (arith, length-take n w),
    some_byte n w,
  );
}

moving-Writes : Writes moving world
moving-Writes = record { all_written = λ g bytes w. (w ++ bytes, refl, refl) }

abbrev entry : FileEntry
entry = record {
  entry_type = plain;
  name = b'a' ∷ [];
  is_hidden = false;
  size = 3;
  modified_time = 3;
}

abbrev job : TransferJob (List ℕ)
job = record {
  id = 4;
  remote = [];
  path = b'd' ∷ [];
  show_hidden = false;
  is_remote = false;
  is_last_job = false;
  file_num = 0;
  files = entry ∷ [];
  conn_id = 0;
  file = some (b'd' ∷ b'a' ∷ []);
  total_size = 3;
  finished_size = 0;
  transferred = 0;
  enable_overwrite_detection = true;
  is_confirmed = true;
  is_skipped = false;
  is_waiting = false;
  default_overwrite_strategy = none;
}

job-IsSending : IsSending moving job (b'd' ∷ b'a' ∷ []) entry
job-IsSending = record { open_file = refl; free = refl; listed = refl }

job-IsTaking : IsTaking moving job (b'd' ∷ b'a' ∷ []) 4 0
job-IsTaking = record {
  open_file = refl;
  same_id = refl;
  same_number = refl;
  entry = entry;
  listed = refl;
}

relay_lem_example :
    (after : Relayed (List ℕ) (List ℕ) (List ℕ) (List ℕ)) × (relay moving moving 9 job
        (1 ∷ 2 ∷ 3 ∷ [])
        job
        (7 ∷ [])
      ≡ some after)
    × Arrived moving moving world world (b'd' ∷ b'a' ∷ []) (1 ∷ 2 ∷ 3 ∷ []) (7 ∷ []) job job after
relay_lem_example =
    relay_lem moving moving world world moving-Reads moving-Writes (λ bytes. refl) 9 job
      (b'd' ∷ b'a' ∷ []) entry (1 ∷ 2 ∷ 3 ∷ []) job (b'd' ∷ b'a' ∷ []) (7 ∷ []) job-IsSending
      job-IsTaking (omega arith)
