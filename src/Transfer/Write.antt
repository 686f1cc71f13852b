-- ===== src/Transfer/Write.antt =====
-- `write` of `TransferJob` in fs.rs, and what it calls: the receiving side of a transfer.
use pc_trade.Prelude.{
  ℕ, ◌+◌, ◌%◌, ◌^◌, List, [], ◌∷◌, ◌++◌, Option, none, some, Bool, true, false, not, Result, ok,
  err, ◌==◌, ◌||◌, if◌then◌else◌, length, get_elem?,
}
use pc_trade.Cliprdr.{sign_extend}
use pc_trade.Transfer.Job.{
  TransferJob, FileEntry, FileTransferBlock, Error, wrong_id, wrong_file_number, no_file, io_error,
}
use pc_trade.Transfer.Outside.{Outside}

-- What a step answers, the job after it and the world after it.
pub record Step (W F A : Type 0) : Type 0 where
  pub result : Result Error A
  pub job : TransferJob F
  pub world : W

abbrev pub step : {W F A : Type 0} → Result Error A → TransferJob F → W → Step W F A
step r j w = record { result = r; job = j; world = w }

-- ".download"
abbrev pub dot_download : List ℕ
dot_download = b'.' ∷ b'd' ∷ b'o' ∷ b'w' ∷ b'n' ∷ b'l' ∷ b'o' ∷ b'a' ∷ b'd' ∷ []

module _ {W F : Type 0} (o : Outside W F) where
  unfoldable pub join : TransferJob F → List ℕ → List ℕ
  join job [] = job.path
  join job (c ∷ cs) = o.join_path job.path (c ∷ cs)

  unfoldable pub modify_time : TransferJob F → W → W
  unfolding join
  modify_time job w = elim (get_elem? job.files (sign_extend job.file_num)) [
    | none ↦ w
    | some entry ↦
        let path = join job entry.name in
        o.set_file_mtime path entry.modified_time (o.rename (path ++ dot_download) path w)
  ]

  unfoldable pub remove_download_file : TransferJob F → W → W
  unfolding join
  remove_download_file job w = elim (get_elem? job.files (sign_extend job.file_num)) [
    | none ↦ w
    | some entry ↦ o.remove_file (join job entry.name ++ dot_download) w
  ]

  -- `if let Some(file) = self.file.as_mut() { file.sync_all().await?; }`
  abbrev pub sync_open : Option F → W → Bool × W
  sync_open none w = (true, w)
  sync_open (some file) w = o.sync_all file w

  abbrev pub create_parent : List ℕ → W → W
  create_parent path w = elim (o.parent path) [ none ↦ w | some p ↦ o.create_dir_all p w ]

  abbrev pub created_as : TransferJob F → Option F × W → Step W F Unit
  created_as job (none, w) = step (err io_error) job w
  created_as job (some f, w) = step (ok tt) (record job { file = some f }) w

  abbrev pub synced_as : TransferJob F → ℕ → FileEntry → Bool × W → Step W F Unit
  synced_as job file_num entry (false, w) = step (err io_error) job w
  synced_as job file_num entry (true, w) =
      let job = record job { file_num = file_num } in
      let path = join job entry.name in
      created_as job (o.create (path ++ dot_download) (create_parent path w))

  -- the switch to another file: the one before it gets its name and time, the new one is created
  unfoldable pub switch : TransferJob F → ℕ → FileEntry → W → Step W F Unit
  unfolding join modify_time
  switch job file_num entry w =
      synced_as job file_num entry (sync_open job.file (modify_time job w))

  -- the bytes that a block stands for
  abbrev pub contents : FileTransferBlock → List ℕ
  contents b = if b.compressed then o.decompress b.bytes else b.bytes

  abbrev pub counted : TransferJob F → FileTransferBlock → TransferJob F
  counted job b = record job {
    finished_size = (job.finished_size + length (contents b)) % 2 ^ 64;
    transferred = (job.transferred + length b.bytes) % 2 ^ 64;
  }

  abbrev pub written_as : TransferJob F → FileTransferBlock → Bool × W → Step W F Unit
  written_as job b (false, w) = step (err io_error) job w
  written_as job b (true, w) = step (ok tt) (counted job b) w

  abbrev pub write_to : Option F → TransferJob F → FileTransferBlock → W → Step W F Unit
  write_to none job b w = step (err no_file) job w
  write_to (some f) job b w = written_as job b (o.write_all f (contents b) w)

  unfoldable pub write_block : TransferJob F → FileTransferBlock → W → Step W F Unit
  write_block job b w = write_to job.file job b w

  abbrev pub is_closed : Option F → Bool
  is_closed none = true
  is_closed (some f) = false

  -- `file_num != self.file_num as usize || self.file.is_none()`
  abbrev pub must_switch : TransferJob F → ℕ → Bool
  must_switch job file_num =
      not (sign_extend file_num == sign_extend job.file_num) || is_closed job.file

  -- the block after the switch, which an error of the switch ends
  abbrev pub switched_as :
      FileTransferBlock → Result Error (Unit {0}) → TransferJob F → W → Step W F Unit
  switched_as b (err e) job w = step (err e) job w
  switched_as b (ok u) job w = write_block job b w

  abbrev pub write_entry : Option FileEntry → TransferJob F → FileTransferBlock → W → Step W F Unit
  write_entry none job b w = step (err wrong_file_number) job w
  write_entry (some entry) job b w =
      if must_switch job b.file_num
      then (let s = switch job b.file_num entry w in switched_as b s.result s.job s.world)
      else write_block job b w

  unfoldable pub write : TransferJob F → FileTransferBlock → W → Step W F Unit
  unfolding switch write_block
  write job b w =
      if b.id == job.id
      then write_entry (get_elem? job.files (sign_extend b.file_num)) job b w
      else step (err wrong_id) job w
