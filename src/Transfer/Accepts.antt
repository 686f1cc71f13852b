-- ===== src/Transfer/Accepts.antt =====
-- What `write` of `TransferJob` in fs.rs does with a block.
use pc_trade.Prelude.{ℕ, ◌+◌, ◌%◌, ◌^◌, ◌≡◌, List, ◌++◌, some, Bool, true, false, length, get_elem?}
use pc_trade.Cliprdr.{sign_extend}
use pc_trade.Transfer.Job.{TransferJob, FileEntry, FileTransferBlock}
use pc_trade.Transfer.Outside.{Outside}
use pc_trade.Transfer.Write.{
  Step, join, sync_open, create_parent, modify_time, dot_download, must_switch,
}

-- The bytes that a block of compressed or of plain bytes stands for
abbrev pub plain_of : (decompress : List ℕ → List ℕ) → (compressed : Bool) → List ℕ → List ℕ
plain_of decompress true bytes = decompress bytes
plain_of decompress false bytes = bytes

-- The file that a block is written to, in the world at that time: the open file of the job, if that is
-- the block's; or the new one of the block's number, after the file before it was brought to the disk
-- and got its name and time.
pub data Opened {W F : Type 0} (o : Outside W F) (job : TransferJob F) (b : FileTransferBlock)
    (w : W) (file : F) (w1 : W) : Type 0 where
  current :
      sign_extend job.file_num ≡ sign_extend b.file_num
      → job.file ≡ some file
      → w1 ≡ w
      → Opened o job b w file w1
  created :
      (entry : FileEntry) (synced : W)
      → must_switch o job b.file_num ≡ true
      → get_elem? job.files (sign_extend b.file_num) ≡ some entry
      → sync_open o job.file (modify_time o job w) ≡ (true, synced)
      → o.create
          (join o job entry.name ++ dot_download)
          (create_parent o (join o job entry.name) synced)
        ≡ (some file, w1)
      → Opened o job b w file w1

-- The bytes of the block were written to the file of its number, which stays open, and are counted.
pub record Accepted {W F : Type 0} (o : Outside W F) (job : TransferJob F) (b : FileTransferBlock)
    (w : W) (out : Step W F Unit) : Type 0 where
  pub file : F
  pub w1 : W
  pub opened : Opened o job b w file w1
  pub written : o.write_all file (plain_of o.decompress b.compressed b.bytes) w1 ≡ (true, out.world)
  pub stays_open : out.job.file ≡ some file
  pub number : sign_extend out.job.file_num ≡ sign_extend b.file_num
  pub files : out.job.files ≡ job.files
  pub finished :
      out.job.finished_size
      ≡ (job.finished_size + length (plain_of o.decompress b.compressed b.bytes)) % 2 ^ 64
  pub sent : out.job.transferred ≡ (job.transferred + length b.bytes) % 2 ^ 64

module _ {W F : Type 0} (o : Outside W F) where
  -- What a switch keeps of a job.
  SameCounts : (job mid : TransferJob F) → FileTransferBlock → Type 0
  SameCounts job mid b =
      (sign_extend mid.file_num ≡ sign_extend b.file_num)
      × (mid.files ≡ job.files)
      × (mid.finished_size ≡ job.finished_size)
      × (mid.transferred ≡ job.transferred)
