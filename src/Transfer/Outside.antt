-- ===== src/Transfer/Outside.antt =====
-- What the jobs of fs.rs call: the file system of std and tokio, the stream to the peer and the
-- compression, as operations that take a world and give it back.
use pc_trade.Prelude.{ℕ, List, Option, Bool}
use pc_trade.Transfer.Job.{FileTransferBlock}

-- The digest of the open file of a job.
pub record FileTransferDigest : Type 0 where
  pub id : ℕ
  pub file_num : ℕ
  pub last_modified : ℕ
  pub file_size : ℕ

-- The messages of this file that the jobs send.
pub data Message : Type 0 where
  digest : FileTransferDigest → Message
  block : FileTransferBlock → Message
  done : (id file_num : ℕ) → Message
  failed : (id file_num : ℕ) → Message
  skipped : (id file_num : ℕ) → Message

-- A call that may fail answers `false` or `none`.
pub record Outside (W F : Type 0) : Type 0 where
  pub open_file : List ℕ → W → Option F × W
  pub read_some : F → ℕ → W → Option (List ℕ) × W
  pub metadata : F → W → Option (ℕ × ℕ) × W
  pub create : List ℕ → W → Option F × W
  pub write_all : F → List ℕ → W → Bool × W
  pub sync_all : F → W → Bool × W
  pub rename : List ℕ → List ℕ → W → W
  pub set_file_mtime : List ℕ → ℕ → W → W
  pub create_dir_all : List ℕ → W → W
  pub remove_file : List ℕ → W → W
  pub send : Message → W → Bool × W
  pub join_path : List ℕ → List ℕ → List ℕ
  pub parent : List ℕ → Option (List ℕ)
  pub compress : List ℕ → List ℕ
  pub decompress : List ℕ → List ℕ
