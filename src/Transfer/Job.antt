-- ===== src/Transfer/Job.antt =====
-- The state of a `TransferJob` in fs.rs, its constructor and the operations that call nothing
-- outside.
use pc_trade.Prelude.{
  ℕ, ◌+◌, ◌%◌, ◌^◌, List, [], ◌∷◌, Option, none, some, Bool, true, false, not, ◌==◌, ◌&&◌, ◌||◌,
  if◌then◌else◌, length,
}
use pc_trade.Fuse.Path.{name_eq}

pub data EntryType : Type 0 where
  dir dir_link dir_drive plain file_link : EntryType

pub record FileEntry : Type 0 where
  pub entry_type : EntryType
  pub name : List ℕ
  pub is_hidden : Bool
  pub size : ℕ
  pub modified_time : ℕ

-- `F` is the type of an open file.
pub record TransferJob (F : Type 0) : Type 0 where
  pub id : ℕ
  pub remote : List ℕ
  pub path : List ℕ
  pub show_hidden : Bool
  pub is_remote : Bool
  pub is_last_job : Bool
  pub file_num : ℕ
  pub files : List FileEntry
  pub conn_id : ℕ
  pub file : Option F
  pub total_size : ℕ
  pub finished_size : ℕ
  pub transferred : ℕ
  pub enable_overwrite_detection : Bool
  pub is_confirmed : Bool
  pub is_skipped : Bool
  pub is_waiting : Bool
  pub default_overwrite_strategy : Option Bool

pub record TransferJobMeta : Type 0 where
  pub id : ℕ
  pub remote : List ℕ
  pub to : List ℕ
  pub show_hidden : Bool
  pub file_num : ℕ
  pub is_remote : Bool

pub record FileTransferBlock : Type 0 where
  pub id : ℕ
  pub file_num : ℕ
  pub bytes : List ℕ
  pub compressed : Bool

pub data ConfirmUnion : Type 0 where
  skip : Bool → ConfirmUnion
  offset_blk : ℕ → ConfirmUnion

pub record FileTransferSendConfirmRequest : Type 0 where
  pub id : ℕ
  pub file_num : ℕ
  pub union : Option ConfirmUnion

pub data Error : Type 0 where
  wrong_id wrong_file_number no_file io_error not_exists : Error

-- `rfind`: what follows the last point; `none` where there is none
unfoldable pub after_point : List ℕ → Option (List ℕ)
after_point [] = none
after_point (c ∷ cs) = elim (after_point cs) [
  | some ext ↦ some ext
  | none ↦ if c == b'.' then some cs else none
]

unfoldable pub get_ext : List ℕ → List ℕ
unfolding after_point
get_ext name = elim (after_point name) [ none ↦ [] | some ext ↦ ext ]

unfoldable pub is_compressed_file : List ℕ → Bool
unfolding get_ext
is_compressed_file name =
    let ext = get_ext name in
    name_eq ext (b'x' ∷ b'z' ∷ [])
    || name_eq ext (b'g' ∷ b'z' ∷ [])
    || name_eq ext (b'z' ∷ b'i' ∷ b'p' ∷ [])
    || name_eq ext (b'7' ∷ b'z' ∷ [])
    || name_eq ext (b'r' ∷ b'a' ∷ b'r' ∷ [])
    || name_eq ext (b'b' ∷ b'z' ∷ b'2' ∷ [])
    || name_eq ext (b't' ∷ b'g' ∷ b'z' ∷ [])
    || name_eq ext (b'p' ∷ b'n' ∷ b'g' ∷ [])
    || name_eq ext (b'j' ∷ b'p' ∷ b'g' ∷ [])

-- The sum wraps at 64 bits.
unfoldable pub sum_sizes : List FileEntry → ℕ
sum_sizes [] = 0
sum_sizes (x ∷ xs) = (x.size + sum_sizes xs) % 2 ^ 64

module _ {F : Type 0} where
  unfoldable pub new_write :
      (id : ℕ) (remote path : List ℕ) (file_num : ℕ) (show_hidden is_remote : Bool)
      → List FileEntry
      → Bool
      → TransferJob F
  unfolding sum_sizes
  new_write id remote path file_num show_hidden is_remote files enable_overwrite_detection =
      record {
        id = id;
        remote = remote;
        path = path;
        show_hidden = show_hidden;
        is_remote = is_remote;
        is_last_job = false;
        file_num = file_num;
        files = files;
        conn_id = 0;
        file = none;
        total_size = sum_sizes files;
        finished_size = 0;
        transferred = 0;
        enable_overwrite_detection = enable_overwrite_detection;
        is_confirmed = false;
        is_skipped = false;
        is_waiting = false;
        default_overwrite_strategy = none;
      }

  unfoldable pub set_files : TransferJob F → List FileEntry → TransferJob F
  set_files job files = record job { files = files }

  unfoldable pub set_overwrite_strategy : TransferJob F → Option Bool → TransferJob F
  set_overwrite_strategy job strategy = record job { default_overwrite_strategy = strategy }

  unfoldable pub set_file_confirmed : TransferJob F → Bool → TransferJob F
  set_file_confirmed job confirmed = record job { is_confirmed = confirmed; is_skipped = false }

  unfoldable pub set_file_is_waiting : TransferJob F → Bool → TransferJob F
  set_file_is_waiting job waiting = record job { is_waiting = waiting }

  unfoldable pub job_skipped : TransferJob F → Bool
  job_skipped job = job.is_skipped && (length job.files == 1)

  unfoldable pub job_completed : TransferJob F → Bool
  job_completed job =
      not job.enable_overwrite_detection || (not job.is_confirmed && not job.is_waiting)

  -- `true` stands for the text "skipped".
  unfoldable pub job_error : TransferJob F → Option Bool
  unfolding job_skipped
  job_error job = if job_skipped job then some true else none

  unfoldable pub set_file_skipped : TransferJob F → TransferJob F
  unfolding set_file_confirmed set_file_is_waiting
  set_file_skipped job =
      let job = set_file_is_waiting (set_file_confirmed (record job { file = none }) false) false in
      record job { file_num = (job.file_num + 1) % 2 ^ 32; is_skipped = true }

  -- The result of the source is always `true`.
  unfoldable pub confirm : TransferJob F → FileTransferSendConfirmRequest → TransferJob F
  unfolding set_file_skipped set_file_confirmed
  confirm job r =
      if job.file_num == r.file_num
      then elim r.union [
        | none ↦ job
        | some u ↦ elim u [
          | skip s ↦ if s then set_file_skipped job else set_file_confirmed job true
          | offset_blk _ ↦ set_file_confirmed job true
        ]
      ]
      else job

  unfoldable pub gen_meta : TransferJob F → TransferJobMeta
  gen_meta job = record {
    id = job.id;
    remote = job.remote;
    to = job.path;
    show_hidden = job.show_hidden;
    file_num = job.file_num;
    is_remote = job.is_remote;
  }

  unfoldable pub remove_job : ℕ → List (TransferJob F) → List (TransferJob F)
  remove_job id [] = []
  remove_job id (x ∷ xs) = if x.id == id then remove_job id xs else x ∷ remove_job id xs

  unfoldable pub get_job : ℕ → List (TransferJob F) → Option (TransferJob F)
  get_job id [] = none
  get_job id (x ∷ xs) = if x.id == id then some x else get_job id xs
