-- ===== src/LocalFile/Handle.antt =====
-- The open handle of a `LocalFile` in local_file.rs: `load_handle` and `read_exact_at`.
use pc_trade.Prelude.{
  ℕ, ◌+◌, ◌≡◌, List, Option, none, some, Bool, true, false, Result, ok, err, leb, ◌==◌,
  if◌then◌else◌, length, take, drop,
}
use pc_trade.Cliprdr.{CliprdrError, file_error}

-- A file with what the disk holds (`none` if it cannot be opened) and the place of the open reader.
pub record OpenFile : Type 0 where
  pub size : ℕ
  pub is_dir : Bool
  pub content : Option (List ℕ)
  pub handle : Option ℕ
  pub offset : ℕ

abbrev pub opened_as : Option (List ℕ) → OpenFile → Result CliprdrError OpenFile
opened_as none f = err file_error
opened_as (some bytes) f = ok (record f { handle = some 0 })

abbrev pub load_if : Option ℕ → Bool → OpenFile → Result CliprdrError OpenFile
load_if (some place) is_dir f = ok f
load_if none true f = ok f
load_if none false f = opened_as f.content f

unfoldable pub load_handle : OpenFile → Result CliprdrError OpenFile
load_handle f = load_if f.handle f.is_dir f

-- What a successful read leaves: at the end of the file the handle is closed.
abbrev pub advanced : OpenFile → ℕ → OpenFile
advanced f new_offset =
    if leb f.size new_offset
    then record f { offset = 0; handle = none }
    else record f { offset = new_offset; handle = some new_offset }

-- `read_exact` at a place; where bytes are missing, all up to the end were read.
abbrev pub read_bytes :
    List ℕ → OpenFile → (place len offset : ℕ) → Result CliprdrError (List ℕ) × OpenFile
read_bytes bytes f place len offset =
    if leb (place + len) (length bytes)
    then (ok (take len (drop place bytes)), advanced f (offset + len))
    else (err file_error, record f { handle = some (length bytes) })

abbrev pub read_content :
    Option (List ℕ) → OpenFile → (place len offset : ℕ) → Result CliprdrError (List ℕ) × OpenFile
read_content none f place len offset = (err file_error, f)
read_content (some bytes) f place len offset = read_bytes bytes f place len offset

-- The reader seeks if the offset is not the one after the last read.
abbrev pub read_from :
    Option ℕ → OpenFile → (len offset : ℕ) → Result CliprdrError (List ℕ) × OpenFile
read_from none f len offset = (err file_error, f)
read_from (some place) f len offset =
    read_content f.content f (if offset == f.offset then place else offset) len offset

abbrev pub read_loaded :
    Result CliprdrError OpenFile
    → OpenFile
    → (len offset : ℕ) → Result CliprdrError (List ℕ) × OpenFile
read_loaded (err e) f len offset = (err e, f)
read_loaded (ok g) f len offset = read_from g.handle g len offset

unfoldable pub read_exact_at : OpenFile → (len offset : ℕ) → Result CliprdrError (List ℕ) × OpenFile
unfolding load_handle
read_exact_at f len offset = read_loaded (load_handle f) f len offset

-- The reader stands where the last read ended, and a closed file starts at the beginning.
abbrev pub IsSynced : Option ℕ → ℕ → Type 0
IsSynced none offset = offset ≡ 0
IsSynced (some place) offset = place ≡ offset

-- The same of a file.
abbrev pub Synced : OpenFile → Type 0
Synced f = IsSynced f.handle f.offset
