-- ===== src/Serve.antt =====
-- The serving of local files to the peer in libs/clipboard/src/platform/unix/mod.rs: the branch of
-- `serve` for a request of contents, and `serve_file_contents`.
pub mod Ranges
pub mod Replies
mod Tests
use pc_trade.Prelude.{
  ℕ, zero, suc, ◌+◌, ◌-◌, ◌*◌, ◌%◌, ◌^◌, bit_or, List, [], ◌∷◌, Option, none, some, Bool, true,
  false, not, Result, ok, err, ltb, ◌==◌, if◌then◌else◌, get_elem?, set,
}
use pc_trade.Prelude.Bytes.{le_bytes}
use pc_trade.Cliprdr.{
  CliprdrError, Failure, error, panic, invalid_request, ClipboardFile, file_contents_response,
  sign_extend,
}
use pc_trade.LocalFile.Handle.{OpenFile, load_handle, read_exact_at}

pub data FileContentsRequest : Type 0 where
  size_of : (stream_id file_idx : ℕ) → FileContentsRequest
  range_of : (stream_id file_idx start count : ℕ) → FileContentsRequest

-- What a request sends to the peer, its result, and the files after it.
pub record Served : Type 0 where
  pub sent : List ClipboardFile
  pub result : Result Failure (Unit {0})
  pub files : List OpenFile

abbrev pub served : List ClipboardFile → Result Failure (Unit {0}) → List OpenFile → Served
served m r fs = record { sent = m; result = r; files = fs }

-- `resp_file_contents_fail`
abbrev pub refusal : ℕ → List ClipboardFile
refusal stream_id = file_contents_response 0x2 stream_id [] ∷ []

abbrev pub answer : ℕ → List ℕ → List ClipboardFile
answer stream_id bytes = file_contents_response 0x1 stream_id bytes ∷ []

abbrev pub loaded_as :
    Result CliprdrError OpenFile
    → OpenFile
    → List OpenFile
    → Result CliprdrError (Unit {0}) × List OpenFile
loaded_as (err e) f fs = (err e, f ∷ fs)
loaded_as (ok g) f fs = (ok tt, g ∷ fs)

abbrev pub after_first :
    OpenFile
    → Result CliprdrError (Unit {0}) × List OpenFile
    → Result CliprdrError (Unit {0}) × List OpenFile
after_first f (r, fs) = (r, f ∷ fs)

-- The first plain file is opened.
unfoldable pub load_first : List OpenFile → Result CliprdrError (Unit {0}) × List OpenFile
unfolding load_handle
load_first [] = (ok tt, [])
load_first (f ∷ fs) =
    let rest = load_first fs in
    if f.is_dir then after_first f rest else loaded_as (load_handle f) f fs

-- `hot reload next file`: the first plain file after so many
unfoldable pub load_next : ℕ → List OpenFile → Result CliprdrError (Unit {0}) × List OpenFile
unfolding load_first
load_next zero fs = load_first fs
load_next (suc n) [] = (ok tt, [])
load_next (suc n) (f ∷ fs) = after_first f (load_next n fs)

abbrev pub as_failure : Result CliprdrError (Unit {0}) → Result Failure (Unit {0})
as_failure (ok u) = ok tt
as_failure (err e) = err (error e)

abbrev pub finished : List ClipboardFile → Result CliprdrError (Unit {0}) × List OpenFile → Served
finished m (r, fs) = served m (as_failure r) fs

-- the bytes of a range that the file has
abbrev pub read_size : OpenFile → ℕ → ℕ → ℕ
read_size f start count = if ltb f.size ((start + count) % 2 ^ 64) then f.size - start else count

abbrev pub range_read :
    List OpenFile → (stream_id file_idx : ℕ) → Result CliprdrError (List ℕ) × OpenFile → Served
range_read files stream_id file_idx (err e, f) = served [] (err (error e)) (set files file_idx f)
range_read files stream_id file_idx (ok bytes, f) =
    finished (answer stream_id bytes) (load_next (suc file_idx) (set files file_idx f))

-- `vec![0u8; read_size as usize]` panics for a size above isize::MAX; for one up to that there is memory.
abbrev pub capacity_overflow : ℕ → Bool
capacity_overflow n = ltb (2 ^ 63 - 1) n

abbrev pub serve_found : List OpenFile → FileContentsRequest → Option OpenFile → Served
serve_found files (size_of stream_id file_idx) none =
    served (refusal stream_id) (err (error invalid_request)) files
serve_found files (size_of stream_id file_idx) (some f) =
    finished (answer stream_id (le_bytes 8 f.size)) (load_next (suc file_idx) files)
serve_found files (range_of stream_id file_idx start count) none =
    served (refusal stream_id) (err (error invalid_request)) files
serve_found files (range_of stream_id file_idx start count) (some f) =
    if ltb f.size start
    then served (refusal stream_id) (err (error invalid_request)) files
    else (let n = read_size f start count in
        let read = range_read files stream_id file_idx (read_exact_at f n start) in
        if capacity_overflow n then served [] (err panic) files else read)

abbrev pub index_of : FileContentsRequest → ℕ
index_of (size_of stream_id file_idx) = file_idx
index_of (range_of stream_id file_idx start count) = file_idx

unfoldable pub serve_file_contents : List OpenFile → FileContentsRequest → Served
unfolding load_next read_exact_at
serve_file_contents files request = serve_found files request (get_elem? files (index_of request))

-- `(n_position_high as u64) << 32 | n_position_low as u64`
unfoldable pub offset_of : (n_position_low n_position_high : ℕ) → ℕ
offset_of n_position_low n_position_high =
    bit_or (sign_extend n_position_high * 2 ^ 32 % 2 ^ 64) (sign_extend n_position_low)

-- The branch of `serve`.
unfoldable pub serve_request :
    List OpenFile
    → (stream_id list_index dw_flags n_position_low n_position_high cb_requested : ℕ) → Served
unfolding serve_file_contents offset_of
serve_request files stream_id list_index dw_flags n_position_low n_position_high cb_requested =
    if dw_flags == 0x1
    then serve_file_contents files (size_of stream_id (sign_extend list_index))
    else if dw_flags == 0x2
    then serve_file_contents files (
        range_of stream_id (sign_extend list_index) (offset_of n_position_low n_position_high)
          (sign_extend cb_requested))
    else served (refusal stream_id) (ok tt) files
