-- ===== src/Serve/Replies.antt =====
-- What `serve_file_contents` of libs/clipboard/src/platform/unix/mod.rs sends for a range.
use pc_trade.Prelude.{
  ℕ, suc, ◌+◌, ◌-◌, ◌%◌, ◌^◌, ◌≤◌, ◌<◌, ◌≡◌, min, refl, ap, ◌∙◌, List, some, Bool, true, false,
  Result, ok, err, ltb, arith, if◌then◌else◌, length, take, drop, get_elem?, set,
}
use pc_trade.Cliprdr.{CliprdrError, error, invalid_request, ClipboardFile}
use pc_trade.LocalFile.Handle.{OpenFile, Synced, read_exact_at}
use pc_trade.LocalFile.Reads.{read_exact_at_lem}
use pc_trade.Serve.{
  range_of, served, refusal, answer, range_read, read_size, finished, load_next,
  serve_file_contents, capacity_overflow,
}

-- Loading the next file sends nothing.
finished_sent :
    (m : List ClipboardFile) (r : Result CliprdrError (Unit {0}) × List OpenFile)
    → (finished m r).sent ≡ m
finished_sent m (r, fs) = refl

range_read_sent :
    (files : List OpenFile) (stream idx : ℕ) (bytes : List ℕ)
    (r : Result CliprdrError (List ℕ) × OpenFile)
    → r.0 ≡ ok bytes
    → (range_read files stream idx r).sent ≡ answer stream bytes
range_read_sent files stream idx bytes (ok found, f) e =
    finished_sent (answer stream found) (load_next (suc idx) (set files idx f))
    ∙ ap (answer stream) (ok_inj found bytes e)
  where
    ok_inj : (xs ys : List ℕ) → ◌≡◌ {A = Result CliprdrError (List ℕ)} (ok xs) (ok ys) → xs ≡ ys
    ok_inj xs ys e = cc
range_read_sent files stream idx bytes (err x, f) e = cc

min_size :
    (size start count : ℕ)
    → start + count < 2 ^ 64
    → start ≤ size
    → (if ltb size ((start + count) % 2 ^ 64) then size - start else count)
      ≡ min count (size - start)
min_size size start count room inside = ground arith

within :
    (size len start count asked : ℕ)
    → size ≡ len
    → start ≤ size
    → asked ≡ min count (size - start)
    → start + asked ≤ len
within size len start count asked e inside exact = omega arith

not_behind : (size start : ℕ) → start ≤ size → ltb size start ≡ false
not_behind size start h = ground arith

is_behind : (size start : ℕ) → size < start → ltb size start ≡ true
is_behind size start h = ground arith

fits_in :
    (asked left : ℕ) (b : Bool)
    → asked ≤ left
    → left < 2 ^ 63
    → ltb (2 ^ 63 - 1) asked ≡ b
    → b ≡ false
fits_in asked left b h k e = ground arith

-- A range of a plain file on the disk that has the size it had when it was listed, below 2 ^ 63 bytes,
-- and whose reader is in step, is answered by one message: the bytes from its start, as many as are asked
-- for or as the file has left; a start behind the end is refused. (For a start and a count whose sum is
-- below 2 ^ 64.)
pub serve_range_lem :
    (files : List OpenFile) (stream idx start count : ℕ) (f : OpenFile) (bytes : List ℕ)
    → get_elem? files idx ≡ some f
    → Synced f
    → f.is_dir ≡ false
    → f.content ≡ some bytes
    → f.size ≡ length bytes
    → length bytes < 2 ^ 63
    → start + count < 2 ^ 64
    → (start ≤ f.size
        → (serve_file_contents files (range_of stream idx start count)).sent
          ≡ answer stream (take (min count (f.size - start)) (drop start bytes)))
      × (f.size < start
          → serve_file_contents files (range_of stream idx start count)
            ≡ served (refusal stream) (err (error invalid_request)) files)
unfolding serve_file_contents
serve_range_lem files stream idx start count f bytes at synced plain there size small room = (
  λ inside.
      let asked = read_size f start count in
      let exact : asked ≡ min count (f.size - start) = min_size f.size start count room inside in
      let (read, still) =
        read_exact_at_lem f bytes asked start synced plain there
          (within f.size (length bytes) start count asked size inside exact) in
      let sent =
        range_read_sent files stream idx (take asked (drop start bytes))
          (read_exact_at f asked start) read in
      let front : ltb f.size start ≡ false = not_behind f.size start inside in
      let fits : capacity_overflow asked ≡ false =
        fits_in asked (f.size - start) (ltb (2 ^ 63 - 1) asked) (omega (arith, exact)) (omega arith)
          refl in
      rw (at, front, fits) (sent ∙ ap (λ n. answer stream (take n (drop start bytes))) exact),
  λ behind.
      let back : ltb f.size start ≡ true = is_behind f.size start behind in rw (at, back) refl,
)
