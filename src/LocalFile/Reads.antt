-- ===== src/LocalFile/Reads.antt =====
-- What the reads of a `LocalFile` in local_file.rs give.
use pc_trade.Prelude.{
  ℕ, ◌+◌, ◌≤◌, ◌≡◌, refl, sym, ap₂, List, Option, none, some, true, false, Result, ok, arith, leb,
  ◌==◌, if◌then◌else◌, length, take, drop, Bool-cases, inl, inr,
}
use pc_trade.Cliprdr.{CliprdrError}
use pc_trade.LocalFile.Handle.{
  OpenFile, advanced, read_bytes, read_exact_at, load_handle, IsSynced, Synced,
}

advanced-Synced : (f : OpenFile) (n : ℕ) → Synced (advanced f n)
advanced-Synced f n = elim (Bool-cases (leb f.size n)) [ inl e ↦ rw e refl | inr e ↦ rw e refl ]

abbrev pub Reads : List ℕ → ℕ → ℕ → Result CliprdrError (List ℕ) × OpenFile → Type 0
Reads bytes len offset r = (r.0 ≡ ok (take len (drop offset bytes))) × Synced r.1

read_bytes-Reads :
    (bytes : List ℕ) (f : OpenFile) (len offset : ℕ)
    → offset + len ≤ length bytes
    → Reads bytes len offset (read_bytes bytes f offset len offset)
read_bytes-Reads bytes f len offset h =
    let fits : leb (offset + len) (length bytes) ≡ true = ground arith in
    rw fits (refl, advanced-Synced f (offset + len))

-- Where the reader stands at the file's offset, the place of a read is the one that is asked for.
place_of : (place own offset : ℕ) → place ≡ own → (if offset == own then place else offset) ≡ offset
place_of place own offset e = ground arith

-- The reader at the file's offset: the read is at the one that is asked for.
read_placed :
    (bytes : List ℕ) (f : OpenFile) (place own len offset : ℕ)
    → place ≡ own
    → offset + len ≤ length bytes
    → Reads bytes len offset
        (read_bytes bytes f (if offset == own then place else offset) len offset)
read_placed bytes f place own len offset e h =
    rw (place_of place own offset e) (read_bytes-Reads bytes f len offset h)

-- The reader of a file that is open or is opened now.
read_parts :
    (size : ℕ) (bytes : List ℕ) (handle : Option ℕ) (own len offset : ℕ)
    → IsSynced handle own
    → offset + len ≤ length bytes
    → Reads bytes len offset (
        read_exact_at
          (record {
            size = size;
            is_dir = false;
            content = some bytes;
            handle = handle;
            offset = own;
          })
          len
          offset)
unfolding read_exact_at load_handle
read_parts size bytes none own len offset synced h =
    read_placed bytes
      (record { size = size; is_dir = false; content = some bytes; handle = some 0; offset = own })
      0 own len offset (sym synced) h
read_parts size bytes (some place) own len offset synced h =
    read_placed bytes
      (record {
        size = size;
        is_dir = false;
        content = some bytes;
        handle = some place;
        offset = own;
      })
      place own len offset synced h

-- A read of a plain file whose reader is in step gives exactly the bytes at that offset, if the disk
-- has them, whatever was read before, and leaves the reader in step.
pub read_exact_at_lem :
    (f : OpenFile) (bytes : List ℕ) (len offset : ℕ)
    → Synced f
    → f.is_dir ≡ false
    → f.content ≡ some bytes
    → offset + len ≤ length bytes
    → ((read_exact_at f len offset).0 ≡ ok (take len (drop offset bytes)))
      × Synced (read_exact_at f len offset).1
read_exact_at_lem f bytes len offset synced plain there h =
    rw (same f bytes plain there) (read_parts f.size bytes f.handle f.offset len offset synced h)
  where
    same :
        (f : OpenFile) (bytes : List ℕ)
        → f.is_dir ≡ false
        → f.content ≡ some bytes
        → f ≡ record {
          size = f.size;
          is_dir = false;
          content = some bytes;
          handle = f.handle;
          offset = f.offset;
        }
    same f bytes plain there =
        ap₂
          (λ d c. record {
            size = f.size;
            is_dir = d;
            content = c;
            handle = f.handle;
            offset = f.offset;
          })
          plain there
