-- ===== src/Portable.antt =====
-- The package of files of libs/portable: the reader of src/bin_reader.rs, and the writer of
-- generate.py. `lossy` is `from_utf8_lossy`, `md5` and `decompress` are those of the libraries. A
-- slice out of range is a panic.
pub mod Files
pub mod RoundTrip
mod Tests
use Prim.Native.String.{String}
use pc_trade.Prelude.{
  ℕ, zero, suc, ◌+◌, ◌*◌, ◌/◌, ◌%◌, ◌^◌, List, [], ◌∷◌, ◌++◌, Option, none, some, Bool, true, false,
  Result, ok, err, ◌>>=◌, ltb, if◌then◌else◌, length,
}
use pc_trade.Fuse.Path.{name_eq}
use pc_trade.PasswordSecurity.{codes}

-- "rustdesk"
abbrev pub identifier : List ℕ
identifier = codes "rustdesk"

abbrev pub md5_length : ℕ
md5_length = 32

pub record BinaryData : Type 0 where
  pub md5_code : List ℕ
  pub raw : List ℕ
  pub path : List ℕ

pub data Stop : Type 0 where
  panic no_fuel : Stop

-- The first bytes and what follows them.
unfoldable pub slice : ℕ → List ℕ → Result Stop (List ℕ × List ℕ)
slice zero bytes = ok ([], bytes)
slice (suc n) [] = err panic
slice (suc n) (b ∷ bs) = slice n bs >>= (λ x. ok (b ∷ x.0, x.1))

-- `u32::from_be_bytes` of the first four bytes
unfoldable pub take_u32 : List ℕ → Result Stop (ℕ × List ℕ)
take_u32 (a ∷ b ∷ c ∷ d ∷ rest) = ok (a * 2 ^ 24 + b * 2 ^ 16 + c * 2 ^ 8 + d, rest)
take_u32 _ = err panic

-- Bytes with their length before them, and what follows.
unfoldable pub sized : List ℕ → Result Stop (List ℕ × List ℕ)
unfolding take_u32 slice
sized bytes = take_u32 bytes >>= (λ a. slice a.0 a.1)

-- The digest, which ends a file.
unfoldable pub read_md5 : (path raw : List ℕ) → List ℕ → Result Stop (BinaryData × List ℕ)
unfolding slice
read_md5 path raw bytes =
    slice md5_length bytes >>= (λ e. ok (record { md5_code = e.0; raw = raw; path = path }, e.1))

unfoldable pub read_raw : (path : List ℕ) → List ℕ → Result Stop (BinaryData × List ℕ)
unfolding sized read_md5
read_raw path bytes = sized bytes >>= (λ d. read_md5 path d.0 d.1)

-- One file and the bytes after it.
unfoldable pub read_file : (lossy : List ℕ → List ℕ) → List ℕ → Result Stop (BinaryData × List ℕ)
unfolding sized read_raw
read_file lossy bytes = sized bytes >>= (λ b. read_raw (lossy b.0) b.1)

-- The files up to the identifier, and the bytes after it.
unfoldable pub read_files :
    (lossy : List ℕ → List ℕ) → (fuel : ℕ) → List ℕ → Result Stop (List BinaryData × List ℕ)
unfolding read_file
read_files lossy zero bytes = err no_fuel
read_files lossy (suc fuel) bytes =
    let later = read_files lossy fuel in
    slice 8 bytes >>= (λ iden.
      if name_eq (lossy iden.0) identifier
      then ok ([], iden.1)
      else read_file lossy bytes >>= (λ f. later f.1 >>= (λ rest. ok (f.0 ∷ rest.0, rest.1))))

-- `BinaryReader::read`: the files and the name of the executable
unfoldable pub read : (lossy : List ℕ → List ℕ) → List ℕ → Result Stop (List BinaryData × List ℕ)
unfolding read_files
read lossy bytes =
    if ltb 8 (length bytes)
    then slice 8 bytes >>= (λ iden.
      if name_eq (lossy iden.0) identifier
      then read_files lossy (length bytes) iden.1 >>= (λ r. ok (r.0, lossy r.1))
      else err panic)
    else err panic

-- What `BinaryData::write_to_file` leaves in the file, for what was in it; one that cannot be read is
-- taken as empty.
unfoldable pub write_to_file :
    (lossy md5 decompress : List ℕ → List ℕ) → BinaryData → Option (List ℕ) → List ℕ
write_to_file lossy md5 decompress d none = decompress d.raw
write_to_file lossy md5 decompress d (some old) =
    if name_eq (md5 old) (lossy d.md5_code) then old else decompress d.raw

-- `to_bytes(length=4, byteorder='big')`
abbrev pub be_bytes : ℕ → List ℕ
be_bytes v = (v / 2 ^ 24 % 256) ∷ (v / 2 ^ 16 % 256) ∷ (v / 2 ^ 8 % 256) ∷ (v % 256) ∷ []

unfoldable pub pack_files : List BinaryData → (end : List ℕ) → List ℕ
pack_files [] end = identifier ++ end
pack_files (f ∷ fs) end =
    be_bytes (length f.path)
    ++ (f.path ++ (be_bytes (length f.raw) ++ (f.raw ++ (f.md5_code ++ pack_files fs end))))

-- `write_package_metadata` of generate.py
unfoldable pub pack : List BinaryData → (exe : List ℕ) → List ℕ
unfolding pack_files
pack files exe = identifier ++ pack_files files exe
