-- ===== src/LocalFile.antt =====
-- libs/clipboard/src/platform/unix/local_file.rs and the list of files that unix/mod.rs sends. A
-- time is in nanoseconds after the Unix epoch; the source takes an earlier one for the epoch. The
-- library `utf16string`, which writes a file's path, is the parameter `encode_utf16`.
pub mod Attributes
pub mod Names
pub mod RoundTrip
pub mod Handle
pub mod Reads
pub mod Walk
mod Tests
use pc_trade.Prelude.{
  ℕ, zero, suc, ◌+◌, ◌-◌, ◌*◌, ◌/◌, ◌%◌, ◌^◌, bit_and, bit_or, List, [], ◌∷◌, ◌++◌, Option, none,
  some, Bool, true, false, not, ltb, leb, ◌||◌, ◌==◌, if◌then◌else◌, length, replicate,
}
use pc_trade.Prelude.Bytes.{le_bytes}
use pc_trade.Fuse.Descriptor.{ldap_epoch_delta, replace}

-- The fields that describe a file; the open handle and its offset are in `Handle`.
pub record LocalFile : Type 0 where
  pub path : List ℕ
  pub name : List ℕ
  pub size : ℕ
  pub last_write_time : ℕ
  pub is_dir : Bool
  pub perm : ℕ
  pub read_only : Bool
  pub hidden : Bool
  pub system : Bool
  pub archive : Bool
  pub normal : Bool

-- What `std::fs::metadata` says of a file.
pub record Metadata : Type 0 where
  pub len : ℕ
  pub is_dir : Bool
  pub read_only : Bool
  pub modified : Option ℕ
  pub mode : ℕ

abbrev starts_with_dot : List ℕ → Bool
starts_with_dot [] = false
starts_with_dot (c ∷ cs) = c == b'.'

-- `trim_start_matches('/')`
unfoldable pub trim_slashes : List ℕ → List ℕ
trim_slashes [] = []
trim_slashes (c ∷ cs) = let rest = trim_slashes cs in if c == b'/' then rest else c ∷ cs

abbrev or_epoch : Option ℕ → ℕ
or_epoch none = 0
or_epoch (some t) = t

-- `try_open`, once the metadata was read
unfoldable pub try_open : List ℕ → Metadata → LocalFile
unfolding trim_slashes replace
try_open path mt =
    let hidden = starts_with_dot path in
    record {
      path = path;
      name = replace b'/' b'\\' (trim_slashes path);
      size = mt.len;
      last_write_time = or_epoch mt.modified;
      is_dir = mt.is_dir;
      perm = mt.mode;
      read_only = mt.read_only;
      hidden = hidden;
      system = false;
      archive = false;
      normal = not (mt.is_dir || mt.read_only || false || hidden || false);
    }

abbrev pub flag_if : Bool → ℕ → ℕ
flag_if b k = if b then k else 0

unfoldable pub file_attributes : LocalFile → ℕ
file_attributes f =
    bit_or
      (bit_or
        (bit_or
          (bit_or (bit_or (flag_if f.read_only 0x1) (flag_if f.hidden 0x2)) (flag_if f.system 0x4))
          (flag_if f.is_dir 0x10))
        (flag_if f.archive 0x20))
      (flag_if f.normal 0x80)

-- FLAGS_FD_SIZE, _LAST_WRITE, _ATTRIBUTES, _PROGRESSUI and _UNIX_MODE
abbrev pub fd_flags : ℕ
fd_flags = bit_or (bit_or (bit_or (bit_or 0x40 0x20) 0x04) 0x4000) 0x08

unfoldable pub win32_time : ℕ → ℕ
win32_time t = (t % 2 ^ 64 / 100 + ldap_epoch_delta) % 2 ^ 64

-- the 592 bytes of a descriptor with this encoded name
abbrev pub descriptor : LocalFile → List ℕ → List ℕ
descriptor f name =
    le_bytes 4 fd_flags
    ++ (replicate 32 0
        ++ (le_bytes 4 (file_attributes f)
            ++ (replicate 12 0
                ++ (le_bytes 4 f.perm
                    ++ (le_bytes 8 (win32_time f.last_write_time)
                        ++ (le_bytes 4 (f.size / 2 ^ 32 % 2 ^ 32)
                            ++ (le_bytes 4 (f.size % 2 ^ 32)
                                ++ (name ++ replicate (520 - length name) 0))))))))

module _ (encode_utf16 : List ℕ → List ℕ) where
  -- `none` is the panic on a name of more than 520 bytes.
  unfoldable pub as_bin : LocalFile → Option (List ℕ)
  unfolding file_attributes win32_time
  as_bin f =
      let name = encode_utf16 f.path in
      if ltb 520 (length name) then none else some (descriptor f name)

  unfoldable pub put_files : List LocalFile → Option (List ℕ)
  put_files [] = some []
  put_files (f ∷ fs) = elim (as_bin f) [
    | none ↦ none
    | some bin ↦ elim (put_files fs) [ none ↦ none | some rest ↦ some (bin ++ rest) ]
  ]

  -- `build_file_list_pdu` of unix/mod.rs
  unfoldable pub build_file_list_pdu : List LocalFile → Option (List ℕ)
  unfolding put_files
  build_file_list_pdu files = elim (put_files files) [
    | none ↦ none
    | some body ↦ some (le_bytes 4 (length files % 2 ^ 32) ++ body)
  ]
