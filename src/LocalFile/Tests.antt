-- ===== src/LocalFile/Tests.antt =====
-- A list of two files of local_file.rs, sent and read, with two bytes for each character.
use pc_trade.Prelude.{
  ℕ, ◌≡◌, ◌+◌, ◌*◌, refl, List, [], ◌∷◌, Option, some, true, false, ok, arith, map,
}
use pc_trade.LocalFile.{LocalFile, build_file_list_pdu}
use pc_trade.LocalFile.RoundTrip.{Readable, described, parse_file_descriptors-build}
use pc_trade.Fuse.Descriptor.{parse_file_descriptors}

-- UTF-16 of characters below 256
abbrev encode_low : List ℕ → List ℕ
encode_low [] = []
encode_low (c ∷ cs) = c ∷ 0 ∷ encode_low cs

abbrev decode_low : List ℕ → List ℕ
decode_low [] = []
decode_low (c ∷ []) = []
decode_low (c ∷ d ∷ cs) = (c + 256 * d) ∷ decode_low cs

abbrev decode_some : List ℕ → Option (List ℕ)
decode_some bytes = some (decode_low bytes)

abbrev folder : LocalFile
folder = record {
  path = b'd' ∷ [];
  name = b'd' ∷ [];
  size = 0;
  last_write_time = 0;
  is_dir = true;
  perm = 0x41ED;
  read_only = false;
  hidden = false;
  system = false;
  archive = false;
  normal = false;
}

abbrev note : LocalFile
note = record {
  path = b'd' ∷ b'/' ∷ b'a' ∷ [];
  name = b'd' ∷ b'\\' ∷ b'a' ∷ [];
  size = 5000000000;
  last_write_time = 1700000000123456789;
  is_dir = false;
  perm = 0x81A4;
  read_only = false;
  hidden = false;
  system = false;
  archive = false;
  normal = true;
}

folder-Readable : Readable encode_low decode_some 4 folder
folder-Readable = record {
  size_lt = omega arith;
  perm_lt = omega arith;
  time_lt = omega arith;
  short = omega arith;
  plain = ((omega arith, omega arith), tt);
  zeros = 259;
  decoded = refl;
}

note-Readable : Readable encode_low decode_some 4 note
note-Readable = record {
  size_lt = omega arith;
  perm_lt = omega arith;
  time_lt = omega arith;
  short = omega arith;
  plain =
      ((omega arith, omega arith), ((omega arith, omega arith), ((omega arith, omega arith), tt)));
  zeros = 257;
  decoded = refl;
}

parse_file_descriptors-build_example :
    (pdu : List ℕ) × (build_file_list_pdu encode_low (folder ∷ note ∷ []) ≡ some pdu)
    × (parse_file_descriptors decode_some pdu 4 ≡ ok (map (described 4) (folder ∷ note ∷ [])))
parse_file_descriptors-build_example =
    parse_file_descriptors-build encode_low decode_some 4 (folder ∷ note ∷ [])
      (folder-Readable, (note-Readable, tt)) (omega arith)
