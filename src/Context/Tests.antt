-- ===== src/Context/Tests.antt =====
-- Two contexts of unix/mod.rs: one has a folder with a note, the other pastes it.
use pc_trade.Prelude.{
  ℕ, ◌+◌, ◌*◌, ◌≡◌, refl, List, [], ◌∷◌, Option, none, some, true, false, ok, arith, All, map,
}
use pc_trade.Cliprdr.{monitor_ready, format_data_response, format_data_request}
use pc_trade.Fuse.Node.{Outside}
use pc_trade.Fuse.Path.{components, key_eq, split_on, file_name}
use pc_trade.Fuse.Server
use pc_trade.Fuse.Tree.Build.{HasName}
use pc_trade.LocalFile.{LocalFile, Metadata}
use pc_trade.LocalFile.RoundTrip.{Readable, described}
use pc_trade.LocalFile.Walk.{Entry, entry, no_more, construct_file_list, list_file}
use pc_trade.Context.{
  Context, System, start_formats, same_paths, serve_message, serve_format_list,
  file_descriptorw_name, file_contents_name,
}
use pc_trade.Context.Formats.{Answered, formats_lem}
use pc_trade.Context.Paste.{Pasted, paste_lem}

abbrev encode_low : List ℕ → List ℕ
encode_low [] = []
encode_low (c ∷ cs) = c ∷ 0 ∷ encode_low cs

abbrev decode_low : List ℕ → List ℕ
decode_low [] = []
decode_low (c ∷ []) = []
decode_low (c ∷ d ∷ cs) = (c + 256 * d) ∷ decode_low cs

abbrev decode_some : List ℕ → Option (List ℕ)
decode_some bytes = some (decode_low bytes)

abbrev outside : Outside
outside = record { now = 1000; random = λ i. i }

abbrev folder : LocalFile
folder = record {
  path = b'd' ∷ [];
  name = b'd' ∷ [];
  size = 0;
  last_write_time = 0;
  is_dir = true;
  perm = 0x41ED;
  read_only = false;
  hidden = false;
  system = false;
  archive = false;
  normal = false;
}

folder-Readable : Readable encode_low decode_some 4 folder
folder-Readable = record {
  size_lt = omega arith;
  perm_lt = omega arith;
  time_lt = omega arith;
  short = omega arith;
  plain = ((omega arith, omega arith), tt);
  zeros = 259;
  decoded = refl;
}

abbrev folder_data : Metadata
folder_data = record { len = 0; is_dir = true; read_only = false; modified = none; mode = 0x41ED }

abbrev on_disk : Entry
on_disk = entry (b'd' ∷ []) (some folder_data) none no_more

-- the list that the walk makes of it
walked : construct_file_list (on_disk ∷ []) ≡ ok (list_file (b'd' ∷ []) folder_data none ∷ [])
unfolding construct_file_list
walked = refl

abbrev system : System
system = record {
  can_mount = true;
  file_list = on_disk ∷ [];
  takes_list = true;
  has_receiver = true;
}

abbrev copying : Context
copying = record {
  mounted = true;
  formats = start_formats;
  local_files = folder ∷ [];
  opened = [];
  fuse = Server.new;
  to_fuse = [];
}

abbrev pasting : Context
pasting = record copying { local_files = [] }

in_step : same_paths copying.local_files system.file_list ≡ true
unfolding components key_eq split_on
in_step = refl

named : All HasName (map (described 4) (folder ∷ []))
unfolding components file_name split_on
named = ((λ e. cc), tt)

paste_lem_example :
    (pdu : List ℕ) × ((serve_message encode_low decode_some outside system copying 0
        monitor_ready).sent
      ≡ format_data_response 1 pdu ∷ [])
    × Pasted encode_low decode_some outside outside system system
        (folder ∷ [])
        4
        (serve_message encode_low decode_some outside system pasting 4 (format_data_response 1 pdu))
paste_lem_example =
    paste_lem encode_low decode_some outside outside system system copying pasting 4 0 in_step
      (folder-Readable, tt) named (omega arith)

abbrev listed : List (ℕ × List ℕ)
listed = (7, file_contents_name) ∷ (1, b'x' ∷ []) ∷ (8, file_descriptorw_name) ∷ []

asked : (serve_format_list copying listed).sent ≡ format_data_request 8 ∷ []
unfolding serve_format_list
asked = refl

formats_lem_example : Answered copying listed (serve_format_list copying listed)
formats_lem_example = formats_lem copying listed
