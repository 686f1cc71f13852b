-- ===== src/Context.antt =====
-- `ClipboardContext` of libs/clipboard/src/platform/unix/mod.rs: the server of the file clipboard. The
-- locks are left out, and so is what runs beside it (the clipboard's thread, the mounted file
-- system). `System` is what the system answers; UTF-16 is a parameter as in the lists of files.
pub mod Formats
pub mod Paste
mod Tests
use pc_trade.Prelude.{
  ℕ, zero, suc, ◌+◌, List, [], ◌∷◌, ◌++◌, Option, none, some, Bool, true, false, not, Result, ok,
  err, ◌==◌, ◌&&◌, ◌||◌, if◌then◌else◌, length, map,
}
use pc_trade.Cliprdr.{
  CliprdrError, Failure, error, panic, cliprdr_init, clipboard_internal_error, invalid_request,
  ClipboardFile, notify_callback, monitor_ready, format_list, format_list_response,
  format_data_request, format_data_response, file_contents_request, file_contents_response,
}
use pc_trade.Fuse.Path.{components, key_eq, name_eq}
use pc_trade.Fuse.Node.{FileDescription, Outside}
use pc_trade.Fuse.Server.{FuseServer, load_file_list, list_root}
use pc_trade.Fuse.Descriptor.{parse_file_descriptors}
use pc_trade.LocalFile.{LocalFile, build_file_list_pdu}
use pc_trade.LocalFile.Handle.{OpenFile}
use pc_trade.LocalFile.Walk.{Entry, entry, Listed, construct_file_list}
use pc_trade.Serve.{Served, serve_request}

-- "FileGroupDescriptorW" and "FileContents"
abbrev pub file_descriptorw_name : List ℕ
file_descriptorw_name =
    b'F' ∷ b'i' ∷ b'l' ∷ b'e' ∷ b'G' ∷ b'r' ∷ b'o' ∷ b'u' ∷ b'p' ∷ b'D' ∷ b'e' ∷ b's' ∷ b'c' ∷ b'r'
    ∷ b'i' ∷ b'p' ∷ b't' ∷ b'o' ∷ b'r' ∷ b'W' ∷ []

abbrev pub file_contents_name : List ℕ
file_contents_name =
    b'F' ∷ b'i' ∷ b'l' ∷ b'e' ∷ b'C' ∷ b'o' ∷ b'n' ∷ b't' ∷ b'e' ∷ b'n' ∷ b't' ∷ b's' ∷ []

abbrev pub file_descriptor_id : ℕ
file_descriptor_id = 49334

abbrev pub file_contents_id : ℕ
file_contents_id = 49267

-- A map of format ids, the newest entry first.
abbrev pub FormatMap : Type 0
FormatMap = List (ℕ × List ℕ)

abbrev pub start_formats : FormatMap
start_formats =
    (file_descriptor_id, file_descriptorw_name) ∷ (file_contents_id, file_contents_name) ∷ []

unfoldable pub get_local_format : FormatMap → ℕ → Option (List ℕ)
get_local_format [] id = none
get_local_format ((k, name) ∷ rest) id = if k == id then some name else get_local_format rest id

abbrev pub add_remote_format : FormatMap → List ℕ → ℕ → FormatMap
add_remote_format m name id = (id, name) ∷ m

-- Whether the file system can be mounted, the files that the system's clipboard holds, whether it
-- takes a list of files, and whether the receiver of the FUSE server is there.
pub record System : Type 0 where
  pub can_mount : Bool
  pub file_list : List Entry
  pub takes_list : Bool
  pub has_receiver : Bool

-- The state: `opened` has the readers of `local_files`, in the same order, and `to_fuse` the
-- messages that were sent to the FUSE server.
pub record Context : Type 0 where
  pub mounted : Bool
  pub formats : FormatMap
  pub local_files : List LocalFile
  pub opened : List OpenFile
  pub fuse : FuseServer
  pub to_fuse : List ClipboardFile

-- What serving a message ends in: the state, the messages sent to the connection, the paths that the
-- system's clipboard was given, and the result.
pub record Outcome : Type 0 where
  pub context : Context
  pub sent : List ClipboardFile
  pub pasted : List (List (List ℕ))
  pub result : Result Failure (Unit {0})

abbrev pub quiet : Context → Result Failure (Unit {0}) → Outcome
quiet c r = record { context = c; sent = []; pasted = []; result = r }

abbrev pub reply : Context → ClipboardFile → Outcome
reply c m = record { context = c; sent = m ∷ []; pasted = []; result = ok tt }

-- `resp_format_data_failure`
abbrev pub data_failure : ClipboardFile
data_failure = format_data_response 0x2 []

-- `is_stopped` and `run`
unfoldable pub run : System → Context → Result Failure Context
run sys c =
    if c.mounted
    then ok c
    else if sys.can_mount
    then ok (record c { mounted = true })
    else err (error cliprdr_init)

-- `set_is_stopped`
unfoldable pub set_is_stopped : Context → Context
set_is_stopped c = record c { mounted = false }

abbrev pub path_of : Entry → List ℕ
path_of (entry path mt content entries) = path

abbrev pub same_paths : List LocalFile → List Entry → Bool
same_paths [] [] = true
same_paths [] (e ∷ es) = false
same_paths (f ∷ fs) [] = false
same_paths (f ∷ fs) (e ∷ es) =
    key_eq (components f.path) (components (path_of e)) && same_paths fs es

abbrev pub firsts : List Listed → List LocalFile
firsts [] = []
firsts ((f, h) ∷ fs) = f ∷ firsts fs

abbrev pub seconds : List Listed → List OpenFile
seconds [] = []
seconds ((f, h) ∷ fs) = h ∷ seconds fs

abbrev pub synced_as : Context → Result CliprdrError (List Listed) → Result Failure Context
synced_as c (err e) = err (error e)
synced_as c (ok fs) = ok (record c { local_files = firsts fs; opened = seconds fs })

unfoldable pub sync_local_files : System → Context → Result Failure Context
unfolding construct_file_list
sync_local_files sys c =
    if same_paths c.local_files sys.file_list
    then ok c
    else synced_as c (construct_file_list sys.file_list)

-- The formats that name files.
unfoldable pub file_formats : FormatMap → FormatMap
file_formats [] = []
file_formats ((id, name) ∷ rest) =
    let others = file_formats rest in
    if name_eq name file_descriptorw_name || name_eq name file_contents_name
    then (id, name) ∷ others
    else others

abbrev pub id_of : FormatMap → List ℕ → Option ℕ
id_of [] name = none
id_of ((id, n) ∷ rest) name = if name_eq n name then some id else id_of rest name

-- The two ids. One is missing where the two formats have the same name; the source leaves the function
-- by `?` on an Option there, which has no error of its own, and `invalid_request` stands for it.
abbrev pub ask_files : Context → Option ℕ → Option ℕ → Outcome
ask_files c none descriptor = quiet c (err (error invalid_request))
ask_files c (some contents) none = quiet c (err (error invalid_request))
ask_files c (some contents) (some descriptor) =
    reply
      (record c {
        formats =
            add_remote_format (add_remote_format c.formats file_contents_name contents)
              file_descriptorw_name descriptor;
      })
      (format_data_request descriptor)

unfoldable pub serve_format_list : Context → FormatMap → Outcome
unfolding file_formats
serve_format_list c formats =
    let known = file_formats formats in
    if length known == 2
    then ask_files c (id_of known file_contents_name) (id_of known file_descriptorw_name)
    else quiet c (ok tt)

abbrev pub or_name : Option (List ℕ) → List ℕ → List ℕ
or_name none d = d
or_name (some n) d = n

-- `send_format_list`
unfoldable pub local_format_list : FormatMap → ClipboardFile
unfolding get_local_format
local_format_list m = format_list (
    (file_descriptor_id, or_name (get_local_format m file_descriptor_id) file_descriptorw_name)
    ∷ (file_contents_id, or_name (get_local_format m file_contents_id) file_contents_name)
    ∷ [])

abbrev pub contents_served : Context → Served → Outcome
contents_served c s = record {
  context = record c { opened = s.files };
  sent = s.sent;
  pasted = [];
  result = s.result;
}

module _ (encode_utf16 : List ℕ → List ℕ) (decode_utf16 : List ℕ → Option (List ℕ)) (o : Outside)
    (sys : System) where
  abbrev pub list_as : Context → Option (List ℕ) → Outcome
  list_as c none = quiet c (err panic)
  list_as c (some pdu) = reply c (format_data_response 1 pdu)

  abbrev pub listed_as : Context → Result Failure Context → Outcome
  listed_as c (err e) = quiet c (err e)
  listed_as c (ok synced) = list_as synced (build_file_list_pdu encode_utf16 synced.local_files)

  unfoldable pub send_file_list : Context → Outcome
  unfolding sync_local_files build_file_list_pdu
  send_file_list c = listed_as c (sync_local_files sys c)

  abbrev pub by_format : Context → Option (List ℕ) → Outcome
  by_format c none = reply c data_failure
  by_format c (some format) =
      let files = send_file_list c in
      if name_eq format file_descriptorw_name then files else reply c data_failure

  -- The paths at the root are given to the system's clipboard, below the mount point.
  abbrev pub pasted_as : Context → Option (List (List ℕ)) → Outcome
  pasted_as c none = quiet c (err panic)
  pasted_as c (some paths) = record {
    context = c;
    sent = [];
    pasted = paths ∷ [];
    result = if sys.takes_list then ok tt else err (error clipboard_internal_error);
  }

  abbrev pub loaded_as : Context → Result Failure FuseServer → Outcome
  loaded_as c (err e) = quiet c (err e)
  loaded_as c (ok fuse) = pasted_as (record c { fuse = fuse }) (list_root fuse)

  abbrev pub parsed_as : Context → Result CliprdrError (List FileDescription) → Outcome
  parsed_as c (err e) = quiet c (err (error e))
  parsed_as c (ok files) = loaded_as c (load_file_list o c.fuse files)

  unfoldable pub serve_format_data : Context → (conn_id msg_flags : ℕ) → List ℕ → Outcome
  unfolding load_file_list list_root parse_file_descriptors
  serve_format_data c conn_id msg_flags format_data =
      if msg_flags == 0x1
      then parsed_as c (parse_file_descriptors decode_utf16 format_data conn_id)
      else reply c data_failure

  abbrev pub to_fuse : Context → ClipboardFile → Outcome
  to_fuse c m =
      if sys.has_receiver
      then quiet (record c { to_fuse = c.to_fuse ++ (m ∷ []) }) (ok tt)
      else quiet c (err (error clipboard_internal_error))

  unfoldable pub empty_clipboard : Context → Outcome
  empty_clipboard c = pasted_as c (some [])

  -- The `match` of `serve`, once the file system is mounted.
  unfoldable pub serve_message : Context → (conn_id : ℕ) → ClipboardFile → Outcome
  unfolding send_file_list serve_format_list local_format_list get_local_format serve_format_data
      serve_request
  serve_message c conn_id (notify_callback type title text) = quiet c (err panic)
  serve_message c conn_id monitor_ready = send_file_list c
  serve_message c conn_id (format_list formats) = serve_format_list c formats
  serve_message c conn_id (format_list_response msg_flags) =
      if msg_flags == 0x1 then quiet c (ok tt) else reply c (local_format_list c.formats)
  serve_message c conn_id (format_data_request requested_format_id) =
      by_format c (get_local_format c.formats requested_format_id)
  serve_message c conn_id (format_data_response msg_flags format_data) =
      serve_format_data c conn_id msg_flags format_data
  serve_message c conn_id
        (file_contents_request stream_id list_index dw_flags n_position_low n_position_high
          cb_requested have_clip_data_id clip_data_id) =
      contents_served c (
        serve_request c.opened stream_id list_index dw_flags n_position_low n_position_high
          cb_requested)
  serve_message c conn_id (file_contents_response msg_flags stream_id requested_data) =
      to_fuse c (file_contents_response msg_flags stream_id requested_data)

  abbrev pub served_as : Context → ℕ → ClipboardFile → Result Failure Context → Outcome
  served_as c conn_id msg (err e) = quiet c (err e)
  served_as c conn_id msg (ok running) = serve_message running conn_id msg

  unfoldable pub serve : Context → (conn_id : ℕ) → ClipboardFile → Outcome
  unfolding run serve_message
  serve c conn_id msg = served_as c conn_id msg (run sys c)
