-- ===== src/Cliprdr.antt =====
-- libs/clipboard/src/lib.rs: the messages of the clipboard channel and its errors. An `i32` is its
-- two's complement pattern, a number below 2 ^ 32. The texts in errors are left out.
use pc_trade.Prelude.{ℕ, ◌+◌, ◌-◌, ◌^◌, List, Bool, true, false, ltb, if◌then◌else◌}

pub data CliprdrError : Type 0 where
  cliprdr_name cliprdr_init cliprdr_out_of_memory clipboard_internal_error : CliprdrError
  clipboard_occupied conversion_failure open_clipboard file_error invalid_request : CliprdrError
  unknown : ℕ → CliprdrError

-- How a function of the source ends when it gives no value: by an error or by a panic.
pub data Failure : Type 0 where
  error : CliprdrError → Failure
  panic : Failure

pub data ClipboardFile : Type 0 where
  notify_callback : (type title text : List ℕ) → ClipboardFile
  monitor_ready : ClipboardFile
  format_list : List (ℕ × List ℕ) → ClipboardFile
  format_list_response : (msg_flags : ℕ) → ClipboardFile
  format_data_request : (requested_format_id : ℕ) → ClipboardFile
  format_data_response : (msg_flags : ℕ) (format_data : List ℕ) → ClipboardFile
  file_contents_request :
      (stream_id list_index dw_flags n_position_low n_position_high cb_requested : ℕ)
      (have_clip_data_id : Bool) (clip_data_id : ℕ)
      → ClipboardFile
  file_contents_response : (msg_flags stream_id : ℕ) (requested_data : List ℕ) → ClipboardFile

unfoldable pub is_stopping_allowed : ClipboardFile → Bool
is_stopping_allowed monitor_ready = true
is_stopping_allowed (format_list _) = true
is_stopping_allowed (format_data_request _) = true
is_stopping_allowed _ = false

unfoldable pub is_beginning_message : ClipboardFile → Bool
is_beginning_message monitor_ready = true
is_beginning_message (format_list _) = true
is_beginning_message _ = false

-- `as u64` and `as usize` on an i32: the sign is extended.
abbrev pub sign_extend : ℕ → ℕ
sign_extend w = if ltb w (2 ^ 31) then w else w + (2 ^ 64 - 2 ^ 32)
