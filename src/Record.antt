-- ===== src/Record.antt =====
-- The recorder of a session: `Recorder` of libs/scrap/src/common/record.rs, as it is built with the
-- feature `hwcodec`. The muxers of libraries write a file; both recorders give them frames by the same
-- rule, and are `Inner`. An i64 is its 64-bit pattern.
pub mod Playable
pub mod Times
pub mod Files
mod Tests
use Prim.Native.String.{String}
use pc_trade.Prelude.{
  ℕ, ◌+◌, ◌*◌, ◌%◌, ◌^◌, List, [], ◌∷◌, ◌++◌, Option, none, some, Bool, true, false, not, ◌==◌,
  ◌&&◌, ◌||◌, ltb, if◌then◌else◌,
}
use pc_trade.PasswordSecurity.{codes}
use pc_trade.VideoCodec.Formats.{CodecFormat, vp8, vp9, av1, h264, h265, unknown, format_eq}

-- Whether an i64 is below another
unfoldable pub is_before : ℕ → ℕ → Bool
is_before a b = ltb ((a + 2 ^ 63) % 2 ^ 64) ((b + 2 ^ 63) % 2 ^ 64)

pub record EncodedVideoFrame : Type 0 where
  pub data_bytes : List ℕ
  pub key : Bool
  pub pts : ℕ

-- A message with frames, and one of another kind.
pub data Union : Type 0 where
  frames_of : CodecFormat → List EncodedVideoFrame → Union
  other : Union

pub data RecordState : Type 0 where
  new_file : (filename : List ℕ) → RecordState
  new_frame write_tail remove_file : RecordState

pub record RecorderContext : Type 0 where
  pub server : Bool
  pub id : List ℕ
  pub dir : List ℕ
  pub display : ℕ

pub record RecorderContext2 : Type 0 where
  pub filename : List ℕ
  pub width : ℕ
  pub height : ℕ
  pub format : CodecFormat

-- A frame that was given to a muxer, with its time in nanoseconds as WebM has it (the muxer of MP4 takes
-- no time)
pub record Given : Type 0 where
  pub frame : EncodedVideoFrame
  pub time : ℕ

-- An open file: what it is for, the frames that were given to the muxer, the newest first, whether
-- there was a key frame, and whether the muxer took a frame.
pub record Inner : Type 0 where
  pub of : RecorderContext2
  pub frames : List Given
  pub key : Bool
  pub written : Bool

-- What happens outside, by the number of files opened before: whether the directory is there or can be
-- made, the time as it stands in a name, whether a file can be opened; and whether a muxer takes a frame,
-- and whether a file was open for a second when it is closed.
pub record Outside : Type 0 where
  pub has_dir : ℕ → Bool
  pub stamp : ℕ → List ℕ
  pub opens : ℕ → Bool
  pub takes : Inner → EncodedVideoFrame → Bool
  pub is_long : Inner → Bool
  pub decimal : ℕ → List ℕ
  pub join : List ℕ → List ℕ → List ℕ

-- The state, with the files that were kept, the states that were sent, and the number of files opened.
pub record Recorder : Type 0 where
  pub inner : Option Inner
  pub ctx : RecorderContext
  pub ctx2 : Option RecorderContext2
  pub pts : Option ℕ
  pub check_failed : Bool
  pub kept : List Inner
  pub states : List RecordState
  pub opened : ℕ

unfoldable pub new : RecorderContext → Recorder
new ctx = record {
  inner = none;
  ctx = ctx;
  ctx2 = none;
  pts = none;
  check_failed = false;
  kept = [];
  states = [];
  opened = 0;
}

abbrev pub send_state : Recorder → RecordState → Recorder
send_state r s = record r { states = r.states ++ (s ∷ []) }

-- The format in lower case, and the ending of the file.
abbrev pub format_name : CodecFormat → List ℕ
format_name vp8 = codes "vp8.webm"
format_name vp9 = codes "vp9.webm"
format_name av1 = codes "av1.webm"
format_name h264 = codes "h264.mp4"
format_name h265 = codes "h265.mp4"
format_name unknown = codes "unknown.mp4"

-- `frame.pts as u64 * 1_000_000`
abbrev pub muxer_time : ℕ → ℕ
muxer_time pts = pts * 1000000 % 2 ^ 64

-- A frame before the first key frame is not given to the muxer.
unfoldable pub write_video :
    (takes : Inner → EncodedVideoFrame → Bool) → Inner → EncodedVideoFrame → Inner
write_video takes i f =
    if f.key || i.key
    then record i {
      key = true;
      frames = record { frame = f; time = muxer_time f.pts } ∷ i.frames;
      written = i.written || takes i f;
    }
    else i

abbrev pub first_pts : Option ℕ → ℕ
first_pts none = 0
first_pts (some p) = p

abbrev pub is_first : Option ℕ → Bool
is_first none = true
is_first (some p) = false

abbrev pub failed_as : Bool × Recorder → Bool × Recorder
failed_as (true, r) = (true, r)
failed_as (false, r) = (false, record r { check_failed = true })

abbrev pub restarted_as : ℕ → Bool × Recorder → Bool × Recorder
restarted_as pts (true, r) = (true, record r { pts = some pts })
restarted_as pts (false, r) = (false, r)

module _ (o : Outside) where
  abbrev pub file_name : RecorderContext → ℕ → CodecFormat → List ℕ
  file_name ctx n format = o.join ctx.dir (
      (if ctx.server then codes "incoming" else codes "outgoing")
      ++ codes "_"
      ++ ctx.id
      ++ o.stamp n
      ++ codes "display"
      ++ o.decimal ctx.display
      ++ codes "_"
      ++ format_name format)

  -- A file is closed: it is removed if nothing was written or it is too short.
  abbrev pub close_as : Recorder → Option Inner → Recorder
  close_as r none = r
  close_as r (some i) =
      if i.written && o.is_long i
      then record (send_state r write_tail) { inner = none; kept = i ∷ r.kept }
      else record (send_state r remove_file) { inner = none }

  unfoldable pub close : Recorder → Recorder
  close r = close_as r r.inner

  abbrev pub fits_as : Option RecorderContext2 → ℕ → ℕ → CodecFormat → Bool
  fits_as none w h format = false
  fits_as (some c) w h format = c.width == w && c.height == h && format_eq c.format format

  abbrev pub context_for : Recorder → ℕ → ℕ → CodecFormat → RecorderContext2
  context_for r w h format = record {
    filename = file_name r.ctx r.opened format;
    width = w;
    height = h;
    format = format;
  }

  abbrev pub start_file : Recorder → RecorderContext2 → Recorder
  start_file r c = record (send_state r (new_file c.filename)) {
    inner = some (record { of = c; frames = []; key = false; written = false });
    pts = none;
    opened = r.opened + 1;
  }

  -- A file is opened where none is open.
  abbrev pub open_as : Recorder → Option Inner → Option RecorderContext2 → Bool × Recorder
  open_as r inner none = (false, r)
  open_as r (some i) (some c) = (true, r)
  open_as r none (some c) = if o.opens r.opened then (true, start_file r c) else (false, r)

  abbrev pub opened_for : Recorder → Bool × Recorder
  opened_for r = open_as r r.inner r.ctx2

  -- Whether it succeeded, and the recorder.
  unfoldable pub check : Recorder → (w h : ℕ) → CodecFormat → Bool × Recorder
  unfolding close
  check r w h format =
      if fits_as r.ctx2 w h format
      then opened_for r
      else if o.has_dir r.opened
      then opened_for (record (close r) { ctx2 = some (context_for r w h format) })
      else (false, r)

  -- The first frame of a file is a key frame, and where the time goes back a new file is begun.
  unfoldable pub check_pts :
      Recorder → (pts : ℕ) → (key : Bool) → (w h : ℕ) → CodecFormat → Bool × Recorder
  unfolding check close is_before
  check_pts r pts key w h format =
      if is_first r.pts && not key
      then (false, r)
      else if is_before pts (first_pts r.pts)
      then restarted_as pts (
          failed_as
            (check (record (close (record r { pts = some pts })) { ctx2 = none }) w h format))
      else (true, record r { pts = some pts })

  abbrev pub give_as : Recorder → EncodedVideoFrame → Option Inner → Recorder
  give_as r f none = r
  give_as r f (some i) = record r { inner = some (write_video o.takes i f) }

  -- The rest of the frames is left out when a frame fails.
  unfoldable pub write_frames :
      Recorder → List EncodedVideoFrame → (w h : ℕ) → CodecFormat → Bool × Recorder
  unfolding check_pts write_video
  write_frames r [] w h format = (true, r)
  write_frames r (f ∷ fs) w h format =
      let later = λ (x : Recorder). write_frames x fs w h format in
      let (good, checked) = check_pts r f.pts f.key w h format in
      if good then later (give_as checked f checked.inner) else (false, checked)

  abbrev pub told_as : Bool × Recorder → Bool × Recorder
  told_as (true, r) = (true, send_state r new_frame)
  told_as (false, r) = (false, r)

  abbrev pub frames_as :
      List EncodedVideoFrame → ℕ → ℕ → CodecFormat → Bool × Recorder → Bool × Recorder
  frames_as fs w h format (false, r) = (false, r)
  frames_as fs w h format (true, r) = told_as (write_frames r fs w h format)

  unfoldable pub write_frame : Recorder → Union → (w h : ℕ) → Bool × Recorder
  unfolding check write_frames
  write_frame r other w h = (false, r)
  write_frame r (frames_of format fs) w h =
      if r.check_failed || format_eq format unknown
      then (false, r)
      else frames_as fs w h format (failed_as (check r w h format))
