-- ===== src/Record/Tests.antt =====
-- A recording of libs/scrap/src/common/record.rs.
use pc_trade.Prelude.{ℕ, ◌-◌, ◌^◌, ◌≡◌, refl, List, [], ◌∷◌, Bool, true, false, length, All}
use pc_trade.PasswordSecurity.{codes}
use pc_trade.VideoCodec.Formats.{vp9, h264}
use pc_trade.Record.{
  EncodedVideoFrame, Given, Union, frames_of, other, RecorderContext, Inner, Outside, new, close,
}
use pc_trade.Record.Times.{IsGoodFile}
use pc_trade.Record.Files.{write_all, record_lem}

abbrev disk : Outside
disk = record {
  has_dir = λ n. true;
  stamp = λ n. [];
  opens = λ n. true;
  takes = λ i f. true;
  is_long = λ i. true;
  decimal = λ n. [];
  join = λ dir name. name;
}

abbrev context : RecorderContext
context = record { server = true; id = codes "1"; dir = []; display = 0 }

abbrev frame : Bool → ℕ → EncodedVideoFrame
frame key pts = record { data_bytes = []; key = key; pts = pts }

-- The time goes back, the screen changes, and the format changes.
abbrev session : List (Union × ℕ × ℕ)
session =
    (frames_of vp9 (frame true 5 ∷ frame false 6 ∷ []), 8, 6)
    ∷ (frames_of vp9 (frame false 2 ∷ frame true 3 ∷ []), 8, 6)
    ∷ (other, 8, 6)
    ∷ (frames_of h264 (frame true 4 ∷ []), 9, 6)
    ∷ []

record_lem_example : All IsGoodFile (close disk (write_all disk (new context) session)).kept
record_lem_example = record_lem disk context session

-- Three files, the newest first; the frame that went back was no key frame and is left out.
lengths : List Inner → List ℕ
lengths [] = []
lengths (i ∷ is) = length i.frames ∷ lengths is

recorded : lengths (close disk (write_all disk (new context) session)).kept ≡ 1 ∷ 1 ∷ 2 ∷ []
unfolding lengths close write_all new
recorded = refl

-- A time of -1 and then one of 0: they do not go back, but the nanoseconds of the muxer do.
times : List Inner → List (List ℕ)
times [] = []
times (i ∷ is) = times_of i.frames ∷ times is
  where
    times_of : List Given → List ℕ
    times_of [] = []
    times_of (g ∷ gs) = g.time ∷ times_of gs

abbrev from_below : List (Union × ℕ × ℕ)
from_below = (frames_of vp9 (frame true (2 ^ 64 - 1) ∷ frame false 0 ∷ []), 8, 6) ∷ []

wrapped :
    times (close disk (write_all disk (new context) from_below)).kept
    ≡ (0 ∷ (2 ^ 64 - 1000000) ∷ []) ∷ []
unfolding times close write_all new
wrapped = refl
