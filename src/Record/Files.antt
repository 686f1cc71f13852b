-- ===== src/Record/Files.antt =====
-- The files that the recorder of libs/scrap/src/common/record.rs leaves.
use pc_trade.Prelude.{
  ℕ, ◌+◌, ◌%◌, ◌^◌, ◌≤◌, ◌≡◌, refl, ap, ◌∙◌, inl, inr, List, [], ◌∷◌, Option, none, some, Bool,
  true, false, not, ◌&&◌, ◌||◌, ltb, Bool-cases, arith, All,
}
use mathlib.Core.Path.{subst, sym}
use pc_trade.VideoCodec.Formats.{CodecFormat, unknown, format_eq}
use pc_trade.Record.{
  EncodedVideoFrame, Union, frames_of, other, RecorderContext, RecorderContext2, Inner, Outside,
  Recorder, new, close_as, close, fits_as, context_for, open_as, check, is_before, failed_as,
  first_pts, restarted_as, is_first, check_pts, give_as, write_frames, told_as, frames_as,
  write_frame,
}
use pc_trade.Record.Playable.{
  AllPlayable, IsPlayableFile, IsSound, IsSound-later, IsSoundFile, IsTimed, failed_as-IsSound,
  failed_as-pts, give_as-IsSound, playable_of, restarted_as-IsTimed, IsLater,
}
use pc_trade.Record.Times.{IsGoodFile, IsPlayable-times}

is_before-IsLater :
    (pts : ℕ) (old : Option ℕ) → is_before pts (first_pts old) ≡ false → IsLater old pts
unfolding is_before
is_before-IsLater pts none e = tt
is_before-IsLater pts (some p) e = ordered ((pts + 2 ^ 63) % 2 ^ 64) ((p + 2 ^ 63) % 2 ^ 64) e
  where
    ordered : (a b : ℕ) → ltb a b ≡ false → b ≤ a
    ordered a b e = ground arith

module _ (o : Outside) where
  close_as-AllPlayable :
      (r : Recorder) (inner : Option Inner)
      → AllPlayable r.kept
      → IsPlayableFile inner
      → AllPlayable (close_as o r inner).kept
  close_as-AllPlayable r none files playable = files
  close_as-AllPlayable r (some i) files playable = elim (Bool-cases (i.written && o.is_long i)) [
    | inl kept ↦ rw kept (playable, files)
    | inr removed ↦ rw removed files
  ]

  close_as-none :
      (r : Recorder) (inner : Option Inner) → r.inner ≡ inner → (close_as o r inner).inner ≡ none
  close_as-none r none e = e
  close_as-none r (some i) e = elim (Bool-cases (i.written && o.is_long i)) [
    | inl kept ↦ rw kept refl
    | inr removed ↦ rw removed refl
  ]

  close-none : (r : Recorder) → (close o r).inner ≡ none
  unfolding close
  close-none r = close_as-none r r.inner refl

  -- Nothing is asked of the time when a file is closed.
  close-IsSound : (r : Recorder) → AllPlayable r.kept → IsPlayableFile r.inner → IsSound (close o r)
  unfolding close
  close-IsSound r files playable = record {
    files = close_as-AllPlayable r r.inner files playable;
    current =
        subst (λ (i : Option Inner). IsSoundFile i (close o r).pts)
          (sym (close_as-none r r.inner refl)) tt;
  }

  open_as-IsSound :
      (r : Recorder) (inner : Option Inner) (ctx2 : Option RecorderContext2)
      → IsSound r
      → IsSound (open_as o r inner ctx2).1
  open_as-IsSound r none none sound = sound
  open_as-IsSound r (some i) none sound = sound
  open_as-IsSound r (some i) (some c) sound = sound
  open_as-IsSound r none (some c) sound = elim (Bool-cases (o.opens r.opened)) [
    | inl opened ↦ rw opened (record { files = sound.files; current = (tt, refl, tt) })
    | inr not_opened ↦ rw not_opened sound
  ]

  -- A new file starts without a time.
  open_as-pts :
      (r : Recorder) (inner : Option Inner) (ctx2 : Option RecorderContext2)
      → inner ≡ none
      → (open_as o r inner ctx2).0 ≡ true
      → (open_as o r inner ctx2).1.pts ≡ none
  open_as-pts r none none e opened = cc
  open_as-pts r (some i) ctx2 e opened = cc
  open_as-pts r none (some c) e opened = elim (Bool-cases (o.opens r.opened)) [
    | inl can ↦ rw can refl
    | inr cannot ↦ not_opened (rw cannot at opened)
  ]
    where
      not_opened : {A : Type 0} → false ≡ true → A
      not_opened e = cc

  check-IsSound :
      (r : Recorder) (w h : ℕ) (format : CodecFormat) → IsSound r → IsSound (check o r w h format).1
  unfolding check
  check-IsSound r w h format sound = elim (Bool-cases (fits_as o r.ctx2 w h format)) [
    | inl fits ↦ rw fits (open_as-IsSound r r.inner r.ctx2 sound)
    | inr other_file ↦ elim (Bool-cases (o.has_dir r.opened)) [
      | inl there ↦
          rw (other_file, there)
            (open_as-IsSound (record (close o r) { ctx2 = some (context_for o r w h format) })
              (close o r).inner (some (context_for o r w h format))
              (after_close r w h format sound))
      | inr missing ↦ rw (other_file, missing) sound
    ]
  ]
    where
      after_close :
          (r : Recorder) (w h : ℕ) (format : CodecFormat)
          → IsSound r
          → IsSound (record (close o r) { ctx2 = some (context_for o r w h format) })
      after_close r w h format sound =
          let closed = close-IsSound r sound.files (playable_of r.inner r.pts sound.current) in
          record { files = closed.files; current = closed.current }

  -- A recorder without a file gets a new one, if it can.
  check-pts :
      (r : Recorder) (w h : ℕ) (format : CodecFormat)
      → fits_as o r.ctx2 w h format ≡ false
      → (check o r w h format).0 ≡ true
      → (check o r w h format).1.pts ≡ none
  unfolding check
  check-pts r w h format other_file good = elim (Bool-cases (o.has_dir r.opened)) [
    | inl there ↦
        rw (other_file, there)
          (open_as-pts (record (close o r) { ctx2 = some (context_for o r w h format) })
            (close o r).inner (some (context_for o r w h format)) (close-none r)
            (rw (other_file, there) at good))
    | inr missing ↦ not_good (rw (other_file, missing) at good)
  ]
    where
      not_good : {A : Type 0} → false ≡ true → A
      not_good e = cc

  -- The new file that a frame of an earlier time begins.
  restart-IsTimed :
      (r : Recorder) (pts w h : ℕ) (format : CodecFormat)
      → IsSound r
      → r.ctx2 ≡ none
      → IsTimed (restarted_as pts (failed_as (check o r w h format))) pts
  restart-IsTimed r pts w h format sound no_file =
      let x = check o r w h format in
      let no_fit : fits_as o r.ctx2 w h format ≡ false = rw no_file refl in
      restarted_as-IsTimed pts (failed_as x)
        (failed_as-IsSound x (check-IsSound r w h format sound))
        (λ good.
          let (passed, same) = failed_as-pts x good in
          ap (λ (y : Recorder). y.pts) same ∙ check-pts r w h format no_fit passed)

  check_pts-IsTimed :
      (r : Recorder) (pts : ℕ) (key : Bool) (w h : ℕ) (format : CodecFormat)
      → IsSound r
      → IsTimed (check_pts o r pts key w h format) pts
  unfolding check_pts
  check_pts-IsTimed r pts key w h format sound = elim (Bool-cases (is_first r.pts && not key)) [
    | inl no_key ↦ rw no_key (record { sound = sound; at_frame = λ e. cc })
    | inr fine ↦ elim (Bool-cases (is_before pts (first_pts r.pts))) [
      | inl back ↦
          rw (fine, back)
            (restart-IsTimed (record (close o (record r { pts = some pts })) { ctx2 = none }) pts w
              h format (closed r pts sound) refl)
      | inr onward ↦
          rw (fine, onward)
            (record {
              sound = IsSound-later r pts (is_before-IsLater pts r.pts onward) sound;
              at_frame = λ _. refl;
            })
    ]
  ]
    where
      closed :
          (r : Recorder) (pts : ℕ)
          → IsSound r
          → IsSound (record (close o (record r { pts = some pts })) { ctx2 = none })
      closed r pts sound =
          let c =
            close-IsSound (record r { pts = some pts }) sound.files
              (playable_of r.inner r.pts sound.current) in
          record { files = c.files; current = c.current }

  write_frames-IsSound :
      (r : Recorder) (fs : List EncodedVideoFrame) (w h : ℕ) (format : CodecFormat)
      → IsSound r
      → IsSound (write_frames o r fs w h format).1
  unfolding write_frames
  write_frames-IsSound r [] w h format sound = sound
  write_frames-IsSound r (f ∷ fs) w h format sound =
      let checked = check_pts o r f.pts f.key w h format in
      let timed = check_pts-IsTimed r f.pts f.key w h format sound in
      elim (Bool-cases checked.0) [
        | inl good ↦ rw good (
            write_frames-IsSound (give_as o checked.1 f checked.1.inner) fs w h format (
              give_as-IsSound o checked.1 f checked.1.inner timed.sound timed.sound.current
                (timed.at_frame good)))
        | inr bad ↦ rw bad timed.sound
      ]

  told_as-IsSound : (x : Bool × Recorder) → IsSound x.1 → IsSound (told_as o x).1
  told_as-IsSound (true, r) sound = record { files = sound.files; current = sound.current }
  told_as-IsSound (false, r) sound = sound

  frames_as-IsSound :
      (fs : List EncodedVideoFrame) (w h : ℕ) (format : CodecFormat) (x : Bool × Recorder)
      → IsSound x.1
      → IsSound (frames_as o fs w h format x).1
  frames_as-IsSound fs w h format (false, r) sound = sound
  frames_as-IsSound fs w h format (true, r) sound =
      told_as-IsSound (write_frames o r fs w h format) (write_frames-IsSound r fs w h format sound)

  write_frame-IsSound :
      (r : Recorder) (frame : Union) (w h : ℕ) → IsSound r → IsSound (write_frame o r frame w h).1
  unfolding write_frame
  write_frame-IsSound r other w h sound = sound
  write_frame-IsSound r (frames_of format fs) w h sound =
      elim (Bool-cases (r.check_failed || format_eq format unknown)) [
        | inl refused ↦ rw refused sound
        | inr taken ↦ rw taken (
            frames_as-IsSound fs w h format (failed_as (check o r w h format))
              (failed_as-IsSound (check o r w h format) (check-IsSound r w h format sound)))
      ]

  -- The messages of a session with the sizes of the screen, one after another.
  unfoldable pub write_all : Recorder → List (Union × ℕ × ℕ) → Recorder
  unfolding write_frame
  write_all r [] = r
  write_all r ((frame, w, h) ∷ rest) = write_all (write_frame o r frame w h).1 rest

  write_all-IsSound :
      (r : Recorder) (messages : List (Union × ℕ × ℕ)) → IsSound r → IsSound (write_all r messages)
  unfolding write_all
  write_all-IsSound r [] sound = sound
  write_all-IsSound r ((frame, w, h) ∷ rest) sound =
      write_all-IsSound (write_frame o r frame w h).1 rest (write_frame-IsSound r frame w h sound)

  -- In every file that is kept when a session was recorded to its end, the first frame that the muxer
  -- was given is a key frame, and the times of the frames, as i64, do not go back, whatever messages came
  -- and whatever failed. The nanoseconds that the WebM muxer was given do not go back either, if every
  -- frame of the file has a time from 0 to 18446744073709 milliseconds (they wrap for others).
  pub record_lem :
      (ctx : RecorderContext) (messages : List (Union × ℕ × ℕ))
      → All IsGoodFile (close o (write_all (new ctx) messages)).kept
  unfolding new
  record_lem ctx messages =
      let r = write_all (new ctx) messages in
      let sound = write_all-IsSound (new ctx) messages (record { files = tt; current = tt }) in
      all_good (close o r).kept
        ((close-IsSound r sound.files (playable_of r.inner r.pts sound.current)).files)
    where
      all_good : (files : List Inner) → AllPlayable files → All IsGoodFile files
      all_good [] playable = tt
      all_good (i ∷ files) (playable, rest) =
          ((playable, IsPlayable-times i.frames playable), all_good files rest)
