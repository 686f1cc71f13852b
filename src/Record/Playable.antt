-- ===== src/Record/Playable.antt =====
-- What it is for a file of libs/scrap/src/common/record.rs to be playable, and what a frame and a time
-- make of it.
use pc_trade.Prelude.{
  ℕ, ◌+◌, ◌*◌, ◌%◌, ◌^◌, ◌≤◌, ◌≡◌, refl, List, [], ◌∷◌, Option, none, some, Bool, true, false, ◌||◌,
  if◌then◌else◌, arith, All,
}
use mathlib.Core.Path.{subst, sym}
use pc_trade.Record.{
  EncodedVideoFrame, Given, Inner, Outside, Recorder, write_video, failed_as, restarted_as, give_as,
}

-- One i64 is not below another.
abbrev pub IsNotAfter : ℕ → ℕ → Type 0
IsNotAfter a b = (a + 2 ^ 63) % 2 ^ 64 ≤ (b + 2 ^ 63) % 2 ^ 64

-- The time that the muxer is given is the one of the frame in nanoseconds, as it wraps.
abbrev pub HasTime : Given → Type 0
HasTime g = g.time ≡ g.frame.pts * 1000000 % 2 ^ 64

-- The frames, the newest first: the oldest is a key frame, and their times do not go back, as i64.
abbrev pub IsPlayable : List Given → Type 0
IsPlayable [] = Unit {0}
IsPlayable (f ∷ []) = HasTime f × (f.frame.key ≡ true)
IsPlayable (f ∷ g ∷ fs) = HasTime f × IsNotAfter g.frame.pts f.frame.pts × IsPlayable (g ∷ fs)

-- No frame is later than the time of the recorder.
abbrev pub IsUpTo : List Given → Option ℕ → Type 0
IsUpTo [] pts = Unit {0}
IsUpTo (f ∷ fs) none = ◌≡◌ {A = ℕ} 1 0
IsUpTo (f ∷ fs) (some p) = IsNotAfter f.frame.pts p

abbrev pub IsBegun : List Given → Bool → Type 0
IsBegun [] key = key ≡ false
IsBegun (f ∷ fs) key = Unit {0}

abbrev pub IsSoundFile : Option Inner → Option ℕ → Type 0
IsSoundFile none pts = Unit {0}
IsSoundFile (some i) pts = IsPlayable i.frames × IsBegun i.frames i.key × IsUpTo i.frames pts

abbrev pub AllPlayable : List Inner → Type 0
AllPlayable files = All (λ (i : Inner). IsPlayable i.frames) files

pub record IsSound (r : Recorder) : Type 0 where
  pub files : AllPlayable r.kept
  pub current : IsSoundFile r.inner r.pts

abbrev pub IsPlayableFile : Option Inner → Type 0
IsPlayableFile none = Unit {0}
IsPlayableFile (some i) = IsPlayable i.frames

pub playable_of :
    (inner : Option Inner) (pts : Option ℕ) → IsSoundFile inner pts → IsPlayableFile inner
playable_of none pts sound = tt
playable_of (some i) pts (playable, begun, up) = playable

-- What a frame makes of the frames before it.
abbrev given : EncodedVideoFrame → Given
given f = record { frame = f; time = f.pts * 1000000 % 2 ^ 64 }

IsPlayable-cons :
    (f : EncodedVideoFrame) (frames : List Given) (key : Bool)
    → (f.key || key) ≡ true
    → IsPlayable frames
    → IsBegun frames key
    → IsUpTo frames (some f.pts)
    → IsPlayable (given f ∷ frames)
IsPlayable-cons f [] key taken playable begun up = (refl, is_key f.key key taken begun)
  where
    is_key : (a b : Bool) → (a || b) ≡ true → b ≡ false → a ≡ true
    is_key a b e h = ground arith
IsPlayable-cons f (g ∷ fs) key taken playable begun up = (refl, up, playable)

pub write_video-IsSoundFile :
    (takes : Inner → EncodedVideoFrame → Bool) (i : Inner) (f : EncodedVideoFrame)
    → IsSoundFile (some i) (some f.pts)
    → IsSoundFile (some (write_video takes i f)) (some f.pts)
unfolding write_video
write_video-IsSoundFile takes i f (playable, begun, up) = by_key (f.key || i.key) refl
  where
    by_key :
        (b : Bool)
        → (f.key || i.key) ≡ b
        → IsSoundFile
            (some (
              if b
              then record i {
                key = true;
                frames = given f ∷ i.frames;
                written = i.written || takes i f;
              }
              else i))
            (some f.pts)
    by_key true e = (IsPlayable-cons f i.frames i.key e playable begun up, tt, le_refl f.pts)
      where
        le_refl : (n : ℕ) → IsNotAfter n n
        le_refl n = omega arith
    by_key false e = (playable, begun, up)

pub give_as-IsSound :
    (o : Outside) (r : Recorder) (f : EncodedVideoFrame) (inner : Option Inner)
    → IsSound r
    → IsSoundFile inner r.pts
    → r.pts ≡ some f.pts
    → IsSound (give_as o r f inner)
give_as-IsSound o r f none sound current e = sound
give_as-IsSound o r f (some i) sound current e = record {
  files = sound.files;
  current =
      subst (λ (p : Option ℕ). IsSoundFile (some (write_video o.takes i f)) p) (sym e)
        (write_video-IsSoundFile o.takes i f
          (subst (λ (p : Option ℕ). IsSoundFile (some i) p) e current));
}

-- The time does not go back.
abbrev pub IsLater : Option ℕ → ℕ → Type 0
IsLater none pts = Unit {0}
IsLater (some p) pts = IsNotAfter p pts

pub IsUpTo-later :
    (frames : List Given) (old : Option ℕ) (pts : ℕ)
    → IsLater old pts
    → IsUpTo frames old
    → IsUpTo frames (some pts)
IsUpTo-later [] old pts le up = tt
IsUpTo-later (f ∷ fs) none pts le up = cc
IsUpTo-later (f ∷ fs) (some p) pts le up = omega arith

pub IsSoundFile-later :
    (inner : Option Inner) (old : Option ℕ) (pts : ℕ)
    → IsLater old pts
    → IsSoundFile inner old
    → IsSoundFile inner (some pts)
IsSoundFile-later none old pts le sound = tt
IsSoundFile-later (some i) old pts le (playable, begun, up) =
    (playable, begun, IsUpTo-later i.frames old pts le up)

pub IsSound-later :
    (r : Recorder) (pts : ℕ) → IsLater r.pts pts → IsSound r → IsSound (record r { pts = some pts })
IsSound-later r pts le sound = record {
  files = sound.files;
  current = IsSoundFile-later r.inner r.pts pts le sound.current;
}

pub failed_as-IsSound : (x : Bool × Recorder) → IsSound x.1 → IsSound (failed_as x).1
failed_as-IsSound (true, r) sound = sound
failed_as-IsSound (false, r) sound = record { files = sound.files; current = sound.current }

pub failed_as-pts :
    (x : Bool × Recorder) → (failed_as x).0 ≡ true → (x.0 ≡ true) × ((failed_as x).1 ≡ x.1)
failed_as-pts (true, r) e = (refl, refl)
failed_as-pts (false, r) e = cc

-- After the time was checked, it is the time of the frame.
pub record IsTimed (x : Bool × Recorder) (pts : ℕ) : Type 0 where
  pub sound : IsSound x.1
  pub at_frame : x.0 ≡ true → x.1.pts ≡ some pts

pub restarted_as-IsTimed :
    (pts : ℕ) (x : Bool × Recorder)
    → IsSound x.1
    → (x.0 ≡ true → x.1.pts ≡ none)
    → IsTimed (restarted_as pts x) pts
restarted_as-IsTimed pts (true, r) sound fresh = record {
  sound = IsSound-later r pts (low r.pts (fresh refl)) sound;
  at_frame = λ _. refl;
}
  where
    low : (old : Option ℕ) → old ≡ none → IsLater old pts
    low none e = omega arith
    low (some p) e = cc
restarted_as-IsTimed pts (false, r) sound fresh = record { sound = sound; at_frame = λ e. cc }
