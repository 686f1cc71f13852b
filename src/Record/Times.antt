-- ===== src/Record/Times.antt =====
-- The nanoseconds that the muxer of libs/scrap/src/common/record.rs is given.
use pc_trade.Prelude.{
  ℕ, ◌*◌, ◌%◌, ◌^◌, ◌≤◌, ◌<◌, ◌≡◌, ◌⊎◌, inl, inr, List, [], ◌∷◌, Bool, true, false, ◌&&◌, ltb,
  Bool-cases, arith,
}
use pc_trade.Record.{Given, Inner}
use pc_trade.Record.Playable.{IsNotAfter, HasTime, IsPlayable}

-- A frame has a time that does not wrap as a number of nanoseconds in 64 bits.
abbrev pub are_in_range : List Given → Bool
are_in_range [] = true
are_in_range (f ∷ fs) = ltb f.frame.pts 18446744073710 && are_in_range fs

-- The nanoseconds, the newest first, do not go back.
abbrev pub IsTimely : List Given → Type 0
IsTimely [] = Unit {0}
IsTimely (f ∷ []) = Unit {0}
IsTimely (f ∷ g ∷ fs) = (g.time ≤ f.time) × IsTimely (g ∷ fs)

-- A file that can be played, and that has frames in the order of their nanoseconds if no time wraps.
abbrev pub IsGoodFile : Inner → Type 0
IsGoodFile i = IsPlayable i.frames × ((are_in_range i.frames ≡ false) ⊎ IsTimely i.frames)

time_le :
    (p q t u : ℕ)
    → p < 18446744073710
    → q < 18446744073710
    → t ≡ p * 1000000 % 2 ^ 64
    → u ≡ q * 1000000 % 2 ^ 64
    → IsNotAfter p q
    → t ≤ u
time_le p q t u hp hq ht hu le = omega arith

timed-cons :
    (f g : Given) (fs : List Given)
    → are_in_range (f ∷ g ∷ fs) ≡ true
    → IsPlayable (f ∷ g ∷ fs)
    → IsTimely (g ∷ fs)
    → HasTime g
    → IsTimely (f ∷ g ∷ fs)
timed-cons f g fs e (time, le, rest) timely time_g = (
  time_le g.frame.pts f.frame.pts g.time f.time (second _ _ _ e) (first _ _ e) time_g time le,
  timely,
)
  where
    first : (a : ℕ) (b : Bool) → (ltb a 18446744073710 && b) ≡ true → a < 18446744073710
    first a b e = ground arith

    second :
        (a c : ℕ) (b : Bool)
        → (ltb a 18446744073710 && (ltb c 18446744073710 && b)) ≡ true
        → c < 18446744073710
    second a c b e = ground arith

HasTime-first : (g : Given) (fs : List Given) → IsPlayable (g ∷ fs) → HasTime g
HasTime-first g [] (time, key) = time
HasTime-first g (h ∷ fs) (time, le, rest) = time

in_range-rest :
    (f : Given) (fs : List Given) → are_in_range (f ∷ fs) ≡ true → are_in_range fs ≡ true
in_range-rest f fs e = right (ltb f.frame.pts 18446744073710) (are_in_range fs) e
  where
    right : (a b : Bool) → (a && b) ≡ true → b ≡ true
    right a b e = ground arith

IsTimely-in_range :
    (frames : List Given) → are_in_range frames ≡ true → IsPlayable frames → IsTimely frames
IsTimely-in_range [] e playable = tt
IsTimely-in_range (f ∷ []) e playable = tt
IsTimely-in_range (f ∷ g ∷ fs) e (time, le, rest) =
    timed-cons f g fs e (time, le, rest)
      (IsTimely-in_range (g ∷ fs) (in_range-rest f (g ∷ fs) e) rest) (HasTime-first g fs rest)

pub IsPlayable-times :
    (frames : List Given) → IsPlayable frames → (are_in_range frames ≡ false) ⊎ IsTimely frames
IsPlayable-times frames playable = elim (Bool-cases (are_in_range frames)) [
  | inl within ↦ inr (IsTimely-in_range frames within playable)
  | inr wraps ↦ inl wraps
]
