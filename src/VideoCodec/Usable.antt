-- ===== src/VideoCodec/Usable.antt =====
-- What the usable formats of libs/scrap/src/common/codec.rs stand for.
use pc_trade.Prelude.{
  ℕ, ◌^◌, ◌<◌, ◌≡◌, refl, [], ◌∷◌, Bool, true, false, not, ◌&&◌, ◌||◌, ltb, ltb→lt, if◌then◌else◌,
  arith, All,
}
use pc_trade.VideoCodec.Formats.{
  CodecFormat, vp8, vp9, av1, h264, h265, unknown, format_eq, SupportedDecoding, SupportedEncoding,
  Machine, disable_av1, hardware_encodes,
}
use pc_trade.VideoCodec.Encoder.{
  Decodings, is_able, all, is_empty, everyone, usable_for, auto_codec, av1_test, low_memory,
}

-- A peer decodes a format. VP9 is always expected.
abbrev pub Decodes : CodecFormat → SupportedDecoding → Type 0
Decodes vp8 s = (0 < s.ability_vp8) × (s.ability_vp8 < 2 ^ 31)
Decodes vp9 s = Unit {0}
Decodes av1 s = (0 < s.ability_av1) × (s.ability_av1 < 2 ^ 31)
Decodes h264 s = (0 < s.ability_h264) × (s.ability_h264 < 2 ^ 31)
Decodes h265 s = (0 < s.ability_h265) × (s.ability_h265 < 2 ^ 31)
Decodes unknown s = ◌≡◌ {A = ℕ} 1 0

-- This machine encodes a format.
abbrev pub Encodes : Machine → CodecFormat → Type 0
Encodes m vp8 = Unit {0}
Encodes m vp9 = Unit {0}
Encodes m av1 = disable_av1 m ≡ false
Encodes m h264 = hardware_encodes m h264 ≡ true
Encodes m h265 = hardware_encodes m h265 ≡ true
Encodes m unknown = ◌≡◌ {A = ℕ} 1 0

abbrev pub Suits : Machine → Decodings → CodecFormat → Type 0
Suits m ds f = All (λ (d : ℕ × SupportedDecoding). Decodes f d.1) ds × Encodes m f

abbrev pub IsUsable : SupportedEncoding → CodecFormat → Type 0
IsUsable u vp8 = u.can_vp8 ≡ true
IsUsable u vp9 = Unit {0}
IsUsable u av1 = u.can_av1 ≡ true
IsUsable u h264 = u.can_h264 ≡ true
IsUsable u h265 = u.can_h265 ≡ true
IsUsable u unknown = ◌≡◌ {A = ℕ} 1 0

and_left : (a b : Bool) → (a && b) ≡ true → a ≡ true
and_left a b e = ground arith

and_right : (a b : Bool) → (a && b) ≡ true → b ≡ true
and_right a b e = ground arith

all-All :
    (p : SupportedDecoding → Bool) (P : SupportedDecoding → Type 0)
    → ((s : SupportedDecoding) → p s ≡ true → P s)
    → (ds : Decodings) → all p ds ≡ true
    → All (λ (d : ℕ × SupportedDecoding). P d.1) ds
unfolding all
all-All p P h [] e = tt
all-All p P h ((id, s) ∷ ds) e =
    (h s (and_left (p s) (all p ds) e), all-All p P h ds (and_right (p s) (all p ds) e))

able-range : (a : ℕ) → is_able a ≡ true → (0 < a) × (a < 2 ^ 31)
able-range a e = (
  ltb→lt 0 a (and_left (ltb 0 a) (ltb a (2 ^ 31)) e),
  ltb→lt a (2 ^ 31) (and_right (ltb 0 a) (ltb a (2 ^ 31)) e),
)

-- What everyone can, all can.
everyone-All :
    (P : SupportedDecoding → Type 0) (ability : SupportedDecoding → ℕ) (ds : Decodings) (b : Bool)
    → ((s : SupportedDecoding) → (0 < ability s) × (ability s < 2 ^ 31) → P s)
    → (everyone (λ s. is_able (ability s)) ds && b) ≡ true
    → All (λ (d : ℕ × SupportedDecoding). P d.1) ds
everyone-All P ability ds b h e =
    let able = and_left (everyone (λ s. is_able (ability s)) ds) b e in
    all-All (λ s. is_able (ability s)) P (λ s e. h s (able-range (ability s) e)) ds
      (and_right (not (is_empty ds)) (all (λ s. is_able (ability s)) ds) able)

All-Unit : (ds : Decodings) → All (λ (d : ℕ × SupportedDecoding). Unit {0}) ds
All-Unit [] = tt
All-Unit (d ∷ ds) = (tt, All-Unit ds)

pub usable-Suits :
    (m : Machine) (ds : Decodings) (f : CodecFormat) → IsUsable (usable_for m ds) f → Suits m ds f
unfolding usable_for
usable-Suits m ds vp8 e = (
  everyone-All (Decodes vp8) (λ s. s.ability_vp8) ds true (λ s h. h)
      (and_true (everyone (λ s. is_able s.ability_vp8) ds) e),
  tt,
)
  where
    and_true : (a : Bool) → a ≡ true → (a && true) ≡ true
    and_true a e = ground arith
usable-Suits m ds vp9 e = (All-Unit ds, tt)
usable-Suits m ds av1 e = (
  everyone-All (Decodes av1) (λ s. s.ability_av1) ds (not (disable_av1 m)) (λ s h. h) e,
  is_off (disable_av1 m)
      (and_right (everyone (λ s. is_able s.ability_av1) ds) (not (disable_av1 m)) e),
)
  where
    is_off : (a : Bool) → not a ≡ true → a ≡ false
    is_off a e = ground arith
usable-Suits m ds h264 e = (
  everyone-All (Decodes h264) (λ s. s.ability_h264) ds (hardware_encodes m h264) (λ s h. h) e,
  and_right (everyone (λ s. is_able s.ability_h264) ds) (hardware_encodes m h264) e,
)
usable-Suits m ds h265 e = (
  everyone-All (Decodes h265) (λ s. s.ability_h265) ds (hardware_encodes m h265) (λ s h. h) e,
  and_right (everyone (λ s. is_able s.ability_h265) ds) (hardware_encodes m h265) e,
)
usable-Suits m ds unknown e = cc

pub IsUsable-if :
    (u : SupportedEncoding) (b : Bool) (f g : CodecFormat)
    → (b ≡ true → IsUsable u f)
    → IsUsable u g
    → IsUsable u (if b then f else g)
IsUsable-if u true f g on off = on refl
IsUsable-if u false f g on off = off

pub auto_codec-IsUsable :
    (u : SupportedEncoding) (av1_test low_memory : Bool)
    → IsUsable u (auto_codec u av1_test low_memory)
unfolding auto_codec
auto_codec-IsUsable u av1_test low_memory =
    let software = if u.can_av1 && av1_test then av1 else vp9 in
    let hardware = if u.can_h264 then h264 else software in
    let codec = if u.can_h265 then h265 else hardware in
    let soft : IsUsable u software =
      IsUsable-if u (u.can_av1 && av1_test) av1 vp9 (and_left u.can_av1 av1_test) tt in
    let hard : IsUsable u hardware = IsUsable-if u u.can_h264 h264 software (λ e. e) soft in
    let best : IsUsable u codec = IsUsable-if u u.can_h265 h265 hardware (λ e. e) hard in
    IsUsable-if u (format_eq codec vp9 || format_eq codec av1)
      (if u.can_vp8 && low_memory then vp8 else codec) codec
      (λ _. IsUsable-if u (u.can_vp8 && low_memory) vp8 codec (and_left u.can_vp8 low_memory) best)
      best
