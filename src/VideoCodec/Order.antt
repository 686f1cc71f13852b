-- ===== src/VideoCodec/Order.antt =====
-- The order of the peers in the hash map of libs/scrap/src/common/codec.rs, which is not determined.
use mathlib.Core.Path.{sym}
use mathlib.Core.Logic.{∥∥₁_elim}
use mathlib.Core.Bool.{Bool-set}
use native.Mathlib.Nat.{ℕ_set}
use mathlib.Core.List.{Perm, Permᴰ}
use pc_trade.Prelude.{
  ℕ, ◌+◌, ◌≡◌, refl, ap, ap₂, ◌∙◌, inl, inr, ◌∷◌, Bool, true, false, not, ◌==◌, ◌&&◌, Bool-cases,
  arith, if◌then◌else◌,
}
use pc_trade.VideoCodec.Formats as Formats
use pc_trade.VideoCodec.Formats.{
  SupportedDecoding, SupportedEncoding, Machine, disable_av1, hardware_encodes, no_i444,
}
use pc_trade.VideoCodec.Encoder.{
  Decodings, all, is_empty, everyone, is_able, usable_for, is_preference, preferences,
  most_frequent,
}
use pc_trade.VideoCodec.Frequent.{count, most_frequent_lem}

and_swap : (x y z : Bool) → (x && (y && z)) ≡ (y && (x && z))
and_swap true y z = refl
and_swap false true z = refl
and_swap false false z = refl

all-Permᴰ : (p : SupportedDecoding → Bool) {ds es : Decodings} → Permᴰ ds es → all p ds ≡ all p es
unfolding all
all-Permᴰ p Permᴰ.nil = refl
all-Permᴰ p (Permᴰ.cons e d) = ap₂ (λ x y. x && y) (ap (λ t. p t.1) e) (all-Permᴰ p d)
all-Permᴰ p (Permᴰ.swap {a} {b} {a'} {b'} {l} e₁ e₂) =
    and_swap (p a.1) (p b.1) (all p l)
    ∙ ap₂ (λ x y. x && (y && all p l)) (ap (λ t. p t.1) e₂) (ap (λ t. p t.1) e₁)
all-Permᴰ p (Permᴰ.trans d₁ d₂) = all-Permᴰ p d₁ ∙ all-Permᴰ p d₂

is_empty-Permᴰ : {ds es : Decodings} → Permᴰ ds es → is_empty ds ≡ is_empty es
is_empty-Permᴰ Permᴰ.nil = refl
is_empty-Permᴰ (Permᴰ.cons e d) = refl
is_empty-Permᴰ (Permᴰ.swap e₁ e₂) = refl
is_empty-Permᴰ (Permᴰ.trans d₁ d₂) = is_empty-Permᴰ d₁ ∙ is_empty-Permᴰ d₂

everyone-Perm :
    (p : SupportedDecoding → Bool) (ds es : Decodings) → Perm ds es → everyone p ds ≡ everyone p es
everyone-Perm p ds es same =
    ∥∥₁_elim same (Bool-set _ _) (λ d. ap₂ (λ x y. not x && y) (is_empty-Permᴰ d) (all-Permᴰ p d))

-- What one peer adds to the number of times that a preference is named
weight : SupportedEncoding → ℕ → SupportedDecoding → ℕ
weight u p s = if is_preference u s.prefer then (if s.prefer == p then 1 else 0) else 0

count_cons :
    (u : SupportedEncoding) (p : ℕ) (d : ℕ × SupportedDecoding) (ds : Decodings)
    → count p (preferences u (d ∷ ds)) ≡ weight u p d.1 + count p (preferences u ds)
unfolding preferences count weight
count_cons u p d ds = elim (Bool-cases (is_preference u d.1.prefer)) [
  | inl named ↦ rw named refl
  | inr other ↦ rw other (omega arith)
]

count-Permᴰ :
    (u : SupportedEncoding) (p : ℕ) {ds es : Decodings}
    → Permᴰ ds es
    → count p (preferences u ds) ≡ count p (preferences u es)
count-Permᴰ u p Permᴰ.nil = refl
count-Permᴰ u p (Permᴰ.cons {a} {b} {l₁} {l₂} e d) =
    count_cons u p a l₁
    ∙ ap₂ (λ x y. x + y) (ap (λ t. weight u p t.1) e) (count-Permᴰ u p d)
    ∙ sym (count_cons u p b l₂)
count-Permᴰ u p (Permᴰ.swap {a} {b} {a'} {b'} {l} e₁ e₂) =
    let first = count_cons u p a (b ∷ l) in
    let second = count_cons u p b l in
    let first' = count_cons u p a' (b' ∷ l) in
    let second' = count_cons u p b' l in
    let same₁ : weight u p a.1 ≡ weight u p b'.1 = ap (λ t. weight u p t.1) e₁ in
    let same₂ : weight u p b.1 ≡ weight u p a'.1 = ap (λ t. weight u p t.1) e₂ in omega arith
count-Permᴰ u p (Permᴰ.trans d₁ d₂) = count-Permᴰ u p d₁ ∙ count-Permᴰ u p d₂

count-Perm :
    (u : SupportedEncoding) (p : ℕ) (ds es : Decodings)
    → Perm ds es
    → count p (preferences u ds) ≡ count p (preferences u es)
count-Perm u p ds es same = ∥∥₁_elim same (ℕ_set _ _) (count-Permᴰ u p)

-- How often the preference is named that is taken
most : SupportedEncoding → Decodings → ℕ
most u ds = count (most_frequent (preferences u ds)) (preferences u ds)

most-Perm : (u : SupportedEncoding) (ds es : Decodings) → Perm ds es → most u ds ≡ most u es
unfolding most
most-Perm u ds es same =
    let here = most_frequent (preferences u ds) in
    let there = most_frequent (preferences u es) in
    let of_here = count-Perm u here ds es same in
    let of_there = count-Perm u there ds es same in
    let most_here = most_frequent_lem (preferences u ds) there in
    let most_there = most_frequent_lem (preferences u es) here in omega arith

usable_of : Machine → (vp8 av1 h264 h265 : Bool) → SupportedEncoding
usable_of m vp8 av1 h264 h265 = record {
  can_vp8 = vp8;
  can_av1 = av1 && not (disable_av1 m);
  can_h264 = h264 && hardware_encodes m Formats.h264;
  can_h265 = h265 && hardware_encodes m Formats.h265;
  can_i444 = no_i444;
}

usable_for-Perm : (m : Machine) (ds es : Decodings) → Perm ds es → usable_for m ds ≡ usable_for m es
unfolding usable_for usable_of
usable_for-Perm m ds es same =
    let ability : (SupportedDecoding → ℕ) → Decodings → Bool =
      λ f xs. everyone (λ s. is_able (f s)) xs in
    let h264_of = λ (xs : Decodings). ability (λ s. s.ability_h264) xs in
    let h265_of = λ (xs : Decodings). ability (λ s. s.ability_h265) xs in
    ap₂ (λ x y. usable_of m x y (h264_of ds) (h265_of ds))
      (everyone-Perm (λ s. is_able s.ability_vp8) ds es same)
      (everyone-Perm (λ s. is_able s.ability_av1) ds es same)
    ∙ ap₂ (usable_of m (ability (λ s. s.ability_vp8) es) (ability (λ s. s.ability_av1) es))
        (everyone-Perm (λ s. is_able s.ability_h264) ds es same)
        (everyone-Perm (λ s. is_able s.ability_h265) ds es same)

-- In whatever order the map gives the peers, the same formats are usable; and the preference that is
-- taken in one order is named exactly as often as the one that is taken in the other.
pub order_lem :
    (m : Machine) (ds es : Decodings)
    → Perm ds es
    → let u = usable_for m ds in
      let v = usable_for m es in
      (u ≡ v)
      × (count (most_frequent (preferences u ds)) (preferences u ds)
          ≡ count (most_frequent (preferences v es)) (preferences v es))
unfolding most
order_lem m ds es same =
    let usable = usable_for-Perm m ds es same in
    (usable, most-Perm (usable_for m ds) ds es same ∙ ap (λ u. most u es) usable)
