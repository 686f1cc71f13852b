-- ===== src/VideoCodec/Negotiated.antt =====
-- That the format in use suits every peer (libs/scrap/src/common/codec.rs).
use pc_trade.Prelude.{
  ℕ, ◌+◌, ◌≤◌, ◌≡◌, inl, inr, refl, List, [], ◌∷◌, Bool, true, false, ◌==◌, Bool-cases, ==_iff,
  if◌then◌else◌, arith,
}
use pc_trade.VideoCodec.Formats.{
  CodecFormat, h264, h265, SupportedEncoding, PreferCodec, prefer_auto, prefer_vp8, prefer_vp9,
  prefer_av1, prefer_h264, prefer_h265, enum_value, Machine,
}
use pc_trade.VideoCodec.Encoder.{
  Decodings, EncodingUpdate, Negotiation, decodings_after, usable_for, is_preference, preferences,
  most_frequent, auto_codec, format_for, chosen, update, av1_test, low_memory,
}
use pc_trade.VideoCodec.Frequent.{count, most_frequent_lem}
use pc_trade.VideoCodec.Usable.{Suits, IsUsable, usable-Suits, IsUsable-if, auto_codec-IsUsable}

IsPreferable : SupportedEncoding → PreferCodec → Type 0
IsPreferable u prefer_auto = Unit {0}
IsPreferable u prefer_vp9 = Unit {0}
IsPreferable u prefer_vp8 = u.can_vp8 ≡ true
IsPreferable u prefer_av1 = u.can_av1 ≡ true
IsPreferable u prefer_h264 = Unit {0}
IsPreferable u prefer_h265 = Unit {0}

format_for-IsUsable :
    (u : SupportedEncoding) (p : PreferCodec) (auto : CodecFormat)
    → IsPreferable u p
    → IsUsable u auto
    → IsUsable u (format_for u p auto)
unfolding format_for IsPreferable
format_for-IsUsable u prefer_auto auto ok usable = usable
format_for-IsUsable u prefer_vp9 auto ok usable = tt
format_for-IsUsable u prefer_vp8 auto ok usable = ok
format_for-IsUsable u prefer_av1 auto ok usable = ok
format_for-IsUsable u prefer_h264 auto ok usable =
    IsUsable-if u u.can_h264 h264 auto (λ e. e) usable
format_for-IsUsable u prefer_h265 auto ok usable =
    IsUsable-if u u.can_h265 h265 auto (λ e. e) usable

-- A number that is counted is a preference that can be used.
preferences-counted :
    (u : SupportedEncoding) (ds : Decodings) (p : ℕ)
    → 1 ≤ count p (preferences u ds)
    → is_preference u p ≡ true
unfolding preferences count
preferences-counted u [] p low = ground arith
preferences-counted u ((id, s) ∷ ds) p low = elim (Bool-cases (is_preference u s.prefer)) [
  | inl usable ↦ elim (Bool-cases (s.prefer == p)) [
    | inl same ↦ rw ((==_iff s.prefer p).0 same) at usable
    | inr other ↦
        let rest : 1 ≤ 0 + count p (preferences u ds) = rw (usable, other) at low in
        preferences-counted u ds p (omega arith)
  ]
  | inr not_usable ↦ preferences-counted u ds p (rw not_usable at low)
]

preference-vp8 :
    (u : SupportedEncoding) (p : ℕ) → is_preference u p ≡ true → (p == 4) ≡ true → u.can_vp8 ≡ true
preference-vp8 u p e four = ground arith

preference-av1 :
    (u : SupportedEncoding) (p : ℕ) → is_preference u p ≡ true → (p == 5) ≡ true → u.can_av1 ≡ true
preference-av1 u p e five = ground arith

enum_value-IsPreferable :
    (u : SupportedEncoding) (p : ℕ) → is_preference u p ≡ true → IsPreferable u (enum_value p)
unfolding enum_value IsPreferable
enum_value-IsPreferable u p e =
    pick (p == 1) prefer_vp9 _ (λ _. tt)
      (pick (p == 2) prefer_h264 _ (λ _. tt)
        (pick (p == 3) prefer_h265 _ (λ _. tt)
          (pick (p == 4) prefer_vp8 _ (preference-vp8 u p e)
            (pick (p == 5) prefer_av1 prefer_auto (preference-av1 u p e) tt))))
  where
    pick :
        (b : Bool) (f g : PreferCodec)
        → (b ≡ true → IsPreferable u f)
        → IsPreferable u g
        → IsPreferable u (if b then f else g)
    pick true f g on off = on refl
    pick false f g on off = off

nobody : (u : SupportedEncoding) → IsPreferable u (enum_value (most_frequent []))
unfolding IsPreferable enum_value most_frequent
nobody u = tt

counted_first : (p : ℕ) (ps : List ℕ) → 1 ≤ count p (p ∷ ps)
unfolding count
counted_first p ps = ground arith

-- The preference that is taken can be used.
taken-IsPreferable :
    (u : SupportedEncoding) (ds : Decodings)
    → IsPreferable u (enum_value (most_frequent (preferences u ds)))
taken-IsPreferable u ds = by_list (preferences u ds) refl
  where
    by_list :
        (prefs : List ℕ)
        → preferences u ds ≡ prefs
        → IsPreferable u (enum_value (most_frequent prefs))
    by_list [] e = nobody u
    by_list (p ∷ ps) e =
        let counted : 1 ≤ count p (p ∷ ps) = counted_first p ps in
        let most = most_frequent_lem (p ∷ ps) p in
        let some_of : 1 ≤ count (most_frequent (p ∷ ps)) (p ∷ ps) = omega arith in
        enum_value-IsPreferable u (most_frequent (p ∷ ps))
          (preferences-counted u ds (most_frequent (p ∷ ps)) (rw e some_of))

chosen-IsUsable :
    (m : Machine) (u : SupportedEncoding) (ds : Decodings) → IsUsable u (chosen m u ds)
unfolding chosen
chosen-IsUsable m u ds =
    format_for-IsUsable u (enum_value (most_frequent (preferences u ds)))
      (auto_codec u (av1_test m) (low_memory m)) (taken-IsPreferable u ds)
      (auto_codec-IsUsable u (av1_test m) (low_memory m))

-- The format in use after any change is one that every peer decodes and this machine encodes, where
-- VP9 stands for what every peer and machine has; no change leaves the format unknown.
pub update_lem :
    (m : Machine) (s : Negotiation) (change : EncodingUpdate)
    → Suits m (update m s change).decodings (update m s change).format
unfolding update
update_lem m s change =
    let ds = decodings_after s.decodings change in
    usable-Suits m ds (update m s change).format (chosen-IsUsable m (usable_for m ds) ds)
