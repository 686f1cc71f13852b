-- ===== src/VideoCodec/Frequent.antt =====
-- The most frequent preference of libs/scrap/src/common/codec.rs.
use pc_trade.Prelude.{
  ℕ, ◌+◌, max, ◌≤◌, ◌≡◌, ◌≢◌, inl, inr, refl, ◌∙◌, ap, List, [], ◌∷◌, Bool, true, false, ◌==◌,
  ==_iff, Bool-cases, if◌then◌else◌, arith, All, ltb, ltb→lt, ◌<◌,
}
use pc_trade.VideoCodec.Encoder.{count_one, count_all, max_count, find_count, most_frequent}

-- How often a number is in a list.
unfoldable pub count : ℕ → List ℕ → ℕ
count p [] = 0
count p (q ∷ qs) = (if q == p then 1 else 0) + count p qs

-- What the table says of a number.
unfoldable tally : ℕ → List (ℕ × ℕ) → ℕ
tally p [] = 0
tally p ((q, n) ∷ counts) = if q == p then n else tally p counts

-- No two entries are about the same number.
abbrev IsApart : List (ℕ × ℕ) → Type 0
IsApart [] = Unit {0}
IsApart ((q, n) ∷ counts) = All (λ (e : ℕ × ℕ). q ≢ e.0) counts × IsApart counts

count_one-All :
    (q p : ℕ) (counts : List (ℕ × ℕ))
    → (q == p) ≡ false
    → All (λ (e : ℕ × ℕ). q ≢ e.0) counts
    → All (λ (e : ℕ × ℕ). q ≢ e.0) (count_one counts p)
unfolding count_one
count_one-All q p [] ne all = ((λ e. ground arith), tt)
count_one-All q p ((r, n) ∷ counts) ne (first, all) = elim (Bool-cases (r == p)) [
  | inl same ↦ rw same (first, all)
  | inr other ↦ rw other (first, count_one-All q p counts ne all)
]

count_one-IsApart : (counts : List (ℕ × ℕ)) (p : ℕ) → IsApart counts → IsApart (count_one counts p)
unfolding count_one
count_one-IsApart [] p apart = (tt, tt)
count_one-IsApart ((r, n) ∷ counts) p (first, apart) = elim (Bool-cases (r == p)) [
  | inl same ↦ rw same (first, apart)
  | inr other ↦ rw other (count_one-All r p counts other first, count_one-IsApart counts p apart)
]

tally-count_one :
    (q p : ℕ) (counts : List (ℕ × ℕ))
    → tally q (count_one counts p) ≡ (if p == q then 1 else 0) + tally q counts
unfolding count_one tally
tally-count_one q p [] = ground arith
tally-count_one q p ((r, n) ∷ counts) = let below = tally-count_one q p counts in ground arith

tally-count_all :
    (q : ℕ) (counts : List (ℕ × ℕ)) (ps : List ℕ)
    → tally q (count_all counts ps) ≡ tally q counts + count q ps
unfolding count_all count
tally-count_all q counts [] = omega arith
tally-count_all q counts (p ∷ ps) =
    let step = tally-count_one q p counts in
    let rest = tally-count_all q (count_one counts p) ps in omega arith

count_all-IsApart :
    (counts : List (ℕ × ℕ)) (ps : List ℕ) → IsApart counts → IsApart (count_all counts ps)
unfolding count_all
count_all-IsApart counts [] apart = apart
count_all-IsApart counts (p ∷ ps) apart =
    count_all-IsApart (count_one counts p) ps (count_one-IsApart counts p apart)

tally-max_count : (q : ℕ) (counts : List (ℕ × ℕ)) → tally q counts ≤ max_count counts
unfolding tally max_count
tally-max_count q [] = omega arith
tally-max_count q ((r, n) ∷ counts) = let below = tally-max_count q counts in ground arith

-- Whether some number has this count.
unfoldable has_count : List (ℕ × ℕ) → ℕ → Bool
has_count [] most = false
has_count ((q, n) ∷ counts) most = if n == most then true else has_count counts most

find_count-All :
    (q most : ℕ) (counts : List (ℕ × ℕ))
    → All (λ (e : ℕ × ℕ). q ≢ e.0) counts
    → has_count counts most ≡ true
    → q ≢ find_count counts most
unfolding find_count has_count
find_count-All q most [] all has = cc
find_count-All q most ((r, n) ∷ counts) (first, all) has = elim (Bool-cases (n == most)) [
  | inl same ↦ rw same first
  | inr other ↦ rw other (find_count-All q most counts all (rw other at has))
]

tally-find_count :
    (most : ℕ) (counts : List (ℕ × ℕ))
    → IsApart counts
    → has_count counts most ≡ true
    → tally (find_count counts most) counts ≡ most
unfolding find_count has_count tally
tally-find_count most [] apart has = cc
tally-find_count most ((r, n) ∷ counts) (first, apart) has = elim (Bool-cases (n == most)) [
  | inl same ↦ rw (same, (==_iff r r).1 refl) ((==_iff n most).0 same)
  | inr other ↦
      let later : has_count counts most ≡ true = rw other at has in
      let ne = find_count-All r most counts first later in
      let apart_from : (r == find_count counts most) ≡ false = ground arith in
      let found : find_count ((r, n) ∷ counts) most ≡ find_count counts most = rw other refl in
      ap (λ (k : ℕ). tally k ((r, n) ∷ counts)) found
      ∙ rw apart_from (tally-find_count most counts apart later)
]

has_count-max_count :
    (counts : List (ℕ × ℕ)) → 1 ≤ max_count counts → has_count counts (max_count counts) ≡ true
unfolding max_count has_count
has_count-max_count [] low = ground arith
has_count-max_count ((r, n) ∷ counts) low = elim (Bool-cases (n == max n (max_count counts))) [
  | inl same ↦ rw same refl
  | inr other ↦
      let below : max n (max_count counts) ≡ max_count counts = ground arith in
      let later = has_count-max_count counts (rw below at low) in rw (other, below) later
]

by_tally : (q : ℕ) (prefs : List ℕ) → tally q (count_all [] prefs) ≡ count q prefs
unfolding tally
by_tally q prefs =
    let e : tally q (count_all [] prefs) ≡ 0 + count q prefs = tally-count_all q [] prefs in
    omega arith

-- No preference is more frequent than the one that is taken.
pub most_frequent_lem : (prefs : List ℕ) (p : ℕ) → count p prefs ≤ count (most_frequent prefs) prefs
unfolding most_frequent
most_frequent_lem prefs p =
    let counts = count_all [] prefs in
    let most = max_count counts in
    let of_p : tally p counts ≡ count p prefs = by_tally p prefs in
    let most_of : tally (find_count counts most) counts ≡ count (find_count counts most) prefs =
      by_tally (find_count counts most) prefs in
    let high = tally-max_count p counts in
    elim (Bool-cases (ltb 0 most)) [
      | inl some_count ↦
          let low : 1 ≤ most = ltb→lt 0 most some_count in
          let has = has_count-max_count counts low in
          let found = tally-find_count most counts (count_all-IsApart [] prefs tt) has in
          omega arith
      | inr none_counted ↦ let zero_count : most < 1 = ground arith in omega arith
    ]
