-- ===== src/LocalFile/Names.antt =====
-- The name of a file in its descriptor, which zeros fill (`parse_file_descriptor` of fuse.rs).
use pc_trade.Prelude.{
  ap₂, ℕ, zero, suc, ◌≡◌, ◌≢◌, refl, ap, ◌∙◌, List, [], ◌∷◌, ◌++◌, arith, ◌==◌, if◌then◌else◌, All,
  replicate,
}
use pc_trade.Fuse.Descriptor.{name_of, replace, trim_end_matches, cons_unless}

-- A character that the parser keeps.
abbrev pub IsPlain : ℕ → Type 0
IsPlain c = (c ≢ 0) × (c ≢ b'\\')

trim_zeros : (k : ℕ) → trim_end_matches 0 (replicate k 0) ≡ []
unfolding trim_end_matches
trim_zeros zero = refl
trim_zeros (suc k) = rw (trim_zeros k) refl

keep : (c : ℕ) (cs : List ℕ) → c ≢ 0 → cons_unless 0 c cs ≡ c ∷ cs
keep c [] ne = ground arith
keep c (x ∷ xs) ne = refl

-- The zeros after a path go, and nothing else.
pub name_of-zeros :
    (path : List ℕ) (k : ℕ) → All IsPlain path → name_of (path ++ replicate k 0) ≡ path
unfolding name_of trim_end_matches replace
name_of-zeros path k plain =
    ap (trim_end_matches 0) (replace_none path k plain) ∙ trim_none path k plain
  where
    replace_zeros : (k : ℕ) → replace b'\\' b'/' (replicate k 0) ≡ replicate k 0
    replace_zeros zero = refl
    replace_zeros (suc k) = ap (λ cs. 0 ∷ cs) (replace_zeros k)

    kept : (c : ℕ) → c ≢ b'\\' → (if c == b'\\' then b'/' else c) ≡ c
    kept c ne = ground arith

    replace_none :
        (path : List ℕ) (k : ℕ)
        → All IsPlain path
        → replace b'\\' b'/' (path ++ replicate k 0) ≡ path ++ replicate k 0
    replace_none [] k plain = replace_zeros k
    replace_none (c ∷ cs) k (p, ps) =
        ap₂ {B = List ℕ} (λ x xs. x ∷ xs) (kept c p.1) (replace_none cs k ps)

    trim_none :
        (path : List ℕ) (k : ℕ)
        → All IsPlain path
        → trim_end_matches 0 (path ++ replicate k 0) ≡ path
    trim_none [] k plain = trim_zeros k
    trim_none (c ∷ cs) k (p, ps) = rw (trim_none cs k ps) (keep c cs p.0)
