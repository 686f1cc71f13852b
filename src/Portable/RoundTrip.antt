-- ===== src/Portable/RoundTrip.antt =====
-- That libs/portable/src/bin_reader.rs reads what generate.py writes.
use pc_trade.Prelude.{
  ℕ, zero, suc, ◌/◌, ◌%◌, ◌^◌, ◌<◌, ◌≡◌, ◌≢◌, refl, ap, ◌∙◌, List, [], ◌∷◌, ◌++◌, true, false, ok,
  ◌>>=◌, length, length-append, arith, All, Bool-cases, if◌then◌else◌, inl, inr, ltb, lt→ltb,
}
use pc_trade.Fuse.Path.{name_eq, name_eq_iff}
use pc_trade.Portable.{
  identifier, BinaryData, slice, read_file, read_files, read, be_bytes, pack_files, pack,
}
use pc_trade.Portable.Files.{slice-append, IsPackable, bind_ok, read_file-pack}

-- What the reader relies on of `from_utf8_lossy`: the identifier is text, and no other bytes give it.
pub record IsLossy (lossy : List ℕ → List ℕ) : Type 0 where
  pub is_text : lossy identifier ≡ identifier
  pub only : (bytes : List ℕ) → lossy bytes ≡ identifier → bytes ≡ identifier

identifier_found :
    (lossy : List ℕ → List ℕ) (fuel : ℕ) (end : List ℕ)
    → IsLossy lossy
    → read_files lossy (suc fuel) (identifier ++ end) ≡ ok ([], end)
unfolding read_files slice
identifier_found lossy fuel end l =
    rw ((name_eq_iff (lossy identifier) identifier).1 l.is_text) refl

-- A file does not begin with the identifier: its path would be too long.
not_identifier :
    (lossy : List ℕ → List ℕ) (n : ℕ) (a b c d : ℕ)
    → IsLossy lossy
    → n < 2 ^ 24
    → name_eq (lossy (be_bytes n ++ (a ∷ b ∷ c ∷ d ∷ []))) identifier ≡ false
not_identifier lossy n a b c d l h =
    elim (Bool-cases (name_eq (lossy (be_bytes n ++ (a ∷ b ∷ c ∷ d ∷ []))) identifier)) [
      | inl same ↦ absurd (
          first_byte n h (
            ap first
              (l.only (be_bytes n ++ (a ∷ b ∷ c ∷ d ∷ [])) ((name_eq_iff _ identifier).0 same))))
      | inr other ↦ other
    ]
  where
    first : List ℕ → ℕ
    first [] = 0
    first (x ∷ xs) = x

    first_byte : (n : ℕ) → n < 2 ^ 24 → n / 2 ^ 24 % 256 ≢ 114
    first_byte n h = omega arith

-- Four bytes stand after the length of the path.
pub record StartsWithFour (bytes : List ℕ) : Type 0 where
  pub a : ℕ
  pub b : ℕ
  pub c : ℕ
  pub d : ℕ
  pub others : List ℕ
  pub same : bytes ≡ a ∷ b ∷ c ∷ d ∷ others

four : (xs : List ℕ) (n : ℕ) (rest : List ℕ) → StartsWithFour (xs ++ (be_bytes n ++ rest))
four [] n rest = record { a = _; b = _; c = _; d = _; others = _; same = refl }
four (x ∷ []) n rest = record { a = _; b = _; c = _; d = _; others = _; same = refl }
four (x ∷ y ∷ []) n rest = record { a = _; b = _; c = _; d = _; others = _; same = refl }
four (x ∷ y ∷ z ∷ []) n rest = record { a = _; b = _; c = _; d = _; others = _; same = refl }
four (x ∷ y ∷ z ∷ w ∷ xs) n rest = record { a = x; b = y; c = z; d = w; others = _; same = refl }

-- One round of the loop that finds no identifier.
begins_as :
    (lossy : List ℕ → List ℕ) (fuel : ℕ) (bytes iden others : List ℕ) (f : BinaryData)
    (rest : List ℕ) (files : List BinaryData) (exe : List ℕ)
    → slice 8 bytes ≡ ok (iden, others)
    → name_eq (lossy iden) identifier ≡ false
    → read_file lossy bytes ≡ ok (f, rest)
    → read_files lossy fuel rest ≡ ok (files, exe)
    → read_files lossy (suc fuel) bytes ≡ ok (f ∷ files, exe)
unfolding read_files
begins_as lossy fuel bytes iden others f rest files exe cut other e below =
    bind_ok
      (λ (iden : List ℕ × List ℕ).
        if name_eq (lossy iden.0) identifier
        then ok ([], iden.1)
        else read_file lossy bytes
          >>= (λ f. read_files lossy fuel f.1 >>= (λ rest. ok (f.0 ∷ rest.0, rest.1))))
      cut
    ∙ rw (other, e, below) refl

-- Where the identifier does not stand, the loop reads a file.
read_files-file :
    (lossy : List ℕ → List ℕ) (fuel n : ℕ) (after : List ℕ) (f : BinaryData) (rest : List ℕ)
    (files : List BinaryData) (exe : List ℕ)
    → IsLossy lossy
    → n < 2 ^ 24
    → StartsWithFour after
    → read_file lossy (be_bytes n ++ after) ≡ ok (f, rest)
    → read_files lossy fuel rest ≡ ok (files, exe)
    → read_files lossy (suc fuel) (be_bytes n ++ after) ≡ ok (f ∷ files, exe)
read_files-file lossy fuel n after f rest files exe l h s e below =
    begins_as lossy fuel (be_bytes n ++ after) (be_bytes n ++ (s.a ∷ s.b ∷ s.c ∷ s.d ∷ [])) s.others
      f rest files exe (rw s.same (eight n s.a s.b s.c s.d s.others))
      (not_identifier lossy n s.a s.b s.c s.d l h) e below
  where
    eight :
        (n a b c d : ℕ) (others : List ℕ)
        → slice 8 (be_bytes n ++ (a ∷ b ∷ c ∷ d ∷ others))
          ≡ ok (be_bytes n ++ (a ∷ b ∷ c ∷ d ∷ []), others)
    eight n a b c d others = slice-append (be_bytes n ++ (a ∷ b ∷ c ∷ d ∷ [])) others

four_after :
    (f : BinaryData) (rest : List ℕ)
    → StartsWithFour (f.path ++ (be_bytes (length f.raw) ++ (f.raw ++ (f.md5_code ++ rest))))
four_after f rest = four f.path (length f.raw) (f.raw ++ (f.md5_code ++ rest))

-- The loop reads what was packed, with a round for each file and one for the end.
read_files-pack_files :
    (lossy : List ℕ → List ℕ) (files : List BinaryData) (exe : List ℕ) (fuel : ℕ)
    → IsLossy lossy
    → All (IsPackable lossy) files
    → length files < fuel
    → read_files lossy fuel (pack_files files exe) ≡ ok (files, exe)
unfolding pack_files
read_files-pack_files lossy files exe zero l all enough = absurd (omega arith)
read_files-pack_files lossy [] exe (suc fuel) l all enough = identifier_found lossy fuel exe l
read_files-pack_files lossy (f ∷ fs) exe (suc fuel) l (p, all) enough =
    read_files-file lossy fuel (length f.path) _ f (pack_files fs exe) fs exe l p.path_length
      (four_after f (pack_files fs exe)) (read_file-pack lossy f (pack_files fs exe) p)
      (read_files-pack_files lossy fs exe fuel l all (omega arith))

-- Every file takes bytes, so there are more bytes than files.
length-pack_files :
    (files : List BinaryData) (exe : List ℕ) → length files < length (pack_files files exe)
unfolding pack_files
length-pack_files [] exe = omega arith
length-pack_files (f ∷ fs) exe =
    let below = length-pack_files fs exe in
    let a = length-append f.md5_code (pack_files fs exe) in
    let b = length-append f.raw (f.md5_code ++ pack_files fs exe) in
    let c = length-append (be_bytes (length f.raw)) (f.raw ++ (f.md5_code ++ pack_files fs exe)) in
    let d =
      length-append f.path
        (be_bytes (length f.raw) ++ (f.raw ++ (f.md5_code ++ pack_files fs exe))) in
    omega arith

-- The reader gives back the files and the executable that were packed, where paths and the executable
-- are valid text, a path is shorter than 2^24 bytes and a file than 2^32, and each digest has 32
-- bytes; in particular it ends without a panic, on as many rounds as there are bytes.
pub read-pack :
    (lossy : List ℕ → List ℕ) (files : List BinaryData) (exe : List ℕ)
    → IsLossy lossy
    → All (IsPackable lossy) files
    → lossy exe ≡ exe
    → read lossy (pack files exe) ≡ ok (files, exe)
unfolding read pack slice
read-pack lossy files exe l all text =
    let long = length-pack_files files exe in
    let more : ltb 8 (length (pack files exe)) ≡ true =
      lt→ltb 8 (length (pack files exe)) (omega arith) in
    let fits : length files < length (pack files exe) = omega arith in
    rw
      (
        more,
        (name_eq_iff (lossy identifier) identifier).1 l.is_text,
        read_files-pack_files lossy files exe (length (pack files exe)) l all fits,
        text,
      )
      refl
