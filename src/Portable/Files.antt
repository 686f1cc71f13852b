-- ===== src/Portable/Files.antt =====
-- How libs/portable/src/bin_reader.rs reads one file of a package.
use pc_trade.Prelude.{
  ℕ, ◌+◌, ◌*◌, ◌/◌, ◌%◌, ◌^◌, ◌<◌, ◌≡◌, refl, ap, ◌∙◌, List, [], ◌∷◌, ◌++◌, Result, ok, ◌>>=◌,
  length, arith,
}
use mathlib.Core.Path.{subst}
use pc_trade.Portable.{
  md5_length, BinaryData, Stop, slice, take_u32, read_file, be_bytes, sized, read_md5, read_raw,
}

pub slice-append : (xs ys : List ℕ) → slice (length xs) (xs ++ ys) ≡ ok (xs, ys)
unfolding slice
slice-append [] ys = refl
slice-append (x ∷ xs) ys = rw (slice-append xs ys) refl

be_number :
    (v : ℕ)
    → v < 2 ^ 32
    → (v / 2 ^ 24 % 256) * 2 ^ 24
        + (v / 2 ^ 16 % 256) * 2 ^ 16
        + (v / 2 ^ 8 % 256) * 2 ^ 8
        + v % 256
      ≡ v
be_number v h = omega arith

take_u32-be_bytes :
    (v : ℕ) (rest : List ℕ) → v < 2 ^ 32 → take_u32 (be_bytes v ++ rest) ≡ ok (v, rest)
unfolding take_u32
take_u32-be_bytes v rest h = rw (be_number v h) refl

-- A file that the format can hold: its lengths are numbers of 32 bits, its path is valid text, short
-- enough not to be taken for the identifier, and its digest has 32 bytes.
pub record IsPackable (lossy : List ℕ → List ℕ) (f : BinaryData) : Type 0 where
  pub path_length : length f.path < 2 ^ 24
  pub path_text : lossy f.path ≡ f.path
  pub raw_length : length f.raw < 2 ^ 32
  pub digest : length f.md5_code ≡ md5_length

pub bind_ok :
    {A B : Type 0} {r : Result Stop A} {a : A} (k : A → Result Stop B) → r ≡ ok a → (r >>= k) ≡ k a
bind_ok k e = ap (λ x. x >>= k) e

sized-append :
    (xs rest : List ℕ)
    → length xs < 2 ^ 32
    → sized (be_bytes (length xs) ++ (xs ++ rest)) ≡ ok (xs, rest)
unfolding sized
sized-append xs rest h =
    bind_ok (λ (a : ℕ × List ℕ). slice a.0 a.1) (take_u32-be_bytes (length xs) (xs ++ rest) h)
    ∙ slice-append xs rest

read_md5-append :
    (path raw md5 rest : List ℕ)
    → length md5 ≡ md5_length
    → read_md5 path raw (md5 ++ rest) ≡ ok (record { md5_code = md5; raw = raw; path = path }, rest)
unfolding read_md5
read_md5-append path raw md5 rest e =
    let digest : slice md5_length (md5 ++ rest) ≡ ok (md5, rest) =
      subst (λ (n : ℕ). slice n (md5 ++ rest) ≡ ok (md5, rest)) e (slice-append md5 rest) in
    bind_ok {B = BinaryData × List ℕ}
      (λ e. ok (record { md5_code = e.0; raw = raw; path = path }, e.1)) digest

read_raw-append :
    (path raw md5 rest : List ℕ)
    → length raw < 2 ^ 32
    → length md5 ≡ md5_length
    → read_raw path (be_bytes (length raw) ++ (raw ++ (md5 ++ rest)))
      ≡ ok (record { md5_code = md5; raw = raw; path = path }, rest)
unfolding read_raw
read_raw-append path raw md5 rest h e =
    bind_ok (λ (d : List ℕ × List ℕ). read_md5 path d.0 d.1) (sized-append raw (md5 ++ rest) h)
    ∙ read_md5-append path raw md5 rest e

pub read_file-pack :
    (lossy : List ℕ → List ℕ) (f : BinaryData) (rest : List ℕ)
    → IsPackable lossy f
    → read_file lossy (
        be_bytes (length f.path)
        ++ (f.path ++ (be_bytes (length f.raw) ++ (f.raw ++ (f.md5_code ++ rest)))))
      ≡ ok (f, rest)
unfolding read_file
read_file-pack lossy f rest p =
    bind_ok (λ (b : List ℕ × List ℕ). read_raw (lossy b.0) b.1)
      (sized-append f.path (be_bytes (length f.raw) ++ (f.raw ++ (f.md5_code ++ rest)))
        (shorter (length f.path) p.path_length))
    ∙ (ap (λ (t : List ℕ). read_raw t (be_bytes (length f.raw) ++ (f.raw ++ (f.md5_code ++ rest))))
          p.path_text
        ∙ read_raw-append f.path f.raw f.md5_code rest p.raw_length p.digest)
  where
    shorter : (n : ℕ) → n < 2 ^ 24 → n < 2 ^ 32
    shorter n h = omega arith
