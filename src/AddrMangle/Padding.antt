-- ===== src/AddrMangle/Padding.antt =====
-- Stripping the zero bytes at the high end of a 16-byte number, and padding them again.
use mathlib.Core.List.{reverse, reverse-append, reverse-reverse}
use pc_trade.Prelude.{
  ℕ, zero, suc, ◌-◌, ◌≤◌, ◌≡◌, refl, sym, ap, ap₂, ◌∙◌, List, [], ◌∷◌, ◌++◌, arith, ◌==◌,
  Bool-cases, inl, inr, ==_iff, length, length-replicate, length-take, take, replicate,
  length-append, take-append, if◌then◌else◌,
}
use pc_trade.Prelude.Bytes.{from_le, from_le-append_zeros}
use pc_trade.AddrMangle.{count_zeros, strip_padding}

abbrev pub zeros : ℕ → List ℕ
zeros n = replicate n 0

-- A list that begins with its zeros, and the rest.
after_zeros : List ℕ → List ℕ
after_zeros [] = []
after_zeros (b ∷ bs) = if b == 0 then after_zeros bs else b ∷ bs

zeros_split : (xs : List ℕ) → xs ≡ zeros (count_zeros xs) ++ after_zeros xs
unfolding count_zeros after_zeros
zeros_split [] = refl
zeros_split (b ∷ bs) = elim (Bool-cases (b == 0)) [
  | inl e ↦ rw e (ap₂ {B = List ℕ} (λ x t. x ∷ t) ((==_iff b 0).0 e) (zeros_split bs))
  | inr e ↦ rw e
]

length-reverse : (xs : List ℕ) → length (reverse xs) ≡ length xs
length-reverse [] = refl
length-reverse (x ∷ xs) =
    ap length (reverse-append (x ∷ []) xs)
    ∙ omega (arith, length-append (reverse xs) (x ∷ []), length-reverse xs)

zeros_snoc : (n : ℕ) → zeros n ++ (0 ∷ []) ≡ 0 ∷ zeros n
zeros_snoc zero = refl
zeros_snoc (suc n) = ap (λ t. 0 ∷ t) (zeros_snoc n)

reverse-zeros : (n : ℕ) → reverse (zeros n) ≡ zeros n
reverse-zeros zero = refl
reverse-zeros (suc n) =
    let single : List ℕ = 0 ∷ [] in
    reverse-append single (zeros n) ∙ ap (λ t. t ++ single) (reverse-zeros n) ∙ zeros_snoc n

-- The bytes are those that are kept, and zeros.
padded_split :
    (xs : List ℕ) → xs ≡ reverse (after_zeros (reverse xs)) ++ zeros (count_zeros (reverse xs))
padded_split xs =
    sym (reverse-reverse xs)
    ∙ ap reverse (zeros_split (reverse xs))
    ∙ reverse-append (zeros (count_zeros (reverse xs))) (after_zeros (reverse xs))
    ∙ ap (λ t. reverse (after_zeros (reverse xs)) ++ t) (reverse-zeros (count_zeros (reverse xs)))

-- What is kept of 16 bytes that split so.
keeps_front :
    (xs front : List ℕ) (k : ℕ) → length xs ≡ 16 → xs ≡ front ++ zeros k → take (16 - k) xs ≡ front
keeps_front xs front k h e =
    ap (take (16 - k)) e
    ∙ take-append (16 - k) front (zeros k)
        (omega (arith, ap length e, length-append front (zeros k), length-replicate {A = ℕ} k 0))

-- Padding what `strip_padding` kept gives a number of the same value.
pub from_le-strip_padding :
    (xs : List ℕ) (k : ℕ) → length xs ≡ 16 → from_le (strip_padding xs ++ zeros k) ≡ from_le xs
unfolding strip_padding
from_le-strip_padding xs k h =
    let front = reverse (after_zeros (reverse xs)) in
    let n = count_zeros (reverse xs) in
    from_le-append_zeros (take (16 - n) xs) k
    ∙ ap from_le (keeps_front xs front n h (padded_split xs))
    ∙ sym (from_le-append_zeros front n)
    ∙ sym (ap from_le (padded_split xs))

pub length-strip_padding : (xs : List ℕ) → length (strip_padding xs) ≤ 16
unfolding strip_padding
length-strip_padding xs = omega (arith, length-take (16 - count_zeros (reverse xs)) xs)
