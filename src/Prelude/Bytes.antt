-- ===== src/Prelude/Bytes.antt =====
-- Fixed-width little-endian numbers (`to_le_bytes`, `from_le_bytes`, `put_u32_le`, `get_u32_le`).
use Prim.Native.Nat.{ℕ, zero, suc, ◌+◌, ◌*◌, ◌/◌, ◌%◌, ◌^◌, ◌<◌}
use mathlib.Core.Path.{◌≡◌, refl, ap, ap₂, ◌∙◌}
use mathlib.Core.List.{List, [], ◌∷◌, ◌++◌}
use native.Mathlib.Omega.{arith}
use pc_trade.Prelude.Lists.{length, replicate, All}

abbrev pub IsByte : ℕ → Type 0
IsByte b = b < 256

-- The `n` low bytes of `v`, lowest first.
unfoldable pub le_bytes : ℕ → ℕ → List ℕ
le_bytes zero v = []
le_bytes (suc n) v = (v % 256) ∷ le_bytes n (v / 256)

unfoldable pub from_le : List ℕ → ℕ
from_le [] = 0
from_le (b ∷ bs) = b + 256 * from_le bs

pub length-le_bytes : (n v : ℕ) → length (le_bytes n v) ≡ n
unfolding le_bytes
length-le_bytes zero v = refl
length-le_bytes (suc n) v = ap suc (length-le_bytes n (v / 256))

pub le_bytes-IsByte : (n v : ℕ) → All IsByte (le_bytes n v)
unfolding le_bytes
le_bytes-IsByte zero v = tt
le_bytes-IsByte (suc n) v = (omega arith, le_bytes-IsByte n (v / 256))

pow256_suc : (n : ℕ) → 256 ^ suc n ≡ 256 * 256 ^ n
pow256_suc n = omega arith

pub from_le-le_bytes : (n v : ℕ) → v < 256 ^ n → from_le (le_bytes n v) ≡ v
unfolding le_bytes from_le
from_le-le_bytes zero v h = omega arith
from_le-le_bytes (suc n) v h =
    omega (arith, from_le-le_bytes n (v / 256) (omega (arith, pow256_suc n)))

pub le_bytes-from_le : (bs : List ℕ) → All IsByte bs → le_bytes (length bs) (from_le bs) ≡ bs
unfolding le_bytes from_le
le_bytes-from_le [] h = refl
le_bytes-from_le (b ∷ bs) (hb, h) =
    ap₂ {B = List ℕ} (λ c t. c ∷ t) (low_part b (from_le bs) hb)
      (ap (le_bytes (length bs)) (high_part b (from_le bs) hb) ∙ le_bytes-from_le bs h)
  where
    low_part : (b x : ℕ) → b < 256 → (b + 256 * x) % 256 ≡ b
    low_part b x h = omega arith

    high_part : (b x : ℕ) → b < 256 → (b + 256 * x) / 256 ≡ x
    high_part b x h = omega arith

pub from_le_lt : (bs : List ℕ) → All IsByte bs → from_le bs < 256 ^ length bs
unfolding from_le
from_le_lt [] h = omega arith
from_le_lt (b ∷ bs) (hb, h) = omega (arith, from_le_lt bs h, pow256_suc (length bs))

-- Zero bytes at the high end change nothing.
pub from_le-append_zeros : (bs : List ℕ) (k : ℕ) → from_le (bs ++ replicate k 0) ≡ from_le bs
unfolding from_le
from_le-append_zeros [] zero = refl
from_le-append_zeros [] (suc k) = omega (arith, from_le-append_zeros [] k)
from_le-append_zeros (b ∷ bs) k = omega (arith, from_le-append_zeros bs k)
