-- ===== src/Prelude/Bits.antt =====
-- `&` and `|` at variables: the laws for masks of low ones and for joining disjoint fields, from
-- the digit recursion that the native operations stand for.
use Prim.Native.Nat.{
  ℕ, zero, suc, ◌+◌, ◌-◌, ◌*◌, ◌/◌, ◌%◌, ◌^◌, ◌≤◌, ◌<◌, min, max, bit_and, bit_or, digits,
}
use Prim.Native.Nat.{bit_and-bitwise, bit_or-bitwise}
use mathlib.Core.Path.{◌≡◌, refl, ap, ◌∙◌}
use native.Mathlib.Omega.{arith}

-- The recursion on digits gives the same with any two bounds that are large enough.
same_digits :
    (last : ℕ → ℕ) (join : ℕ → ℕ → ℕ) (r s x y : ℕ)
    → x ≤ r
    → x ≤ s
    → digits last join r x y ≡ digits last join s x y
same_digits last join zero zero x y hr hs = refl
same_digits last join (suc r) s zero y hr hs = at_zero s
  where
    at_zero : (s : ℕ) → digits last join (suc r) zero y ≡ digits last join s zero y
    at_zero zero = refl
    at_zero (suc s) = refl
same_digits last join zero (suc s) zero y hr hs = refl
same_digits last join (suc r) (suc s) (suc x) y hr hs =
    let lower = same_digits last join r s (suc x / 2) (y / 2) (omega arith) (omega arith) in
    ap (λ (d : ℕ). d * 2 + join (suc x % 2) (y % 2)) lower
same_digits last join zero (suc s) (suc x) y hr hs = absurd (omega arith)
same_digits last join (suc r) zero (suc x) y hr hs = absurd (omega arith)

-- What both operations do on nothing.
none_set : (y : ℕ) → (bit_and 0 y ≡ 0) × (bit_or 0 y ≡ y)
none_set y = (bit_and-bitwise 0 y, bit_or-bitwise 0 y)

-- One digit of `|`, and of `&`.
pub bit_or_step : (x y : ℕ) → bit_or x y ≡ bit_or (x / 2) (y / 2) * 2 + max (x % 2) (y % 2)
bit_or_step zero y = let whole = none_set y in let half = none_set (y / 2) in omega arith
bit_or_step (suc x) y =
    let top = bit_or-bitwise (suc x) y in
    let rest = bit_or-bitwise (suc x / 2) (y / 2) in
    let same =
      same_digits (λ y. y) max x (suc x / 2) (suc x / 2) (y / 2) (omega arith) (omega arith) in
    omega (arith, top, rest, same)

bit_and_step : (x y : ℕ) → bit_and x y ≡ bit_and (x / 2) (y / 2) * 2 + min (x % 2) (y % 2)
bit_and_step zero y = let whole = none_set y in let half = none_set (y / 2) in omega arith
bit_and_step (suc x) y =
    let top = bit_and-bitwise (suc x) y in
    let rest = bit_and-bitwise (suc x / 2) (y / 2) in
    let same =
      same_digits (λ y. 0) min x (suc x / 2) (suc x / 2) (y / 2) (omega arith) (omega arith) in
    omega (arith, top, rest, same)

-- Nothing on the right, by halving below a bound.
against_zero : (bound x : ℕ) → x ≤ bound → (bit_or x 0 ≡ x) × (bit_and x 0 ≡ 0)
against_zero bound zero below = (refl, refl)
against_zero zero (suc x) below = absurd (omega arith)
against_zero (suc bound) (suc x) below =
    let (or_half, and_half) = against_zero bound (suc x / 2) (omega arith) in
    (omega (arith, bit_or_step (suc x) 0), omega (arith, bit_and_step (suc x) 0))

bit_or-zero : (x : ℕ) → bit_or x 0 ≡ x
bit_or-zero x = (against_zero x x (omega arith)).0

bit_and-zero : (x : ℕ) → bit_and x 0 ≡ 0
bit_and-zero x = (against_zero x x (omega arith)).1

pow2_suc : (k : ℕ) → 2 ^ suc k ≡ 2 * 2 ^ k
pow2_suc k = omega arith

pow2_pos : (k : ℕ) → 0 < 2 ^ k
pow2_pos zero = omega arith
pow2_pos (suc k) = omega (arith, pow2_suc k, pow2_pos k)

double_div : (p x : ℕ) → x * (2 * p) / 2 ≡ x * p
double_div p x = omega arith

mod_double : (a p : ℕ) → 0 < p → a % (2 * p) ≡ a / 2 % p * 2 + a % 2
mod_double a p h = grind arith

-- A mask of `k` low ones is the remainder by `2 ^ k`.
pub bit_and_mask : (k a : ℕ) → bit_and a (2 ^ k - 1) ≡ a % 2 ^ k
bit_and_mask zero a = bit_and-zero a ∙ omega arith
bit_and_mask (suc k) a = omega (
  arith,
  bit_and_step a (2 ^ suc k - 1),
  ap (bit_and (a / 2)) halved,
  bit_and_mask k (a / 2),
  mod_double a (2 ^ k) (pow2_pos k),
  ap (λ (t : ℕ). a % t) (pow2_suc k),
  pow2_suc k,
  pow2_pos k,
)
  where
    halved : (2 ^ suc k - 1) / 2 ≡ 2 ^ k - 1
    halved = omega (arith, pow2_suc k, pow2_pos k)

-- Two fields that share no bit are joined by a sum.
pub bit_or_high : (k a b : ℕ) → a < 2 ^ k → bit_or a (b * 2 ^ k) ≡ a + b * 2 ^ k
bit_or_high zero zero b h = (none_set (b * 1)).1 ∙ omega arith
bit_or_high zero (suc a) b h = absurd (omega arith)
bit_or_high (suc k) a b h = omega (
  arith,
  bit_or_step a (b * 2 ^ suc k),
  ap (λ (t : ℕ). bit_or (a / 2) (b * t / 2)) (pow2_suc k),
  ap (bit_or (a / 2)) (double_div (2 ^ k) b),
  bit_or_high k (a / 2) b (omega (arith, pow2_suc k)),
  ap (λ (t : ℕ). b * t) (pow2_suc k),
)

pub bit_or_low : (k a b : ℕ) → b < 2 ^ k → bit_or (a * 2 ^ k) b ≡ a * 2 ^ k + b
bit_or_low zero a zero h = bit_or-zero (a * 1) ∙ omega arith
bit_or_low zero a (suc b) h = absurd (omega arith)
bit_or_low (suc k) a b h = omega (
  arith,
  bit_or_step (a * 2 ^ suc k) b,
  ap (λ (t : ℕ). bit_or (a * t / 2) (b / 2)) (pow2_suc k),
  ap (λ (t : ℕ). bit_or t (b / 2)) (double_div (2 ^ k) a),
  bit_or_low k a (b / 2) (omega (arith, pow2_suc k)),
  ap (λ (t : ℕ). a * t) (pow2_suc k),
)
