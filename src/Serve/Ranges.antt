-- ===== src/Serve/Ranges.antt =====
-- The offset that libs/clipboard/src/platform/unix/mod.rs puts together from the two halves that
-- fuse.rs sends.
use pc_trade.Prelude.{ℕ, zero, suc, ◌+◌, ◌*◌, ◌/◌, ◌%◌, ◌^◌, ◌≤◌, ◌<◌, ◌≡◌, bit_or, ◌∙◌, arith}
use pc_trade.Prelude.Bits.{bit_or_step, bit_or_low}
use pc_trade.Cliprdr.{sign_extend}
use pc_trade.Serve.{offset_of}

-- `|` is not below its right side.
bit_or_le_fuel : (bound x y : ℕ) → y ≤ bound → y ≤ bit_or x y
bit_or_le_fuel bound x zero h = omega arith
bit_or_le_fuel zero x (suc y) h = absurd (omega arith)
bit_or_le_fuel (suc bound) x (suc y) h =
    let half = bit_or_le_fuel bound (x / 2) (suc y / 2) (omega arith) in
    omega (arith, bit_or_step x (suc y))

bit_or_le : (x y : ℕ) → y ≤ bit_or x y
bit_or_le x y = bit_or_le_fuel y x y (omega arith)

high_part : (h : ℕ) → h < 2 ^ 32 → sign_extend h * 2 ^ 32 % 2 ^ 64 ≡ h * 2 ^ 32
high_part h small = ground arith

low_part : (l : ℕ) → l < 2 ^ 31 → sign_extend l ≡ l
low_part l h = ground arith

negative_part : (l : ℕ) → 2 ^ 31 ≤ l → 2 ^ 63 ≤ sign_extend l
negative_part l h = ground arith

halves : (n : ℕ) → n < 2 ^ 63 → n / 2 ^ 32 % 2 ^ 32 * 2 ^ 32 + n % 2 ^ 32 ≡ n
halves n h = omega arith

above :
    (offset l u : ℕ)
    → offset < 2 ^ 63
    → u < 2 ^ 32
    → 2 ^ 63 ≤ sign_extend l
    → offset < bit_or (sign_extend u * 2 ^ 32 % 2 ^ 64) (sign_extend l)
above offset l u h small large =
    omega (arith, bit_or_le (sign_extend u * 2 ^ 32 % 2 ^ 64) (sign_extend l))

-- The offset of a read comes back from its two halves exactly if bit 31 is clear: else the low half
-- is negative as an i32, its sign fills the high half, and the offset is larger than the one that
-- was asked for.
pub offset_of_lem :
    (offset : ℕ)
    → offset < 2 ^ 63
    → (offset % 2 ^ 32 < 2 ^ 31 → offset_of (offset % 2 ^ 32) (offset / 2 ^ 32 % 2 ^ 32) ≡ offset)
      × (2 ^ 31 ≤ offset % 2 ^ 32 → offset < offset_of (offset % 2 ^ 32) (offset / 2 ^ 32 % 2 ^ 32))
unfolding offset_of
offset_of_lem offset h =
    let l = offset % 2 ^ 32 in
    let u = offset / 2 ^ 32 % 2 ^ 32 in
    (
      λ low.
          rw (high_part u (omega arith), low_part l low)
            (bit_or_low 32 u l (omega arith) ∙ halves offset h),
      λ high. above offset l u h (omega arith) (negative_part l high),
    )
