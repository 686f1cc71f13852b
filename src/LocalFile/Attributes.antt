-- ===== src/LocalFile/Attributes.antt =====
-- The attributes of a file in its descriptor (`as_bin` of local_file.rs, `parse_file_descriptor` of
-- fuse.rs).
use pc_trade.Prelude.{ℕ, ◌^◌, ◌<◌, ◌≡◌, refl, Bool, true, false, not, ◌&&◌, arith, ltb, bit_or}
use pc_trade.Fuse.Descriptor.{has_flag}
use pc_trade.LocalFile.{LocalFile, file_attributes, flag_if}

-- A test that holds for both truth values holds for each.
abbrev for_both : (Bool → Bool) → Bool
for_both test = test true && test false

for_both_lem : (test : Bool → Bool) → for_both test ≡ true → (b : Bool) → test b ≡ true
for_both_lem test e true = ground arith
for_both_lem test e false = ground arith

abbrev same : Bool → Bool → Bool
same true b = b
same false b = not b

same_eq : (a b : Bool) → same a b ≡ true → a ≡ b
same_eq true true e = refl
same_eq true false e = cc
same_eq false true e = cc
same_eq false false e = refl

abbrev pub attributes : (r h s d a n : Bool) → ℕ
attributes r h s d a n =
    bit_or
      (bit_or
        (bit_or (bit_or (bit_or (flag_if r 0x1) (flag_if h 0x2)) (flag_if s 0x4)) (flag_if d 0x10))
        (flag_if a 0x20))
      (flag_if n 0x80)

-- The directory bit is in its place, and the word is not too large.
abbrev pub fits : (r h s d a n : Bool) → Bool
fits r h s d a n =
    same (has_flag (attributes r h s d a n) 0x10) d && ltb (attributes r h s d a n) (2 ^ 32)

attributes_fit : (r h s d a n : Bool) → fits r h s d a n ≡ true
attributes_fit r h s d a n =
    for_both_lem (λ n. fits r h s d a n)
      (for_both_lem (λ a. for_both (λ n. fits r h s d a n))
        (for_both_lem (λ d. for_both (λ a. for_both (λ n. fits r h s d a n)))
          (for_both_lem (λ s. for_both (λ d. for_both (λ a. for_both (λ n. fits r h s d a n))))
            (for_both_lem
              (λ h.
                for_both (λ s. for_both (λ d. for_both (λ a. for_both (λ n. fits r h s d a n)))))
              (for_both_lem
                (λ r. for_both (λ h.
                  for_both (λ s. for_both (λ d. for_both (λ a. for_both (λ n. fits r h s d a n))))))
                refl r)
              h)
            s)
          d)
        a)
      n

both_true : (a b : Bool) → (a && b) ≡ true → (a ≡ true) × (b ≡ true)
both_true true b e = (refl, e)
both_true false b e = cc

pub file_attributes_fit :
    (f : LocalFile) → (has_flag (file_attributes f) 0x10 ≡ f.is_dir) × (file_attributes f < 2 ^ 32)
unfolding file_attributes
file_attributes_fit f =
    let (bit, small) =
      both_true _ _ (attributes_fit f.read_only f.hidden f.system f.is_dir f.archive f.normal) in
    (same_eq _ _ bit, below _ small)
  where
    below : (n : ℕ) → ltb n (2 ^ 32) ≡ true → n < 2 ^ 32
    below n e = ground arith
