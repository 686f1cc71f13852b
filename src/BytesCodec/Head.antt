-- ===== src/BytesCodec/Head.antt =====
-- The length prefix of bytes_codec.rs in plain arithmetic.
use pc_trade.Prelude.{
  ℕ, ◌+◌, ◌*◌, ◌/◌, ◌%◌, ◌≤◌, ◌<◌, ◌≡◌, refl, List, [], ◌∷◌, ◌++◌, none, some, ok, arith,
}
use native.Mathlib.Decide.{dec_le}
use pc_trade.Prelude.Bits.{bit_and_mask, bit_or_high, bit_or_low}
use pc_trade.BytesCodec.{BytesCodec, head_len_of, head_value, decode_head, encode_head}

head_len_of_lem : (b : ℕ) (rest : List ℕ) → head_len_of (b ∷ rest) ≡ b % 4 + 1
unfolding head_len_of
head_len_of_lem b rest = omega (arith, bit_and_mask 2 b)

head_value_one : (b : ℕ) (rest : List ℕ) → head_value (b ∷ rest) 1 ≡ b / 4
unfolding head_value
head_value_one b rest = refl

head_value_two :
    (b0 b1 : ℕ) (rest : List ℕ) → b0 < 256 → head_value (b0 ∷ b1 ∷ rest) 2 ≡ (b0 + b1 * 256) / 4
unfolding head_value
head_value_two b0 b1 rest h0 = omega (arith, bit_or_high 8 b0 b1 h0)

head_value_three :
    (b0 b1 b2 : ℕ) (rest : List ℕ)
    → b0 < 256
    → b1 < 256
    → head_value (b0 ∷ b1 ∷ b2 ∷ rest) 3 ≡ (b0 + b1 * 256 + b2 * 65536) / 4
unfolding head_value
head_value_three b0 b1 b2 rest h0 h1 =
    ground (arith, bit_or_high 8 b0 b1 h0, bit_or_high 16 (b0 + b1 * 256) b2 (omega arith))

head_value_four :
    (b0 b1 b2 b3 : ℕ) (rest : List ℕ)
    → b0 < 256
    → b1 < 256
    → b2 < 256
    → head_value (b0 ∷ b1 ∷ b2 ∷ b3 ∷ rest) 4 ≡ (b0 + b1 * 256 + b2 * 65536 + b3 * 16777216) / 4
unfolding head_value
head_value_four b0 b1 b2 b3 rest h0 h1 h2 = ground (
  arith,
  bit_or_high 8 b0 b1 h0,
  bit_or_high 16 (b0 + b1 * 256) b2 (omega arith),
  bit_or_high 24 (b0 + b1 * 256 + b2 * 65536) b3 (omega arith),
)

encode_head_one : (n : ℕ) → n ≤ 63 → encode_head n ≡ some ((n * 4) ∷ [])
unfolding encode_head
encode_head_one n h = ground (arith)

encode_head_two :
    (n : ℕ)
    → 63 < n
    → n ≤ 16383
    → encode_head n ≡ some (((n * 4 + 1) % 256) ∷ ((n * 4 + 1) / 256) ∷ [])
unfolding encode_head
encode_head_two n h k = ground (arith, bit_or_low 2 n 1)

encode_head_three :
    (n : ℕ)
    → 16383 < n
    → n ≤ 4194303
    → encode_head n
      ≡ some (((n * 4 + 2) % 256) ∷ ((n * 4 + 2) / 256 % 256) ∷ ((n * 4 + 2) / 65536) ∷ [])
unfolding encode_head
encode_head_three n h k = ground (arith, bit_or_low 2 n 2, bit_and_mask 16 (n * 4 + 2))

encode_head_four :
    (n : ℕ)
    → 4194303 < n
    → n ≤ 1073741823
    → encode_head n
      ≡ some (
          ((n * 4 + 3) % 256)
          ∷ ((n * 4 + 3) / 256 % 256)
          ∷ ((n * 4 + 3) / 65536 % 256)
          ∷ ((n * 4 + 3) / 16777216)
          ∷ [])
unfolding encode_head
encode_head_four n h k = ground (arith, bit_or_low 2 n 3)

pub encode_head_too_long : (n : ℕ) → 1073741823 < n → encode_head n ≡ none
unfolding encode_head
encode_head_too_long n h = ground arith

prefix_eq : (n : ℕ) (p q : List ℕ) → encode_head n ≡ some p → encode_head n ≡ some q → p ≡ q
prefix_eq n p q e f = cc

module _ (c : BytesCodec) (n : ℕ) (rest : List ℕ) (fits : n ≤ c.max_packet_length) where
  decode_one : (b0 : ℕ) → b0 % 4 ≡ 0 → b0 / 4 ≡ n → decode_head c (b0 ∷ rest) ≡ (ok (some n), rest)
  unfolding decode_head
  decode_one b0 h v = ground (arith, head_len_of_lem b0 rest, head_value_one b0 rest)

  decode_two :
      (b0 b1 : ℕ)
      → b0 < 256
      → b0 % 4 ≡ 1
      → (b0 + b1 * 256) / 4 ≡ n
      → decode_head c (b0 ∷ b1 ∷ rest) ≡ (ok (some n), rest)
  unfolding decode_head
  decode_two b0 b1 h0 h v =
      ground (arith, head_len_of_lem b0 (b1 ∷ rest), head_value_two b0 b1 rest h0)

  decode_three :
      (b0 b1 b2 : ℕ)
      → b0 < 256
      → b1 < 256
      → b0 % 4 ≡ 2
      → (b0 + b1 * 256 + b2 * 65536) / 4 ≡ n
      → decode_head c (b0 ∷ b1 ∷ b2 ∷ rest) ≡ (ok (some n), rest)
  unfolding decode_head
  decode_three b0 b1 b2 h0 h1 h v =
      ground (arith, head_len_of_lem b0 (b1 ∷ b2 ∷ rest), head_value_three b0 b1 b2 rest h0 h1)

  decode_four :
      (b0 b1 b2 b3 : ℕ)
      → b0 < 256
      → b1 < 256
      → b2 < 256
      → b0 % 4 ≡ 3
      → (b0 + b1 * 256 + b2 * 65536 + b3 * 16777216) / 4 ≡ n
      → decode_head c (b0 ∷ b1 ∷ b2 ∷ b3 ∷ rest) ≡ (ok (some n), rest)
  unfolding decode_head
  decode_four b0 b1 b2 b3 h0 h1 h2 h v =
      ground
        (arith, head_len_of_lem b0 (b1 ∷ b2 ∷ b3 ∷ rest), head_value_four b0 b1 b2 b3 rest h0 h1 h2)

  -- The prefix of a payload of `n` bytes reads back as `n`, and nothing after it is touched.
  pub decode_head-encode_head :
      (prefix : List ℕ)
      → encode_head n ≡ some prefix
      → decode_head c (prefix ++ rest) ≡ (ok (some n), rest)
  decode_head-encode_head prefix e = elim (dec_le n 63) [
    | yes one ↦
        rw (prefix_eq n prefix _ e (encode_head_one n one))
          (decode_one (n * 4) (omega arith) (omega arith))
    | no not_one ↦ elim (dec_le n 16383) [
      | yes two ↦
          rw (prefix_eq n prefix _ e (encode_head_two n (omega arith) two))
            (decode_two _ _ (omega arith) (omega arith) (omega arith))
      | no not_two ↦ elim (dec_le n 4194303) [
        | yes three ↦
            rw (prefix_eq n prefix _ e (encode_head_three n (omega arith) three))
              (decode_three _ _ _ (omega arith) (omega arith) (omega arith) (omega arith))
        | no not_three ↦ elim (dec_le n 1073741823) [
          | yes four ↦ rw (prefix_eq n prefix _ e (encode_head_four n (omega arith) four)) (
              decode_four _ _ _ _ (omega arith) (omega arith) (omega arith) (omega arith)
                (omega arith))
          | no long ↦ cc (encode_head_too_long n (omega arith))
        ]
      ]
    ]
  ]

pub encode_head-some : (n : ℕ) → n ≤ 1073741823 → (prefix : List ℕ) × (encode_head n ≡ some prefix)
encode_head-some n h = elim (dec_le n 63) [
  | yes one ↦ (_, encode_head_one n one)
  | no not_one ↦ elim (dec_le n 16383) [
    | yes two ↦ (_, encode_head_two n (omega arith) two)
    | no not_two ↦ elim (dec_le n 4194303) [
      | yes three ↦ (_, encode_head_three n (omega arith) three)
      | no not_three ↦ (_, encode_head_four n (omega arith) h)
    ]
  ]
]
