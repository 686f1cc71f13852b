-- ===== src/BytesCodec/Resume.antt =====
-- What `decode` of bytes_codec.rs does when the bytes of a frame come in pieces.
use pc_trade.Prelude.{
  ℕ, zero, suc, ◌≤◌, ◌<◌, ◌≡◌, refl, List, [], ◌∷◌, ◌++◌, Option, none, some, true, false, Result,
  ok, err, arith, length, length-append, take-append_le, drop-append_le, Bool-cases, inl, inr, ◌⊎◌,
}
use pc_trade.Prelude.Bits.{bit_and_mask}
use pc_trade.BytesCodec.{
  BytesCodec, DecodeState, head, payload, Error, decoded, byte_at, head_len_of, head_value,
  decode_head, decode_payload, decode,
}

byte_at-append :
    (src more : List ℕ) (i : ℕ) → i < length src → byte_at (src ++ more) i ≡ byte_at src i
byte_at-append [] more i h = elim h [ ]
byte_at-append (b ∷ src) more zero h = refl
byte_at-append (b ∷ src) more (suc i) h = byte_at-append src more i (omega arith)

head_len_of_le : (src : List ℕ) → (1 ≤ head_len_of src) × (head_len_of src ≤ 4)
unfolding head_len_of
head_len_of_le src = omega (arith, bit_and_mask 2 (byte_at src 0))

head_value-append :
    (src more : List ℕ) (k : ℕ)
    → 1 ≤ k
    → k ≤ length src
    → head_value (src ++ more) k ≡ head_value src k
unfolding head_value
head_value-append src more k h1 h = ground (
  arith,
  byte_at-append src more 0,
  byte_at-append src more 1,
  byte_at-append src more 2,
  byte_at-append src more 3,
)

head_len_of-append :
    (b : ℕ) (src more : List ℕ) → head_len_of ((b ∷ src) ++ more) ≡ head_len_of (b ∷ src)
unfolding head_len_of
head_len_of-append b src more = refl

-- A prefix that was read, or refused, is read so whatever follows.
decode_head-append_ok :
    (c : BytesCodec) (src more : List ℕ) (n : ℕ) (rest : List ℕ)
    → decode_head c src ≡ (ok (some n), rest)
    → decode_head c (src ++ more) ≡ (ok (some n), rest ++ more)
unfolding decode_head
decode_head-append_ok c [] more n rest e = cc
decode_head-append_ok c (b ∷ src) more n rest e = ground (
  arith,
  head_len_of_le (b ∷ src),
  head_value-append (b ∷ src) more (head_len_of (b ∷ src)),
  length-append src more,
  drop-append_le (head_len_of (b ∷ src)) (b ∷ src) more,
)

decode_head-append_err :
    (c : BytesCodec) (src more : List ℕ) (e : Error) (rest : List ℕ)
    → decode_head c src ≡ (err e, rest)
    → decode_head c (src ++ more) ≡ (err e, rest ++ more)
unfolding decode_head
decode_head-append_err c [] more e' rest e = cc
decode_head-append_err c (b ∷ src) more e' rest e = ground (
  arith,
  head_len_of_le (b ∷ src),
  head_value-append (b ∷ src) more (head_len_of (b ∷ src)),
  length-append src more,
)

decode_head_waits :
    (c : BytesCodec) (src rest : List ℕ) → decode_head c src ≡ (ok none, rest) → rest ≡ src
unfolding decode_head
decode_head_waits c [] rest e = cc
decode_head_waits c (b ∷ src) rest e = ground arith

decode_payload_waits :
    (c : BytesCodec) (n : ℕ) (src : List ℕ)
    → (decode_payload c n src).result ≡ ok none
    → decode_payload c n src ≡ decoded (ok none) c src
unfolding decode_payload
decode_payload_waits c n src e = ground arith

decode_payload-append :
    (c : BytesCodec) (n : ℕ) (src more data' : List ℕ)
    → (decode_payload c n src).result ≡ ok (some data')
    → decode_payload c n (src ++ more)
      ≡ decoded
          (ok (some data'))
          (decode_payload c n src).codec
          ((decode_payload c n src).src ++ more)
unfolding decode_payload
decode_payload-append c n src more data' e =
    ground (arith, length-append src more, take-append_le n src more, drop-append_le n src more)

-- From a head state, one lemma for each outcome of the prefix.
resume_from_head :
    (c : BytesCodec) (src more : List ℕ) (r : Result Error (Option ℕ)) (rest : List ℕ)
    → c.state ≡ head
    → c.raw ≡ false
    → decode_head c src ≡ (r, rest)
    → (decode c src).result ≡ ok none
    → decode (decode c src).codec ((decode c src).src ++ more) ≡ decode c (src ++ more)
unfolding decode
resume_from_head c src more (err e) rest hs hr hd w = ground arith
resume_from_head c src more (ok none) rest hs hr hd w = ground (arith, decode_head_waits c src rest)
resume_from_head c src more (ok (some n)) rest hs hr hd w = ground (
  arith,
  decode_head-append_ok c src more n rest,
  decode_payload_waits (record c { state = payload n }) n rest,
)

resume_from_payload :
    (c : BytesCodec) (src more : List ℕ) (n : ℕ)
    → c.state ≡ payload n
    → c.raw ≡ false
    → (decode c src).result ≡ ok none
    → decode (decode c src).codec ((decode c src).src ++ more) ≡ decode c (src ++ more)
unfolding decode
resume_from_payload c src more n hs hr w = ground (arith, decode_payload_waits c n src)

resume_raw :
    (c : BytesCodec) (src more : List ℕ)
    → c.raw ≡ true
    → (decode c src).result ≡ ok none
    → decode (decode c src).codec ((decode c src).src ++ more) ≡ decode c (src ++ more)
unfolding decode
resume_raw c [] more hr w = ground arith
resume_raw c (b ∷ src) more hr w = ground arith

pub State-cases : (s : DecodeState) → (s ≡ head) ⊎ ((n : ℕ) × (s ≡ payload n))
State-cases head = inl refl
State-cases (payload n) = inr (n, refl)

-- When `decode` asks for more bytes, calling it again after they arrived gives what one call on all
-- the bytes together gives: result, codec and buffer.
pub decode_resume :
    (c : BytesCodec) (src more : List ℕ)
    → (decode c src).result ≡ ok none
    → decode (decode c src).codec ((decode c src).src ++ more) ≡ decode c (src ++ more)
decode_resume c src more w = elim (Bool-cases c.raw) [
  | inl raw ↦ resume_raw c src more raw w
  | inr framed ↦ elim (State-cases c.state) [
    | inl at_head ↦
        resume_from_head c src more (decode_head c src).0 (decode_head c src).1 at_head framed refl
          w
    | inr (n, at_data) ↦ resume_from_payload c src more n at_data framed w
  ]
]

frame_from_head :
    (c : BytesCodec) (src more : List ℕ) (r : Result Error (Option ℕ)) (rest data' : List ℕ)
    → c.state ≡ head
    → c.raw ≡ false
    → decode_head c src ≡ (r, rest)
    → (decode c src).result ≡ ok (some data')
    → decode c (src ++ more)
      ≡ decoded (ok (some data')) (decode c src).codec ((decode c src).src ++ more)
unfolding decode
frame_from_head c src more (err e) rest data' hs hr hd w = ground arith
frame_from_head c src more (ok none) rest data' hs hr hd w = ground arith
frame_from_head c src more (ok (some n)) rest data' hs hr hd w = ground (
  arith,
  decode_head-append_ok c src more n rest,
  decode_payload-append (record c { state = payload n }) n rest more data',
)

frame_from_payload :
    (c : BytesCodec) (src more data' : List ℕ) (n : ℕ)
    → c.state ≡ payload n
    → c.raw ≡ false
    → (decode c src).result ≡ ok (some data')
    → decode c (src ++ more)
      ≡ decoded (ok (some data')) (decode c src).codec ((decode c src).src ++ more)
unfolding decode
frame_from_payload c src more data' n hs hr w =
    ground (arith, decode_payload-append c n src more data')

-- In frame mode a frame that was decoded does not depend on what follows it: more bytes behind the
-- buffer give the same frame and codec, and stay behind what is left.
pub decode-append :
    (c : BytesCodec) (src more data' : List ℕ)
    → c.raw ≡ false
    → (decode c src).result ≡ ok (some data')
    → decode c (src ++ more)
      ≡ decoded (ok (some data')) (decode c src).codec ((decode c src).src ++ more)
decode-append c src more data' framed w = elim (State-cases c.state) [
  | inl at_head ↦
      frame_from_head c src more (decode_head c src).0 (decode_head c src).1 data' at_head framed
        refl w
  | inr (n, at_data) ↦ frame_from_payload c src more data' n at_data framed w
]

err_from_head :
    (c : BytesCodec) (src more : List ℕ) (r : Result Error (Option ℕ)) (rest : List ℕ) (x : Error)
    → c.state ≡ head
    → c.raw ≡ false
    → decode_head c src ≡ (r, rest)
    → (decode c src).result ≡ err x
    → (decode c (src ++ more)).result ≡ err x
unfolding decode decode_payload
err_from_head c src more (err e) rest x hs hr hd w =
    ground (arith, decode_head-append_err c src more e rest)
err_from_head c src more (ok none) rest x hs hr hd w = ground arith
err_from_head c src more (ok (some n)) rest x hs hr hd w = ground arith

err_from_payload :
    (c : BytesCodec) (src more : List ℕ) (n : ℕ) (x : Error)
    → c.state ≡ payload n
    → c.raw ≡ false
    → (decode c src).result ≡ err x
    → (decode c (src ++ more)).result ≡ err x
unfolding decode decode_payload
err_from_payload c src more n x hs hr w = ground arith

-- An error does not depend on what follows either.
pub decode-append_err :
    (c : BytesCodec) (src more : List ℕ) (x : Error)
    → c.raw ≡ false
    → (decode c src).result ≡ err x
    → (decode c (src ++ more)).result ≡ err x
decode-append_err c src more x framed w = elim (State-cases c.state) [
  | inl at_head ↦
      err_from_head c src more (decode_head c src).0 (decode_head c src).1 x at_head framed refl w
  | inr (n, at_data) ↦ err_from_payload c src more n x at_data framed w
]
