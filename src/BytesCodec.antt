-- ===== src/BytesCodec.antt =====
-- libs/hbb_common/src/bytes_codec.rs: length-prefixed frames. A buffer (`BytesMut`, `Bytes`) is a
-- list of bytes; `src.reserve`, which changes only the capacity, is left out.
pub mod Head
pub mod RoundTrip
pub mod Bounds
pub mod Resume
pub mod Stream
mod Tests
use pc_trade.Prelude.{
  ℕ, ◌+◌, ◌-◌, ◌*◌, ◌/◌, ◌%◌, ◌^◌, bit_and, bit_or, List, [], ◌∷◌, ◌++◌, Option, none, some, Bool,
  true, false, Result, ok, err, ltb, leb, if◌then◌else◌, length, get_elem?, take, drop,
}
use pc_trade.Prelude.Bytes.{le_bytes}

-- `Head` waits for a length prefix, `Data n` for the `n` bytes of a payload.
pub data DecodeState : Type 0 where
  head : DecodeState
  payload : ℕ → DecodeState

pub record BytesCodec : Type 0 where
  pub state : DecodeState
  pub raw : Bool
  pub max_packet_length : ℕ

pub data Error : Type 0 where
  too_big_packet overflow : Error

abbrev pub usize_max : ℕ
usize_max = 2 ^ 64 - 1

abbrev pub new : BytesCodec
new = record { state = head; raw = false; max_packet_length = usize_max }

unfoldable pub set_raw : BytesCodec → BytesCodec
set_raw c = record c { raw = true }

unfoldable pub set_max_packet_length : BytesCodec → ℕ → BytesCodec
set_max_packet_length c n = record c { max_packet_length = n }

-- `src[i]`, read only below the length of `src`
abbrev pub byte_at : List ℕ → ℕ → ℕ
byte_at src i = elim (get_elem? src i) [ none ↦ 0 | some b ↦ b ]

unfoldable pub head_len_of : List ℕ → ℕ
head_len_of src = bit_and (byte_at src 0) 0x3 + 1

-- the `|=` of the bytes of the prefix, then `n >>= 2`
unfoldable pub head_value : List ℕ → ℕ → ℕ
head_value src head_len =
    let n0 = byte_at src 0 in
    let n1 = if ltb 1 head_len then bit_or n0 (byte_at src 1 * 2 ^ 8) else n0 in
    let n2 = if ltb 2 head_len then bit_or n1 (byte_at src 2 * 2 ^ 16) else n1 in
    let n3 = if ltb 3 head_len then bit_or n2 (byte_at src 3 * 2 ^ 24) else n2 in n3 / 2 ^ 2

-- The result, and what is left of `src`.
unfoldable pub decode_head : BytesCodec → List ℕ → Result Error (Option ℕ) × List ℕ
unfolding head_len_of head_value
decode_head c [] = (ok none, [])
decode_head c (b ∷ rest) =
    let src : List ℕ = b ∷ rest in
    let head_len = head_len_of src in
    if ltb (length src) head_len
    then (ok none, src)
    else let n = head_value src head_len in
      if ltb c.max_packet_length n
      then (err too_big_packet, src)
      else (ok (some n), drop head_len src)

unfoldable pub decode_data : ℕ → List ℕ → Option (List ℕ) × List ℕ
decode_data n src = if ltb (length src) n then (none, src) else (some (take n src), drop n src)

-- What a call of `decode` leaves behind: its result, the codec and the buffer.
pub record Decoded : Type 0 where
  pub result : Result Error (Option (List ℕ))
  pub codec : BytesCodec
  pub src : List ℕ

abbrev pub decoded : Result Error (Option (List ℕ)) → BytesCodec → List ℕ → Decoded
decoded r c s = record { result = r; codec = c; src = s }

-- the second half of `decode`, in state `Data n`
unfoldable pub decode_payload : BytesCodec → ℕ → List ℕ → Decoded
unfolding decode_data
decode_payload c n src = elim (decode_data n src).0 [
  | some data' ↦ decoded (ok (some data')) (record c { state = head }) (decode_data n src).1
  | none ↦ decoded (ok none) c (decode_data n src).1
]

abbrev after_head : BytesCodec → Result Error (Option ℕ) × List ℕ → Decoded
after_head c (err e, src) = decoded (err e) c src
after_head c (ok none, src) = decoded (ok none) c src
after_head c (ok (some n), src) = decode_payload (record c { state = payload n }) n src

abbrev dispatch : DecodeState → BytesCodec → List ℕ → Decoded
dispatch head c src = after_head c (decode_head c src)
dispatch (payload n) c src = decode_payload c n src

abbrev decode_raw : BytesCodec → List ℕ → Decoded
decode_raw c [] = decoded (ok none) c []
decode_raw c (b ∷ rest) = decoded (ok (some (b ∷ rest))) c []

unfoldable pub decode : BytesCodec → List ℕ → Decoded
decode c src = if c.raw then decode_raw c src else dispatch c.state c src

-- the prefix that `encode` puts before `n` bytes; `none` above 0x3FFFFFFF
unfoldable pub encode_head : ℕ → Option (List ℕ)
unfolding le_bytes
encode_head n =
    if leb n 0x3F
    then some (le_bytes 1 (n * 2 ^ 2 % 2 ^ 8))
    else if leb n 0x3FFF
    then some (le_bytes 2 (bit_or (n * 2 ^ 2 % 2 ^ 16) 0x1))
    else if leb n 0x3FFFFF
    then (let h = bit_or (n * 2 ^ 2 % 2 ^ 32) 0x2 in
        some (le_bytes 2 (bit_and h 0xFFFF) ++ le_bytes 1 (h / 2 ^ 16 % 2 ^ 8)))
    else if leb n 0x3FFFFFFF
    then some (le_bytes 4 (bit_or (n * 2 ^ 2 % 2 ^ 32) 0x3))
    else none

abbrev put_frame : List ℕ → List ℕ → Option (List ℕ) → Result Error (Unit {0}) × List ℕ
put_frame data' buf none = (err overflow, buf)
put_frame data' buf (some prefix) = (ok tt, buf ++ (prefix ++ data'))

-- The result, and the buffer that was written.
unfoldable pub encode : BytesCodec → List ℕ → List ℕ → Result Error (Unit {0}) × List ℕ
unfolding encode_head
encode c data' buf =
    if c.raw then (ok tt, buf ++ data') else put_frame data' buf (encode_head (length data'))
