-- ===== src/Tcp.antt =====
-- `Encrypt` and the messages of `FramedStream` of libs/hbb_common/src/tcp.rs. The libraries
-- `secretbox` and `box_` of sodiumoxide are the parameter `Box`; the socket, its address and its
-- timeouts are left out: what is sent is appended to the bytes on the wire.
pub mod Session
pub mod Nonces
mod Tests
use pc_trade.Prelude.{
  ℕ, ◌+◌, ◌%◌, ◌^◌, List, [], ◌∷◌, ◌++◌, Option, none, some, Bool, true, false, not, Result, ok,
  err, leb, ltb, ◌==◌, if◌then◌else◌, length, replicate,
}
use pc_trade.Prelude.Bytes.{le_bytes}
use pc_trade.BytesCodec.{BytesCodec, encode}
use pc_trade.BytesCodec

-- `seal` and `unseal` are `secretbox::seal` and `open`, `box_open` is `box_::open`.
pub record Box : Type 0 where
  pub seal : (bytes nonce key : List ℕ) → List ℕ
  pub unseal : (bytes nonce key : List ℕ) → Option (List ℕ)
  pub box_open : (bytes nonce their_pk our_sk : List ℕ) → Option (List ℕ)

-- The key, the number of messages sealed and the number of messages opened.
pub record Encrypt : Type 0 where
  pub key : List ℕ
  pub sealed : ℕ
  pub opened : ℕ

pub data Error : Type 0 where
  decryption_error pk_length box_failure key_length : Error

unfoldable pub new : List ℕ → Encrypt
new key = record { key = key; sealed = 0; opened = 0 }

-- The number in 8 of the 24 bytes of a nonce.
unfoldable pub get_nonce : ℕ → List ℕ
get_nonce seqnum = le_bytes 8 seqnum ++ replicate 16 0

-- `+= 1` on a u64
abbrev pub bump : ℕ → ℕ
bump n = (n + 1) % 2 ^ 64

abbrev pub opened_as : Option (List ℕ) → Result Error (List ℕ)
opened_as none = err decryption_error
opened_as (some bytes) = ok bytes

abbrev pub key_as : Option (List ℕ) → Result Error (List ℕ)
key_as none = err box_failure
key_as (some key) = if length key == 32 then ok key else err key_length

-- The codec and the encryption of a `FramedStream`.
pub record FramedStream : Type 0 where
  pub codec : BytesCodec
  pub encrypt : Option Encrypt

unfoldable pub set_raw : FramedStream → FramedStream
unfolding BytesCodec.set_raw
set_raw s = record { codec = BytesCodec.set_raw s.codec; encrypt = none }

unfoldable pub set_key : FramedStream → List ℕ → FramedStream
unfolding new
set_key s key = record s { encrypt = some (new key) }

unfoldable pub is_secured : FramedStream → Bool
is_secured s = elim s.encrypt [ none ↦ false | some e ↦ true ]

module _ (box : Box) where
  unfoldable pub enc : Encrypt → List ℕ → List ℕ × Encrypt
  unfolding get_nonce
  enc e bytes =
      (box.seal bytes (get_nonce (bump e.sealed)) e.key, record e { sealed = bump e.sealed })

  -- A frame of at most one byte is passed as it is.
  unfoldable pub dec : Encrypt → List ℕ → Result Error (List ℕ) × Encrypt
  unfolding get_nonce
  dec e bytes = if leb (length bytes) 1 then (ok bytes, e) else (
    opened_as (box.unseal bytes (get_nonce (bump e.opened)) e.key),
    record e { opened = bump e.opened },
  )

  -- `decode`: the key that the peer has sealed for us, with the zero nonce
  unfoldable pub decode_key : (symmetric_data their_pk_b our_sk_b : List ℕ) → Result Error (List ℕ)
  decode_key symmetric_data their_pk_b our_sk_b =
      if length their_pk_b == 32
      then key_as (box.box_open symmetric_data (replicate 24 0) their_pk_b our_sk_b)
      else err pk_length

  abbrev pub seal_as : Option Encrypt → List ℕ → List ℕ × Option Encrypt
  seal_as none msg = (msg, none)
  seal_as (some e) msg = ((enc e msg).0, some (enc e msg).1)

  -- The result, the stream after it and the bytes on the wire.
  unfoldable pub send_raw :
      FramedStream
      → List ℕ
      → (wire : List ℕ) → Result BytesCodec.Error (Unit {0}) × FramedStream × List ℕ
  unfolding enc encode
  send_raw s msg wire =
      let (sealed, encrypt) = seal_as s.encrypt msg in
      let sent = encode s.codec sealed wire in (sent.0, record s { encrypt = encrypt }, sent.1)

  abbrev pub open_as : Option Encrypt → List ℕ → Result Error (List ℕ) × Option Encrypt
  open_as none bytes = (ok bytes, none)
  open_as (some e) bytes = ((dec e bytes).0, some (dec e bytes).1)

  -- What `next` makes of a frame that the codec has given.
  unfoldable pub next : FramedStream → List ℕ → Result Error (List ℕ) × FramedStream
  unfolding dec
  next s bytes =
      let (res, encrypt) = open_as s.encrypt bytes in (res, record s { encrypt = encrypt })
