-- ===== src/BytesCodec/RoundTrip.antt =====
-- `encode` and `decode` of bytes_codec.rs against each other, one frame at a time.
use native.Mathlib.Decide.{dec_le}
use pc_trade.Prelude.{
  ℕ, ◌≤◌, ◌<◌, ◌≡◌, refl, ap, List, [], ◌++◌, some, false, ok, err, arith, length, length-append,
  append_assoc, append-nil, take-append, drop-append, ◌↔◌,
}
use pc_trade.BytesCodec.{
  BytesCodec, head, payload, overflow, decoded, decode_payload, decode, encode_head, encode,
}
use pc_trade.BytesCodec.Head.{decode_head-encode_head, encode_head_too_long, encode_head-some}

-- A whole payload at the front of the buffer is handed over.
decode_payload_whole :
    (c : BytesCodec) (data' rest : List ℕ)
    → decode_payload c (length data') (data' ++ rest)
      ≡ decoded (ok (some data')) (record c { state = head }) rest
unfolding decode_payload
decode_payload_whole c data' rest = ground (
  arith,
  length-append data' rest,
  take-append (length data') data' rest refl,
  drop-append (length data') data' rest refl,
)

decode_frame :
    (c : BytesCodec) (data' prefix rest : List ℕ)
    → c.state ≡ head
    → c.raw ≡ false
    → length data' ≤ c.max_packet_length
    → encode_head (length data') ≡ some prefix
    → decode c (prefix ++ (data' ++ rest)) ≡ decoded (ok (some data')) c rest
unfolding decode
decode_frame c data' prefix rest hs hr fits e = ground (
  arith,
  decode_head-encode_head c (length data') (data' ++ rest) fits prefix e,
  decode_payload_whole (record c { state = payload (length data') }) data' rest,
)

-- In frame mode and between frames, a payload of at most 0x3FFFFFFF bytes, within the packet limit,
-- is accepted, and decoding the frame that was written gives back the payload, the codec as it was
-- and whatever follows the frame.
pub decode-encode_frame :
    (c : BytesCodec) (data' rest : List ℕ)
    → c.state ≡ head
    → c.raw ≡ false
    → length data' ≤ 0x3FFFFFFF
    → length data' ≤ c.max_packet_length
    → ((encode c data' []).0 ≡ ok tt)
      × (decode c ((encode c data' []).1 ++ rest) ≡ decoded (ok (some data')) c rest)
unfolding encode
decode-encode_frame c data' rest hs hr short fits =
    let (prefix, e) = encode_head-some (length data') short in
    (
      ground arith,
      ground (arith, append_assoc prefix data' rest, decode_frame c data' prefix rest hs hr fits e),
    )

-- In frame mode `encode` succeeds exactly on a payload of at most 0x3FFFFFFF bytes, and exactly on a
-- longer one it answers `Overflow` and leaves the buffer as it was.
pub encode_ok_iff :
    (c : BytesCodec) (data' buf : List ℕ)
    → c.raw ≡ false
    → (((encode c data' buf).0 ≡ ok tt) ↔ (length data' ≤ 0x3FFFFFFF))
      × ((encode c data' buf ≡ (err overflow, buf)) ↔ (0x3FFFFFFF < length data'))
unfolding encode
encode_ok_iff c data' buf hr = elim (dec_le (length data') 0x3FFFFFFF) [
  | yes h ↦
      let (prefix, e) = encode_head-some (length data') h in
      let done : (encode c data' buf).0 ≡ ok tt = ground arith in
      (((λ _. h), (λ _. done)), ((λ f. cc (done, ap (λ p. p.0) f)), (λ k. absurd (omega arith))))
  | no h ↦
      let failed : encode c data' buf ≡ (err overflow, buf) =
        ground (arith, encode_head_too_long (length data') (omega arith)) in
      (
        ((λ f. cc (f, ap (λ p. p.0) failed)), (λ k. absurd (h k))),
        ((λ _. omega arith), (λ _. failed)),
      )
]

-- `encode` appends to the buffer.
pub encode-append :
    (c : BytesCodec) (data' buf : List ℕ) → (encode c data' buf).1 ≡ buf ++ (encode c data' []).1
unfolding encode
encode-append c data' buf = ground (arith, append-nil buf)
