-- ===== src/BytesCodec/Tests.antt =====
-- Runs of bytes_codec.rs, and its theorems at concrete inputs.
use pc_trade.Prelude.{ℕ, ◌≡◌, ◌≢◌, refl, List, [], ◌∷◌, ◌++◌, none, some, ok, err, arith}
use pc_trade.BytesCodec.{
  payload, Error, too_big_packet, decoded, new, set_max_packet_length, decode_head, decode_payload,
  decode, encode,
}
use pc_trade.BytesCodec.Bounds.{Keeps, decode-Keeps}
use pc_trade.BytesCodec.Stream.{
  here, next, arrive, deliver, encode_all, stream_prefix, stream_complete,
}

abbrev five : List ℕ
five = 1 ∷ 2 ∷ 3 ∷ 4 ∷ 5 ∷ []

encode_five : encode new five [] ≡ (ok tt, 20 ∷ five)
unfolding encode
encode_five = refl

decode_partly :
    decode new (20 ∷ 1 ∷ 2 ∷ []) ≡ decoded (ok none) (record new { state = payload 5 }) (1 ∷ 2 ∷ [])
unfolding decode decode_head decode_payload
decode_partly = refl

decode_refused : (decode (set_max_packet_length new 4) (20 ∷ five)).result ≡ err too_big_packet
unfolding decode decode_head decode_payload set_max_packet_length
decode_refused = refl

frame_done : (decode new (20 ∷ five)).result ≡ ok (some five)
unfolding decode decode_head decode_payload
frame_done = refl

decode-Keeps_example : Keeps new (decode new (20 ∷ five))
decode-Keeps_example = decode-Keeps new (20 ∷ five) tt refl

wire_five : encode_all new [] (five ∷ []) ≡ 20 ∷ five
unfolding encode_all encode
wire_five = refl

stream_prefix_example :
    ((left : List (List ℕ)) × ([] ++ left ≡ five ∷ []))
    × ((x : Error) → (decode new ([] ++ (20 ∷ 1 ∷ 2 ∷ []))).result ≢ err x)
stream_prefix_example =
    stream_prefix new refl refl (five ∷ []) _ ((omega arith, omega arith), tt)
      (next here (arrive (20 ∷ 1 ∷ 2 ∷ []) (3 ∷ 4 ∷ 5 ∷ []) wire_five))

stream_complete_example : [] ++ (five ∷ []) ≡ five ∷ []
unfolding decode decode_head decode_payload
stream_complete_example =
    stream_complete new refl refl (five ∷ []) _ ((omega arith, omega arith), tt)
      (next (next here (arrive (20 ∷ five) [] wire_five)) (deliver five refl)) refl refl
