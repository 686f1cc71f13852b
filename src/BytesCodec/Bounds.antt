-- ===== src/BytesCodec/Bounds.antt =====
-- What `decode` of bytes_codec.rs keeps: its mode, and the packet limit.
use pc_trade.Prelude.{
  ℕ, ◌≤◌, ◌≡◌, refl, List, [], ◌∷◌, Option, none, some, false, Result, ok, err, arith, length,
  length-take, inl, inr,
}
use pc_trade.BytesCodec.{
  BytesCodec, DecodeState, head, payload, Error, Decoded, decoded, decode_head, decode_payload,
  decode,
}
use pc_trade.BytesCodec.Resume.{State-cases}

abbrev pub StateFits : ℕ → DecodeState → Type 0
StateFits limit head = Unit {0}
StateFits limit (payload n) = n ≤ limit

-- A codec between calls: a frame that was begun is within the packet limit.
abbrev pub IsBounded : BytesCodec → Type 0
IsBounded c = StateFits c.max_packet_length c.state

abbrev FrameFits : ℕ → Result Error (Option (List ℕ)) → Type 0
FrameFits limit (ok (some m)) = length m ≤ limit
FrameFits limit _ = Unit {0}

-- The outcome of a call from codec `c`.
pub record Keeps (c : BytesCodec) (d : Decoded) : Type 0 where
  pub mode : d.codec.raw ≡ c.raw
  pub limit : d.codec.max_packet_length ≡ c.max_packet_length
  pub bounded : IsBounded d.codec
  pub frame : (m : List ℕ) → d.result ≡ ok (some m) → length m ≤ c.max_packet_length

decode_head-le :
    (c : BytesCodec) (src : List ℕ) (n : ℕ) (rest : List ℕ)
    → decode_head c src ≡ (ok (some n), rest)
    → n ≤ c.max_packet_length
unfolding decode_head
decode_head-le c [] n rest e = ground arith
decode_head-le c (b ∷ src) n rest e = ground arith

decode_payload-Keeps :
    (c : BytesCodec) (n : ℕ) (src : List ℕ)
    → c.state ≡ payload n
    → n ≤ c.max_packet_length
    → Keeps c (decode_payload c n src)
unfolding decode_payload
decode_payload-Keeps c n src hs h = record {
  mode = ground arith;
  limit = ground arith;
  bounded = ground arith;
  frame = λ m e. ground (arith, length-take n src);
}

unchanged :
    (c : BytesCodec) (src : List ℕ) (r : Result Error (Option (List ℕ)))
    → IsBounded c
    → ((m : List ℕ) → r ≡ ok (some m) → length m ≤ c.max_packet_length)
    → Keeps c (decoded r c src)
unchanged c src r h fr = record { mode = refl; limit = refl; bounded = h; frame = fr }

begun :
    (c : BytesCodec) (n : ℕ) (src : List ℕ)
    → n ≤ c.max_packet_length
    → Keeps c (decode_payload (record c { state = payload n }) n src)
begun c n src h =
    let k = decode_payload-Keeps (record c { state = payload n }) n src refl h in
    record { mode = k.mode; limit = k.limit; bounded = k.bounded; frame = k.frame }

module _ (c : BytesCodec) (src : List ℕ) (h : IsBounded c) where
  from_head :
      (r : Result Error (Option ℕ)) (rest : List ℕ)
      → c.state ≡ head
      → c.raw ≡ false
      → decode_head c src ≡ (r, rest)
      → Keeps c (decode c src)
  unfolding decode
  from_head (err e) rest hs hr hd =
      let q : decode c src ≡ decoded (err e) c rest = ground arith in
      rw q (unchanged c rest (err e) h (λ m x. cc))
  from_head (ok none) rest hs hr hd =
      let q : decode c src ≡ decoded (ok none) c rest = ground arith in
      rw q (unchanged c rest (ok none) h (λ m x. cc))
  from_head (ok (some n)) rest hs hr hd =
      let q : decode c src ≡ decode_payload (record c { state = payload n }) n rest =
        ground arith in
      rw q (begun c n rest (decode_head-le c src n rest hd))

  from_payload : (n : ℕ) → c.state ≡ payload n → c.raw ≡ false → Keeps c (decode c src)
  unfolding decode
  from_payload n hs hr =
      let q : decode c src ≡ decode_payload c n src = ground arith in
      rw q (decode_payload-Keeps c n src hs (ground arith))

  -- In frame mode, and where a frame that was begun before is within the packet limit, `decode` keeps
  -- the mode and that limit, never begins a frame longer than the limit, and never delivers one.
  pub decode-Keeps : c.raw ≡ false → Keeps c (decode c src)
  decode-Keeps hr = elim (State-cases c.state) [
    | inl hs ↦ from_head (decode_head c src).0 (decode_head c src).1 hs hr refl
    | inr (n, hs) ↦ from_payload n hs hr
  ]
