-- ===== src/BytesCodec/Stream.antt =====
-- A connection: messages are encoded one after the other, the bytes arrive in pieces of any size,
-- and `decode` of bytes_codec.rs is called on the receive buffer at any time.
use pc_trade.Prelude.{
  ℕ, ◌≤◌, ◌≡◌, ◌≢◌, refl, sym, ap, ap₂, ◌∙◌, List, [], ◌∷◌, ◌++◌, none, some, false, ok, err, arith,
  length, append_assoc, append-nil, All,
}
use pc_trade.BytesCodec.{BytesCodec, head, Error, Decoded, decoded, decode_head, decode, encode}
use pc_trade.BytesCodec.RoundTrip.{decode-encode_frame, encode-append}
use pc_trade.BytesCodec.Resume.{decode_resume, decode-append, decode-append_err}
use pc_trade.BytesCodec.Bounds.{decode-Keeps, IsBounded}

-- The sender encodes each message into one buffer.
unfoldable pub encode_all : BytesCodec → List ℕ → List (List ℕ) → List ℕ
encode_all c buf [] = buf
encode_all c buf (m ∷ ms) = encode_all c (encode c m buf).1 ms

-- The receiver: its codec, its buffer, the bytes that have not arrived, the messages delivered.
pub record Receiver : Type 0 where
  pub codec : BytesCodec
  pub buf : List ℕ
  pub coming : List ℕ
  pub delivered : List (List ℕ)

-- Bytes arrive, or `decode` is called and asks for more, or it delivers a frame.
pub data Step (r : Receiver) : Receiver → Type 0 where
  arrive :
      (chunk later : List ℕ)
      → r.coming ≡ chunk ++ later
      → Step r (record r { buf = r.buf ++ chunk; coming = later })
  wait :
      (decode r.codec r.buf).result ≡ ok none
      → Step r (record r { codec = (decode r.codec r.buf).codec; buf = (decode r.codec r.buf).src })
  deliver :
      (m : List ℕ)
      → (decode r.codec r.buf).result ≡ ok (some m)
      → Step r (record r {
        codec = (decode r.codec r.buf).codec;
        buf = (decode r.codec r.buf).src;
        delivered = r.delivered ++ (m ∷ []);
      })

pub data Reach (r : Receiver) : Receiver → Type 0 where
  here : Reach r r
  next : {s t : Receiver} → Reach r s → Step s t → Reach r t

-- A payload that `encode` accepts within the packet limit.
abbrev pub Fits : BytesCodec → List ℕ → Type 0
Fits c m = (length m ≤ 0x3FFFFFFF) × (length m ≤ c.max_packet_length)

-- All of `ms` was sent by `c`, and nothing has arrived.
abbrev pub start : BytesCodec → List (List ℕ) → Receiver
start c ms = record { codec = c; buf = []; coming = encode_all c [] ms; delivered = [] }

wire : BytesCodec → List (List ℕ) → List ℕ
wire c [] = []
wire c (m ∷ ms) = (encode c m []).1 ++ wire c ms

encode_all-wire :
    (c : BytesCodec) (buf : List ℕ) (ms : List (List ℕ)) → encode_all c buf ms ≡ buf ++ wire c ms
unfolding encode_all wire
encode_all-wire c buf [] = sym (append-nil buf)
encode_all-wire c buf (m ∷ ms) =
    encode_all-wire c (encode c m buf).1 ms
    ∙ ap (λ t. t ++ wire c ms) (encode-append c m buf)
    ∙ append_assoc buf (encode c m []).1 (wire c ms)

-- What the receiver holds and what is still to come decode as the messages that are left.
record Expects (c : BytesCodec) (ms : List (List ℕ)) (r : Receiver) : Type 0 where
  left : List (List ℕ)
  split : r.delivered ++ left ≡ ms
  fits : All (Fits c) left
  raw_off : r.codec.raw ≡ false
  bounded : IsBounded r.codec
  agree : decode r.codec (r.buf ++ r.coming) ≡ decode c (wire c left)

module _ (c : BytesCodec) (at_head : c.state ≡ head) (framed : c.raw ≡ false) where
  decode_wire :
      (m : List ℕ) (ms : List (List ℕ))
      → Fits c m
      → decode c (wire c (m ∷ ms)) ≡ decoded (ok (some m)) c (wire c ms)
  unfolding wire
  decode_wire m ms (short, fits) = (decode-encode_frame c m (wire c ms) at_head framed short fits).1

  decode_wire_nil : decode c (wire c []) ≡ decoded (ok none) c []
  unfolding wire decode decode_head
  decode_wire_nil = ground arith

  same :
      {m m' : List ℕ} {a b : BytesCodec} {s t : List ℕ}
      → decoded (ok (some m)) a s ≡ decoded (ok (some m')) b t
      → m ≡ m'
  same p = cc (ap (λ (d : Decoded). d.result) p)

  -- A delivered frame is the first message that is left.
  deliver-Expects :
      (ms : List (List ℕ)) (r : Receiver) (m : List ℕ) (left : List (List ℕ))
      → r.delivered ++ left ≡ ms
      → All (Fits c) left
      → Expects c ms r
      → decoded (ok (some m)) (decode r.codec r.buf).codec ((decode r.codec r.buf).src ++ r.coming)
        ≡ decode c (wire c left)
      → Expects c ms (record r {
        codec = (decode r.codec r.buf).codec;
        buf = (decode r.codec r.buf).src;
        delivered = r.delivered ++ (m ∷ []);
      })
  deliver-Expects ms r m [] split fits x q =
      cc (ap (λ (d : Decoded). d.result) (q ∙ decode_wire_nil))
  deliver-Expects ms r m (m' ∷ left) split (fit, fits) x q =
      let p = q ∙ decode_wire m' left fit in
      let k = decode-Keeps r.codec r.buf x.bounded x.raw_off in
      record {
        left = left;
        split = rw append_assoc (ap (λ t. r.delivered ++ (t ∷ left)) (same p) ∙ split);
        fits = fits;
        raw_off = k.mode ∙ x.raw_off;
        bounded = k.bounded;
        agree = ap₂ decode (ap (λ (d : Decoded). d.codec) p) (ap (λ (d : Decoded). d.src) p);
      }

  Step-Expects : {ms : List (List ℕ)} {r s : Receiver} → Step r s → Expects c ms r → Expects c ms s
  Step-Expects {r = r} (arrive chunk later e) x = record {
    left = x.left;
    split = x.split;
    fits = x.fits;
    raw_off = x.raw_off;
    bounded = x.bounded;
    agree = rw (append_assoc r.buf chunk later, ← e) x.agree;
  }
  Step-Expects {r = r} (wait w) x =
      let k = decode-Keeps r.codec r.buf x.bounded x.raw_off in
      record {
        left = x.left;
        split = x.split;
        fits = x.fits;
        raw_off = k.mode ∙ x.raw_off;
        bounded = k.bounded;
        agree = decode_resume r.codec r.buf r.coming w ∙ x.agree;
      }
  Step-Expects {ms} {r = r} (deliver m w) x =
      deliver-Expects ms r m x.left x.split x.fits x
        (sym (decode-append r.codec r.buf r.coming m x.raw_off w) ∙ x.agree)

  Expects-start : (ms : List (List ℕ)) → All (Fits c) ms → Expects c ms (start c ms)
  Expects-start ms fits = record {
    left = ms;
    split = refl;
    fits = fits;
    raw_off = framed;
    bounded = rw at_head tt;
    agree = ap (decode c) (encode_all-wire c [] ms);
  }

  Reach-Expects :
      (ms : List (List ℕ)) {r : Receiver} → All (Fits c) ms → Reach (start c ms) r → Expects c ms r
  Reach-Expects ms fits here = Expects-start ms fits
  Reach-Expects ms fits (next p st) = Step-Expects st (Reach-Expects ms fits p)

  no_error_left :
      (left : List (List ℕ)) (x : Error)
      → All (Fits c) left
      → (decode c (wire c left)).result ≢ err x
  no_error_left [] x fits e = cc (e, ap (λ (d : Decoded). d.result) decode_wire_nil)
  no_error_left (m ∷ left) x (fit, fits) e =
      cc (e, ap (λ (d : Decoded). d.result) (decode_wire m left fit))

  all_delivered :
      (left : List (List ℕ))
      → All (Fits c) left
      → (decode c (wire c left)).result ≡ ok none
      → left ≡ []
  all_delivered [] fits e = refl
  all_delivered (m ∷ left) (fit, fits) e =
      cc (e, ap (λ (d : Decoded). d.result) (decode_wire m left fit))

  -- However the bytes of a sequence of messages are cut into pieces, and whenever `decode` is called
  -- between them: what was delivered is at each moment a prefix of the messages sent, and `decode`
  -- does not fail. (In frame mode, from a codec between frames, for messages that fit.)
  pub stream_prefix :
      (ms : List (List ℕ)) (r : Receiver)
      → All (Fits c) ms
      → Reach (start c ms) r
      → ((left : List (List ℕ)) × (r.delivered ++ left ≡ ms))
        × ((x : Error) → (decode r.codec r.buf).result ≢ err x)
  stream_prefix ms r fits p =
      let x = Reach-Expects ms fits p in
      (
        (x.left, x.split),
        λ e w. no_error_left x.left e x.fits (
            ap (λ (d : Decoded). d.result) (sym x.agree)
            ∙ decode-append_err r.codec r.buf r.coming e x.raw_off w),
      )

  -- Once all bytes have arrived and `decode` asks for more, exactly the messages sent were
  -- delivered, in order. (In frame mode, from a codec between frames, for messages that fit.)
  pub stream_complete :
      (ms : List (List ℕ)) (r : Receiver)
      → All (Fits c) ms
      → Reach (start c ms) r
      → r.coming ≡ []
      → (decode r.codec r.buf).result ≡ ok none
      → r.delivered ≡ ms
  stream_complete ms r fits p over w =
      let x = Reach-Expects ms fits p in
      let e =
        all_delivered x.left x.fits
          (ap (λ (d : Decoded). d.result) (sym x.agree) ∙ rw (over, append-nil) w) in
      sym (append-nil r.delivered) ∙ ap (λ t. r.delivered ++ t) (sym e) ∙ x.split
