-- ===== src/Tcp/Session.antt =====
-- Messages sent over a secured `FramedStream` of tcp.rs, through the frames of bytes_codec.rs.
use pc_trade.Prelude.{
  ℕ, ◌+◌, ◌≤◌, ◌≡◌, refl, sym, ap, ap₂, ◌∙◌, List, [], ◌∷◌, ◌++◌, none, some, false, Result, ok,
  err, arith, leb, length, All,
}
use pc_trade.BytesCodec.{BytesCodec, head, decode, encode}
use pc_trade.BytesCodec.Stream.{
  Reach, Receiver, encode_all, Fits, start, stream_prefix, stream_complete,
}
use pc_trade.Tcp.{
  Box, Encrypt, Error, get_nonce, bump, enc, dec, opened_as, FramedStream, send_raw, next,
}

-- What `secretbox` promises: what is sealed opens again, and takes 16 bytes more.
pub record Opens (box : Box) : Type 0 where
  pub unseal :
      (bytes nonce key : List ℕ) → box.unseal (box.seal bytes nonce key) nonce key ≡ some bytes
  pub longer : (bytes nonce key : List ℕ) → length (box.seal bytes nonce key) ≡ length bytes + 16

-- Messages that `send_raw` puts on the wire one after the other.
unfoldable pub send_all : Box → FramedStream → List (List ℕ) → List ℕ → FramedStream × List ℕ
unfolding send_raw
send_all box s [] wire = (s, wire)
send_all box s (m ∷ ms) wire = send_all box (send_raw box s m wire).1 ms (send_raw box s m wire).2

abbrev cons_ok : List ℕ → Result Error (List (List ℕ)) → Result Error (List (List ℕ))
cons_ok m (err e) = err e
cons_ok m (ok ms) = ok (m ∷ ms)

abbrev after_one :
    Result Error (List ℕ) → Result Error (List (List ℕ)) → Result Error (List (List ℕ))
after_one (err e) rest = err e
after_one (ok m) rest = cons_ok m rest

-- What `next` gives for the frames that have come, one after the other.
unfoldable pub next_all : Box → FramedStream → List (List ℕ) → Result Error (List (List ℕ))
unfolding next
next_all box s [] = ok []
next_all box s (f ∷ fs) = after_one (next box s f).0 (next_all box (next box s f).1 fs)

-- The frames that a stream of messages is sealed into.
abbrev pub seal_all : Box → Encrypt → List (List ℕ) → List (List ℕ)
seal_all box e [] = []
seal_all box e (m ∷ ms) = (enc box e m).0 ∷ seal_all box (enc box e m).1 ms

-- A stream with this codec and encryption.
abbrev pub secured : BytesCodec → Encrypt → FramedStream
secured c e = record { codec = c; encrypt = some e }

-- A message that the codec accepts after sealing.
abbrev pub SealedFits : BytesCodec → List ℕ → Type 0
SealedFits c m = (length m + 16 ≤ 0x3FFFFFFF) × (length m + 16 ≤ c.max_packet_length)

module _ (box : Box) (opens : Opens box) where
  enc_key : (a : Encrypt) (m : List ℕ) → (enc box a m).1.key ≡ a.key
  unfolding enc
  enc_key a m = refl

  enc_sealed : (a : Encrypt) (m : List ℕ) → (enc box a m).1.sealed ≡ bump a.sealed
  unfolding enc
  enc_sealed a m = refl

  unseal_same :
      (m : List ℕ) (i j : ℕ) (k l : List ℕ)
      → i ≡ j
      → k ≡ l
      → opened_as (box.unseal (box.seal m (get_nonce (bump i)) k) (get_nonce (bump j)) l) ≡ ok m
  unseal_same m i j k l same_number same_key =
      rw (sym same_number, sym same_key, opens.unseal m (get_nonce (bump i)) k) refl

  -- A sealed message is longer than one byte, so that it is opened.
  dec-enc :
      (a b : Encrypt) (m : List ℕ)
      → a.key ≡ b.key
      → a.sealed ≡ b.opened
      → dec box b (enc box a m).0 ≡ (ok m, record b { opened = bump b.opened })
  unfolding dec enc
  dec-enc a b m keys step =
      let sealed = box.seal m (get_nonce (bump a.sealed)) a.key in
      let long : leb (length sealed) 1 ≡ false =
        above_one (length sealed) (length m) (opens.longer m (get_nonce (bump a.sealed)) a.key) in
      rw long (
        ap (λ (r : Result Error (List ℕ)). (r, record b { opened = bump b.opened }))
          (unseal_same m a.sealed b.opened a.key b.key step keys))
    where
      above_one : (n k : ℕ) → n ≡ k + 16 → leb n 1 ≡ false
      above_one n k e = ground arith

  -- The frames of messages that were sealed in order open to the messages.
  next_all-seal_all :
      (c : BytesCodec) (a b : Encrypt) (ms : List (List ℕ))
      → a.key ≡ b.key
      → a.sealed ≡ b.opened
      → next_all box (secured c b) (seal_all box a ms) ≡ ok ms
  unfolding next_all next
  next_all-seal_all c a b [] keys step = refl
  next_all-seal_all c a b (m ∷ ms) keys step =
      let rest =
        next_all-seal_all c (enc box a m).1 (record b { opened = bump b.opened }) ms
          (enc_key a m ∙ keys) (enc_sealed a m ∙ ap bump step) in
      rw (dec-enc a b m keys step, rest) refl

  -- On the wire are the frames of the sealed messages.
  send_all-encode_all :
      (c : BytesCodec) (a : Encrypt) (ms : List (List ℕ)) (wire : List ℕ)
      → (send_all box (secured c a) ms wire).1 ≡ encode_all c wire (seal_all box a ms)
  unfolding send_all send_raw encode_all
  send_all-encode_all c a [] wire = refl
  send_all-encode_all c a (m ∷ ms) wire =
      send_all-encode_all c (enc box a m).1 ms (encode c (enc box a m).0 wire).1

  -- A beginning of the frames is what a beginning of the messages is sealed into.
  seal_prefix :
      (a : Encrypt) (ms shown left : List (List ℕ))
      → shown ++ left ≡ seal_all box a ms
      → (begun : List (List ℕ)) × (rest : List (List ℕ)) × (begun ++ rest ≡ ms)
        × (shown ≡ seal_all box a begun)
  seal_prefix a ms [] left e = ([], ms, refl, refl)
  seal_prefix a [] (f ∷ shown) left e = cc
  seal_prefix a (m ∷ ms) (f ∷ shown) left e =
      let (begun, rest, whole, same) =
        seal_prefix (enc box a m).1 ms shown left
          (tail_eq f (enc box a m).0 (shown ++ left) (seal_all box (enc box a m).1 ms) e) in
      (
        m ∷ begun,
        rest,
        ap (λ t. m ∷ t) whole,
        ap₂ (λ x t. x ∷ t)
            (head_eq f (enc box a m).0 (shown ++ left) (seal_all box (enc box a m).1 ms) e) same,
      )
    where
      head_eq : (x y : List ℕ) (xs ys : List (List ℕ)) → x ∷ xs ≡ y ∷ ys → x ≡ y
      head_eq x y xs ys e = cc

      tail_eq : (x y : List ℕ) (xs ys : List (List ℕ)) → x ∷ xs ≡ y ∷ ys → xs ≡ ys
      tail_eq x y xs ys e = cc

  sealed_fit :
      (c : BytesCodec) (a : Encrypt) (ms : List (List ℕ))
      → All (SealedFits c) ms
      → All (Fits c) (seal_all box a ms)
  unfolding enc
  sealed_fit c a [] h = tt
  sealed_fit c a (m ∷ ms) ((small, limit), h) =
      let len = opens.longer m (get_nonce (bump a.sealed)) a.key in
      ((omega arith, omega arith), sealed_fit c (enc box a m).1 ms h)

  -- A secured connection between two ends with the same key and the same count of messages, whose
  -- codecs are in frame mode and between frames: however the bytes on the wire are cut and whenever
  -- the codec is called, the frames that it has given open to a beginning of the messages sent; and
  -- once all bytes have come and the codec asks for more, to exactly those messages, in order. (For
  -- messages that fit after sealing.)
  pub session_lem :
      (c : BytesCodec) (a b : Encrypt) (ms : List (List ℕ)) (r : Receiver)
      → c.raw ≡ false
      → c.state ≡ head
      → a.key ≡ b.key
      → a.sealed ≡ b.opened
      → All (SealedFits c) ms
      → Reach
          (record {
            codec = c;
            buf = [];
            coming = (send_all box (secured c a) ms []).1;
            delivered = [];
          })
          r
      → ((begun : List (List ℕ)) × (rest : List (List ℕ)) × (begun ++ rest ≡ ms)
          × (next_all box (secured c b) r.delivered ≡ ok begun))
        × (r.coming ≡ []
            → (decode r.codec r.buf).result ≡ ok none
            → next_all box (secured c b) r.delivered ≡ ok ms)
  session_lem c a b ms r framed at_head keys step fits reach =
      let frames = seal_all box a ms in
      let small = sealed_fit c a ms fits in
      let path : Reach (start c frames) r = rw (send_all-encode_all c a ms []) at reach in
      let ((left, split), sound) = stream_prefix c at_head framed frames r small path in
      let (begun, rest, whole, same) = seal_prefix a ms r.delivered left split in
      (
        (begun, rest, whole, (rw same (next_all-seal_all c a b begun keys step))),
        λ over waits.
            rw (stream_complete c at_head framed frames r small path over waits)
              (next_all-seal_all c a b ms keys step),
      )
