-- ===== src/Fuse/Read/Replies.antt =====
-- What `read_node` of fuse.rs does with the replies of the peer.
use pc_trade.Prelude.{
  ℕ, ◌+◌, ◌≤◌, ◌≡◌, ◌≢◌, refl, bit_and, false, List, [], ◌∷◌, Result, ok, err, ltb, arith, ◌==◌,
  ==_iff, length, All, Bool-cases, inl, inr,
}
use pc_trade.Cliprdr.{ClipboardFile, file_contents_response}
use pc_trade.Fuse.Node.{FuseNode, read_retry}
use pc_trade.Fuse.Read.{ReadError, failure_request, request_for, read_loop, read_node}

-- A reply that answers the stream with its success flag set and these bytes.
pub data Answer (stream : ℕ) (bytes : List ℕ) : List ClipboardFile → Type 0 where
  first :
      (flags sid : ℕ) (found : List ℕ) (rest : List ClipboardFile)
      → sid ≡ stream
      → found ≡ bytes
      → bit_and flags 1 ≢ 0
      → Answer stream bytes (file_contents_response flags sid found ∷ rest)
  later :
      (m : ClipboardFile) (rest : List ClipboardFile)
      → Answer stream bytes rest
      → Answer stream bytes (m ∷ rest)

read_loop_sent :
    (stream : ℕ) (request : ClipboardFile) (retry : ℕ) (replies : List ClipboardFile)
    → retry ≤ 3
    → (length (read_loop stream request retry replies).sent + retry ≤ 3)
      × All (λ m. m ≡ request) (read_loop stream request retry replies).sent
unfolding read_loop
read_loop_sent stream request retry [] h = (omega arith, tt)
read_loop_sent stream request retry (file_contents_response flags sid bytes ∷ rest) h = ground (
  arith,
  read_loop_sent stream request retry rest,
  read_loop_sent stream request (retry + 1) rest,
)
read_loop_sent stream request retry (_ ∷ rest) h = (omega arith, tt)

ok_inj : (xs ys : List ℕ) (r : Result ReadError (List ℕ)) → r ≡ ok xs → r ≡ ok ys → xs ≡ ys
ok_inj xs ys r e e' = cc

unset : (flags : ℕ) → (bit_and flags 1 == 0) ≡ false → bit_and flags 1 ≢ 0
unset flags off z = cc (off, (==_iff (bit_and flags 1) 0).1 z)

failed :
    {A : Type 0} (bytes : List ℕ) (r : Result ReadError (List ℕ))
    → r ≡ err failure_request
    → r ≡ ok bytes
    → A
failed bytes r e e' = cc

read_loop-Answer :
    (stream : ℕ) (request : ClipboardFile) (retry : ℕ) (replies : List ClipboardFile)
    (bytes : List ℕ)
    → (read_loop stream request retry replies).result ≡ ok bytes
    → Answer stream bytes replies
unfolding read_loop
read_loop-Answer stream request retry [] bytes e = cc
read_loop-Answer stream request retry (file_contents_response flags sid found ∷ rest) bytes e =
    elim (Bool-cases (sid == stream)) [
      | inr other ↦ later _ rest (read_loop-Answer stream request retry rest bytes (rw other at e))
      | inl ours ↦ elim (Bool-cases (bit_and flags 1 == 0)) [
        | inr good ↦
            first flags sid found rest ((==_iff sid stream).0 ours)
              (ok_inj found bytes (ok found) refl (rw (ours, good) at e)) (unset flags good)
        | inl bad ↦ elim (Bool-cases (ltb read_retry (retry + 1))) [
          | inl over ↦ failed bytes (err failure_request) refl (rw (ours, bad, over) at e)
          | inr again ↦
              later _ rest (
                read_loop-Answer stream request (retry + 1) rest bytes (rw (ours, bad, again) at e))
        ]
      ]
    ]
read_loop-Answer stream request retry (_ ∷ rest) bytes e = cc

-- A read asks the peer at most four times, each time for the same block of the same file; data that
-- it gives to the caller came in one of the replies, which carried the file's stream and the
-- success flag.
pub read_node_lem :
    (node : FuseNode) (offset size : ℕ) (replies : List ClipboardFile)
    → (length (read_node node offset size replies).sent ≤ 4)
      × All (λ m. m ≡ request_for node offset size) (read_node node offset size replies).sent
      × ((bytes : List ℕ)
          → (read_node node offset size replies).result ≡ ok bytes
          → Answer node.stream_id bytes replies)
unfolding read_node
read_node_lem node offset size replies =
    let request = request_for node offset size in
    let (few, same) = read_loop_sent node.stream_id request 0 replies (omega arith) in
    (omega arith, (refl, same), read_loop-Answer node.stream_id request 0 replies)
