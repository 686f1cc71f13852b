-- ===== src/Fuse/Read.antt =====
-- `read_node` of libs/clipboard/src/platform/fuse.rs: a block is asked for from the peer. The
-- replies are those that the channel delivers, one after the other; after the last of them
-- `recv_timeout` runs out.
pub mod Replies
mod Tests
use pc_trade.Prelude.{
  ℕ, ◌+◌, ◌*◌, ◌/◌, ◌%◌, ◌^◌, bit_and, List, [], ◌∷◌, Bool, true, false, Result, ok, err, ltb, ◌==◌,
  if◌then◌else◌,
}
use pc_trade.Cliprdr.{ClipboardFile, file_contents_request, file_contents_response}
use pc_trade.Fuse.Node.{FuseNode, read_retry}

pub data ReadError : Type 0 where
  timed_out failure_request invalid_reply : ReadError

-- What a read ends in, the messages that it sent to the peer, and the replies that it left.
pub record ReadOutcome : Type 0 where
  pub result : Result ReadError (List ℕ)
  pub sent : List ClipboardFile
  pub left : List ClipboardFile

abbrev pub outcome :
    Result ReadError (List ℕ) → List ClipboardFile → List ClipboardFile → ReadOutcome
outcome r s l = record { result = r; sent = s; left = l }

-- `offset` is a 64-bit and `size` a 32-bit pattern; the two halves are cast to i32.
unfoldable pub request_for : FuseNode → ℕ → ℕ → ClipboardFile
request_for node offset size =
    file_contents_request node.stream_id (node.index % 2 ^ 32) 2 (offset % 2 ^ 32)
      (offset / 2 ^ 32 % 2 ^ 32) size false 0

abbrev resent : ClipboardFile → ReadOutcome → ReadOutcome
resent request o = record o { sent = request ∷ o.sent }

unfoldable pub read_loop : ℕ → ClipboardFile → ℕ → List ClipboardFile → ReadOutcome
read_loop stream request retry_times [] = outcome (err timed_out) [] []
read_loop stream request retry_times
      (file_contents_response msg_flags stream_id requested_data ∷ rest) =
    let ignored = read_loop stream request retry_times rest in
    let retried = resent request (read_loop stream request (retry_times + 1) rest) in
    if stream_id == stream
    then (if bit_and msg_flags 1 == 0
        then (if ltb read_retry (retry_times + 1)
            then outcome (err failure_request) [] rest
            else retried)
        else outcome (ok requested_data) [] rest)
    else ignored
read_loop stream request retry_times (_ ∷ rest) = outcome (err invalid_reply) [] rest

unfoldable pub read_node : FuseNode → ℕ → ℕ → List ClipboardFile → ReadOutcome
unfolding read_loop request_for
read_node node offset size replies =
    resent (request_for node offset size)
      (read_loop node.stream_id (request_for node offset size) 0 replies)
