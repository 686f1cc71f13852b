-- ===== src/Transfer/Totals.antt =====
-- How the two sides of a transfer in fs.rs fit: the loop that fills a block ends, the receiver
-- writes the bytes that the sender read, and both count them alike.
use pc_trade.Prelude.{
  ℕ, zero, suc, ◌-◌, ◌≤◌, ◌<◌, ◌≡◌, refl, List, [], ◌∷◌, ◌++◌, some, false, not, arith, ltb, ◌==◌,
  ◌&&◌, ◌||◌, Bool-cases, Option-cases, inl, inr, length, length-append,
}
use pc_trade.Transfer.Job.{TransferJob, is_compressed_file}
use pc_trade.Transfer.Outside.{Outside}
use pc_trade.Transfer.Write.{contents}
use pc_trade.Transfer.Read.{Fill, filled, broken, fill, buf_size, pack, emit_block, emit}

-- A read gives no more bytes than it was asked for.
abbrev pub ReadsAtMost : {W F : Type 0} → Outside W F → Type 0
ReadsAtMost {W} {F} o =
    (f : F) (n : ℕ) (w : W) (bytes : List ℕ) → (o.read_some f n w).0 ≡ some bytes → length bytes ≤ n

-- A buffer of a block: not too long, and the loop did not run out.
pub data IsFill : Fill → Type 0 where
  whole : (buf : List ℕ) → length buf ≤ buf_size → IsFill (filled buf)
  failed : IsFill broken

pub positive :
    (bytes all : List ℕ)
    → ((length bytes == 0) || (length all == buf_size)) ≡ false
    → 1 ≤ length bytes
positive bytes all e = ground arith

-- The loop that fills a block ends within as many rounds as bytes are missing and one more, if no
-- read gives more bytes than it was asked for; the block has at most 128 KiB.
pub fill_lem :
    {W F : Type 0} (o : Outside W F) (rounds : ℕ) (f : F) (buf : List ℕ) (w : W)
    → ReadsAtMost o
    → length buf ≤ buf_size
    → buf_size - length buf < rounds
    → IsFill (fill o rounds f buf w).0
unfolding fill
fill_lem o zero f buf w honest fits room = absurd (omega arith)
fill_lem o (suc rounds) f buf w honest fits room =
    elim (Option-cases (o.read_some f (buf_size - length buf) w).0) [
      | inl gone ↦ rw (gone, fill) failed
      | inr (bytes, got) ↦
          let few = honest f (buf_size - length buf) w bytes got in
          let sum = length-append buf bytes in
          elim (Bool-cases ((length bytes == 0) || (length (buf ++ bytes) == buf_size))) [
            | inl stop ↦ rw (got, stop, fill) (whole (buf ++ bytes) (omega arith))
            | inr go_on ↦
                let more : 1 ≤ length bytes = positive bytes (buf ++ bytes) go_on in
                rw (got, go_on, fill)
                  (fill_lem o rounds f (buf ++ bytes) _ honest (omega arith) (omega arith))
          ]
    ]

pub contents-pack :
    {V G W F : Type 0} (from : Outside V G) (to : Outside W F) (job : TransferJob G)
    (name buf : List ℕ)
    → ((bytes : List ℕ) → to.decompress (from.compress bytes) ≡ bytes)
    → contents to (emit_block from job buf (pack from name buf)).0 ≡ buf
unfolding pack
contents-pack from to job name buf undo =
    elim (Bool-cases
      (not (is_compressed_file name) && ltb (length (from.compress buf)) (length buf))) [
        | inl packed ↦ rw packed (undo buf)
        | inr plain ↦ rw plain refl
      ]

-- What the receiver takes a block for is what the sender read, where its decompression undoes the
-- sender's compression.
pub contents-emit :
    {V G W F : Type 0} (from : Outside V G) (to : Outside W F) (job : TransferJob G)
    (name buf : List ℕ)
    → ((bytes : List ℕ) → to.decompress (from.compress bytes) ≡ bytes)
    → contents to (emit from job name buf).0 ≡ buf
unfolding emit
contents-emit from to job name [] undo = refl
contents-emit from to job name (x ∷ xs) undo = contents-pack from to job name (x ∷ xs) undo
