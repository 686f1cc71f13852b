-- ===== src/Transfer/Blocks.antt =====
-- Blocks of a file: what is promised of the files, and what the loop of libs/hbb_common/src/fs.rs reads.
use mathlib.Core.Path.{sym}
use pc_trade.Prelude.{
  ℕ, zero, suc, ◌-◌, ◌≤◌, ◌<◌, ◌≡◌, ◌⊎◌, inl, inr, ap, ◌∙◌, List, [], ◌++◌, append_assoc, Option,
  none, some, Bool, true, false, arith, ◌==◌, ◌||◌, Bool-cases, length, length-append, Result, ok,
  err,
}
use pc_trade.Transfer.Job.{TransferJob, FileTransferBlock, Error, io_error}
use pc_trade.Transfer.Outside.{Outside}
use pc_trade.Transfer.Write.{Step, step, write, is_closed}
use pc_trade.Transfer.Read.{filled, fill, buf_size, read}
use pc_trade.Transfer.Totals.{positive}

-- What reading promises: `left` is what is left of an open file, and a read gives at most as many
-- bytes of it as were asked for, and at least one unless it is at the end.
pub record Reads {W F : Type 0} (o : Outside W F) (left : F → W → List ℕ) : Type 0 where
  pub some_read :
      (f : F) (n : ℕ) (w : W)
      → (bytes : List ℕ) × (w' : W) × (o.read_some f n w ≡ (some bytes, w'))
        × (left f w ≡ bytes ++ left f w')
        × (length bytes ≤ n)
        × ((1 ≤ length bytes) ⊎ (n ≡ 0) ⊎ (left f w ≡ []))

-- What writing promises: `held` is what an open file holds, and all bytes are put at its end.
pub record Writes {W F : Type 0} (o : Outside W F) (held : F → W → List ℕ) : Type 0 where
  pub all_written :
      (g : F) (bytes : List ℕ) (w : W)
      → (w' : W) × (o.write_all g bytes w ≡ (true, w')) × (held g w' ≡ held g w ++ bytes)

-- Both sides after a file
pub record Relayed (V G W F : Type 0) : Type 0 where
  pub sender : TransferJob G
  pub sender_world : V
  pub receiver : TransferJob F
  pub receiver_world : W

module _ {V G W F : Type 0} (from : Outside V G) (to : Outside W F) where
  abbrev pub taken :
      Result Error (Option FileTransferBlock) → TransferJob F → W → Step W F (Unit {0})
  taken (err e) r w = step (err e) r w
  taken (ok none) r w = step (err io_error) r w
  taken (ok (some b)) r w = write to r b w

  abbrev pub relayed :
      Result Error (Unit {0})
      → (closed : Bool) → Relayed V G W F
      → Option (Relayed V G W F)
      → Option (Relayed V G W F)
  relayed (err e) closed now later = none
  relayed (ok u) true now later = some now
  relayed (ok u) false now later = later

  -- Blocks are read and written until the sender has closed the file; none where an error stops it.
  unfoldable pub relay :
      (fuel : ℕ) → TransferJob G → V → TransferJob F → W → Option (Relayed V G W F)
  unfolding read write
  relay zero s v r w = none
  relay (suc fuel) s v r w =
      let x = read from s v in
      let y = taken x.result r w in
      relayed y.result (is_closed from x.job.file)
        (record {
          sender = x.job;
          sender_world = x.world;
          receiver = y.job;
          receiver_world = y.world;
        })
        (relay fuel x.job x.world y.job y.world)

-- What a block takes from the open file: it is empty only at the end.
pub record Filled {V G : Type 0} (from : Outside V G) (left : G → V → List ℕ) (rounds : ℕ) (f : G)
    (buf : List ℕ) (v : V) : Type 0 where
  pub bytes : List ℕ
  pub world : V
  pub answer : fill from rounds f buf v ≡ (filled bytes, world)
  pub parts : buf ++ left f v ≡ bytes ++ left f world
  pub grown : length buf ≤ length bytes
  pub nonempty : (1 ≤ length bytes) ⊎ (left f v ≡ [])

module _ {V G : Type 0} (from : Outside V G) (left : G → V → List ℕ) (reads : Reads from left) where
  -- A read that ends the loop
  fill_last :
      (rounds : ℕ) (f : G) (buf bytes : List ℕ) (v v' : V)
      → length buf < buf_size
      → from.read_some f (buf_size - length buf) v ≡ (some bytes, v')
      → left f v ≡ bytes ++ left f v'
      → (1 ≤ length bytes) ⊎ (buf_size - length buf ≡ 0) ⊎ (left f v ≡ [])
      → ((length bytes == 0) || (length (buf ++ bytes) == buf_size)) ≡ true
      → Filled from left (suc rounds) f buf v
  unfolding fill
  fill_last rounds f buf bytes v v' short got parts enough stop =
      let sum = length-append buf bytes in
      record {
        bytes = buf ++ bytes;
        world = v';
        answer = rw (ap (λ t. t.0) got, stop, fill) (ap (λ t. (filled (buf ++ bytes), t.1)) got);
        parts = ap (λ t. buf ++ t) parts ∙ sym (append_assoc buf bytes (left f v'));
        grown = omega arith;
        nonempty = elim enough [
          | inl some_byte ↦ inl (omega arith)
          | inr more ↦ elim more [ inl full ↦ absurd (omega arith) | inr end ↦ inr end ]
        ];
      }

  -- A read after which the loop goes on
  fill_more :
      (rounds : ℕ) (f : G) (buf bytes : List ℕ) (v v' : V)
      → from.read_some f (buf_size - length buf) v ≡ (some bytes, v')
      → left f v ≡ bytes ++ left f v'
      → ((length bytes == 0) || (length (buf ++ bytes) == buf_size)) ≡ false
      → Filled from left rounds f (buf ++ bytes) v'
      → Filled from left (suc rounds) f buf v
  unfolding fill
  fill_more rounds f buf bytes v v' got parts go_on later =
      let sum = length-append buf bytes in
      let some_byte : 1 ≤ length bytes = positive bytes (buf ++ bytes) go_on in
      let grown = later.grown in
      record {
        bytes = later.bytes;
        world = later.world;
        answer =
            rw (ap (λ t. t.0) got, go_on, fill)
              (ap (λ t. fill from rounds f (buf ++ bytes) t.1) got ∙ later.answer);
        parts = ap (λ t. buf ++ t) parts ∙ sym (append_assoc buf bytes (left f v')) ∙ later.parts;
        grown = omega arith;
        nonempty = inl (omega arith);
      }

  pub fill_all :
      (rounds : ℕ) (f : G) (buf : List ℕ) (v : V)
      → length buf < buf_size
      → buf_size - length buf < rounds
      → Filled from left rounds f buf v
  fill_all zero f buf v short room = absurd (omega arith)
  fill_all (suc rounds) f buf v short room =
      let (bytes, v', got, parts, few, enough) = reads.some_read f (buf_size - length buf) v in
      let sum = length-append buf bytes in
      elim (Bool-cases ((length bytes == 0) || (length (buf ++ bytes) == buf_size))) [
        | inl stop ↦ fill_last rounds f buf bytes v v' short got parts enough stop
        | inr go_on ↦
            let some_byte : 1 ≤ length bytes = positive bytes (buf ++ bytes) go_on in
            let below : length (buf ++ bytes) < buf_size =
              unfull bytes (buf ++ bytes) go_on (omega arith) in
            fill_more rounds f buf bytes v v' got parts go_on
              (fill_all rounds f (buf ++ bytes) v' below (omega arith))
      ]
    where
      unfull :
          (bytes all : List ℕ)
          → ((length bytes == 0) || (length all == buf_size)) ≡ false
          → length all ≤ buf_size
          → length all < buf_size
      unfull bytes all e h = ground arith
