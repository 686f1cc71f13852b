-- ===== src/Transfer/Relay.antt =====
-- A file on its way: `read` of `TransferJob` in libs/hbb_common/src/fs.rs on one side, and `write` on
-- the other with each block that it gives.
use mathlib.Core.Path.{sym}
use pc_trade.Prelude.{
  ℕ, zero, suc, ◌+◌, ◌%◌, ◌^◌, ◌≤◌, ◌<◌, ◌≡◌, ◌⊎◌, inl, inr, refl, ap, ◌∙◌, List, [], ◌∷◌, ◌++◌,
  append_assoc, Option, none, some, true, arith, length, length-append, ok,
}
use pc_trade.Transfer.Job.{TransferJob, FileEntry, FileTransferBlock}
use pc_trade.Transfer.Outside.{Outside}
use pc_trade.Transfer.Write.{Step, step, contents, written_as, counted, is_closed}
use pc_trade.Transfer.Read.{buf_size, emit, emit_block, pack, read}
use pc_trade.Transfer.Totals.{contents-pack}
use pc_trade.Transfer.Blocks.{relay, relayed, taken, fill_all, Reads, Writes, Relayed}
use pc_trade.Transfer.Sides.{read_sending, read_filled, write_taking, IsSending, IsTaking}

-- What is promised after a file: the receiver's file holds what was left of the sender's file more
-- than before and the receiver has counted it; the sender is past the file.
pub record Arrived {V G W F : Type 0} (from : Outside V G) (to : Outside W F)
    (left : G → V → List ℕ) (held : F → W → List ℕ) (g : F) (data_left before : List ℕ)
    (s : TransferJob G) (r : TransferJob F) (after : Relayed V G W F) : Type 0 where
  pub holds : held g after.receiver_world ≡ before ++ data_left
  pub stays : after.receiver.file ≡ some g
  pub closed : after.sender.file ≡ none
  pub number : after.sender.file_num ≡ (s.file_num + 1) % 2 ^ 32
  pub counted : after.receiver.finished_size ≡ (r.finished_size + length data_left) % 2 ^ 64

module _ {V G W F : Type 0} (from : Outside V G) (to : Outside W F) (left : G → V → List ℕ)
    (held : F → W → List ℕ) (reads : Reads from left) (writes : Writes to held)
    (undo : (bytes : List ℕ) → to.decompress (from.compress bytes) ≡ bytes) where
  Goes : ℕ → TransferJob G → G → V → TransferJob F → F → W → Type 0
  Goes fuel s f v r g w =
      (after : Relayed V G W F) × (relay from to fuel s v r w ≡ some after)
      × Arrived from to left held g (left f v) (held g w) s r after

  -- One block: what is read and what is written
  onward :
      (fuel : ℕ) (s : TransferJob G) (v : V) (r : TransferJob F) (w : W)
      (x : Step V G (Option FileTransferBlock)) (y : Step W F (Unit {0}))
      → read from s v ≡ x
      → taken from to x.result r w ≡ y
      → relay from to (suc fuel) s v r w
        ≡ relayed from to y.result
            (is_closed from x.job.file)
            (record {
              sender = x.job;
              sender_world = x.world;
              receiver = y.job;
              receiver_world = y.world;
            })
            (relay from to fuel x.job x.world y.job y.world)
  unfolding relay
  onward fuel s v r w x y got put =
      ap (λ x. both x (taken from to x.result r w)) got ∙ ap (both x) put
    where
      both : Step V G (Option FileTransferBlock) → Step W F (Unit {0}) → Option (Relayed V G W F)
      both x y =
          relayed from to y.result (is_closed from x.job.file)
            (record {
              sender = x.job;
              sender_world = x.world;
              receiver = y.job;
              receiver_world = y.world;
            })
            (relay from to fuel x.job x.world y.job y.world)

  -- The block is written, and the receiver goes on with it counted.
  put_block :
      (r : TransferJob F) (g : F) (b : FileTransferBlock) (w w' : W)
      → IsTaking to r g b.id b.file_num
      → to.write_all g (contents to b) w ≡ (true, w')
      → taken from to (ok (some b)) r w ≡ step (ok tt) (counted to r b) w'
  put_block r g b w w' taking wrote =
      write_taking from to r g b w taking ∙ ap (written_as to r b) wrote

  last_block :
      (fuel : ℕ) (s : TransferJob G) (f : G) (entry : FileEntry) (v v' : V) (r : TransferJob F)
      (g : F) (w : W)
      → IsTaking to r g s.id s.file_num
      → read from s v
        ≡ step (ok (some (emit from s entry.name []).0)) (emit from s entry.name []).1 v'
      → left f v ≡ []
      → Goes (suc fuel) s f v r g w
  unfolding emit Goes
  last_block fuel s f entry v v' r g w taking got empty =
      let b = (emit from s entry.name []).0 in
      let (w', wrote, more) = writes.all_written g [] w in
      (
        _,
        onward fuel s v r w _ _ got (put_block r g b w w' taking wrote),
        record {
          holds = more ∙ ap (λ t. held g w ++ t) (sym empty);
          stays = taking.open_file;
          closed = refl;
          number = refl;
          counted = ap (λ t. (r.finished_size + length t) % 2 ^ 64) (sym empty);
        },
      )

  -- A sender whose file is open goes on.
  still_open :
      (file : Option G) (f : G) (now : Relayed V G W F) (later : Option (Relayed V G W F))
      → file ≡ some f
      → relayed from to (ok tt) (is_closed from file) now later ≡ later
  still_open none f now later e = cc
  still_open (some f') f now later e = refl

  next_block :
      (fuel : ℕ) (s : TransferJob G) (f : G) (name : List ℕ) (v v' : V) (r : TransferJob F) (g : F)
      (w : W) (c : ℕ) (cs : List ℕ)
      → s.file ≡ some f
      → IsTaking to r g s.id s.file_num
      → read from s v
        ≡ step (ok (some (emit from s name (c ∷ cs)).0)) (emit from s name (c ∷ cs)).1 v'
      → left f v ≡ (c ∷ cs) ++ left f v'
      → ((r' : TransferJob F) (w' : W)
          → IsTaking to r' g s.id s.file_num
          → Goes fuel (emit from s name (c ∷ cs)).1 f v' r' g w')
      → Goes (suc fuel) s f v r g w
  unfolding emit Goes
  next_block fuel s f name v v' r g w c cs open_file taking got parts later =
      let buf = c ∷ cs in
      let b = (emit_block from s buf (pack from name buf)).0 in
      let (w', wrote, more) = writes.all_written g (contents to b) w in
      let same : contents to b ≡ buf = contents-pack from to s name buf undo in
      let taking' : IsTaking to (counted to r b) g s.id s.file_num = record {
        open_file = taking.open_file;
        same_id = taking.same_id;
        same_number = taking.same_number;
        entry = taking.entry;
        listed = taking.listed;
      } in
      let (after, rest, arrived) = later (counted to r b) w' taking' in
      let sum = length-append buf (left f v') in
      let total = ap length parts in
      let size = ap length same in
      let counts = arrived.counted in
      (
        after,
        onward fuel s v r w _ _ got (put_block r g b w w' taking wrote)
            ∙ still_open s.file f _ _ open_file
            ∙ rest,
        record {
          holds =
              arrived.holds
              ∙ ap (λ t. t ++ left f v') (more ∙ ap (λ t. held g w ++ t) same)
              ∙ append_assoc (held g w) buf (left f v')
              ∙ ap (λ t. held g w ++ t) (sym parts);
          stays = arrived.stays;
          closed = arrived.closed;
          number = arrived.number;
          counted =
              counts
              ∙ sums r.finished_size (length (contents to b)) (length (left f v'))
                  (length (left f v)) (omega arith);
        },
      )
    where
      sums : (a x y z : ℕ) → z ≡ x + y → ((a + x) % 2 ^ 64 + y) % 2 ^ 64 ≡ (a + z) % 2 ^ 64
      sums a x y z e = omega arith

  -- The block that was read, whatever it is
  onward_by :
      (fuel : ℕ) (s : TransferJob G) (f : G) (entry : FileEntry) (v v' : V) (r : TransferJob F)
      (g : F) (w : W) (buf : List ℕ)
      → IsSending from s f entry
      → IsTaking to r g s.id s.file_num
      → read from s v
        ≡ step (ok (some (emit from s entry.name buf).0)) (emit from s entry.name buf).1 v'
      → left f v ≡ buf ++ left f v'
      → (1 ≤ length buf) ⊎ (left f v ≡ [])
      → ((s' : TransferJob G) (r' : TransferJob F) (w' : W)
          → IsSending from s' f entry
          → IsTaking to r' g s'.id s'.file_num
          → length (left f v') < fuel
          → Goes fuel s' f v' r' g w')
      → length (left f v) < suc fuel
      → Goes (suc fuel) s f v r g w
  unfolding emit
  onward_by fuel s f entry v v' r g w [] sending taking got parts enough later h = elim enough [
    | inl none_there ↦ absurd (omega arith)
    | inr empty ↦ last_block fuel s f entry v v' r g w taking got empty
  ]
  onward_by fuel s f entry v v' r g w (c ∷ cs) sending taking got parts enough later h =
      let sum = length-append (c ∷ cs) (left f v') in
      let total = ap length parts in
      next_block fuel s f entry.name v v' r g w c cs sending.open_file taking got parts
        (λ r' w' taking'.
          later _ r' w'
            (record { open_file = sending.open_file; free = sending.free; listed = sending.listed })
            taking' (omega arith))

  -- A file is read and written block by block. Where reads give some byte unless they are at the end,
  -- writes put all bytes at the end, and the decompression undoes the compression: with a fuel above
  -- the number of bytes left, a sender that may send its open file and a receiver that has the file
  -- of that number open end without an error; the receiver's file then holds what it held, and after
  -- that exactly the bytes that were left; it counted them, and the sender is past the file.
  pub relay_lem :
      (fuel : ℕ) (s : TransferJob G) (f : G) (entry : FileEntry) (v : V) (r : TransferJob F) (g : F)
      (w : W)
      → IsSending from s f entry
      → IsTaking to r g s.id s.file_num
      → length (left f v) < fuel
      → (after : Relayed V G W F) × (relay from to fuel s v r w ≡ some after)
        × Arrived from to left held g (left f v) (held g w) s r after
  unfolding Goes
  relay_lem zero s f entry v r g w sending taking h = absurd (omega arith)
  relay_lem (suc fuel) s f entry v r g w sending taking h =
      let b = fill_all from left reads (suc buf_size) f [] v (omega arith) (omega arith) in
      onward_by fuel s f entry v b.world r g w b.bytes sending taking
        (read_sending from to s f entry v sending
          ∙ read_filled from to s entry.name f v b.bytes b.world b.answer)
        b.parts b.nonempty
        (λ s' r' w' sending' taking' h'.
          relay_lem fuel s' f entry b.world r' g w' sending' taking' h')
        h
