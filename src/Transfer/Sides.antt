-- ===== src/Transfer/Sides.antt =====
-- The two sides of a file on its way, by `read` and `write` of libs/hbb_common/src/fs.rs.
use pc_trade.Prelude.{
  ℕ, suc, ◌≡◌, refl, ap, ap₂, ◌∙◌, List, [], some, true, false, not, ◌==◌, ◌&&◌, ==_iff, get_elem?,
  ok,
}
use pc_trade.Cliprdr.{sign_extend}
use pc_trade.Transfer.Job.{TransferJob, FileEntry, FileTransferBlock}
use pc_trade.Transfer.Outside.{Outside}
use pc_trade.Transfer.Write.{step, contents, write, write_block, written_as}
use pc_trade.Transfer.Read.{filled, fill, buf_size, emit, read, read_as, read_open, read_block}

-- A sender with an open file that it may read from
pub record IsSending {V G : Type 0} (from : Outside V G) (s : TransferJob G) (f : G)
    (entry : FileEntry) : Type 0 where
  pub open_file : s.file ≡ some f
  pub free : (s.enable_overwrite_detection && not s.is_confirmed) ≡ false
  pub listed : get_elem? s.files (sign_extend s.file_num) ≡ some entry

-- A receiver that has the same file of the same job open
pub record IsTaking {W F : Type 0} (to : Outside W F) (r : TransferJob F) (g : F) (id file_num : ℕ)
    : Type 0 where
  pub open_file : r.file ≡ some g
  pub same_id : id ≡ r.id
  pub same_number : file_num ≡ r.file_num
  pub entry : FileEntry
  pub listed : get_elem? r.files (sign_extend file_num) ≡ some entry

module _ {V G W F : Type 0} (from : Outside V G) (to : Outside W F) where
  pub read_sending :
      (s : TransferJob G) (f : G) (entry : FileEntry) (v : V)
      → IsSending from s f entry
      → read from s v ≡ read_block from s entry.name f v
  unfolding read read_open
  read_sending s f entry v h =
      let free : read_open from s entry.name f v ≡ read_block from s entry.name f v =
        rw (h.free, read_open) refl in
      ap₂ (read_as from s v) h.listed h.open_file ∙ free

  pub read_filled :
      (s : TransferJob G) (name : List ℕ) (f : G) (v : V) (buf : List ℕ) (v' : V)
      → fill from (suc buf_size) f [] v ≡ (filled buf, v')
      → read_block from s name f v
        ≡ step (ok (some (emit from s name buf).0)) (emit from s name buf).1 v'
  unfolding read_block
  read_filled s name f v buf v' e =
      rw (ap (λ t. t.0) e, read_block)
        (ap (λ t. step (ok (some (emit from s name buf).0)) (emit from s name buf).1 t.1) e)

  pub write_taking :
      (r : TransferJob F) (g : F) (b : FileTransferBlock) (w : W)
      → IsTaking to r g b.id b.file_num
      → write to r b w ≡ written_as to r b (to.write_all g (contents to b) w)
  unfolding write write_block
  write_taking r g b w h =
      let same_id : (b.id == r.id) ≡ true = (==_iff b.id r.id).1 h.same_id in
      let same : (sign_extend b.file_num == sign_extend r.file_num) ≡ true =
        (==_iff (sign_extend b.file_num) (sign_extend r.file_num)).1
          (ap sign_extend h.same_number) in
      rw (same_id, h.listed, same, h.open_file) refl
