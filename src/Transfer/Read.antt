-- ===== src/Transfer/Read.antt =====
-- `read` of `TransferJob` in fs.rs and `handle_read_jobs`: the sending side of a transfer.
use pc_trade.Prelude.{
  ℕ, zero, suc, ◌+◌, ◌-◌, ◌%◌, ◌^◌, List, [], ◌∷◌, ◌++◌, Option, none, some, Bool, true, false, not,
  ok, err, ltb, ◌==◌, ◌&&◌, ◌||◌, if◌then◌else◌, length, get_elem?,
}
use pc_trade.Cliprdr.{sign_extend}
use pc_trade.Transfer.Job.{
  TransferJob, FileEntry, FileTransferBlock, io_error, is_compressed_file, set_file_is_waiting,
  job_completed, job_error, remove_job,
}
use pc_trade.Transfer.Outside.{Outside, Message, digest, block, done, failed, skipped}
use pc_trade.Transfer.Write.{Step, step, join}

abbrev pub buf_size : ℕ
buf_size = 131072

-- What the loop that fills the buffer ends in; `unfinished` when the rounds run out.
pub data Fill : Type 0 where
  filled : List ℕ → Fill
  broken unfinished : Fill

module _ {W F : Type 0} (o : Outside W F) where
  -- The loop of `read`, in at most so many rounds; `buf` is what was read before.
  unfoldable pub fill : ℕ → F → List ℕ → W → Fill × W
  fill zero f buf w = (unfinished, w)
  fill (suc rounds) f buf w =
      (let (chunk, w₁) = (o.read_some f (buf_size - length buf) w) in
        elim chunk [
          | none ↦ (broken, w₁)
          | some bytes ↦ elim ((length bytes == 0) || (length (buf ++ bytes) == buf_size)) [
            | true ↦ (filled (buf ++ bytes), w₁)
            | false ↦ fill rounds f (buf ++ bytes) w₁
          ]
        ])

  -- The next file is due: the one before it is closed.
  abbrev pub past_file : TransferJob F → TransferJob F
  past_file job = record job {
    file_num = (job.file_num + 1) % 2 ^ 32;
    file = none;
    is_confirmed = false;
    is_waiting = false;
  }

  -- A buffer is compressed unless its file is, and sent so if that is shorter.
  unfoldable pub pack : List ℕ → List ℕ → List ℕ × Bool
  pack name buf =
      let tmp = o.compress buf in
      if not (is_compressed_file name) && ltb (length tmp) (length buf)
      then (tmp, true)
      else (buf, false)

  abbrev pub block_of : TransferJob F → ℕ → List ℕ → Bool → FileTransferBlock
  block_of job file_num bytes compressed = record {
    id = job.id;
    file_num = file_num;
    bytes = bytes;
    compressed = compressed;
  }

  -- a block of bytes was read
  abbrev pub emit_block : TransferJob F → List ℕ → List ℕ × Bool → FileTransferBlock × TransferJob F
  emit_block job buf (bytes, compressed) = (
    block_of job job.file_num bytes compressed,
    record job {
      finished_size = (job.finished_size + length buf) % 2 ^ 64;
      transferred = (job.transferred + length bytes) % 2 ^ 64;
    },
  )

  -- what follows the loop; an empty buffer ends the file
  unfoldable pub emit : TransferJob F → List ℕ → List ℕ → FileTransferBlock × TransferJob F
  unfolding pack
  emit job name [] = (block_of job job.file_num [] false, past_file job)
  emit job name (x ∷ xs) = emit_block job (x ∷ xs) (pack name (x ∷ xs))

  -- the error of a failed loop; `unfinished` does not come up with enough rounds
  unfoldable pub read_block : TransferJob F → List ℕ → F → W → Step W F (Option FileTransferBlock)
  unfolding fill emit
  read_block job name f w =
      (let (r, w₁) = (fill (suc buf_size) f [] w) in
        elim r [
          | filled buf ↦ step (ok (some (emit job name buf).0)) (emit job name buf).1 w₁
          | broken ↦ step (err io_error) (past_file job) w₁
          | unfinished ↦ step (err io_error) (past_file job) w₁
        ])

  unfoldable pub send_current_digest : TransferJob F → F → W → Step W F Unit
  send_current_digest job f w =
      (let (meta, w₁) = (o.metadata f w) in
        elim meta [
          | none ↦ step (err io_error) job w₁
          | some m ↦
              let (secs, len) = m in
              let msg = digest (record {
                id = job.id;
                file_num = job.file_num;
                last_modified = secs;
                file_size = len;
              }) in
              (let (sent, w₂) = (o.send msg w₁) in
                if sent then step (ok tt) job w₂ else step (err io_error) job w₂)
        ])

  -- the digest is sent once for a file, then the job waits
  unfoldable pub ask : TransferJob F → F → W → Step W F (Option FileTransferBlock)
  unfolding send_current_digest set_file_is_waiting
  ask job f w =
      if job.is_waiting
      then step (ok none) job w
      else (let s = send_current_digest job f w in
          elim s.result [
            | err e ↦ step (err e) s.job s.world
            | ok _ ↦ step (ok none) (set_file_is_waiting s.job true) s.world
          ])

  unfoldable pub read_open : TransferJob F → List ℕ → F → W → Step W F (Option FileTransferBlock)
  unfolding ask read_block
  read_open job name f w =
      if job.enable_overwrite_detection && not job.is_confirmed
      then ask job f w
      else read_block job name f w

  -- The file of the entry was opened, or not.
  abbrev pub opened_as : TransferJob F → List ℕ → Option F × W → Step W F (Option FileTransferBlock)
  unfolding read_open
  opened_as job name (none, w) =
      step (err io_error)
        (record job {
          file_num = (job.file_num + 1) % 2 ^ 32;
          is_confirmed = false;
          is_waiting = false;
        })
        w
  opened_as job name (some f, w) =
      read_open (record job { file = some f; is_confirmed = false; is_waiting = false }) name f w

  abbrev pub read_as :
      TransferJob F → W → Option FileEntry → Option F → Step W F (Option FileTransferBlock)
  unfolding read_open join
  read_as job w none file = step (ok none) (record job { file = none }) w
  read_as job w (some entry) (some f) = read_open job entry.name f w
  read_as job w (some entry) none = opened_as job entry.name (o.open_file (join o job entry.name) w)

  unfoldable pub read : TransferJob F → W → Step W F (Option FileTransferBlock)
  unfolding read_open join
  read job w = read_as job w (get_elem? job.files (sign_extend job.file_num)) job.file

  -- What a job's read makes the loop of `handle_read_jobs` send, and whether the job is finished.
  unfoldable pub report : Step W F (Option FileTransferBlock) → Option Message × Bool
  unfolding job_completed job_error
  report s = elim s.result [
    | err e ↦ (some (failed s.job.id s.job.file_num), false)
    | ok r ↦ elim r [
      | some b ↦ (some (block b), false)
      | none ↦
          if job_completed s.job
          then elim (job_error s.job) [
            | some _ ↦ (some (skipped s.job.id s.job.file_num), true)
            | none ↦ (some (done s.job.id s.job.file_num), true)
          ]
          else (none, false)
    ]
  ]

  abbrev pub send_if : Option Message → W → Bool × W
  send_if none w = (true, w)
  send_if (some m) w = o.send m w

  -- The loop over the jobs: the jobs after it, the ids of the finished ones, and the world; `none`
  -- for the ids when the stream failed, which ends the loop.
  unfoldable pub read_jobs : List (TransferJob F) → W → List (TransferJob F) × Option (List ℕ) × W
  unfolding read report
  read_jobs [] w = ([], some [], w)
  read_jobs (job ∷ jobs) w = elim job.is_last_job [
    | true ↦ (let (js, ids, w₁) = (read_jobs jobs w) in (job ∷ js, ids, w₁))
    | false ↦
        let s = read job w in
        (let (sent, w₁) = (send_if (report s).0 s.world) in
          elim sent [
            | false ↦ (s.job ∷ jobs, none, w₁)
            | true ↦
                (let (js, ids, w₂) = (read_jobs jobs w₁) in
                  (
                    s.job ∷ js,
                    elim ids [
                      | none ↦ none
                      | some l ↦ some (if (report s).1 then s.job.id ∷ l else l)
                    ],
                    w₂,
                  ))
          ])
  ]

  abbrev pub remove_jobs : List ℕ → List (TransferJob F) → List (TransferJob F)
  remove_jobs [] jobs = jobs
  remove_jobs (id ∷ ids) jobs = remove_jobs ids (remove_job id jobs)

  -- Whether the stream held, the jobs that stay, and the world.
  unfoldable pub handle_read_jobs : List (TransferJob F) → W → Bool × List (TransferJob F) × W
  unfolding read_jobs remove_job
  handle_read_jobs jobs w =
      (let (js, ids, w₁) = (read_jobs jobs w) in
        elim ids [ none ↦ (false, js, w₁) | some l ↦ (true, remove_jobs l js, w₁) ])
