-- ===== src/Transfer/Confirm.antt =====
-- What the confirmations of the peer do to a `TransferJob` of fs.rs, and the list of jobs.
use pc_trade.Prelude.{
  ℕ, ◌+◌, ◌%◌, ◌^◌, ◌≡◌, ◌≢◌, ◌⊎◌, refl, List, [], ◌∷◌, Option, none, some, Bool, true, false, not,
  arith, ◌==◌, ==_iff, Bool-cases, inl, inr,
}
use pc_trade.Transfer.Job.{
  TransferJob, FileTransferSendConfirmRequest, ConfirmUnion, skip, offset_blk, confirm,
  set_file_skipped, set_file_confirmed, job_completed, remove_job, get_job,
}

-- The union that lets the file pass.
abbrev pub accepts : ConfirmUnion → Bool
accepts (skip s) = not s
accepts (offset_blk _) = true

-- The job waits for nothing and has no file open.
pub record IsIdle {F : Type 0} (job : TransferJob F) : Type 0 where
  pub file : job.file ≡ none
  pub unconfirmed : job.is_confirmed ≡ false
  pub waiting : job.is_waiting ≡ false

-- What the answer `u` to the digest of the job's file makes of the job: a file that is let pass
-- stays current and is confirmed, a skipped one is closed and the next one is due.
pub data Answered {F : Type 0} (job : TransferJob F) (u : ConfirmUnion) (after : TransferJob F)
    : Type 0 where
  passed :
      accepts u ≡ true
      → after ≡ record job { is_confirmed = true; is_skipped = false }
      → Answered job u after
  skipped :
      accepts u ≡ false
      → IsIdle after
      → after.file_num ≡ (job.file_num + 1) % 2 ^ 32
      → after.is_skipped ≡ true
      → after.files ≡ job.files
      → job_completed after ≡ true
      → Answered job u after

skipped_completed : {F : Type 0} (job : TransferJob F) → job_completed (set_file_skipped job) ≡ true
unfolding job_completed set_file_skipped set_file_confirmed
skipped_completed job = elim (Bool-cases job.enable_overwrite_detection) [
  | inl e ↦ rw e refl
  | inr e ↦ rw e refl
]

Answered-skip : {F : Type 0} (job : TransferJob F) → Answered job (skip true) (set_file_skipped job)
unfolding set_file_skipped set_file_confirmed
Answered-skip job =
    skipped refl (record { file = refl; unconfirmed = refl; waiting = refl }) refl refl refl
      (skipped_completed job)

set_file_confirmed_lem :
    {F : Type 0} (job : TransferJob F)
    → set_file_confirmed job true ≡ record job { is_confirmed = true; is_skipped = false }
unfolding set_file_confirmed
set_file_confirmed_lem job = refl

-- A confirmation acts exactly if it names the job's current file and says something: then a refusal
-- skips the file, and anything else confirms it. Every other one leaves the job as it is.
pub confirm_lem :
    {F : Type 0} (job : TransferJob F) (r : FileTransferSendConfirmRequest)
    → ((u : ConfirmUnion) × (job.file_num ≡ r.file_num)
        × (r.union ≡ some u)
        × Answered job u (confirm job r))
      ⊎ (((job.file_num ≢ r.file_num) ⊎ (r.union ≡ none)) × (confirm job r ≡ job))
unfolding confirm
confirm_lem job r = elim (Bool-cases (job.file_num == r.file_num)) [
  | inr other ↦
      inr (inl (λ e. cc (other, (==_iff job.file_num r.file_num).1 e)), rw (other, confirm) refl)
  | inl ours ↦ said ours r.union refl
]
  where
    said :
        (job.file_num == r.file_num) ≡ true
        → (u : Option ConfirmUnion) → r.union ≡ u
        → ((u : ConfirmUnion) × (job.file_num ≡ r.file_num)
            × (r.union ≡ some u)
            × Answered job u (confirm job r))
          ⊎ (((job.file_num ≢ r.file_num) ⊎ (r.union ≡ none)) × (confirm job r ≡ job))
    said ours none e = inr (inr e, (rw (ours, e, confirm) refl))
    said ours (some (skip true)) e = inl (
      skip true,
      (==_iff job.file_num r.file_num).0 ours,
      e,
      (rw (ours, e, confirm) (Answered-skip job)),
    )
    said ours (some (skip false)) e = inl (
      skip false,
      (==_iff job.file_num r.file_num).0 ours,
      e,
      (rw (ours, e, confirm) (passed refl (set_file_confirmed_lem job))),
    )
    said ours (some (offset_blk k)) e = inl (
      offset_blk k,
      (==_iff job.file_num r.file_num).0 ours,
      e,
      (rw (ours, e, confirm) (passed refl (set_file_confirmed_lem job))),
    )

-- After `remove_job` no job has that id, and the search for any other id finds what it found before.
pub get_job-remove_job :
    {F : Type 0} (id other : ℕ) (jobs : List (TransferJob F))
    → (get_job id (remove_job id jobs) ≡ none)
      × (id ≢ other → get_job other (remove_job id jobs) ≡ get_job other jobs)
unfolding get_job remove_job
get_job-remove_job id other [] = (refl, λ ne. refl)
get_job-remove_job id other (x ∷ xs) = ground (arith, get_job-remove_job id other xs)
