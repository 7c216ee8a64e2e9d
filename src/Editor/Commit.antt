-- ===== src/Editor/Commit.antt =====
-- Editor.Commit of editor.go: the protocol of backup, rewrite and rollback. What the rewrite
-- computes is an argument: `read_plan` parses the backup and builds the plan, `rewrite` is the bytes
-- of the new archive, `add_trailer` puts the trailer behind them, and `torn` is what a destination
-- holds whose writing failed half-way.
pub mod Safe
pub mod Success
use pbo.Common.{ℕ, ◌+◌, Bool, true, false, Option, none, some, if◌then◌else◌, ◌==◌, Bytes, []}
use pbo.Model.{Error, Result, ok, err, io_failure}
use pbo.Editor.Disk.{
  FileName, main, backup, Disk, Done, called, set_file, and_then, remove_if_exists, os_rename,
  prepare_backup_slot, rollback_from_backup,
}

-- How a commit ends. The three kinds of failure come from its three places.
pub data Outcome {ℓ} (R : Type ℓ) : Type ℓ where
  committed : R → Outcome R
  -- the archive was not moved
  refused : Error → Outcome R
  -- the rewrite failed and the backup was moved back
  rolled_back : Error → Outcome R
  rollback_failed : Error → Error → Outcome R
  -- the new archive is in place, and the backup could not be removed
  backup_left : Error → Outcome R

-- A system call without an effect on the files: open, stat, sync, close.
unfoldable pub system_call : (ℕ → Bool) → Disk → Done
system_call faults d = if faults d.calls then (called d, err io_failure) else (called d, ok tt)

module _ (faults : ℕ → Bool) (torn : Bytes) (add_trailer : Bytes → Bytes) where
  -- writeSHA1Trailer, on a destination that was closed.
  unfoldable pub write_trailer {κ} : {R : Type κ} → Bytes → R → Disk → Disk × Result R
  write_trailer body r d =
      if faults d.calls
      then (set_file d main (some torn), err io_failure)
      else (set_file d main (some (add_trailer body)), ok r)

  -- The new archive is synced, closed and given its trailer.
  unfoldable pub finish_archive {κ} : {R : Type κ} → Disk → Result (Bytes × R) → Disk × Result R
  finish_archive d (err e) = (set_file d main (some torn), err e)
  finish_archive d (ok (body, r)) =
      and_then (system_call faults (set_file d main (some body)))
        (λ d₁. and_then (system_call faults d₁) (λ d₂. write_trailer body r d₂))

  module _ {ℓ κ} {Plan : Type ℓ} {R : Type κ} (read_plan : Bytes → Result Plan)
      (rewrite : Bytes → Plan → Result (Bytes × R)) where
    -- The destination is created, or truncated, before the rewrite.
    unfoldable pub rewrite_from_backup : Disk → Bytes → Result Plan → Disk × Result R
    rewrite_from_backup d source (err e) = (d, err e)
    rewrite_from_backup d source (ok plan) =
        and_then (system_call faults d)
          (λ d₁. finish_archive (set_file d₁ main (some [])) (rewrite source plan))

    unfoldable pub open_backup : Disk → Option Bytes → Disk × Result R
    open_backup d none = (called d, err io_failure)
    open_backup d (some source) = and_then (system_call faults d) (λ d₁.
        and_then (system_call faults d₁) (λ d₂. rewrite_from_backup d₂ source (read_plan source)))

    unfoldable pub commit_from_backup : Disk → Disk × Result R
    commit_from_backup d = open_backup d (d.files backup)

  -- What follows the rollback, and the removal of the backup.
  unfoldable pub after_rollback {κ} : {R : Type κ} → Error → Done → Disk × Outcome R
  after_rollback e (d, ok _) = (d, rolled_back e)
  after_rollback e (d, err e') = (d, rollback_failed e e')

  unfoldable pub after_cleanup {κ} : {R : Type κ} → R → Done → Disk × Outcome R
  after_cleanup r (d, ok _) = (d, committed r)
  after_cleanup r (d, err e) = (d, backup_left e)

  unfoldable pub after_rewrite {κ} : {R : Type κ} → ℕ → Disk × Result R → Disk × Outcome R
  after_rewrite keep (d, err e) = after_rollback e (rollback_from_backup faults d)
  after_rewrite keep (d, ok r) =
      if keep == 0 then after_cleanup r (remove_if_exists faults d backup) else (d, committed r)

  module _ {ℓ κ} {Plan : Type ℓ} {R : Type κ} (read_plan : Bytes → Result Plan)
      (rewrite : Bytes → Plan → Result (Bytes × R)) where
    unfoldable pub after_move : ℕ → Done → Disk × Outcome R
    after_move keep (d, err e) = (d, refused e)
    after_move keep (d, ok _) = after_rewrite keep (commit_from_backup read_plan rewrite d)

    unfoldable pub after_slot : ℕ → Done → Disk × Outcome R
    after_slot keep (d, err e) = (d, refused e)
    after_slot keep (d, ok _) = after_move keep (os_rename faults d main backup)

    -- `keep` is what OpenEditor left of the number of backups: it is not negative.
    unfoldable pub commit : ℕ → Disk → Disk × Outcome R
    commit keep d = after_slot keep (prepare_backup_slot faults keep d)
