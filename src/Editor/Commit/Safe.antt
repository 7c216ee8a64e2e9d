-- ===== src/Editor/Commit/Safe.antt =====
-- Commit of editor.go: what becomes of the archive's content, wherever the file system fails.
use pbo.Common.{
  ℕ, ◌≡◌, refl, sym, ◌∙◌, ap, subst, Bool, true, Option, none, some, if◌then◌else◌, ◌==◌, Bytes, [],
  Bool-cases, inl, inr,
}
use pbo.Model.{Error, Result, ok, err}
use pbo.Editor.Disk.{
  FileName, main, backup, same_name, Disk, Done, set_file, and_then, remove_if_exists, os_rename,
  prepare_backup_slot, rollback_from_backup,
}
use pbo.Editor.Disk.Rotation.{remove_if_exists_lem}
use pbo.Editor.Disk.Kept.{
  Keeps, remove-Keeps, prepare_backup_slot-Keeps, Moved, os_rename-Moved, remove_if_exists-refused,
}
use pbo.Editor.Commit.{
  Outcome, committed, refused, rolled_back, rollback_failed, backup_left, system_call,
  write_trailer, finish_archive, rewrite_from_backup, open_backup, commit_from_backup,
  after_rollback, after_cleanup, after_rewrite, after_move, after_slot, commit,
}

system_call-Keeps : (faults : ℕ → Bool) (n : FileName) (d : Disk) → Keeps n d (system_call faults d)
unfolding system_call Keeps
system_call-Keeps faults n d = elim (Bool-cases (faults d.calls)) [
  | inl fault ↦ rw (fault) refl
  | inr fine ↦ rw (fine) refl
]

module _ {Plan : Type 0} {R : Type 0} (faults : ℕ → Bool) (torn : Bytes)
    (add_trailer : Bytes → Bytes) (read_plan : Bytes → Result Plan)
    (rewrite : Bytes → Plan → Result (Bytes × R)) where
  -- The archive is what the rewrite makes of the original, with its trailer.
  unfoldable pub IsRewrite : Bytes → R → Option Bytes → Type 0
  IsRewrite original r content =
      (plan : Plan) × (body : Bytes) × (read_plan original ≡ ok plan)
      × (rewrite original plan ≡ ok (body, r))
      × (content ≡ some (add_trailer body))

  -- What each way to end leaves of the original content and of the new.
  unfoldable pub IsSafe : Bytes → ℕ → Disk × Outcome R → Type 0
  IsSafe original keep (d, committed r) =
      IsRewrite original r (d.files main)
      × (d.files backup ≡ (if keep == 0 then none else some original))
  IsSafe original keep (d, refused e) = d.files main ≡ some original
  IsSafe original keep (d, rolled_back e) = d.files main ≡ some original
  IsSafe original keep (d, rollback_failed e e') = d.files backup ≡ some original
  IsSafe original keep (d, backup_left e) =
      (r : R) × IsRewrite original r (d.files main) × (d.files backup ≡ some original)

  -- The same of the rewrite alone.
  After : Bytes → Disk × Result R → Type 0
  After original (d, err e) = d.files backup ≡ some original
  After original (d, ok r) = IsRewrite original r (d.files main) × (d.files backup ≡ some original)

  and_then-After :
      (original : Bytes) (d : Disk) (m : Done) (rest : Disk → Disk × Result R)
      → d.files backup ≡ some original
      → Keeps backup d m
      → ((mid : Disk) → mid.files backup ≡ some original → After original (rest mid))
      → After original (and_then m rest)
  unfolding After Keeps
  and_then-After original d (mid, ok _) rest h kept later = later mid (kept ∙ h)
  and_then-After original d (mid, err e) rest h kept later = kept ∙ h

  write_trailer-After :
      (original body : Bytes) (plan : Plan) (r : R) (d : Disk)
      → read_plan original ≡ ok plan
      → rewrite original plan ≡ ok (body, r)
      → d.files backup ≡ some original
      → After original (write_trailer faults torn add_trailer body r d)
  unfolding write_trailer After IsRewrite same_name
  write_trailer-After original body plan r d e e' h = elim (Bool-cases (faults d.calls)) [
    | inl fault ↦ rw (fault) h
    | inr fine ↦ rw (fine) ((plan, body, e, e', refl), h)
  ]

  finish_archive-After :
      (original : Bytes) (plan : Plan) (d : Disk) (made : Result (Bytes × R))
      → read_plan original ≡ ok plan
      → rewrite original plan ≡ made
      → d.files backup ≡ some original
      → After original (finish_archive faults torn add_trailer d made)
  unfolding finish_archive After same_name
  finish_archive-After original plan d (err x) e e' h = h
  finish_archive-After original plan d (ok (body, r)) e e' h =
      and_then-After original (set_file d main (some body))
        (system_call faults (set_file d main (some body)))
        (λ d₁.
          and_then (system_call faults d₁) (λ d₂. write_trailer faults torn add_trailer body r d₂))
        h (system_call-Keeps faults backup (set_file d main (some body)))
        (λ d₁ h₁.
          and_then-After original d₁ (system_call faults d₁)
            (λ d₂. write_trailer faults torn add_trailer body r d₂) h₁
            (system_call-Keeps faults backup d₁)
            (λ d₂ h₂. write_trailer-After original body plan r d₂ e e' h₂))

  rewrite_from_backup-After :
      (original : Bytes) (d : Disk) (read : Result Plan)
      → read_plan original ≡ read
      → d.files backup ≡ some original
      → After original
          (rewrite_from_backup faults torn add_trailer read_plan rewrite d original read)
  unfolding rewrite_from_backup After same_name
  rewrite_from_backup-After original d (err x) e h = h
  rewrite_from_backup-After original d (ok plan) e h =
      and_then-After original d (system_call faults d)
        (λ d₁.
          finish_archive faults torn add_trailer (set_file d₁ main (some []))
            (rewrite original plan))
        h (system_call-Keeps faults backup d)
        (λ d₁ h₁.
          finish_archive-After original plan (set_file d₁ main (some [])) (rewrite original plan) e
            refl h₁)

  commit_from_backup-After :
      (original : Bytes) (d : Disk)
      → d.files backup ≡ some original
      → After original (commit_from_backup faults torn add_trailer read_plan rewrite d)
  unfolding commit_from_backup open_backup
  commit_from_backup-After original d h = rw (h) (
      and_then-After original d (system_call faults d)
        (λ d₁. and_then (system_call faults d₁) (λ d₂.
          rewrite_from_backup faults torn add_trailer read_plan rewrite d₂ original
            (read_plan original)))
        h (system_call-Keeps faults backup d)
        (λ d₁ h₁.
          and_then-After original d₁ (system_call faults d₁)
            (λ d₂.
              rewrite_from_backup faults torn add_trailer read_plan rewrite d₂ original
                (read_plan original))
            h₁ (system_call-Keeps faults backup d₁)
            (λ d₂ h₂. rewrite_from_backup-After original d₂ (read_plan original) refl h₂)))

  after_rollback-IsSafe :
      (original : Bytes) (keep : ℕ) (e : Error) (m : Done)
      → Moved backup main original m
      → IsSafe original keep (after_rollback faults torn add_trailer e m)
  unfolding after_rollback IsSafe Moved
  after_rollback-IsSafe original keep e (d, ok _) h = h
  after_rollback-IsSafe original keep e (d, err x) h = h

  after_cleanup-IsSafe :
      (original : Bytes) (keep : ℕ) (r : R) (d : Disk) (m : Done)
      → (keep == 0) ≡ true
      → IsRewrite original r (d.files main)
      → d.files backup ≡ some original
      → remove_if_exists faults d backup ≡ m
      → IsSafe original keep (after_cleanup faults torn add_trailer r m)
  unfolding after_cleanup IsSafe Keeps same_name
  after_cleanup-IsSafe original keep r d (d', ok _) last built h e =
      let main_kept =
        ap (λ (m : Done). m.0.files main) (sym e) ∙ remove-Keeps faults main backup d refl in
      (
        subst (IsRewrite original r) (sym main_kept) built,
        rw (last) (remove_if_exists_lem faults d backup backup e),
      )
  after_cleanup-IsSafe original keep r d (d', err x) last built h e =
      let main_kept =
        ap (λ (m : Done). m.0.files main) (sym e) ∙ remove-Keeps faults main backup d refl in
      (
        r,
        subst (IsRewrite original r) (sym main_kept) built,
        remove_if_exists-refused faults backup backup d e ∙ h,
      )

  rollback-IsSafe :
      (original : Bytes) (keep : ℕ) (e : Error) (d : Disk)
      → d.files backup ≡ some original
      → IsSafe original keep
          (after_rollback faults torn add_trailer e (rollback_from_backup faults d))
  unfolding rollback_from_backup Keeps same_name
  rollback-IsSafe original keep e d h =
      let removed = (remove_if_exists faults d main).0 in
      after_rollback-IsSafe original keep e (os_rename faults removed backup main) (
        os_rename-Moved faults backup main removed original refl
          (remove-Keeps faults backup main d refl ∙ h))

  after_rewrite-IsSafe :
      (original : Bytes) (keep : ℕ) (m : Disk × Result R)
      → After original m
      → IsSafe original keep (after_rewrite faults torn add_trailer keep m)
  unfolding after_rewrite After IsSafe
  after_rewrite-IsSafe original keep (d, err e) h = rollback-IsSafe original keep e d h
  after_rewrite-IsSafe original keep (d, ok r) (built, h) = elim (Bool-cases (keep == 0)) [
    | inl last ↦ rw (last) (
        after_cleanup-IsSafe original keep r d (remove_if_exists faults d backup) last built h refl)
    | inr kept ↦ rw (kept) (built, rw (kept) h)
  ]

  after_move-IsSafe :
      (original : Bytes) (keep : ℕ) (m : Done)
      → Moved main backup original m
      → IsSafe original keep (after_move faults torn add_trailer read_plan rewrite keep m)
  unfolding after_move Moved IsSafe
  after_move-IsSafe original keep (d, err e) h = h
  after_move-IsSafe original keep (d, ok _) h =
      after_rewrite-IsSafe original keep
        (commit_from_backup faults torn add_trailer read_plan rewrite d)
        (commit_from_backup-After original d h)

  after_slot-IsSafe :
      (original : Bytes) (keep : ℕ) (m : Done)
      → m.0.files main ≡ some original
      → IsSafe original keep (after_slot faults torn add_trailer read_plan rewrite keep m)
  unfolding after_slot IsSafe same_name
  after_slot-IsSafe original keep (d, err e) h = h
  after_slot-IsSafe original keep (d, ok _) h =
      after_move-IsSafe original keep (os_rename faults d main backup)
        (os_rename-Moved faults main backup d original refl h)

  -- Whichever calls of the operating system fail, a commit loses neither content: if it reports
  -- success, the archive is the rewrite of the original by the plan, with its trailer, and the backup
  -- is the original or, if none is to be kept, gone; if it is refused or rolled back, the archive is
  -- the original; if the rollback fails or the backup cannot be removed, the backup is the original.
  pub commit-IsSafe :
      (original : Bytes) (keep : ℕ) (d : Disk)
      → d.files main ≡ some original
      → IsSafe original keep (commit faults torn add_trailer read_plan rewrite keep d)
  unfolding commit Keeps
  commit-IsSafe original keep d h =
      after_slot-IsSafe original keep (prepare_backup_slot faults keep d)
        (prepare_backup_slot-Keeps faults keep d ∙ h)
