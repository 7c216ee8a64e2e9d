-- ===== src/Editor/Commit/Success.antt =====
-- Commit of editor.go, when no call of the operating system fails.
use pbo.Common.{
  ℕ, ◌≡◌, refl, ◌∙◌, Bool, false, Option, none, some, if◌then◌else◌, ◌==◌, Bytes, Bool-cases, inl,
  inr, zero, suc, leb, lt_i64, arith, ◌-◌,
}
use pbo.Model.{Result, ok, err, ok-injective}
use pbo.Editor.Disk.{
  FileName, main, backup, generation, same_name, Disk, Done, called, and_then, on_remove, on_stat,
  remove_if_exists, os_rename, rename_if_exists, rotate_from, rotate_backups, prepare_backup_slot,
}
use pbo.Editor.Disk.Kept.{Keeps, prepare_backup_slot-Keeps, Moved, os_rename-Moved}
use pbo.Editor.Commit.{
  committed, system_call, write_trailer, finish_archive, rewrite_from_backup, open_backup,
  commit_from_backup, after_cleanup, after_rewrite, after_move, after_slot, commit,
}

abbrev pub never : ℕ → Bool
never n = false

Succeeds : Done → Type 0
Succeeds (d, ok _) = Unit {0}
Succeeds (d, err e) = ⊥

and_then-Succeeds :
    (m : Done) (rest : Disk → Done)
    → Succeeds m
    → ((mid : Disk) → Succeeds (rest mid))
    → Succeeds (and_then m rest)
unfolding Succeeds
and_then-Succeeds (mid, ok _) rest h later = later mid
and_then-Succeeds (mid, err e) rest h later = absurd h

on_remove-Succeeds :
    (d : Disk) (n : FileName) (content : Option Bytes) → Succeeds (on_remove d n false content)
unfolding Succeeds
on_remove-Succeeds d n none = tt
on_remove-Succeeds d n (some c) = tt

remove-Succeeds : (d : Disk) (n : FileName) → Succeeds (remove_if_exists never d n)
unfolding remove_if_exists
remove-Succeeds d n = on_remove-Succeeds d n (d.files n)

-- A move that follows the removal of its target, of a file that is there.
replace-Succeeds :
    (d : Disk) (from to : FileName) (content : Bytes) (there : Option Bytes)
    → d.files from ≡ some content
    → same_name to from ≡ false
    → Succeeds (and_then (on_remove d to false there) (λ d'. os_rename never d' from to))
unfolding Succeeds os_rename
replace-Succeeds d from to content none h apart = rw (h) tt
replace-Succeeds d from to content (some c) h apart = rw (apart, h) tt

on_stat-Succeeds :
    (d : Disk) (from to : FileName) (here : Option Bytes)
    → d.files from ≡ here
    → same_name to from ≡ false
    → Succeeds (on_stat never d from to false here)
unfolding Succeeds remove_if_exists
on_stat-Succeeds d from to none h apart = tt
on_stat-Succeeds d from to (some c) h apart =
    replace-Succeeds (called d) from to c (d.files to) h apart

rename_if_exists-Succeeds :
    (d : Disk) (from to : FileName)
    → same_name to from ≡ false
    → Succeeds (rename_if_exists never d from to)
unfolding rename_if_exists
rename_if_exists-Succeeds d from to apart = on_stat-Succeeds d from to (d.files from) refl apart

rotate_from-Succeeds : (top : ℕ) (d : Disk) → Succeeds (rotate_from never top d)
unfolding rotate_from Succeeds same_name
rotate_from-Succeeds zero d = tt
rotate_from-Succeeds (suc top) d =
    let apart : (suc (suc top) == suc top) ≡ false = ground arith in
    and_then-Succeeds (rename_if_exists never d (generation (suc top)) (generation (suc (suc top))))
      (rotate_from never top)
      (rename_if_exists-Succeeds d (generation (suc top)) (generation (suc (suc top))) apart)
      (rotate_from-Succeeds top)

prepare_backup_slot-Succeeds : (keep : ℕ) (d : Disk) → Succeeds (prepare_backup_slot never keep d)
unfolding prepare_backup_slot rotate_backups same_name
prepare_backup_slot-Succeeds keep d =
    let generations = if lt_i64 keep 0 then 0 else keep in
    elim (Bool-cases (leb generations 1)) [
      | inl few ↦ rw (few) (remove-Succeeds d backup)
      | inr many ↦ rw (many) (
          and_then-Succeeds (remove_if_exists never d (generation (generations - 1)))
            (λ d₁.
              and_then (rotate_from never (generations - 2) d₁)
                (λ d₂. rename_if_exists never d₂ backup (generation 1)))
            (remove-Succeeds d (generation (generations - 1)))
            (λ d₁.
              and_then-Succeeds (rotate_from never (generations - 2) d₁)
                (λ d₂. rename_if_exists never d₂ backup (generation 1))
                (rotate_from-Succeeds (generations - 2) d₁)
                (λ d₂. rename_if_exists-Succeeds d₂ backup (generation 1) refl)))
    ]

module _ {Plan : Type 0} {R : Type 0} (torn : Bytes) (add_trailer : Bytes → Bytes)
    (read_plan : Bytes → Result Plan) (rewrite : Bytes → Plan → Result (Bytes × R)) where
  module _ (original body : Bytes) (plan : Plan) (r : R) (read : read_plan original ≡ ok plan)
      (built : rewrite original plan ≡ ok (body, r)) where
    commit_from_backup-ok :
        (d : Disk)
        → d.files backup ≡ some original
        → (commit_from_backup never torn add_trailer read_plan rewrite d).1 ≡ ok r
    unfolding commit_from_backup open_backup rewrite_from_backup finish_archive write_trailer
        system_call
    commit_from_backup-ok d h = rw (h, read, built) refl

    after_cleanup-committed :
        (m : Done) → Succeeds m → (after_cleanup never torn add_trailer r m).1 ≡ committed r
    unfolding after_cleanup Succeeds
    after_cleanup-committed (d, ok _) h = refl
    after_cleanup-committed (d, err e) h = absurd h

    after_rewrite-committed :
        (keep : ℕ) (m : Disk × Result R)
        → m.1 ≡ ok r
        → (after_rewrite never torn add_trailer keep m).1 ≡ committed r
    unfolding after_rewrite
    after_rewrite-committed keep (d, err e) h = cc
    after_rewrite-committed keep (d, ok r') h =
        let same : r' ≡ r = ok-injective h in
        elim (Bool-cases (keep == 0)) [
          | inl last ↦
              rw (last, same)
                (after_cleanup-committed (remove_if_exists never d backup)
                  (remove-Succeeds d backup))
          | inr kept ↦ rw (kept, same) refl
        ]

    after_move-committed :
        (keep : ℕ) (m : Done)
        → Moved main backup original m
        → Succeeds m
        → (after_move never torn add_trailer read_plan rewrite keep m).1 ≡ committed r
    unfolding after_move Moved Succeeds
    after_move-committed keep (d, ok _) moved h =
        after_rewrite-committed keep (commit_from_backup never torn add_trailer read_plan rewrite d)
          (commit_from_backup-ok d moved)
    after_move-committed keep (d, err e) moved h = absurd h

    move-Succeeds :
        (d : Disk) → d.files main ≡ some original → Succeeds (os_rename never d main backup)
    unfolding os_rename Succeeds
    move-Succeeds d h = rw (h) tt

    after_slot-committed :
        (keep : ℕ) (m : Done)
        → m.0.files main ≡ some original
        → Succeeds m
        → (after_slot never torn add_trailer read_plan rewrite keep m).1 ≡ committed r
    unfolding after_slot Succeeds same_name
    after_slot-committed keep (d, ok _) h good =
        after_move-committed keep (os_rename never d main backup)
          (os_rename-Moved never main backup d original refl h) (move-Succeeds d h)
    after_slot-committed keep (d, err e) h good = absurd good

    -- If no call of the operating system fails, the backup is parsed and its plan built, and the
    -- rewrite succeeds, then a commit ends with success and the result of the rewrite.
    pub commit-committed :
        (keep : ℕ) (d : Disk)
        → d.files main ≡ some original
        → (commit never torn add_trailer read_plan rewrite keep d).1 ≡ committed r
    unfolding commit Keeps
    commit-committed keep d h =
        after_slot-committed keep (prepare_backup_slot never keep d)
          (prepare_backup_slot-Keeps never keep d ∙ h) (prepare_backup_slot-Succeeds keep d)
