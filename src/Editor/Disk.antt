-- ===== src/Editor/Disk.antt =====
-- The files of an editor's archive and the file operations of editor.go: the archive, its backup,
-- and the older backups. Each call of the operating system may fail, as an oracle says by the number
-- of the call; a call that fails changes nothing.
pub mod Kept
pub mod Rotation
use pbo.Common.{
  ℕ, zero, suc, ◌+◌, ◌-◌, Bool, true, false, Option, none, some, if◌then◌else◌, ◌==◌, leb, lt_i64,
  Bytes,
}
use pbo.Model.{Error, Result, ok, err, io_failure}

-- The path, the path with ".bak", and that with ".bak" and a number behind.
pub data FileName : Type 0 where
  main backup : FileName
  generation : ℕ → FileName

unfoldable pub same_name : FileName → FileName → Bool
same_name main main = true
same_name main n = false
same_name backup backup = true
same_name backup n = false
same_name (generation i) (generation j) = i == j
same_name (generation i) n = false

pub record Disk : Type 0 where
  pub files : FileName → Option Bytes
  pub calls : ℕ

abbrev pub Done : Type 0
Done = Disk × Result (Unit {0})

-- A call that succeeds and changes nothing, and a write of one name.
abbrev pub called : Disk → Disk
called d = record d { calls = d.calls + 1 }

abbrev pub set_file : Disk → FileName → Option Bytes → Disk
set_file d n content = record {
  files = λ m. if same_name n m then content else d.files m;
  calls = d.calls + 1;
}

-- `if err != nil { return err }` and the next statement
abbrev pub and_then {ℓ} : {A : Type ℓ} → Done → (Disk → Disk × Result A) → Disk × Result A
and_then (d, ok _) rest = rest d
and_then (d, err e) rest = (d, err e)

-- `os.Remove`, whose error for a missing file the callers take for success
abbrev pub on_remove : Disk → FileName → Bool → Option Bytes → Done
on_remove d n true content = (called d, err io_failure)
on_remove d n false none = (called d, ok tt)
on_remove d n false (some _) = (set_file d n none, ok tt)

-- `os.Rename`, which replaces the target
abbrev pub on_rename : Disk → FileName → FileName → Bool → Option Bytes → Done
on_rename d from to true content = (called d, err io_failure)
on_rename d from to false none = (called d, err io_failure)
on_rename d from to false (some content) =
    (record (set_file (set_file d from none) to (some content)) { calls = d.calls + 1 }, ok tt)

module _ (faults : ℕ → Bool) where
  unfoldable pub remove_if_exists : Disk → FileName → Done
  remove_if_exists d n = on_remove d n (faults d.calls) (d.files n)

  unfoldable pub os_rename : Disk → FileName → FileName → Done
  os_rename d from to = on_rename d from to (faults d.calls) (d.files from)

  abbrev pub on_stat : Disk → FileName → FileName → Bool → Option Bytes → Done
  on_stat d from to true content = (called d, err io_failure)
  on_stat d from to false none = (called d, ok tt)
  on_stat d from to false (some _) =
      and_then (remove_if_exists (called d) to) (λ d'. os_rename d' from to)

  unfoldable pub rename_if_exists : Disk → FileName → FileName → Done
  rename_if_exists d from to = on_stat d from to (faults d.calls) (d.files from)

  -- The loop over the older backups, from the number `i` down to 1.
  unfoldable pub rotate_from : ℕ → Disk → Done
  rotate_from zero d = (d, ok tt)
  rotate_from (suc i) d =
      and_then (rename_if_exists d (generation (suc i)) (generation (suc (suc i)))) (rotate_from i)

  -- `keep` is an int64 pattern.
  unfoldable pub rotate_backups : ℕ → Disk → Done
  rotate_backups keep d =
      and_then (remove_if_exists d (generation (keep - 1))) (λ d₁.
        and_then (rotate_from (keep - 2) d₁) (λ d₂. rename_if_exists d₂ backup (generation 1)))

  unfoldable pub prepare_backup_slot : ℕ → Disk → Done
  prepare_backup_slot keep d =
      let generations = if lt_i64 keep 0 then 0 else keep in
      if leb generations 1 then remove_if_exists d backup else rotate_backups generations d

  -- The error of the removal is dropped.
  unfoldable pub rollback_from_backup : Disk → Done
  rollback_from_backup d = os_rename (remove_if_exists d main).0 backup main
