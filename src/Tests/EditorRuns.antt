-- ===== src/Tests/EditorRuns.antt =====
-- An edit of an archive of two entries, and commits of it.
use Prim.Native.String.{String}
use pbo.Common.{
  ℕ, suc, ◌≡◌, refl, Bool, List, [], ◌∷◌, ◌++◌, none, some, Bytes, ◌<◌, ◌≤◌, arith, leb,
}
use pbo.Model.{Result, ok, EntryInfo}
use pbo.Text.{codes, ascii_lower, lower_byte, replace_byte, equal}
use pbo.Wire.{is_empty}
use pbo.Paths.{normalize_path, normalize_archive_entry_path}
use pbo.Payload.{Input, RewriteEntry}
use pbo.Maps.{find, put, delete, delete_where}
use pbo.Sorting.{less, insert_by, sort_by}
use pbo.Editor.{
  EditOperation, add, delete_paths, from_input, from_source, normalize_editor_archive_path,
  apply_edit_add, apply_edit_delete, apply_edit, apply_edits, source_state, build_edit_plan,
}
use pbo.Editor.Spec.{Contents, MeansAll, IsSource, IsPlan}
use pbo.Editor.Plans.{build_edit_plan_lem}
use pbo.Editor.Disk.{
  main, backup, generation, Disk, same_name, remove_if_exists, os_rename, rename_if_exists,
  rotate_from, rotate_backups, prepare_backup_slot,
}
use pbo.Editor.Disk.Rotation.{prepare_backup_slot_lem}
use pbo.Editor.Commit.{committed, commit}
use pbo.Editor.Commit.Safe.{IsSafe, commit-IsSafe}
use pbo.Editor.Commit.Success.{commit-committed, never}

abbrev entry : String → EntryInfo
entry name = record {
  path = codes name;
  offset = 0;
  data_size = 1;
  original_size = 1;
  time_stamp = 0;
  mime_type = 0;
}

abbrev new_input : Input
new_input = record {
  path = codes "C";
  size_hint = 1;
  mod_time = 0;
  open_source = none;
  close_error = none;
}

abbrev table : List EntryInfo
table = entry "b" ∷ entry "a" ∷ []

abbrev edits : List EditOperation
edits = add (new_input ∷ []) ∷ delete_paths (codes "A" ∷ []) ∷ []

abbrev edited : List RewriteEntry
edited = from_input new_input ∷ from_source (entry "b") (codes "b") ∷ []

edits_run : build_edit_plan ascii_lower table edits ≡ ok edited
unfolding build_edit_plan source_state normalize_editor_archive_path apply_edits apply_edit
    apply_edit_add apply_edit_delete find put delete delete_where sort_by insert_by less
    normalize_archive_entry_path normalize_path ascii_lower lower_byte equal is_empty replace_byte
edits_run = refl

build_edit_plan_lem_example :
    (old new : Contents) × IsSource ascii_lower table old
    × MeansAll ascii_lower old edits new
    × IsPlan ascii_lower new edited
build_edit_plan_lem_example = build_edit_plan_lem ascii_lower table edits {plan = edited} edits_run

-- The archive, its backup and one older backup.
abbrev disk : Disk
disk = record {
  files =
      λ n. elim n [ main ↦ some (1 ∷ []) | backup ↦ some (2 ∷ []) | generation i ↦ some (3 ∷ []) ];
  calls = 0;
}

-- Parameters of a commit: a plan is a byte string, and the rewrite puts it behind the source.
abbrev read_plan : Bytes → Result Bytes
read_plan source = ok (9 ∷ [])

abbrev rewrite : Bytes → Bytes → Result (Bytes × ℕ)
rewrite source plan = ok (source ++ plan, 7)

abbrev trailer : Bytes → Bytes
trailer body = body ++ 0 ∷ []

abbrev third : ℕ → Bool
third n = leb 3 n

commit-IsSafe_example :
    IsSafe third [] trailer read_plan rewrite
      (1 ∷ [])
      1
      (commit third [] trailer read_plan rewrite 1 disk)
commit-IsSafe_example = commit-IsSafe third [] trailer read_plan rewrite (1 ∷ []) 1 disk refl

commit-committed_example : (commit never [] trailer read_plan rewrite 0 disk).1 ≡ committed 7
commit-committed_example =
    commit-committed [] trailer read_plan rewrite (1 ∷ []) (1 ∷ 9 ∷ []) (9 ∷ []) 7 refl refl 0 disk
      refl

abbrev rotated : Disk
rotated = (prepare_backup_slot never 3 disk).0

rotates : prepare_backup_slot never 3 disk ≡ (rotated, ok tt)
unfolding prepare_backup_slot rotate_backups rotate_from rename_if_exists remove_if_exists os_rename
    same_name
rotates = refl

prepare_backup_slot_lem_example :
    (rotated.files main ≡ disk.files main)
    × (rotated.files backup ≡ none)
    × (rotated.files (generation 1) ≡ disk.files backup)
    × ((i : ℕ) → 0 < i → suc i < 3 → rotated.files (generation (suc i)) ≡ disk.files (generation i))
    × ((i : ℕ) → 3 ≤ i → rotated.files (generation i) ≡ disk.files (generation i))
prepare_backup_slot_lem_example =
    prepare_backup_slot_lem never 3 disk {d' = rotated} (omega arith) (omega arith) rotates
