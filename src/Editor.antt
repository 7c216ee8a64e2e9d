-- ===== src/Editor.antt =====
-- editor.go: staged operations and the edit plan. `lower` stands for strings.ToLower.
pub mod Spec
pub mod Edits
pub mod Plans
pub mod Disk
pub mod Commit
use pbo.Common.{
  ℕ, is_some, not, lt_i64, Bool, true, false, ◌||◌, List, [], ◌∷◌, ◌++◌, Option, none, some, Bytes,
  map, if◌then◌else◌,
}
use pbo.Model.{
  Result, ok, err, ◌>>=◌, ◌>>◌, guard, EntryInfo, duplicate_entry_path, entry_not_found,
  invalid_entry_path,
}
use pbo.Wire.{is_empty}
use pbo.Text.{equal, has_prefix, trim_space}
use pbo.Paths.{normalize_archive_entry_path}
use pbo.Payload.{Input, RewriteEntry}
use pbo.Sorting.{sort_by}
use pbo.Maps.{find, put, delete, delete_where, values}

-- A staged operation.
pub data EditOperation : Type 0 where
  add replace : List Input → EditOperation
  delete_paths delete_dirs : List Bytes → EditOperation

-- `backup_keep` is an int64 pattern.
pub record Editor : Type 0 where
  pub path : Bytes
  pub ops : List EditOperation
  pub backup_keep : ℕ

unfoldable pub open_editor : Bytes → ℕ → Result Editor
open_editor path backup_keep =
    let trimmed_path = trim_space path in
    if is_empty trimmed_path
    then err invalid_entry_path
    else ok (record {
      path = trimmed_path;
      ops = [];
      backup_keep = if lt_i64 backup_keep 0 then 0 else backup_keep;
    })

unfoldable pub normalize_editor_archive_path : Bytes → Result Bytes
normalize_editor_archive_path raw = normalize_archive_entry_path raw

unfoldable pub normalize_editor_inputs : List Input → Result (List Input)
normalize_editor_inputs [] = ok []
normalize_editor_inputs (i ∷ is) = do
  canonical_path ← normalize_editor_archive_path i.path
  rest ← normalize_editor_inputs is
  ok (record i { path = canonical_path } ∷ rest)

unfoldable pub normalize_editor_paths : List Bytes → Result (List Bytes)
normalize_editor_paths [] = ok []
normalize_editor_paths (raw ∷ raws) = do
  canonical ← normalize_editor_archive_path raw
  rest ← normalize_editor_paths raws
  ok (canonical ∷ rest)

-- `e.ops = append(e.ops, op)` where there is something to do
unfoldable pub stage_inputs : Editor → (List Input → EditOperation) → List Input → Editor
stage_inputs e kind [] = e
stage_inputs e kind (i ∷ is) = record e { ops = e.ops ++ kind (i ∷ is) ∷ [] }

unfoldable pub stage_paths : Editor → (List Bytes → EditOperation) → List Bytes → Editor
stage_paths e kind [] = e
stage_paths e kind (p ∷ ps) = record e { ops = e.ops ++ kind (p ∷ ps) ∷ [] }

-- The methods `Add`, `Replace`, `Delete` and `DeleteDir`.
unfoldable pub editor_add : Editor → List Input → Result Editor
editor_add e inputs = normalize_editor_inputs inputs >>= λ is. ok (stage_inputs e add is)

unfoldable pub editor_replace : Editor → List Input → Result Editor
editor_replace e inputs = normalize_editor_inputs inputs >>= λ is. ok (stage_inputs e replace is)

unfoldable pub editor_delete : Editor → List Bytes → Result Editor
editor_delete e paths = normalize_editor_paths paths >>= λ ps. ok (stage_paths e delete_paths ps)

unfoldable pub editor_delete_dir : Editor → List Bytes → Result Editor
editor_delete_dir e prefixes =
    normalize_editor_paths prefixes >>= λ ps. ok (stage_paths e delete_dirs ps)

abbrev pub from_input : Input → RewriteEntry
from_input i = record { input = some i; source = none; path = i.path }

abbrev pub from_source : EntryInfo → Bytes → RewriteEntry
from_source e path = record { input = none; source = some (record e { path = path }); path = path }

module _ (lower : Bytes → Bytes) where
  -- `editorPathKey`
  abbrev pub editor_path_key : Bytes → Bytes
  editor_path_key path = lower path

  unfoldable pub has_editor_dir_prefix : Bytes → Bytes → Bool
  has_editor_dir_prefix path prefix =
      let path_key = editor_path_key path in
      let prefix_key = editor_path_key prefix in
      equal path_key prefix_key || has_prefix path_key (prefix_key ++ b'\\' ∷ [])

  unfoldable pub apply_edit_add :
      List (Bytes × RewriteEntry) → List Input → Result (List (Bytes × RewriteEntry))
  apply_edit_add state [] = ok state
  apply_edit_add state (i ∷ is) = do
    let key = editor_path_key i.path
    guard (not (is_some (find state key))) duplicate_entry_path
    apply_edit_add (put state key (from_input i)) is

  unfoldable pub apply_edit_replace :
      List (Bytes × RewriteEntry) → List Input → Result (List (Bytes × RewriteEntry))
  apply_edit_replace state [] = ok state
  apply_edit_replace state (i ∷ is) = do
    let key = editor_path_key i.path
    guard (is_some (find state key)) entry_not_found
    apply_edit_replace (put state key (from_input i)) is

  unfoldable pub apply_edit_delete :
      List (Bytes × RewriteEntry) → List Bytes → List (Bytes × RewriteEntry)
  apply_edit_delete state [] = state
  apply_edit_delete state (p ∷ ps) = apply_edit_delete (delete state (editor_path_key p)) ps

  unfoldable pub apply_edit_delete_dir :
      List (Bytes × RewriteEntry) → List Bytes → List (Bytes × RewriteEntry)
  apply_edit_delete_dir state [] = state
  apply_edit_delete_dir state (p ∷ ps) =
      apply_edit_delete_dir (delete_where (λ key item. has_editor_dir_prefix item.path p) state) ps

  -- One case of the switch over the operation kinds.
  unfoldable pub apply_edit :
      List (Bytes × RewriteEntry) → EditOperation → Result (List (Bytes × RewriteEntry))
  apply_edit state (add inputs) = apply_edit_add state inputs
  apply_edit state (replace inputs) = apply_edit_replace state inputs
  apply_edit state (delete_paths paths) = ok (apply_edit_delete state paths)
  apply_edit state (delete_dirs prefixes) = ok (apply_edit_delete_dir state prefixes)

  unfoldable pub apply_edits :
      List (Bytes × RewriteEntry) → List EditOperation → Result (List (Bytes × RewriteEntry))
  apply_edits state [] = ok state
  apply_edits state (op ∷ ops) = do next ← apply_edit state op; apply_edits next ops

  -- The loop over the source entries.
  unfoldable pub source_state :
      List (Bytes × RewriteEntry) → List EntryInfo → Result (List (Bytes × RewriteEntry))
  source_state state [] = ok state
  source_state state (e ∷ es) = do
    path ← normalize_editor_archive_path e.path
    guard (not (is_some (find state (editor_path_key path)))) duplicate_entry_path
    source_state (put state (editor_path_key path) (from_source e path)) es

  unfoldable pub build_edit_plan : List EntryInfo → List EditOperation → Result (List RewriteEntry)
  build_edit_plan source_entries ops = do
    state ← source_state [] source_entries
    final ← apply_edits state ops
    ok (sort_by (λ (item : RewriteEntry). item.path) (values final))
