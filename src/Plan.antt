-- ===== src/Plan.antt =====
-- preparePackRewritePlan and validateUniqueEntryPaths of writer.go. Inputs
-- with equal paths, whose order sort.Slice leaves open, are refused behind it. `lower` stands for
-- strings.ToLower, whose Unicode tables are not repeated here.
pub mod Unique
use pbo.Common.{
  ℕ, Bool, true, false, not, ◌&&◌, ◌||◌, List, [], ◌∷◌, ltb, ◌==◌, if◌then◌else◌, Bytes, add_i64,
  lt_i64, map, some, none,
}
use pbo.Model.{
  Error, Result, ok, err, ◌>>=◌, ◌>>◌, guard, max_pbo_data, size_overflow, duplicate_entry_path,
}
use pbo.Text.{equal}
use pbo.Paths.{normalize_archive_entry_path}
use pbo.Payload.{Input, RewriteEntry}
use pbo.Sorting.{sort_by}
use pbo.Maps.{has_key}

unfoldable pub normalize_inputs : List Input → Result (List Input)
normalize_inputs [] = ok []
normalize_inputs (i ∷ is) = do
  path ← normalize_archive_entry_path i.path
  rest ← normalize_inputs is
  ok (record i { path = path } ∷ rest)

unfoldable pub sort_inputs : List Input → List Input
sort_inputs = sort_by (λ (i : Input). i.path)

unfoldable pub unique_from : (Bytes → Bytes) → List Bytes → List Input → Result (Unit {0})
unique_from lower seen [] = ok tt
unique_from lower seen (i ∷ is) = do
  guard (not (has_key seen (lower i.path))) duplicate_entry_path
  unique_from lower (lower i.path ∷ seen) is

unfoldable pub validate_unique_entry_paths : (Bytes → Bytes) → List Input → Result (Unit {0})
validate_unique_entry_paths lower inputs = unique_from lower [] inputs

-- The sum of the size hints that are positive, on int64 patterns.
unfoldable pub total_hint : ℕ → List Input → ℕ
total_hint total [] = total
total_hint total (i ∷ is) =
    total_hint (if lt_i64 0 i.size_hint then add_i64 total i.size_hint else total) is

abbrev pub planned : Input → RewriteEntry
planned i = record { input = some i; source = none; path = i.path }

unfoldable pub prepare_pack_rewrite_plan : (Bytes → Bytes) → List Input → Result (List RewriteEntry)
prepare_pack_rewrite_plan lower inputs = do
  normalized ← normalize_inputs inputs
  let sorted = sort_inputs normalized
  validate_unique_entry_paths lower sorted
  guard (not (lt_i64 max_pbo_data (total_hint 0 sorted))) size_overflow
  ok (map planned sorted)
