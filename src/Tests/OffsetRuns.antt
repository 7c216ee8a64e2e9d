-- ===== src/Tests/OffsetRuns.antt =====
-- The offset policies on small tables.
use pbo.Common.{ℕ, ◌≡◌, refl, List, [], ◌∷◌, All, arith}
use pbo.Model.{ok, err, EntryInfo, sequential, stored_strict, stored_compat, size_overflow}
use pbo.Offsets.Defs.{
  refuses_stored, assign_stored_from, assign_stored_offsets, has_meaningful, try_both,
  try_assign_stored_offsets, validate_resolved_offsets, compat_fallback, assign_by_mode,
  resolve_entry_offsets,
}
use pbo.Offsets.Bounds.{InFile, SameTable, resolve_entry_offsets-InFile}
use pbo.Offsets.Sequential.{resolve_sequential, resolve_sequential_overflow}
use pbo.Offsets.Stored.{resolve_strict_absolute, resolve_strict_mixed}

abbrev entry : ℕ → ℕ → EntryInfo
entry at size = record {
  path = 97 ∷ [];
  offset = at;
  data_size = size;
  original_size = 0;
  time_stamp = 0;
  mime_type = 0;
}

abbrev table : List EntryInfo
table = entry 100 5 ∷ entry 105 7 ∷ []

resolves : resolve_entry_offsets table 90 200 stored_compat ≡ ok table
unfolding resolve_entry_offsets assign_by_mode try_assign_stored_offsets try_both
    assign_stored_offsets assign_stored_from refuses_stored has_meaningful validate_resolved_offsets
    compat_fallback
resolves = refl

resolve_entry_offsets-InFile_example : All (InFile 90 200) table × SameTable table table
resolve_entry_offsets-InFile_example =
    resolve_entry_offsets-InFile table 90 200 stored_compat {es' = table}
      ((omega arith, omega arith), ((omega arith, omega arith), tt)) (omega arith) (omega arith)
      resolves

resolve_sequential_example :
    resolve_entry_offsets table 90 200 sequential ≡ ok (entry 90 5 ∷ entry 95 7 ∷ [])
resolve_sequential_example =
    resolve_sequential table 90 200 (omega arith) (omega arith) (omega arith)

resolve_sequential_overflow_example :
    resolve_entry_offsets table 4294967290 4294967400 sequential ≡ err size_overflow
resolve_sequential_overflow_example =
    resolve_sequential_overflow table 4294967290 4294967400 (omega arith) (omega arith)

resolve_strict_absolute_example : resolve_entry_offsets table 90 200 stored_strict ≡ ok table
resolve_strict_absolute_example =
    resolve_strict_absolute (entry 100 5) (entry 105 7 ∷ []) 90 200 (omega arith) (omega arith) (
      omega arith,
      (omega arith, omega arith),
      (omega arith, omega arith),
      (omega arith, (omega arith, omega arith), (omega arith, omega arith), tt),
    )

resolve_strict_mixed_example :
    resolve_entry_offsets (entry 10 5 ∷ entry 150 7 ∷ []) 90 200 stored_strict
    ≡ ok (entry 100 5 ∷ entry 150 7 ∷ [])
resolve_strict_mixed_example =
    resolve_strict_mixed (entry 10 5) (entry 150 7) 90 200 (omega arith, omega arith)
      (omega arith, omega arith) (omega arith) (omega arith) (omega arith) (omega arith)
      (omega arith) (omega arith)
