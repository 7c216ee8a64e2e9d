-- ===== src/Tests/PathRuns.antt =====
-- Paths, filters and lookups on small inputs.
use pbo.Common.{ℕ, ◌≡◌, ◌≢◌, refl, List, [], ◌∷◌, Bytes, All}
use pbo.Model.{ok, EntryInfo}
use pbo.Text.{codes, has_prefix, trim_space, replace_byte, split, join, equal}
use pbo.Wire.{is_empty}
use pbo.Paths.{normalize_path}
use pbo.Paths.Clean.{IsSegment, normalize_path_lem}
use pbo.Extract.{
  normalize_extract_entry_path, clean_parts, joined, contains_byte, has_windows_abs_drive_prefix,
  filter_junk_entries,
}
use pbo.Extract.Safe.{IsSafeSegment, normalize_extract_entry_path_lem}
use pbo.Extract.Kept.{Keeps, filter_junk_entries_lem}
use pbo.Lookup.{find_entry_by_name}
use pbo.Lookup.First.{first_entry, find_entry_by_name_lem}

normalize_path_lem_example :
    (segments : List Bytes) × (normalize_path (codes "a/./b") ≡ join segments b'/')
    × All IsSegment segments
normalize_path_lem_example = normalize_path_lem (codes "a/./b")

extracts : normalize_extract_entry_path (codes "a\\.\\b.txt") ≡ ok (codes "a/b.txt")
unfolding normalize_extract_entry_path clean_parts joined contains_byte has_windows_abs_drive_prefix
    trim_space has_prefix replace_byte split join equal is_empty
extracts = refl

normalize_extract_entry_path_lem_example :
    (segments : List Bytes) × (segments ≢ [])
    × (codes "a/b.txt" ≡ join segments b'/')
    × All IsSafeSegment segments
normalize_extract_entry_path_lem_example =
    normalize_extract_entry_path_lem (codes "a\\.\\b.txt") {p = codes "a/b.txt"} extracts

abbrev entry : Bytes → ℕ → EntryInfo
entry path size = record {
  path = path;
  offset = 0;
  data_size = size;
  original_size = 0;
  time_stamp = 0;
  mime_type = 0;
}

abbrev entries : List EntryInfo
entries = entry (codes "a\\b") 3 ∷ entry (codes "..\\c") 4 ∷ entry (codes "a/./b") 5 ∷ []

filter_junk_entries_lem_example : Keeps entries (filter_junk_entries entries)
filter_junk_entries_lem_example = filter_junk_entries_lem entries

find_entry_by_name_lem_example :
    find_entry_by_name entries (codes "/a/b") ≡ first_entry entries (normalize_path (codes "/a/b"))
find_entry_by_name_lem_example = find_entry_by_name_lem entries (codes "/a/b")
