-- ===== src/Lookup.antt =====
-- findEntryByName and buildEntryIndex of entry_reader.go. The Go map is a list of its keys with
-- their values.
pub mod First
use pbo.Common.{ℕ, zero, suc, ◌+◌, Option, none, some, List, [], ◌∷◌, if◌then◌else◌, Bytes}
use pbo.Model.{EntryInfo}
use pbo.Text.{equal}
use pbo.Paths.{normalize_path}

unfoldable pub lookup : List (Bytes × ℕ) → Bytes → Option ℕ
lookup [] key = none
lookup ((k, i) ∷ index) key = let rest = lookup index key in if equal k key then some i else rest

-- The entry is not overwritten where the key exists.
unfoldable pub insert_new : List (Bytes × ℕ) → Bytes → ℕ → Option ℕ → List (Bytes × ℕ)
insert_new index key i (some _) = index
insert_new index key i none = (key, i) ∷ index

unfoldable pub index_from : ℕ → List (Bytes × ℕ) → List EntryInfo → List (Bytes × ℕ)
unfolding insert_new
index_from i index [] = index
index_from i index (e ∷ es) =
    let key = normalize_path e.path in
    index_from (i + 1) (insert_new index key i (lookup index key)) es

unfoldable pub build_entry_index : List EntryInfo → List (Bytes × ℕ)
build_entry_index = index_from 0 []

unfoldable pub entry_at : List EntryInfo → ℕ → Option EntryInfo
entry_at [] i = none
entry_at (e ∷ es) zero = some e
entry_at (e ∷ es) (suc i) = entry_at es i

unfoldable pub resolve : List EntryInfo → Option ℕ → Option EntryInfo
resolve es none = none
resolve es (some i) = entry_at es i

unfoldable pub find_entry_by_name : List EntryInfo → Bytes → Option EntryInfo
find_entry_by_name es name = resolve es (lookup (build_entry_index es) (normalize_path name))
