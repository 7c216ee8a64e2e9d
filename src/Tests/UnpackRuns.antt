-- ===== src/Tests/UnpackRuns.antt =====
-- The extraction of two entries of a small file over an old file.
use mathlib.Core.List.Perm
use pbo.Common.{
  ℕ, ◌≡◌, ◌≢◌, ◌⊎◌, refl, sym, All, arith, true, false, none, some, List, [], ◌∷◌, Bytes,
  if◌then◌else◌,
}
use pbo.Model.{ok, EntryInfo, is_compressed}
use pbo.Text.{codes, equal, has_prefix}
use pbo.Text.Equal.{equal_of}
use pbo.Wire.{bytes_reader}
use pbo.Paths.{normalize_path}
use pbo.Streams.{Stream}
use pbo.Lookup.{
  find_entry_by_name, build_entry_index, index_from, insert_new, lookup, entry_at, resolve,
}
use pbo.Unpack.Apart.{IsApart, IsPathOf, extract_items_lem}
use pbo.Wire.Parts.{part_of}
use pbo.Unpack.{
  OpenFaults, overwrite_smart, open_extract_file, expected_size_of, Tree, set_path, WorkItem,
  read_entry, extract_prepared_entry, extract_items,
}
use pbo.Unpack.Order.{extract_items-perm}
use pbo.Unpack.Files.{IsStored, IsReady, no_faults, read_entry_lem, extract_prepared_entry_lem}

abbrev no_codec : Stream → ℕ → Stream
no_codec s n = s

abbrev content : Bytes
content = codes "xyz"

abbrev first : EntryInfo
first = record {
  path = codes "a";
  offset = 0;
  data_size = 2;
  original_size = 0;
  time_stamp = 0;
  mime_type = 0;
}

abbrev second : EntryInfo
second = record {
  path = codes "b";
  offset = 2;
  data_size = 1;
  original_size = 1;
  time_stamp = 0;
  mime_type = 0;
}

first-IsStored : IsStored 9 content first
unfolding is_compressed
first-IsStored = record { raw = refl; inside = omega arith; enough = omega arith }

second-IsStored : IsStored 9 content second
unfolding is_compressed
second-IsStored = record { raw = refl; inside = omega arith; enough = omega arith }

-- A file "a" that is longer than the entry.
abbrev tree : Tree
unfolding equal
tree path = if equal path (codes "a") then some (codes "old text") else none

finds : find_entry_by_name (first ∷ second ∷ []) (codes "b") ≡ some second
unfolding find_entry_by_name build_entry_index index_from insert_new lookup entry_at resolve
    normalize_path
finds = refl

read_entry_lem_example :
    read_entry no_codec 9 2 (bytes_reader content) false (first ∷ second ∷ []) (codes "b")
    ≡ ok (codes "z")
read_entry_lem_example =
    read_entry_lem no_codec 9 2 content (omega arith) (first ∷ second ∷ []) (codes "b") second finds
      second-IsStored

abbrev first_item : WorkItem
first_item = record { rel_path = codes "a"; entry = first }

-- No file but "locked" is refused.
abbrev faults : Bytes → OpenFaults
unfolding equal
faults path =
    if equal path (codes "locked")
    then record { exclusive_fails = true; open_fails = true; stat_fails = false }
    else no_faults

opens :
    open_extract_file
      (faults (codes "a"))
      (tree (codes "a"))
      overwrite_smart
      (expected_size_of first)
    ≡ ok (codes "old text", true)
unfolding open_extract_file expected_size_of equal
opens = refl

extract_prepared_entry_lem_example :
    extract_prepared_entry no_codec 9 2
      (bytes_reader content)
      faults
      overwrite_smart
      first_item
      tree
    ≡ ok (set_path tree (codes "a") (codes "xy"))
extract_prepared_entry_lem_example =
    extract_prepared_entry_lem no_codec 9 2 content (omega arith) faults overwrite_smart first_item
      tree {old = codes "old text"} {needs = true} first-IsStored opens

abbrev second_item : WorkItem
second_item = record { rel_path = codes "b"; entry = second }

abbrev items : List WorkItem
items = first_item ∷ second_item ∷ []

first-IsReady : IsReady 9 content faults first_item
unfolding equal
first-IsReady = record { stored = first-IsStored; unfaulted = refl }

second-IsReady : IsReady 9 content faults second_item
unfolding equal
second-IsReady = record { stored = second-IsStored; unfaulted = refl }

apart : codes "a" ≢ codes "b"
unfolding equal
apart same = let clash : false ≡ true = equal_of (codes "a") (codes "b") same in cc

b-IsApart : IsApart (codes "b") (codes "a")
unfolding has_prefix
b-IsApart = record { differ = λ same. apart (sym same); not_above = refl; not_below = refl }

extract_items_lem_example :
    (tree' : Tree) × (extract_items no_codec 9 2
        (bytes_reader content)
        faults
        overwrite_smart
        items
        tree
      ≡ ok tree')
    × All
        (λ (item : WorkItem).
          tree' item.rel_path ≡ some (part_of content item.entry.offset item.entry.data_size))
        items
    × ((path : Bytes) → (tree' path ≡ tree path) ⊎ IsPathOf path items)
extract_items_lem_example =
    extract_items_lem no_codec 9 2 content (omega arith) faults overwrite_smart items tree refl
      ((b-IsApart, tt), (tt, tt)) (first-IsReady, (second-IsReady, tt))

extract_items-perm_example :
    (tree' : Tree) × (extract_items no_codec 9 2
        (bytes_reader content)
        faults
        overwrite_smart
        (second_item ∷ first_item ∷ [])
        tree
      ≡ ok tree')
    × (extract_items no_codec 9 2 (bytes_reader content) faults overwrite_smart items tree
        ≡ ok tree')
extract_items-perm_example =
    extract_items-perm no_codec 9 2 content faults overwrite_smart (second_item ∷ first_item ∷ [])
      items tree (omega arith) refl ((apart, tt), (tt, tt)) (second-IsReady, (first-IsReady, tt))
      (first-IsReady, (second-IsReady, tt)) (Perm.swap first_item second_item [])
