-- ===== src/Extract.antt =====
-- The path check of extract.go, and the entry filters of filter.go.
pub mod Safe
pub mod Kept
use pbo.Common.{
  ℕ, Bool, true, false, not, ◌&&◌, ◌||◌, List, [], ◌∷◌, ◌++◌, ltb, leb, ◌==◌, if◌then◌else◌, Bytes,
}
use pbo.Model.{
  Error, Result, ok, err, ◌>>=◌, ◌>>◌, guard, invalid_extract_path, EntryInfo, mime_compress,
}
use pbo.Wire.{is_empty, index_byte}
use pbo.Text.{equal, has_prefix, trim_space, replace_byte, split, join}
use pbo.Paths.{normalize_path, is_dot, is_dot_dot}

unfoldable pub is_ascii_alpha : ℕ → Bool
is_ascii_alpha b = leb b'a' b && leb b b'z' || leb b'A' b && leb b b'Z'

unfoldable pub has_windows_abs_drive_prefix : Bytes → Bool
unfolding is_ascii_alpha
has_windows_abs_drive_prefix (a ∷ b ∷ c ∷ _) = is_ascii_alpha a && b == b':' && c == b'/'
has_windows_abs_drive_prefix _ = false

-- `strings.ContainsRune` with a rune of one byte
unfoldable pub contains_byte : ℕ → Bytes → Bool
contains_byte b [] = false
contains_byte b (c ∷ s) = c == b || contains_byte b s

-- The parts that the loop keeps, or the error at a "..".
unfoldable pub clean_parts : List Bytes → Result (List Bytes)
clean_parts [] = ok []
clean_parts (p ∷ ps) =
    let rest = clean_parts ps in
    if is_empty p || is_dot p
    then rest
    else if is_dot_dot p
    then err invalid_extract_path
    else rest >>= λ kept. ok (p ∷ kept)

unfoldable pub joined : List Bytes → Result Bytes
joined [] = err invalid_extract_path
joined (p ∷ ps) = ok (join (p ∷ ps) b'/')

unfoldable pub normalize_extract_entry_path : Bytes → Result Bytes
normalize_extract_entry_path entry_path = do
  let raw = trim_space entry_path
  guard (not (is_empty raw)) invalid_extract_path
  guard (not (contains_byte 0 raw)) invalid_extract_path
  guard (not (has_prefix raw (b'/' ∷ []) || has_prefix raw (b'\\' ∷ []))) invalid_extract_path
  guard (not (has_windows_abs_drive_prefix (replace_byte b'\\' b'/' raw))) invalid_extract_path
  parts ← clean_parts (split (replace_byte b'\\' b'/' raw) b'/')
  joined parts

-- `append` of an entry unless the loop skips it
abbrev pub keep_if : Bool → EntryInfo → List EntryInfo → List EntryInfo
keep_if true e es = e ∷ es
keep_if false e es = es

unfoldable pub filter_original_size_or_data_size : EntryInfo → ℕ
filter_original_size_or_data_size e = if e.original_size == 0 then e.data_size else e.original_size

abbrev size_loop : ℕ → ℕ → List EntryInfo → List EntryInfo
size_loop min_original min_data [] = []
size_loop min_original min_data (e ∷ es) =
    keep_if
      (not (ltb (filter_original_size_or_data_size e) min_original)
        && not (ltb e.data_size min_data))
      e (size_loop min_original min_data es)

unfoldable pub filter_entries_by_size : List EntryInfo → ℕ → ℕ → List EntryInfo
filter_entries_by_size es min_original min_data =
    if min_original == 0 && min_data == 0 then es else size_loop min_original min_data es

unfoldable pub filter_path_is_ascii_only : Bytes → Bool
filter_path_is_ascii_only [] = true
filter_path_is_ascii_only (c ∷ s) = not (leb 0x80 c) && filter_path_is_ascii_only s

unfoldable pub filter_entries_by_ascii_only : List EntryInfo → List EntryInfo
filter_entries_by_ascii_only [] = []
filter_entries_by_ascii_only (e ∷ es) =
    keep_if (filter_path_is_ascii_only e.path) e (filter_entries_by_ascii_only es)

abbrev prefix_loop : Bytes → List EntryInfo → List EntryInfo
prefix_loop prefix [] = []
prefix_loop prefix (e ∷ es) =
    let entry_path = normalize_path e.path in
    keep_if (equal entry_path prefix || has_prefix entry_path (prefix ++ b'/' ∷ [])) e
      (prefix_loop prefix es)

unfoldable pub filter_entries_by_prefix : List EntryInfo → Bytes → List EntryInfo
filter_entries_by_prefix es raw =
    let prefix = normalize_path raw in if is_empty prefix then es else prefix_loop prefix es

abbrev is_ok : Result Bytes → Bool
is_ok (ok _) = true
is_ok (err _) = false

unfoldable pub filter_junk_entries : List EntryInfo → List EntryInfo
filter_junk_entries [] = []
filter_junk_entries (e ∷ es) =
    keep_if
      (not (e.data_size == 0)
        && (not (e.mime_type == mime_compress && e.original_size == 0)
            && is_ok (normalize_extract_entry_path e.path)))
      e (filter_junk_entries es)
