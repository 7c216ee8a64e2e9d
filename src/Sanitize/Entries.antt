-- ===== src/Sanitize/Entries.antt =====
-- Paths and tables: the functions of sanitize.go that go through a path's segments or through the
-- entries.
use pbo.Common.{
  ℕ, zero, suc, ◌+◌, ◌-◌, Bool, true, false, ◌||◌, Option, none, some, List, [], ◌∷◌, ◌++◌, ltb,
  ◌==◌, if◌then◌else◌, take, drop, Bytes,
}
use pbo.Model.{Result, ok, err, ◌>>=◌, invalid_extract_path, EntryInfo}
use pbo.Text.{trim_space, replace_byte, split, join, last_index}
use pbo.Wire.{is_empty}
use pbo.Paths.{normalize_path, is_dot}
use pbo.Extract.{normalize_extract_entry_path}
use pbo.Maps.{find, put, has_key}
use pbo.Sanitize.Names.{
  sanitize_path_segment, sanitize_control_char_path_segment, with_numeric_suffix,
}

abbrev pub Sanitizer : Type 0
Sanitizer = Bytes → Result Bytes

unfoldable pub sanitize_parts : Sanitizer → List Bytes → Result (List Bytes)
sanitize_parts sanitize [] = ok []
sanitize_parts sanitize (raw ∷ raws) =
    let part = trim_space raw in
    let rest = sanitize_parts sanitize raws in
    if is_empty part || is_dot part
    then rest
    else sanitize part >>= λ segment. rest >>= λ segments. ok (segment ∷ segments)

abbrev pub join_or_underscore : List Bytes → Bytes
join_or_underscore [] = b'_' ∷ []
join_or_underscore (p ∷ ps) = join (p ∷ ps) b'/'

unfoldable pub sanitize_relative_path_with : Bytes → Sanitizer → Result Bytes
sanitize_relative_path_with relative_path sanitize = do
  parts ← sanitize_parts sanitize (split relative_path b'/')
  ok (join_or_underscore parts)

-- The keys in use, and for a key the suffix to try next.
pub record Taken : Type 0 where
  pub used : List Bytes
  pub next_suffix : List (Bytes × ℕ)

-- `path.Dir` with a slash behind, or nothing for ".", of a path whose segments are clean.
unfoldable pub dir_of : Bytes → Bytes
dir_of path = take (last_index (λ c. c == b'/') path) path

-- `path.Base` of such a path
unfoldable pub base_of : Bytes → Bytes
base_of path = drop (last_index (λ c. c == b'/') path) path

unfoldable pub start_idx : Option ℕ → ℕ
start_idx none = 2
start_idx (some saved) = if ltb 2 saved then saved else 2

abbrev pub none_taken : Taken
none_taken = record { used = []; next_suffix = [] }

-- The path that both loops start from.
abbrev relative_of : Bytes → Result Bytes → Bytes
relative_of raw (ok normalized) = normalized
relative_of raw (err e) = replace_byte b'\\' b'/' raw

unfoldable pub relative_path : Bytes → Bytes
relative_path raw = relative_of raw (normalize_extract_entry_path raw)

module _ (lower : Bytes → Bytes) where
  -- The loop over the suffixes from `idx`, `count` of them; `key` is that of the path.
  unfoldable pub search_suffix : ℕ → ℕ → Bytes → Bytes → Bytes → Taken → Result (Bytes × Taken)
  search_suffix zero idx key dir name taken = err invalid_extract_path
  search_suffix (suc count) idx key dir name taken =
      let candidate = dir ++ with_numeric_suffix name idx in
      elim (has_key taken.used (lower candidate)) [
        | true ↦ search_suffix count (idx + 1) key dir name taken
        | false ↦ ok (
          candidate,
          record {
            used = lower candidate ∷ taken.used;
            next_suffix = put taken.next_suffix key (idx + 1);
          },
        )
      ]

  unfoldable pub make_sanitized_path_unique : Bytes → Taken → Result (Bytes × Taken)
  make_sanitized_path_unique path taken =
      let key = lower path in
      let start = start_idx (find taken.next_suffix key) in
      elim (has_key taken.used key) [
        | false ↦ ok (path, record taken { used = key ∷ taken.used })
        | true ↦ search_suffix (1000000 - start) start key (dir_of path) (base_of path) taken
      ]

  -- The loop over the entries; `check` is the test of the result that one of the two makes.
  unfoldable pub sanitize_from :
      Sanitizer → (Bytes → Result Bytes) → Taken → List EntryInfo → Result (List EntryInfo)
  sanitize_from sanitize check taken [] = ok []
  sanitize_from sanitize check taken (e ∷ es) = do
    sanitized ← sanitize_relative_path_with (relative_path e.path) sanitize
    (unique, taken') ← make_sanitized_path_unique sanitized taken
    _ ← check unique
    rest ← sanitize_from sanitize check taken' es
    ok (record e { path = unique } ∷ rest)

  module _ (is_format : ℕ → Bool) where
    unfoldable pub sanitize_relative_path : Bytes → Result Bytes
    sanitize_relative_path path =
        sanitize_relative_path_with path (sanitize_path_segment lower is_format)

    unfoldable pub sanitize_path : Bytes → Result Bytes
    sanitize_path raw =
        let path = normalize_path raw in
        if is_empty path
        then ok []
        else sanitize_relative_path path >>= λ sanitized.
            normalize_extract_entry_path sanitized >>= λ _. ok sanitized

    unfoldable pub sanitize_entry_info_paths : List EntryInfo → Result (List EntryInfo)
    sanitize_entry_info_paths =
        sanitize_from (sanitize_path_segment lower is_format) normalize_extract_entry_path
          none_taken

    unfoldable pub sanitize_entry_info_control_paths : List EntryInfo → Result (List EntryInfo)
    sanitize_entry_info_control_paths =
        sanitize_from (sanitize_control_char_path_segment is_format) ok none_taken
