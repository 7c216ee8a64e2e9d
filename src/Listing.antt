-- ===== src/Listing.antt =====
-- Reader.parse of reader.go with its filters, the openers that call it, and metadata.go, whose
-- functions parse the same parts without a Reader. `lower` and `is_format` are as in sanitize.go.
pub mod Laws
use pbo.Common.{
  ℕ, Bool, true, false, not, ◌&&◌, ◌||◌, Option, none, some, List, [], ◌∷◌, ◌++◌, leb,
  if◌then◌else◌, Bytes,
}
use pbo.Model.{
  Error, Result, ok, err, ◌>>=◌, ◌>>◌, guard, invalid_header, header_size, EntryInfo, HeaderPair,
  ReaderOptions, reader_apply_defaults,
}
use pbo.Text.{equal, has_prefix}
use pbo.Wire.{ReaderAt, is_empty}
use pbo.Header.{parse_header_section}
use pbo.Table.{parse_entries_buffered}
use pbo.Offsets.Defs.{resolve_entry_offsets}
use pbo.Reader.{Index, parse_index, sha1_trailer}
use pbo.Paths.{normalize_path}
use pbo.Extract.{
  keep_if, filter_junk_entries, filter_entries_by_size, filter_entries_by_ascii_only,
  filter_entries_by_prefix,
}
use pbo.Sealed.Layout.{prepare_reader_at}
use pbo.Sanitize.Entries.{
  sanitize_path, sanitize_entry_info_paths, sanitize_entry_info_control_paths,
}

-- A Reader that is open: what `parse` sets.
pub record Reader : Type 0 where
  pub header : Bytes
  pub headers : List HeaderPair
  pub entries : List EntryInfo
  pub data_start : ℕ
  pub sha1_trailer_hash : Option Bytes

-- Whether a sanitised path is the prefix or under it.
unfoldable pub is_under : Bytes → Result Bytes → Bool
is_under prefix (err e) = false
is_under prefix (ok path) =
    not (is_empty path) && (equal path prefix || has_prefix path (prefix ++ b'/' ∷ []))

module _ (lower : Bytes → Bytes) (is_format : ℕ → Bool) where
  unfoldable pub sanitized_prefix_loop : Bytes → List EntryInfo → List EntryInfo
  sanitized_prefix_loop prefix [] = []
  sanitized_prefix_loop prefix (e ∷ es) =
      keep_if (is_under prefix (sanitize_path lower is_format e.path)) e
        (sanitized_prefix_loop prefix es)

  unfoldable pub by_sanitized_prefix : List EntryInfo → Result Bytes → List EntryInfo
  by_sanitized_prefix es (err e) = []
  by_sanitized_prefix es (ok prefix) =
      if is_empty prefix then [] else sanitized_prefix_loop prefix es

  unfoldable pub filter_entries_by_sanitized_prefix : List EntryInfo → Bytes → List EntryInfo
  filter_entries_by_sanitized_prefix es raw =
      let prefix = normalize_path raw in
      if is_empty prefix then es else by_sanitized_prefix es (sanitize_path lower is_format prefix)

  -- The filters that only drop entries, and those that rewrite paths.
  unfoldable pub drop_entries : ReaderOptions → List EntryInfo → List EntryInfo
  drop_entries opts es =
      let kept = if opts.enable_junk_filter then filter_junk_entries es else es in
      let sized =
        filter_entries_by_size kept opts.min_entry_original_size opts.min_entry_data_size in
      let ascii = if opts.filter_ascii_only then filter_entries_by_ascii_only sized else sized in
      if opts.sanitize_names
      then filter_entries_by_sanitized_prefix ascii opts.entry_path_prefix
      else filter_entries_by_prefix ascii opts.entry_path_prefix

  unfoldable pub rewrite_entries : ReaderOptions → List EntryInfo → Result (List EntryInfo)
  rewrite_entries opts es = do
    controlled ←
        if opts.sanitize_control_chars
        then sanitize_entry_info_control_paths lower is_format es
        else ok es
    if opts.sanitize_names
        then sanitize_entry_info_paths lower is_format controlled
        else ok controlled

  unfoldable pub parse : ℕ → ReaderAt → ℕ → ReaderOptions → Result Reader
  parse fuel ra size opts = do
    index ← parse_index fuel ra size opts.offset_mode
    filtered ← rewrite_entries opts (drop_entries opts index.entries)
    ok (record {
      header = index.header;
      headers = index.headers;
      entries = filtered;
      data_start = index.data_start;
      sha1_trailer_hash = sha1_trailer ra size;
    })

  -- `NewReaderFromReaderAtWithOptions`
  unfoldable pub new_reader : ℕ → ReaderAt → ℕ → ReaderOptions → Result Reader
  new_reader fuel ra size raw = do
    let opts = reader_apply_defaults raw
    plain ← prepare_reader_at fuel ra size opts.sealed_key
    parse fuel plain size opts

  -- `ReadHeadersFromReaderAtWithOptions`
  unfoldable pub read_headers : ℕ → ReaderAt → ℕ → ReaderOptions → Result (List HeaderPair)
  read_headers fuel ra size raw = do
    let opts = reader_apply_defaults raw
    guard (leb header_size size) invalid_header
    plain ← prepare_reader_at fuel ra size opts.sealed_key
    (_, headers, _) ← parse_header_section fuel plain
    ok headers

  -- `ListEntriesFromReaderAtWithOptions`
  unfoldable pub list_entries : ℕ → ReaderAt → ℕ → ReaderOptions → Result (List EntryInfo)
  list_entries fuel ra size raw = do
    let opts = reader_apply_defaults raw
    guard (leb header_size size) invalid_header
    plain ← prepare_reader_at fuel ra size opts.sealed_key
    (_, _, table_offset) ← parse_header_section fuel plain
    (entries, entries_end) ← parse_entries_buffered fuel plain table_offset size
    resolved ← resolve_entry_offsets entries entries_end size opts.offset_mode
    let kept = if opts.enable_junk_filter then filter_junk_entries resolved else resolved
    let sized = filter_entries_by_size kept opts.min_entry_original_size opts.min_entry_data_size
    let ascii = if opts.filter_ascii_only then filter_entries_by_ascii_only sized else sized
    let under =
        if opts.sanitize_names
        then filter_entries_by_sanitized_prefix ascii opts.entry_path_prefix
        else filter_entries_by_prefix ascii opts.entry_path_prefix
    controlled ←
        if opts.sanitize_control_chars
        then sanitize_entry_info_control_paths lower is_format under
        else ok under
    if opts.sanitize_names
        then sanitize_entry_info_paths lower is_format controlled
        else ok controlled
