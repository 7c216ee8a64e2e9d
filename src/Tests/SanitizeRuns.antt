-- ===== src/Tests/SanitizeRuns.antt =====
-- A small archive with two paths that sanitising would make equal.
use Prim.Native.String.{String}
use pbo.Common.{
  ℕ, ◌≡◌, ◌≤◌, ◌<◌, refl, arith, Bool, true, false, List, [], ◌∷◌, ◌++◌, none, some, Bytes, All,
  length, replicate,
}
use pbo.Model.{ok, ◌>>=◌, EntryInfo, ReaderOptions, empty_mode, sequential, reader_apply_defaults}
use pbo.Text.{
  codes, ascii_lower, lower_byte, split, cons_head, trim_space, has_prefix, replace_byte, equal,
  join, last_index, reverse,
}
use pbo.Wire.{bytes_reader, is_empty, index_byte, get_u32}
use pbo.Extract.{
  normalize_extract_entry_path, contains_byte, has_windows_abs_drive_prefix, clean_parts, joined,
  is_ascii_alpha, filter_entries_by_size,
}
use pbo.Maps.{find, has_key, put}
use pbo.Maps.Laws.{Distinct}
use pbo.Sanitize.Runes.{
  decode_long, decode_rune, decode₂, decode₃, decode₄, encode_rune, replace_runes,
}
use pbo.Sanitize.Names.{
  sanitize_path_segment, before_dot, ext_start, fnv32a, guid_loop, hex8, hex_digit, is_braced_guid,
  is_hex, is_member, is_reserved_device_name, is_unsafe_control_char_rune, is_unsafe_path_rune,
  itoa, itoa_from, last_dot_brace, sanitize_named, sanitize_windows_guid_suffix,
  shorten_segment_deterministic, trim_dots, trim_right, with_numeric_suffix,
}
use pbo.Sanitize.Entries.{
  sanitize_entry_info_paths, sanitize_from, sanitize_relative_path_with, sanitize_parts,
  relative_path, base_of, dir_of, make_sanitized_path_unique, search_suffix, start_idx,
}
use pbo.Sanitize.Bounds.{IsPlain, sanitize_path_segment_lem}
use pbo.Sanitize.Unique.{Renamed, sanitize_entry_info_paths_lem}
use pbo.Header.{
  parse_header_section, check_header_read, parse_pairs, read_null_terminated, read_null_from,
  on_index,
}
use pbo.Table.{
  parse_entries_buffered, parse_entries, read_null_buffered, on_slice, read_slice, read_full,
  is_terminator, decode_fields,
}
use pbo.Offsets.Defs.{
  resolve_entry_offsets, assign_by_mode, assign_sequential_offsets, assign_sequential_from,
  validate_resolved_offsets,
}
use pbo.Reader.{parse_index, sha1_trailer, trailer_of}
use pbo.Paths.{normalize_path}
use pbo.Sealed.Layout.{prepare_reader_at}
use pbo.Listing.{
  Reader, parse, drop_entries, rewrite_entries, filter_entries_by_sanitized_prefix, new_reader,
  read_headers, list_entries,
}
use pbo.Listing.Laws.{list_entries-new_reader, read_headers-new_reader, new_reader-sanitized}

abbrev no_format : ℕ → Bool
no_format r = false

sanitize_path_segment_lem_example :
    (out : Bytes) × (sanitize_path_segment ascii_lower no_format (codes "con?.") ≡ ok out)
    × All IsPlain out
    × (0 < length out)
    × (length out ≤ 240)
sanitize_path_segment_lem_example = sanitize_path_segment_lem no_format ascii_lower (codes "con?.")

abbrev entry_of : String → ℕ → EntryInfo
entry_of name at = record {
  path = codes name;
  offset = at;
  data_size = 1;
  original_size = 0;
  time_stamp = 0;
  mime_type = 0;
}

abbrev mangled : List EntryInfo
mangled = entry_of "a?.x" 93 ∷ entry_of "A|.x" 94 ∷ []

abbrev clean : List EntryInfo
clean = entry_of "a_.x" 93 ∷ entry_of "A_~2.x" 94 ∷ []

sanitizes : sanitize_entry_info_paths ascii_lower no_format mangled ≡ ok clean
unfolding sanitize_entry_info_paths sanitize_from sanitize_relative_path_with sanitize_parts split
    cons_head relative_path normalize_extract_entry_path is_empty trim_space reverse contains_byte
    has_prefix has_windows_abs_drive_prefix is_ascii_alpha replace_byte clean_parts equal joined
    join sanitize_path_segment find has_key put base_of dir_of make_sanitized_path_unique
    search_suffix start_idx before_dot ext_start fnv32a guid_loop hex8 hex_digit is_braced_guid
    is_hex is_member is_reserved_device_name is_unsafe_control_char_rune is_unsafe_path_rune itoa
    itoa_from last_dot_brace sanitize_named sanitize_windows_guid_suffix
    shorten_segment_deterministic trim_dots trim_right with_numeric_suffix decode_long decode_rune
    decode₂ decode₃ decode₄ encode_rune replace_runes last_index index_byte ascii_lower lower_byte
sanitizes = refl

sanitize_entry_info_paths_lem_example :
    Renamed mangled clean
    × Distinct (λ (e : EntryInfo). ascii_lower e.path) clean
    × All
        (λ (e : EntryInfo). (path : Bytes) × (normalize_extract_entry_path e.path ≡ ok path))
        clean
sanitize_entry_info_paths_lem_example =
    sanitize_entry_info_paths_lem ascii_lower no_format mangled {out = clean} sanitizes

abbrev row : String → Bytes
row name = codes name ++ replicate 17 0 ++ 1 ∷ 0 ∷ 0 ∷ 0 ∷ []

abbrev archive : Bytes
archive =
    0 ∷ codes "sreV" ++ replicate 17 0 ++ row "a?.x" ++ row "A|.x" ++ replicate 21 0 ++ 7 ∷ 8 ∷ []

abbrev options : ReaderOptions
options = record {
  sealed_key = none;
  offset_mode = empty_mode;
  entry_path_prefix = [];
  min_entry_original_size = 0;
  min_entry_data_size = 0;
  enable_junk_filter = false;
  filter_ascii_only = false;
  sanitize_control_chars = false;
  sanitize_names = true;
}

abbrev opened : Reader
opened = record {
  header = 0 ∷ codes "sreV" ++ replicate 16 0;
  headers = [];
  entries = clean;
  data_start = 93;
  sha1_trailer_hash = some (replicate 18 0 ++ 7 ∷ 8 ∷ []);
}

indexes :
    parse_index 100 (bytes_reader archive) 95 sequential
    ≡ ok (record { header = opened.header; headers = []; entries = mangled; data_start = 93 })
unfolding parse_index parse_header_section check_header_read bytes_reader get_u32 parse_pairs
    read_null_terminated read_null_from on_index index_byte is_empty parse_entries_buffered
    parse_entries read_null_buffered on_slice read_slice read_full is_terminator decode_fields
    resolve_entry_offsets assign_by_mode assign_sequential_offsets assign_sequential_from
    validate_resolved_offsets
indexes = refl

opens : new_reader ascii_lower no_format 100 (bytes_reader archive) 95 options ≡ ok opened
unfolding new_reader parse drop_entries rewrite_entries prepare_reader_at reader_apply_defaults
    sha1_trailer trailer_of bytes_reader filter_entries_by_size filter_entries_by_sanitized_prefix
    normalize_path
opens = rw (indexes, sanitizes) refl

list_entries-new_reader_example :
    list_entries ascii_lower no_format 100 (bytes_reader archive) 95 options
    ≡ (new_reader ascii_lower no_format 100 (bytes_reader archive) 95 options >>= λ r. ok r.entries)
list_entries-new_reader_example =
    list_entries-new_reader ascii_lower no_format 100 (bytes_reader archive) 95 options
      (omega arith)

read_headers-new_reader_example :
    read_headers ascii_lower no_format 100 (bytes_reader archive) 95 options ≡ ok []
read_headers-new_reader_example =
    read_headers-new_reader ascii_lower no_format 100 (bytes_reader archive) 95 options {r = opened}
      (omega arith) opens

new_reader-sanitized_example :
    Distinct (λ (e : EntryInfo). ascii_lower e.path) clean
    × All
        (λ (e : EntryInfo). (path : Bytes) × (normalize_extract_entry_path e.path ≡ ok path))
        clean
new_reader-sanitized_example =
    new_reader-sanitized ascii_lower no_format 100 (bytes_reader archive) 95 options {r = opened}
      refl opens
