-- ===== src/Tests/ArchiveRuns.antt =====
-- Packing two small inputs and reading the archive back.
use Prim.Native.String.{String}
use pbo.Common.{ℕ, ◌≡◌, refl, none, some, List, [], ◌∷◌, Option, arith, length}
use pbo.Model.{Error, Result, ok, err, HeaderPair, EntryInfo, sequential, pack_apply_defaults}
use pbo.Text.{codes, equal, ascii_lower, trim_space}
use pbo.Wire.{bytes_reader, put_u32, is_empty}
use pbo.Header.{encode_header, encode_header_section}
use pbo.Paths.{normalize_prefix_header}
use pbo.Streams.{chunk, copy_payload_bounded, copy_loop, read, after_read, probe, checked_data_size}
use pbo.Payload.{
  Input, RewriteEntry, PackOptions, time_to_u32, should_use_compression_for_input,
  write_uncompressed_payload, write_input_payload, open_input_reader, close_input,
  write_rewrite_input_payload,
}
use pbo.Archive.{
  File, fresh_file, RewriteArchiveResult, write_archive, written_header, placeholder_table, write,
  patch_entries, write_items, append_written_entry, stored_entry,
}
use pbo.Table.{encode_fields}
use pbo.Archive.RoundTrip.{index_size, parse-write_archive}
use pbo.Reader.{parse_index}

abbrev prefix_header : HeaderPair
prefix_header = record { key = codes "prefix"; value = codes "my/addon" }

abbrev plain_input : String → String → Input
plain_input name text = record {
  path = codes name;
  size_hint = 0;
  mod_time = 7;
  open_source = some (ok (chunk (codes text) ∷ []));
  close_error = none;
}

abbrev item : String → String → RewriteEntry
item name text = record { input = some (plain_input name text); source = none; path = codes name }

abbrev two_items : List RewriteEntry
two_items = item "a.txt" "hello" ∷ item "b\\c.cpp" "class X;" ∷ []

abbrev options : PackOptions
options = record {
  headers = prefix_header ∷ [];
  sizes = record { writer_buffer_size = 0; min_compress_size = 0; max_compress_size = 0 };
  matcher = none;
  compress = λ raw. ok raw;
}

abbrev no_error : ℕ → Option Error
no_error i = none

abbrev entry_of : String → ℕ → ℕ → EntryInfo
entry_of name at size = record {
  path = codes name;
  offset = at;
  data_size = size;
  original_size = 0;
  time_stamp = 7;
  mime_type = 0;
}

abbrev packed_entries : List EntryInfo
packed_entries = entry_of "a.txt" 115 5 ∷ entry_of "b\\c.cpp" 120 8 ∷ []

run : Result (File × RewriteArchiveResult)
unfolding write_archive write written_header equal ascii_lower trim_space normalize_prefix_header
    placeholder_table patch_entries write_items append_written_entry stored_entry encode_fields
    encode_header_section pack_apply_defaults write_rewrite_input_payload write_input_payload
    write_uncompressed_payload should_use_compression_for_input open_input_reader close_input
    copy_payload_bounded copy_loop read after_read probe checked_data_size time_to_u32 put_u32
    is_empty
run = write_archive 100 4 no_error fresh_file none two_items options

abbrev outcome : Result (File × RewriteArchiveResult) → File × RewriteArchiveResult
outcome (ok x) = x
outcome (err _) = (
  fresh_file,
  record {
    pack_result = record {
      written_entries = 0;
      data_size = 0;
      index_size = 0;
      raw_bytes = 0;
      compressed_bytes = 0;
      compressed_entries = 0;
      skipped_compression_entries = 0;
    };
    entries = [];
    headers = [];
  },
)

run_succeeds : run ≡ ok (outcome run)
unfolding run
run_succeeds = refl

parse-write_archive_example :
    parse_index 500
      (bytes_reader (outcome run).0.content)
      (length (outcome run).0.content)
      sequential
    ≡ ok (record {
      header = encode_header;
      headers = (outcome run).1.headers;
      entries = (outcome run).1.entries;
      data_start = index_size (outcome run).1.headers two_items;
    })
unfolding run
parse-write_archive_example =
    parse-write_archive 100 500 4 no_error none two_items options {f = (outcome run).0}
      {res = (outcome run).1} (tt, (tt, tt))
      (((cc), omega arith, omega arith), (((cc), omega arith, omega arith), tt))
      (((cc), omega arith, omega arith), tt) (omega arith) run_succeeds (omega arith)
