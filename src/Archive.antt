-- ===== src/Archive.antt =====
-- rewriteArchiveDetailed of writer.go, up to the sealed transform: header and table with
-- placeholders, the payloads, and the patches of the table. The destination is a file with a
-- position, whose writes succeed; `ctx` gives what ctx.Err() returns before each entry.
pub mod Layout
pub mod Rows
pub mod RoundTrip
use pbo.Common.{
  ℕ, zero, suc, ◌+◌, ◌-◌, ◌%◌, ◌^◌, Bool, true, false, not, ◌&&◌, List, [], ◌∷◌, ◌++◌, map, Option,
  none, some, ltb, leb, ◌==◌, if◌then◌else◌, length, take, drop, replicate, Bytes, add_u32, add_i64,
  sub_i64,
}
use pbo.Model.{
  Error, Result, ok, err, ◌>>=◌, ◌>>◌, guard, EntryInfo, HeaderPair, mime_compress, max_pbo_data,
  size_overflow, nil_reader, pack_apply_defaults,
}
use pbo.Wire.{ReaderAt}
use pbo.Text.{codes, equal, trim_space, ascii_lower}
use pbo.Paths.{normalize_prefix_header}
use pbo.Header.{encode_header_section}
use pbo.Table.{encode_fields}
use pbo.Payload.{
  Input, WrittenEntry, RewriteEntry, PackOptions, write_rewrite_input_payload,
  write_source_packed_payload,
}

pub record File : Type 0 where
  pub content : Bytes
  pub pos : ℕ

abbrev pub fresh_file : File
fresh_file = record { content = []; pos = 0 }

-- The content with `d` at `pos`; a gap before it is filled with zeros.
unfoldable pub overwrite : Bytes → ℕ → Bytes → Bytes
overwrite c pos d = take pos c ++ (replicate (pos - length c) 0 ++ (d ++ drop (pos + length d) c))

unfoldable pub write : File → Bytes → File
unfolding overwrite
write f d = record { content = overwrite f.content f.pos d; pos = f.pos + length d }

-- The value of a "prefix" header is normalised. `strings.EqualFold` against "prefix" is the
-- comparison of ASCII lower case, since no other rune folds to one of its letters.
unfoldable pub written_header : HeaderPair → HeaderPair
written_header h =
    if equal (ascii_lower (trim_space h.key)) (codes "prefix")
    then record h { value = normalize_prefix_header h.value }
    else h

-- The table before the payloads are known.
unfoldable pub placeholder_table : List RewriteEntry → Bytes
placeholder_table [] = 0 ∷ replicate 20 0
placeholder_table (item ∷ plan) = item.path ++ 0 ∷ (replicate 20 0 ++ placeholder_table plan)

-- The variables of the payload loop; `payloads` are the bytes that it has written.
pub record Progress : Type 0 where
  pub payloads : Bytes
  pub written : List WrittenEntry
  pub entries : List EntryInfo
  pub current_offset : ℕ
  pub raw_bytes : ℕ
  pub compressed_bytes : ℕ
  pub compressed_entries : ℕ
  pub skipped_entries : ℕ

unfoldable pub append_written_entry : Progress → Bytes → WrittenEntry → Bytes → Progress
append_written_entry p path r payload =
    let compressed = r.mime == mime_compress in
    record {
      payloads = p.payloads ++ payload;
      written = p.written ++ r ∷ [];
      entries =
          p.entries
          ++ record {
            path = path;
            offset = p.current_offset;
            data_size = r.data_size;
            original_size = r.original_size;
            time_stamp = r.timestamp;
            mime_type = r.mime;
          }
            ∷ [];
      current_offset = add_u32 p.current_offset r.data_size;
      raw_bytes = if compressed then p.raw_bytes else add_i64 p.raw_bytes r.data_size;
      compressed_bytes =
          if compressed then add_i64 p.compressed_bytes r.data_size else p.compressed_bytes;
      compressed_entries =
          if compressed then add_i64 p.compressed_entries 1 else p.compressed_entries;
      skipped_entries =
          if r.compression_candidate && not compressed
          then add_i64 p.skipped_entries 1
          else p.skipped_entries;
    }

-- `if err := ctx.Err(); err != nil { return nil, err }`
unfoldable pub check_context : Option Error → Result (Unit {0})
check_context none = ok tt
check_context (some e) = err e

module _ (fuel buffer : ℕ) (src : Option ReaderAt) (opts : PackOptions) where
  -- A source entry wants a source archive; an input is opened, written and closed.
  unfoldable pub write_packed :
      Option ReaderAt → Bytes → EntryInfo → ℕ → Result (WrittenEntry × Bytes)
  write_packed none path e current = err nil_reader
  write_packed (some ra) path e current = write_source_packed_payload fuel buffer ra path e current

  unfoldable pub write_item : Option EntryInfo → RewriteEntry → ℕ → Result (WrittenEntry × Bytes)
  unfolding write_packed
  write_item (some e) item current = write_packed src item.path e current
  write_item none item current = write_rewrite_input_payload fuel buffer item.input opts current

  unfoldable pub write_items :
      (ℕ → Option Error) → ℕ → List RewriteEntry → Progress → Result Progress
  unfolding write_item check_context
  write_items ctx i [] p = ok p
  write_items ctx i (item ∷ plan) p = do
    check_context (ctx i)
    (r, payload) ← write_item item.source item p.current_offset
    write_items ctx (i + 1) plan (append_written_entry p item.path r payload)

-- The record that the patch of a row writes; its offset is zero.
unfoldable pub stored_entry : Bytes → WrittenEntry → EntryInfo
stored_entry path r = record {
  path = path;
  offset = 0;
  data_size = r.data_size;
  original_size = r.original_size;
  time_stamp = r.timestamp;
  mime_type = r.mime;
}

-- The loop that seeks to the fields of each row and writes them.
unfoldable pub patch_entries : ℕ → List RewriteEntry → List WrittenEntry → File → File
patch_entries pos [] written f = f
patch_entries pos (item ∷ plan) [] f = f
patch_entries pos (item ∷ plan) (r ∷ written) f =
    let at = pos + (length item.path + 1) in
    patch_entries (at + 20) plan written
      (write (record f { pos = at }) (encode_fields (stored_entry item.path r)))

-- Byte counts are int64 patterns.
pub record PackResult : Type 0 where
  pub written_entries : ℕ
  pub data_size : ℕ
  pub index_size : ℕ
  pub raw_bytes : ℕ
  pub compressed_bytes : ℕ
  pub compressed_entries : ℕ
  pub skipped_compression_entries : ℕ

pub record RewriteArchiveResult : Type 0 where
  pub pack_result : PackResult
  pub entries : List EntryInfo
  pub headers : List HeaderPair

abbrev pub start_progress : ℕ → Progress
start_progress data_start = record {
  payloads = [];
  written = [];
  entries = [];
  current_offset = data_start % 2 ^ 32;
  raw_bytes = 0;
  compressed_bytes = 0;
  compressed_entries = 0;
  skipped_entries = 0;
}

unfoldable pub write_archive :
    ℕ
    → ℕ
    → (ℕ → Option Error)
    → File
    → Option ReaderAt
    → List RewriteEntry
    → PackOptions
    → Result (File × RewriteArchiveResult)
write_archive fuel buffer ctx out src plan opts = do
  let opts' = record opts { sizes = pack_apply_defaults opts.sizes }
  let headers = map written_header opts.headers
  let with_headers = write out (encode_header_section headers)
  let with_table = write with_headers (placeholder_table plan)
  let data_start = with_table.pos
  guard (not (ltb max_pbo_data data_start)) size_overflow
  p ← write_items fuel buffer src opts' ctx 0 plan (start_progress data_start)
  let with_payloads = write with_table p.payloads
  let patched = patch_entries with_headers.pos plan p.written with_payloads
  ok (
    patched,
    record {
      pack_result = record {
        written_entries = length p.written;
        data_size = sub_i64 p.current_offset data_start;
        index_size = sub_i64 data_start with_headers.pos;
        raw_bytes = p.raw_bytes;
        compressed_bytes = p.compressed_bytes;
        compressed_entries = p.compressed_entries;
        skipped_compression_entries = p.skipped_entries;
      };
      entries = p.entries;
      headers = headers;
    },
  )
