-- ===== src/Table.antt =====
-- The entry table: readNullTerminatedBuffered and parseEntriesBuffered of reader.go, and the
-- records that rewriteArchiveDetailed of writer.go writes. The buffered reader is the list of the
-- bytes that are left; a failing read of the source shows as the end of them. A loop takes fuel.
pub mod RoundTrip
use pbo.Common.{
  ℕ, zero, suc, ◌+◌, ◌-◌, Bool, true, false, not, ◌&&◌, List, [], ◌∷◌, ◌++◌, Option, none, some,
  ltb, leb, ◌==◌, if◌then◌else◌, length, take, drop, Bytes,
}
use pbo.Model.{
  Error, Result, ok, err, ◌>>=◌, ◌>>◌, guard, EntryInfo, max_name_len, eof, file_name_too_long,
  out_of_fuel,
}
use pbo.Wire.{ReaderAt, index_byte, put_u32, get_u32, is_empty}

-- `readerEntryBufferSize`
abbrev pub reader_entry_buffer_size : ℕ
reader_entry_buffer_size = 65536

-- How `bufio.Reader.ReadSlice` ends: at the delimiter, with a full buffer, or with the stream.
pub data SliceEnd : Type 0 where
  delimiter buffer_full ended : SliceEnd

-- The case of `bytes.IndexByte` on the buffered window.
unfoldable pub on_delimiter : Option ℕ → ℕ → Bytes → Bytes × SliceEnd × Bytes
on_delimiter (some i) size s = (take (suc i) s, delimiter, drop (suc i) s)
on_delimiter none size s =
    if leb size (length s) then (take size s, buffer_full, drop size s) else (s, ended, [])

-- `ReadSlice(0)` on a buffer of the given size: the chunk, its end, and the bytes left.
unfoldable pub read_slice : ℕ → Bytes → Bytes × SliceEnd × Bytes
unfolding on_delimiter
read_slice size s = on_delimiter (index_byte (take size s) 0) size s

-- What one chunk leads to.
unfoldable pub on_slice :
    SliceEnd → Bytes → Bytes → ℕ → Bytes → Result (Bytes × ℕ × Bytes) → Result (Bytes × ℕ × Bytes)
on_slice delimiter chunk spill consumed left more =
    ok (spill ++ take (length chunk - 1) chunk, consumed + length chunk, left)
on_slice buffer_full chunk spill consumed left more = more
on_slice ended chunk spill consumed left more = err eof

unfoldable pub read_null_buffered : ℕ → ℕ → Bytes → ℕ → Bytes → Result (Bytes × ℕ × Bytes)
read_null_buffered zero size spill consumed s = err out_of_fuel
read_null_buffered (suc fuel) size spill consumed s =
    let (chunk, end, left) = read_slice size s in
    let more = read_null_buffered fuel size (spill ++ chunk) (consumed + length chunk) left in
    on_slice end chunk spill consumed left more

-- `io.ReadFull`
unfoldable pub read_full : ℕ → Bytes → Result (Bytes × Bytes)
read_full n s = if ltb (length s) n then err eof else ok (take n s, drop n s)

-- The record that the 20 bytes of fields stand for.
unfoldable pub decode_fields : Bytes → Bytes → EntryInfo
decode_fields filename fields = record {
  path = filename;
  mime_type = get_u32 fields;
  original_size = get_u32 (drop 4 fields);
  offset = get_u32 (drop 8 fields);
  time_stamp = get_u32 (drop 12 fields);
  data_size = get_u32 (drop 16 fields);
}

-- The record that ends the table.
unfoldable pub is_terminator : EntryInfo → Bool
is_terminator e =
    is_empty e.path
    && e.mime_type == 0
    && e.original_size == 0
    && e.offset == 0
    && e.time_stamp == 0
    && e.data_size == 0

unfoldable pub parse_entries : ℕ → ℕ → Bytes → ℕ → List EntryInfo → Result (List EntryInfo × ℕ)
parse_entries fuel zero s off entries = err out_of_fuel
parse_entries fuel (suc rounds) s off entries = do
  (filename, name_bytes, s') ← read_null_buffered fuel reader_entry_buffer_size [] 0 s
  (fields, s'') ← read_full 20 s'
  let e = decode_fields filename fields
  let off' = off + name_bytes + 20
  let more = do
    guard (leb (length filename) max_name_len) file_name_too_long
    parse_entries fuel rounds s'' off' (entries ++ e ∷ [])
  if is_terminator e then ok (entries, off') else more

unfoldable pub parse_entries_buffered : ℕ → ReaderAt → ℕ → ℕ → Result (List EntryInfo × ℕ)
parse_entries_buffered fuel ra table_offset size =
    if leb size table_offset
    then err eof
    else parse_entries fuel fuel (ra table_offset (size - table_offset)).0 table_offset []

-- The fields in the order of the table; the writer stores the offset 0.
unfoldable pub encode_fields : EntryInfo → Bytes
unfolding put_u32
encode_fields e =
    put_u32 e.mime_type
    ++ (put_u32 e.original_size
        ++ (put_u32 e.offset ++ (put_u32 e.time_stamp ++ put_u32 e.data_size)))

unfoldable pub encode_entries : List EntryInfo → Bytes
encode_entries [] = []
encode_entries (e ∷ es) = e.path ++ 0 ∷ (encode_fields e ++ encode_entries es)

-- The terminator of the table.
abbrev pub table_end : EntryInfo
table_end = record {
  path = [];
  mime_type = 0;
  original_size = 0;
  offset = 0;
  time_stamp = 0;
  data_size = 0;
}

unfoldable pub encode_table : List EntryInfo → Bytes
unfolding encode_entries encode_fields
encode_table es = encode_entries es ++ encode_entries (table_end ∷ [])
