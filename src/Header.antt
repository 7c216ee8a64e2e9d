-- ===== src/Header.antt =====
-- The fixed header and the key-value pairs: readNullTerminated and parseHeaderSection of reader.go,
-- and the header part of rewriteArchiveDetailed of writer.go. A loop of the source takes fuel.
pub mod Local
pub mod RoundTrip
pub mod Window
use pbo.Common.{
  ℕ, zero, suc, ◌+◌, Bool, true, false, List, [], ◌∷◌, ◌++◌, Option, none, some, ◌==◌, not,
  if◌then◌else◌, length, take, drop, replicate, Bytes,
}
use pbo.Model.{
  Error, Result, ok, err, ◌>>=◌, ◌>>◌, guard, HeaderPair, header_size, mime_header, invalid_header,
  eof, out_of_fuel,
}
use pbo.Wire.{ReaderAt, index_byte, put_u32, get_u32, is_empty}

-- `readerScanChunkSize`
abbrev pub reader_scan_chunk_size : ℕ
reader_scan_chunk_size = 256

-- What follows a chunk without a NUL: the error of the read, then io.EOF for an empty one.
unfoldable pub after_chunk : Option Error → Bytes → Result (Bytes × ℕ) → Result (Bytes × ℕ)
after_chunk (some e) part more = err e
after_chunk none [] more = err eof
after_chunk none (_ ∷ _) more = more

-- The case of `bytes.IndexByte` on the chunk.
unfoldable pub on_index : Option ℕ → Bytes → Bytes → ℕ → Result (Bytes × ℕ) → Result (Bytes × ℕ)
on_index (some idx) part out total more = ok (out ++ take idx part, total + idx + 1)
on_index none part out total more = more

unfoldable pub read_null_from : ℕ → ℕ → ReaderAt → ℕ → ℕ → Bytes → Result (Bytes × ℕ)
read_null_from zero chunk ra offset total out = err out_of_fuel
read_null_from (suc fuel) chunk ra offset total out =
    let (part, e) = ra (offset + total) chunk in
    let more = read_null_from fuel chunk ra offset (total + length part) (out ++ part) in
    on_index (index_byte part 0) part out total (after_chunk e part more)

unfoldable pub read_null_terminated : ℕ → ReaderAt → ℕ → Result (Bytes × ℕ)
read_null_terminated fuel ra offset = read_null_from fuel reader_scan_chunk_size ra offset 0 []

-- The loop over header pairs; an empty key ends it.
unfoldable pub parse_pairs : ℕ → ℕ → ReaderAt → ℕ → List HeaderPair → Result (List HeaderPair × ℕ)
parse_pairs fuel zero ra off headers = err out_of_fuel
parse_pairs fuel (suc rounds) ra off headers = do
  (key, n) ← read_null_terminated fuel ra off
  let off' = off + n
  let more = do
    (value, m) ← read_null_terminated fuel ra off'
    parse_pairs fuel rounds ra (off' + m) (headers ++ record { key = key; value = value } ∷ [])
  if is_empty key then ok (headers, off') else more

-- The error of the read of the fixed header.
unfoldable pub check_header_read : Option Error → Result (Unit {0})
check_header_read none = ok tt
check_header_read (some eof) = err invalid_header
check_header_read (some e) = err e

unfoldable pub parse_header_section : ℕ → ReaderAt → Result (Bytes × List HeaderPair × ℕ)
parse_header_section fuel ra = do
  let (header, e) = ra 0 header_size
  check_header_read e
  guard (get_u32 (drop 1 header) == mime_header) invalid_header
  (headers, off) ← parse_pairs fuel fuel ra header_size []
  ok (header, headers, off)

-- What the writer emits: a zeroed block with the mime marker at offset 1, then each pair with its
-- two terminators, then the terminator of the section.
unfoldable pub encode_header : Bytes
unfolding put_u32
encode_header = 0 ∷ (put_u32 mime_header ++ replicate 16 0)

unfoldable pub encode_pairs : List HeaderPair → Bytes
encode_pairs [] = []
encode_pairs (h ∷ hs) = h.key ++ 0 ∷ (h.value ++ 0 ∷ encode_pairs hs)

unfoldable pub encode_header_section : List HeaderPair → Bytes
unfolding encode_header encode_pairs
encode_header_section hs = encode_header ++ (encode_pairs hs ++ 0 ∷ [])
