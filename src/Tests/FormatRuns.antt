-- ===== src/Tests/FormatRuns.antt =====
-- The header section, the entry table and the path scan on small inputs.
use pbo.Common.{◌+◌, ◌≡◌, refl, List, [], ◌∷◌, ◌++◌, Bytes, arith, length}
use pbo.Model.{ok, HeaderPair, EntryInfo}
use pbo.Text.{codes}
use pbo.Wire.{bytes_reader, is_empty, put_u32}
use pbo.Header.{
  encode_header, encode_pairs, encode_header_section, parse_header_section, read_null_terminated,
}
use pbo.Header.RoundTrip.{parse_header_section-encode, read_null_terminated_lem}
use pbo.Table.{encode_table, encode_entries, encode_fields, is_terminator, parse_entries_buffered}
use pbo.Table.RoundTrip.{IsRow, parse_entries_buffered-encode}

abbrev pairs : List HeaderPair
pairs =
    record { key = codes "prefix"; value = codes "x" }
    ∷ record { key = codes "version"; value = [] }
    ∷ []

abbrev tail_bytes : Bytes
tail_bytes = 1 ∷ 2 ∷ 3 ∷ []

pairs_size : length (encode_pairs pairs) ≡ 18
unfolding encode_pairs
pairs_size = refl

parse_header_section-encode_example :
    parse_header_section 40 (bytes_reader (encode_header_section pairs ++ tail_bytes))
    ≡ ok (encode_header, pairs, length (encode_header_section pairs))
parse_header_section-encode_example =
    parse_header_section-encode 40 pairs tail_bytes
      (
        (
          cc,
          (
            omega arith,
            (omega arith, (omega arith, (omega arith, (omega arith, (omega arith, tt))))),
          ),
          (omega arith, tt),
        ),
        (
          (
            cc,
            (
              omega arith,
              (
                omega arith,
                (omega arith, (omega arith, (omega arith, (omega arith, (omega arith, tt))))),
              ),
            ),
            tt,
          ),
          tt,
        ),
      )
      (omega (arith, pairs_size))

read_null_terminated_lem_example :
    read_null_terminated 10 (bytes_reader (9 ∷ 65 ∷ 66 ∷ 0 ∷ 7 ∷ [])) 1 ≡ ok (65 ∷ 66 ∷ [], 3)
read_null_terminated_lem_example =
    read_null_terminated_lem 10 (9 ∷ 65 ∷ 66 ∷ 0 ∷ 7 ∷ []) 1 (65 ∷ 66 ∷ []) (7 ∷ [])
      (omega arith, (omega arith, tt)) (omega arith) refl

abbrev row : EntryInfo
row = record {
  path = codes "ab";
  offset = 0;
  data_size = 5;
  original_size = 9;
  time_stamp = 3;
  mime_type = 0x43707273;
}

row-IsRow : IsRow row
unfolding is_terminator is_empty
row-IsRow = record {
  words = record {
    offset = omega arith;
    data_size = omega arith;
    original_size = omega arith;
    time_stamp = omega arith;
    mime_type = omega arith;
  };
  no_nul = (omega arith, (omega arith, tt));
  short = omega arith;
  not_end = refl;
}

table_size : length (encode_table (row ∷ [])) ≡ 44
unfolding encode_table encode_entries encode_fields put_u32
table_size = refl

parse_entries_buffered-encode_example :
    parse_entries_buffered 50
      (bytes_reader (tail_bytes ++ (encode_table (row ∷ []) ++ tail_bytes)))
      (length tail_bytes)
      (length (tail_bytes ++ (encode_table (row ∷ []) ++ tail_bytes)))
    ≡ ok (row ∷ [], length tail_bytes + length (encode_table (row ∷ [])))
parse_entries_buffered-encode_example =
    parse_entries_buffered-encode 50 (row ∷ []) tail_bytes tail_bytes (row-IsRow, tt)
      (omega (arith, table_size))
