-- ===== src/Table/RoundTrip.antt =====
-- The entry table that the writer emits is read back.
use pbo.Common.{
  ℕ, zero, suc, ◌+◌, ◌-◌, ◌^◌, ◌≤◌, ◌<◌, ◌≡◌, refl, sym, ap, ap₂, ◌∙◌, true, false, List, [], ◌∷◌,
  ◌++◌, arith, ltb, leb, ltb→lt, take-of_le, inl, inr, length, take, drop, length-append,
  length-take, length-drop, take-append, drop-append, take-append-drop, append_assoc, append-nil,
  Bytes, All, Lacks, All-take, All-drop, Bool-cases,
}
use pbo.Model.{ok, EntryInfo, max_name_len}
use pbo.Wire.{
  bytes_reader, index_byte-Lacks, index_byte-take, take-append_le, drop-append_le, get_u32,
  is_empty,
}
use pbo.Table.{
  read_slice, on_delimiter, on_slice, delimiter, buffer_full, read_null_buffered, read_full,
  decode_fields, is_terminator, parse_entries, parse_entries_buffered, encode_fields,
  encode_entries, encode_table, table_end, reader_entry_buffer_size,
}

read_slice_found :
    (size : ℕ) (s rest : Bytes)
    → Lacks 0 s
    → length s < size
    → read_slice size (s ++ 0 ∷ rest) ≡ (s ++ 0 ∷ [], delimiter, rest)
unfolding read_slice
read_slice_found size s rest h short =
    let e : suc (length s) ≡ length (s ++ 0 ∷ []) = omega (arith, length-append s (0 ∷ [])) in
    let whole : s ++ 0 ∷ rest ≡ (s ++ 0 ∷ []) ++ rest = sym (append_assoc s (0 ∷ []) rest) in
    rw (index_byte-take 0 s rest size h short, e, whole)
      (rw (take-append (s ++ 0 ∷ []) rest, drop-append (s ++ 0 ∷ []) rest))

read_slice_full :
    (size : ℕ) (s rest : Bytes)
    → Lacks 0 s
    → size ≤ length s
    → read_slice size (s ++ 0 ∷ rest) ≡ (take size s, buffer_full, drop size s ++ 0 ∷ rest)
unfolding read_slice
read_slice_full size s rest h long =
    rw
      (
        take-append_le s (0 ∷ rest) size long,
        index_byte-Lacks 0 (take size s) (All-take _ size s h),
        on_delimiter,
        take-append_le s (0 ∷ rest) size long,
        drop-append_le s (0 ∷ rest) size long,
      )
      (ground (arith, length-append s (0 ∷ rest)))

take_init : (s : Bytes) (b : ℕ) → take (length (s ++ b ∷ []) - 1) (s ++ b ∷ []) ≡ s
take_init s b =
    let e : length (s ++ b ∷ []) - 1 ≡ length s = omega (arith, length-append s (b ∷ [])) in
    rw e (take-append s (b ∷ []))

-- A name is read across any number of full buffers; the count covers the NUL.
read_null_buffered_lem :
    (fuel size : ℕ) (spill : Bytes) (consumed : ℕ) (s rest : Bytes)
    → 0 < size
    → Lacks 0 s
    → length s < fuel
    → read_null_buffered fuel size spill consumed (s ++ 0 ∷ rest)
      ≡ ok (spill ++ s, consumed + length s + 1, rest)
unfolding read_null_buffered on_slice
read_null_buffered_lem zero size spill consumed s rest pos h lt = absurd (omega arith)
read_null_buffered_lem (suc fuel) size spill consumed s rest pos h lt =
    elim (Bool-cases (ltb (length s) size)) [
      | inl short ↦
          rw (read_slice_found size s rest h (ltb→lt _ _ short), take_init s 0)
            (ap (λ n. ok (spill ++ s, n, rest)) (omega (arith, length-append s (0 ∷ []))))
      | inr long ↦
          let le : size ≤ length s = ground arith in
          let left : length (drop size s) ≡ length s - size = length-drop size s in
          let ih =
            read_null_buffered_lem fuel size (spill ++ take size s)
              (consumed + length (take size s)) (drop size s) rest pos (All-drop _ size s h)
              (omega arith) in
          rw (read_slice_full size s rest h le, ih)
            (ap₂ (λ a n. ok (a, n, rest))
              (append_assoc spill (take size s) (drop size s)
                ∙ ap (λ t. spill ++ t) (take-append-drop size s))
              (omega (arith, length-take size s)))
    ]

-- Every number of the record is a uint32.
pub record IsWords (e : EntryInfo) : Type 0 where
  pub offset : e.offset < 2 ^ 32
  pub data_size : e.data_size < 2 ^ 32
  pub original_size : e.original_size < 2 ^ 32
  pub time_stamp : e.time_stamp < 2 ^ 32
  pub mime_type : e.mime_type < 2 ^ 32

-- A record that the reader accepts as a row of the table.
pub record IsRow (e : EntryInfo) : Type 0 where
  pub words : IsWords e
  pub no_nul : Lacks 0 e.path
  pub short : length e.path ≤ max_name_len
  pub not_end : is_terminator e ≡ false

module _ (e : EntryInfo) (w : IsWords e) where
  open w use {offset as o, data_size as d, original_size as s, time_stamp as t, mime_type as m}

  decode_fields-encode : decode_fields e.path (encode_fields e) ≡ e
  unfolding decode_fields encode_fields get_u32
  decode_fields-encode =
      let mime : (decode_fields e.path (encode_fields e)).mime_type ≡ e.mime_type = omega arith in
      let original : (decode_fields e.path (encode_fields e)).original_size ≡ e.original_size =
        omega arith in
      let off : (decode_fields e.path (encode_fields e)).offset ≡ e.offset = omega arith in
      let stamp : (decode_fields e.path (encode_fields e)).time_stamp ≡ e.time_stamp =
        omega arith in
      let size : (decode_fields e.path (encode_fields e)).data_size ≡ e.data_size = omega arith in
      λ i. record {
        path = e.path;
        offset = off i;
        data_size = size i;
        original_size = original i;
        time_stamp = stamp i;
        mime_type = mime i;
      }

read_full-encode_fields :
    (e : EntryInfo) (rest : Bytes)
    → read_full 20 (encode_fields e ++ rest) ≡ ok (encode_fields e, rest)
unfolding read_full encode_fields
read_full-encode_fields e rest = ground arith

pub length-encode_fields : (e : EntryInfo) → length (encode_fields e) ≡ 20
unfolding encode_fields
length-encode_fields e = refl

length-encode_entries :
    (e : EntryInfo) (es : List EntryInfo)
    → length (encode_entries (e ∷ es)) ≡ length e.path + 21 + length (encode_entries es)
unfolding encode_entries
length-encode_entries e es = omega (
  arith,
  length-append e.path (0 ∷ (encode_fields e ++ encode_entries es)),
  length-append (encode_fields e) (encode_entries es),
  length-encode_fields e,
)

-- One row before the rest of the stream.
read_row :
    (e : EntryInfo) (fuel : ℕ) (rest : Bytes)
    → Lacks 0 e.path
    → length e.path < fuel
    → read_null_buffered fuel reader_entry_buffer_size [] 0
        (e.path ++ 0 ∷ (encode_fields e ++ rest))
      ≡ ok (e.path, length e.path + 1, encode_fields e ++ rest)
read_row e fuel rest h lt =
    read_null_buffered_lem fuel reader_entry_buffer_size [] 0 e.path (encode_fields e ++ rest)
      (omega arith) h lt
    ∙ ap (λ n. ok (e.path, n, encode_fields e ++ rest)) (omega arith)

parse_entries_end :
    (acc : List EntryInfo) (fuel rounds off : ℕ) (rest : Bytes)
    → 0 < fuel
    → parse_entries fuel (suc rounds) (0 ∷ (encode_fields table_end ++ rest)) off acc
      ≡ ok (acc, off + 21)
unfolding parse_entries
parse_entries_end acc fuel rounds off rest pos =
    let fields = decode_fields-encode table_end (omega arith) in
    rw (read_row table_end fuel rest tt pos, read_full-encode_fields table_end rest, fields)
      (unfold is_terminator is_empty in ap (λ n. ok (acc, n)) (omega arith))

parse_entries_row :
    (e : EntryInfo) (acc : List EntryInfo) (fuel rounds off : ℕ) (rest : Bytes)
    → IsRow e
    → length e.path < fuel
    → parse_entries fuel (suc rounds) (e.path ++ 0 ∷ (encode_fields e ++ rest)) off acc
      ≡ parse_entries fuel rounds rest (off + (length e.path + 21)) (acc ++ e ∷ [])
unfolding parse_entries
parse_entries_row e acc fuel rounds off rest row lt =
    let fits : leb (length e.path) max_name_len ≡ true = ground (arith, row.short) in
    let next : off + (length e.path + 1) + 20 ≡ off + (length e.path + 21) = omega arith in
    rw (
      read_row e fuel rest row.no_nul lt,
      read_full-encode_fields e rest,
      decode_fields-encode e row.words,
      row.not_end,
      fits,
      next,
    )

parse_entries_lem :
    (es acc : List EntryInfo) (fuel rounds off : ℕ) (rest : Bytes)
    → All IsRow es
    → length (encode_entries es) < fuel
    → length (encode_entries es) < rounds
    → parse_entries fuel rounds
        (encode_entries es ++ (0 ∷ (encode_fields table_end ++ rest)))
        off
        acc
      ≡ ok (acc ++ es, off + length (encode_entries es) + 21)
parse_entries_lem es acc fuel zero off rest _ _ lt = absurd (omega arith)
parse_entries_lem [] acc fuel (suc rounds) off rest _ hf hr =
    unfold encode_entries in
    parse_entries_end acc fuel rounds off rest (omega arith)
    ∙ ap₂ (λ a n. ok (a, n)) (sym (append-nil acc)) (omega arith)
parse_entries_lem (e ∷ es) acc fuel (suc rounds) off rest (row, rows) hf hr =
    let size = length-encode_entries e es in
    let tail = 0 ∷ (encode_fields table_end ++ rest) in
    let stream : encode_entries (e ∷ es) ++ tail
        ≡ e.path ++ 0 ∷ (encode_fields e ++ (encode_entries es ++ tail)) =
      unfold encode_entries in
      append_assoc e.path _ tail
      ∙ ap (λ t. e.path ++ 0 ∷ t) (append_assoc (encode_fields e) (encode_entries es) tail) in
    ap (λ s. parse_entries fuel (suc rounds) s off acc) stream
    ∙ parse_entries_row e acc fuel rounds off (encode_entries es ++ tail) row (omega arith)
    ∙ parse_entries_lem es (acc ++ e ∷ []) fuel rounds (off + (length e.path + 21)) rest rows
        (omega arith) (omega arith)
    ∙ ap₂ (λ a n. ok (a, n)) (append_assoc acc (e ∷ []) es) (omega arith)

pub length-encode_table :
    (es : List EntryInfo) → length (encode_table es) ≡ length (encode_entries es) + 21
unfolding encode_table
length-encode_table es =
    omega (arith, length-append (encode_entries es) (encode_entries (table_end ∷ [])))

-- The section from a position to the end of the source.
section_read :
    (pre body : Bytes)
    → (bytes_reader (pre ++ body) (length pre) (length (pre ++ body) - length pre)).0 ≡ body
unfolding bytes_reader
section_read pre body =
    rw (drop-append pre body) (take-of_le _ body (omega (arith, length-append pre body)))

-- The table that the writer emits, behind `pre` and before any rest, is read back: the rows in
-- their order, and the position behind the terminator. No path holds a NUL or is longer than 512
-- bytes, no row is the terminator, the numbers are uint32, and the fuel exceeds the table.
pub parse_entries_buffered-encode :
    (fuel : ℕ) (es : List EntryInfo) (pre rest : Bytes)
    → All IsRow es
    → length (encode_table es) ≤ fuel
    → parse_entries_buffered fuel
        (bytes_reader (pre ++ (encode_table es ++ rest)))
        (length pre)
        (length (pre ++ (encode_table es ++ rest)))
      ≡ ok (es, length pre + length (encode_table es))
unfolding parse_entries_buffered
parse_entries_buffered-encode fuel es pre rest rows lt =
    let body = encode_table es ++ rest in
    let size = length-encode_table es in
    let inside : leb (length (pre ++ body)) (length pre) ≡ false =
      ground (arith, length-append pre body, length-append (encode_table es) rest, size) in
    let split : body ≡ encode_entries es ++ (0 ∷ (encode_fields table_end ++ rest)) =
      unfold encode_table encode_entries in append_assoc (encode_entries es) _ rest in
    rw (inside, section_read pre body)
      (ap (λ s. parse_entries fuel fuel s (length pre) []) split
        ∙ parse_entries_lem es [] fuel fuel (length pre) rest rows (omega arith) (omega arith)
        ∙ ap (λ n. ok (es, n)) (omega arith))
