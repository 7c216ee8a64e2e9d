-- ===== src/Archive/RoundTrip.antt =====
-- What the writer writes, the reader reads back.
use pbo.Common.{
  ℕ, ◌+◌, ◌%◌, ◌^◌, ◌≤◌, ◌<◌, ◌≡◌, ◌≢◌, refl, sym, ap, ap₂, ◌∙◌, subst, List, [], ◌∷◌, ◌++◌, map,
  Option, length, Bytes, All, Lacks, arith, max_u32, length-append, false, not, ltb,
}
use pbo.Model.{
  Error, ok, guard, bind-eq-ok, ok-injective, EntryInfo, HeaderPair, sequential, max_name_len,
  max_pbo_data, size_overflow, pack_apply_defaults,
}
use pbo.Wire.{ReaderAt, bytes_reader, is_empty_of_ne}
use pbo.Header.{encode_header, encode_pairs, encode_header_section}
use pbo.Header.RoundTrip.{IsPair, parse_header_section-encode}
use pbo.Table.{encode_table, is_terminator}
use pbo.Table.RoundTrip.{IsRow, IsWords, parse_entries_buffered-encode}
use pbo.Offsets.Sequential.{laid_out, total_data, resolve_sequential}
use pbo.Reader.{parse_index}
use pbo.Payload.{WrittenEntry, RewriteEntry, PackOptions}
use pbo.Archive.{
  File, fresh_file, write, written_header, placeholder_table, write_items, start_progress,
  patch_entries, stored_entry, write_archive, RewriteArchiveResult,
}
use pbo.Archive.Rows.{IsItem, rows, write_items-Wrote}
use pbo.Archive.Layout.{write_three, patched_layout, length-encode_table-rows}

-- A path that a row can hold.
abbrev pub IsRowPath : Bytes → Type 0
IsRowPath p = (p ≢ []) × Lacks 0 p × (length p ≤ max_name_len)

abbrev pub HasRowPath : RewriteEntry → Type 0
HasRowPath item = IsRowPath item.path

-- The bytes of the header section and of the table before the payloads.
abbrev pub index_size : List HeaderPair → List RewriteEntry → ℕ
index_size headers plan = length (encode_header_section headers) + length (placeholder_table plan)

-- An archive: its bytes are the printed header, the printed table and the payloads, and the
-- returned entries are the rows with the offsets of their payloads.
pub record IsArchive (plan : List RewriteEntry) (opts : PackOptions) (f : File)
    (res : RewriteArchiveResult) : Type 0 where
  pub table : List EntryInfo
  pub payloads : Bytes
  pub headers : res.headers ≡ map written_header opts.headers
  pub layout : f.content ≡ encode_header_section res.headers ++ (encode_table table ++ payloads)
  pub entries : res.entries ≡ laid_out (index_size res.headers plan) table
  pub index : length (encode_table table) ≡ length (placeholder_table plan)
  pub counts : length payloads ≡ total_data table
  pub fits : index_size res.headers plan + total_data table ≤ max_u32
  pub words : All IsWords table
  pub paths : map (λ (e : EntryInfo). e.path) table ≡ map (λ (i : RewriteEntry). i.path) plan

rows-paths :
    (plan : List RewriteEntry) (written : List WrittenEntry)
    → length written ≡ length plan
    → map (λ (e : EntryInfo). e.path) (rows plan written) ≡ map (λ (i : RewriteEntry). i.path) plan
unfolding stored_entry
rows-paths [] written one = refl
rows-paths (item ∷ plan) [] one = absurd (omega arith)
rows-paths (item ∷ plan) (r ∷ written) one =
    ap (◌∷◌ item.path) (rows-paths plan written (omega arith))

write_archive-IsArchive :
    (fuel buffer : ℕ) (ctx : ℕ → Option Error) (src : Option ReaderAt) (plan : List RewriteEntry)
    (opts : PackOptions) {f : File} {res : RewriteArchiveResult}
    → All IsItem plan
    → index_size (map written_header opts.headers) plan ≤ max_u32
    → write_archive fuel buffer ctx fresh_file src plan opts ≡ ok (f, res)
    → IsArchive plan opts f res
unfolding write_archive
write_archive-IsArchive fuel buffer ctx src plan opts {f} {res} items small e =
    let opts' : PackOptions = record opts { sizes = pack_apply_defaults opts.sizes } in
    let headers = map written_header opts.headers in
    let head = encode_header_section headers in
    let table = placeholder_table plan in
    let f₁ = write fresh_file head in
    let f₂ = write f₁ table in
    let (_, _, e₁) = bind-eq-ok (guard (not (ltb max_pbo_data f₂.pos)) size_overflow) _ e in
    let (p, looped, e₂) =
      bind-eq-ok (write_items fuel buffer src opts' ctx 0 plan (start_progress f₂.pos)) _ e₁ in
    let wrote = write_three head table p.payloads in
    let start : f₂.pos % 2 ^ 32 ≡ index_size headers plan = omega (arith, wrote.pos₂, small) in
    let w =
      write_items-Wrote fuel buffer src opts' ctx plan 0 (start_progress f₂.pos) items
        (omega (arith, start, small)) looped in
    subst (λ (x : File × RewriteArchiveResult). IsArchive plan opts x.0 x.1) (ok-injective e₂)
      (record {
        table = rows plan w.added;
        payloads = w.bytes;
        headers = refl;
        layout =
            ap (λ n. (patch_entries n plan p.written (write f₂ p.payloads)).content) wrote.pos₁
            ∙ patched_layout head plan p.written p.payloads (write f₂ p.payloads)
                (ap length w.written ∙ w.one_each) wrote.content₃
            ∙ ap₂ (λ ws d. head ++ (encode_table (rows plan ws) ++ d)) w.written w.payloads;
        entries = w.entries ∙ ap (λ n. laid_out n (rows plan w.added)) start;
        index = length-encode_table-rows plan w.added w.one_each;
        counts = w.counts;
        fits = omega (arith, w.current, start, w.bounded);
        words = w.words;
        paths = rows-paths plan w.added w.one_each;
      })

is_terminator-path : (e : EntryInfo) → e.path ≢ [] → is_terminator e ≡ false
unfolding is_terminator
is_terminator-path e h = rw (is_empty_of_ne e.path h)

paths-rows :
    (plan : List RewriteEntry)
    → All HasRowPath plan
    → All IsRowPath (map (λ (i : RewriteEntry). i.path) plan)
paths-rows [] h = tt
paths-rows (item ∷ plan) (h, hs) = (h, paths-rows plan hs)

table-rows :
    (table : List EntryInfo)
    → All IsWords table
    → All IsRowPath (map (λ (e : EntryInfo). e.path) table)
    → All IsRow table
table-rows [] _ _ = tt
table-rows (e ∷ table) (w, ws) ((ne, lacks, short), ps) = (
  record { words = w; no_nul = lacks; short = short; not_end = is_terminator-path e ne },
  table-rows table ws ps,
)

-- What the reader finds in bytes that are laid out as an archive.
parse_layout :
    (fuel : ℕ) (headers : List HeaderPair) (table : List EntryInfo) (payloads : Bytes)
    → All IsPair headers
    → All IsRow table
    → length (encode_pairs headers) < fuel
    → length (encode_table table) ≤ fuel
    → length payloads ≡ total_data table
    → length (encode_header_section headers) + length (encode_table table) + total_data table
      ≤ max_u32
    → parse_index fuel
        (bytes_reader (encode_header_section headers ++ (encode_table table ++ payloads)))
        (length (encode_header_section headers ++ (encode_table table ++ payloads)))
        sequential
      ≡ ok (record {
        header = encode_header;
        headers = headers;
        entries =
            laid_out (length (encode_header_section headers) + length (encode_table table)) table;
        data_start = length (encode_header_section headers) + length (encode_table table);
      })
unfolding parse_index
parse_layout fuel headers table payloads pairs rows hf tf count fits =
    let head = encode_header_section headers in
    let size = length (head ++ (encode_table table ++ payloads)) in
    let total : size ≡ length head + (length (encode_table table) + length payloads) = omega (
      arith,
      length-append head (encode_table table ++ payloads),
      length-append (encode_table table) payloads,
    ) in
    rw (
      parse_header_section-encode fuel headers (encode_table table ++ payloads) pairs hf,
      parse_entries_buffered-encode fuel table head payloads rows tf,
      resolve_sequential table (length head + length (encode_table table)) size
          (omega (arith, total, count, fits)) (omega (arith, fits)) (omega (arith, total, count)),
    )

length-encode_header_section :
    (hs : List HeaderPair) → length (encode_pairs hs) + 22 ≡ length (encode_header_section hs)
unfolding encode_header_section encode_header
length-encode_header_section hs = omega (arith, length-append (encode_pairs hs) (0 ∷ []))

-- The reader, under the sequential policy, opens what the writer wrote to an empty file: it finds
-- the written header pairs and exactly the entries that the writer reported, offsets included.
-- The header pairs and the paths can be held by the format, the entries taken over are uint32, the
-- index ends below 4 GiB, and the fuel exceeds the file.
pub parse-write_archive :
    (fuel fuel' buffer : ℕ) (ctx : ℕ → Option Error) (src : Option ReaderAt)
    (plan : List RewriteEntry) (opts : PackOptions) {f : File} {res : RewriteArchiveResult}
    → All IsItem plan
    → All HasRowPath plan
    → All IsPair (map written_header opts.headers)
    → index_size (map written_header opts.headers) plan ≤ max_u32
    → write_archive fuel buffer ctx fresh_file src plan opts ≡ ok (f, res)
    → length f.content < fuel'
    → parse_index fuel' (bytes_reader f.content) (length f.content) sequential
      ≡ ok (record {
        header = encode_header;
        headers = res.headers;
        entries = res.entries;
        data_start = index_size res.headers plan;
      })
parse-write_archive fuel fuel' buffer ctx src plan opts {f} {res} items paths pairs small e lt =
    let a = write_archive-IsArchive fuel buffer ctx src plan opts items small e in
    let valid =
      table-rows a.table a.words (subst (All IsRowPath) (sym a.paths) (paths-rows plan paths)) in
    let head = encode_header_section res.headers in
    let size : length f.content
        ≡ length head + (length (encode_table a.table) + length a.payloads) =
      ap length a.layout
      ∙ omega (
        arith,
        length-append head (encode_table a.table ++ a.payloads),
        length-append (encode_table a.table) a.payloads,
      ) in
    let start : length head + length (encode_table a.table) ≡ index_size res.headers plan =
      omega (arith, a.index) in
    ap (λ c. parse_index fuel' (bytes_reader c) (length c) sequential) a.layout
    ∙ parse_layout fuel' res.headers a.table a.payloads (subst (All IsPair) (sym a.headers) pairs)
        valid (omega (arith, size, lt, length-encode_header_section res.headers))
        (omega (arith, size, lt)) a.counts (omega (arith, start, a.fits))
    ∙ ap₂
        (λ es n.
          ok (record {
            header = encode_header;
            headers = res.headers;
            entries = es;
            data_start = n;
          }))
        (ap (λ n. laid_out n a.table) start ∙ sym a.entries) start
