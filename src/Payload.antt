-- ===== src/Payload.antt =====
-- writer.go and compression.go: the payload of one entry. The LZSS codec, the compiled path rules
-- and the sources of the inputs are arguments; the fuel and the copy buffer go to the copy loop.
pub mod Choice
pub mod Copied
pub mod Sections
pub mod Sizes
pub mod Written
use pbo.Common.{
  ℕ, zero, suc, ◌+◌, ◌-◌, ◌%◌, ◌^◌, ◌≤◌, Bool, true, false, not, ◌||◌, List, [], ◌∷◌, ◌++◌, Option,
  none, some, ltb, leb, ◌==◌, if◌then◌else◌, length, Bytes, lt_i64, le_i64, max_u32,
}
use pbo.Model.{
  Error, Result, ok, err, ◌>>=◌, ◌>>◌, guard, EntryInfo, HeaderPair, PackSizes, mime_compress,
  mime_nil, eof, io_failure, missing_input,
}
use pbo.Wire.{ReaderAt, is_empty}
use pbo.Paths.{normalize_path}
use pbo.Streams.{Stream, chunk, failure, copy_payload_bounded, checked_data_size}

-- One source to pack. `size_hint` and `mod_time` (Unix seconds) are int64 patterns; `open` is
-- none for a nil function, and `close_error` is what closing the source returns.
pub record Input : Type 0 where
  pub path : Bytes
  pub size_hint : ℕ
  pub mod_time : ℕ
  pub open_source : Option (Result Stream)
  pub close_error : Option Error

pub record WrittenEntry : Type 0 where
  pub path : Bytes
  pub data_size : ℕ
  pub original_size : ℕ
  pub mime : ℕ
  pub timestamp : ℕ
  pub compression_candidate : Bool

pub record RewriteEntry : Type 0 where
  pub input : Option Input
  pub source : Option EntryInfo
  pub path : Bytes

-- `matcher` is the compiled matcher, none without rules; `compress` is `lzss.Compress`.
pub record PackOptions : Type 0 where
  pub headers : List HeaderPair
  pub sizes : PackSizes
  pub matcher : Option (Bytes → Bool)
  pub compress : Bytes → Result Bytes

-- `timeToUint32`
unfoldable pub time_to_u32 : ℕ → ℕ
time_to_u32 u = if lt_i64 u 0 then 0 else if lt_i64 max_u32 u then max_u32 else u % 2 ^ 32

unfoldable pub matches : Option (Bytes → Bool) → Bytes → Bool
matches none path = false
matches (some included) path =
    let candidate = normalize_path path in if is_empty candidate then false else included candidate

unfoldable pub should_compress_by_size : PackSizes → ℕ → Bool
should_compress_by_size o size =
    if ltb o.max_compress_size size || ltb size o.min_compress_size then false else true

unfoldable pub should_compress : PackSizes → Option (Bytes → Bool) → Bytes → ℕ → Bool
unfolding should_compress_by_size matches
should_compress o matcher path size =
    if not (should_compress_by_size o size) then false else matches matcher path

unfoldable pub should_skip_compress_by_size_hint : PackSizes → ℕ → Bool
should_skip_compress_by_size_hint o hint =
    if le_i64 hint 0
    then false
    else lt_i64 hint o.min_compress_size || lt_i64 o.max_compress_size hint

unfoldable pub should_use_compression_for_input : PackSizes → Option (Bytes → Bool) → Input → Bool
unfolding should_skip_compress_by_size_hint should_compress matches
should_use_compression_for_input o none in_ = false
should_use_compression_for_input o (some included) in_ =
    if should_skip_compress_by_size_hint o in_.size_hint
    then false
    else if lt_i64 max_u32 in_.size_hint
    then false
    else if lt_i64 0 in_.size_hint
    then should_compress o (some included) in_.path (in_.size_hint % 2 ^ 32)
    else matches (some included) in_.path

unfoldable pub should_use_in_memory_compress_path : PackSizes → ℕ → ℕ → Bool
should_use_in_memory_compress_path o hint max_entry_size =
    if le_i64 hint 0
    then false
    else if lt_i64 max_entry_size hint
    then false
    else if lt_i64 o.max_compress_size hint
    then false
    else true

-- The record of a compressed payload.
unfoldable pub compressed_payload : WrittenEntry → Bytes → ℕ → Result (WrittenEntry × Bytes)
compressed_payload r compressed current_offset = do
  data_size ← checked_data_size (length compressed) current_offset
  ok (
    record r { data_size = data_size; original_size = r.data_size; mime = mime_compress },
    compressed,
  )

-- The raw payload, or the compressed one where it is smaller.
unfoldable pub choose_payload : WrittenEntry → Bytes → Bytes → ℕ → Result (WrittenEntry × Bytes)
unfolding compressed_payload
choose_payload r raw compressed current_offset =
    if leb (length raw) (length compressed)
    then ok (r, raw)
    else compressed_payload r compressed current_offset

-- `openInputReader`
unfoldable pub open_input_reader : Input → Result Stream
open_input_reader in_ = elim in_.open_source [ none ↦ err missing_input | some r ↦ r ]

-- The result of the close, seen behind the result of the write.
unfoldable pub close_input :
    Option Error → WrittenEntry × Bytes → Bool → Result (WrittenEntry × Bytes)
close_input (some e) written use_compression = err e
close_input none (r, bytes) use_compression =
    ok (record r { compression_candidate = use_compression }, bytes)

-- A section of the source archive as a stream.
unfoldable pub section_stream : ReaderAt → ℕ → ℕ → Stream
section_stream ra off n =
    let (part, e) = ra off n in
    let data_part : Stream = if is_empty part then [] else chunk part ∷ [] in
    data_part ++ elim e [ none ↦ [] | some eof ↦ [] | some _ ↦ failure ∷ [] ]

-- The fuel and the length of the copy buffer.
module _ (fuel buffer : ℕ) where
  -- `writeUncompressedPayload`: the record and the bytes written.
  unfoldable pub write_uncompressed_payload : Stream → Input → ℕ → Result (WrittenEntry × Bytes)
  write_uncompressed_payload src in_ current_offset = do
    streamed ← copy_payload_bounded fuel buffer src (max_u32 - current_offset)
    data_size ← checked_data_size (length streamed) current_offset
    ok (
      record {
        path = in_.path;
        data_size = data_size;
        original_size = 0;
        mime = mime_nil;
        timestamp = time_to_u32 in_.mod_time;
        compression_candidate = false;
      },
      streamed,
    )

  unfoldable pub write_compressed_candidate_payload_in_memory :
      Stream → Input → PackOptions → ℕ → ℕ → Result (WrittenEntry × Bytes)
  write_compressed_candidate_payload_in_memory src in_ opts current_offset max_entry_size = do
    raw ← copy_payload_bounded fuel buffer src max_entry_size
    original_size ← checked_data_size (length raw) current_offset
    let r : WrittenEntry = record {
      path = in_.path;
      data_size = original_size;
      original_size = 0;
      mime = mime_nil;
      timestamp = time_to_u32 in_.mod_time;
      compression_candidate = false;
    }
    let try_compress = do
      compressed ← opts.compress raw
      choose_payload r raw compressed current_offset
    if should_compress_by_size opts.sizes original_size then try_compress else ok (r, raw)

  unfoldable pub write_compressed_candidate_payload :
      Stream → Input → PackOptions → ℕ → Result (WrittenEntry × Bytes)
  write_compressed_candidate_payload src in_ opts current_offset =
      let max_entry_size = max_u32 - current_offset in
      if should_use_in_memory_compress_path opts.sizes in_.size_hint max_entry_size
      then write_compressed_candidate_payload_in_memory src in_ opts current_offset max_entry_size
      else write_uncompressed_payload src in_ current_offset

  unfoldable pub write_input_payload :
      Stream → Input → PackOptions → Bool → ℕ → Result (WrittenEntry × Bytes)
  write_input_payload src in_ opts true current_offset =
      write_compressed_candidate_payload src in_ opts current_offset
  write_input_payload src in_ opts false current_offset =
      write_uncompressed_payload src in_ current_offset

  unfoldable pub write_rewrite_input_payload :
      Option Input → PackOptions → ℕ → Result (WrittenEntry × Bytes)
  write_rewrite_input_payload none opts current_offset = err missing_input
  write_rewrite_input_payload (some in_) opts current_offset = do
    let use_compression = should_use_compression_for_input opts.sizes opts.matcher in_
    src ← open_input_reader in_
    written ← write_input_payload src in_ opts use_compression current_offset
    close_input in_.close_error written use_compression

  unfoldable pub write_source_packed_payload :
      ReaderAt → Bytes → EntryInfo → ℕ → Result (WrittenEntry × Bytes)
  write_source_packed_payload src path e current_offset = do
    data_size ← checked_data_size e.data_size current_offset
    written ← copy_payload_bounded fuel buffer (section_stream src e.offset e.data_size) e.data_size
    guard (length written == e.data_size) io_failure
    ok (
      record {
        path = path;
        data_size = data_size;
        original_size = e.original_size;
        mime = e.mime_type;
        timestamp = e.time_stamp;
        compression_candidate = false;
      },
      written,
    )
