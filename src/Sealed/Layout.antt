-- ===== src/Sealed/Layout.antt =====
-- The layout and the transforms of sealed.go, over an archive in memory, and the byte-wise
-- description of what they compute. The key is none where sealed mode is off.
use Prim.Native.Nat.{bit_xor, max}
use pbo.Common.{
  ℕ, zero, suc, ◌+◌, ◌-◌, ◌*◌, ◌/◌, Bool, true, false, ◌&&◌, [], ◌∷◌, ◌++◌, Option, none, some, ltb,
  leb, ◌==◌, if◌then◌else◌, length, take, drop, Bytes, max_u32, min,
}
use pbo.Model.{
  Error, Result, ok, err, ◌>>=◌, ◌>>◌, guard, header_size, invalid_header, size_overflow,
}
use pbo.Wire.{ReaderAt, bytes_reader}
use pbo.Header.{parse_header_section}
use pbo.Sealed.Cipher.{
  Rc4State, step, output, iterate, apply, discard, swap_indices, state_for_stream_pos, sealed_seed,
}

abbrev pub sealed_block_size : ℕ
sealed_block_size = 4096

abbrev pub sealed_trailer_size : ℕ
sealed_trailer_size = 21

pub record SealedLayout : Type 0 where
  pub header_skip : ℕ
  pub transform_size : ℕ
  pub seed : ℕ

-- The tail probe: whether a zero byte stands where a trailer would begin. An error of the read is
-- passed on.
unfoldable pub probe_tail : Bytes × Option Error → Result Bool
probe_tail (tail, some e) = err e
probe_tail ([], none) = ok false
probe_tail (b ∷ _, none) = ok (b == 0)

unfoldable pub detect_sealed_trailer : ReaderAt → ℕ → Result Bool
unfolding probe_tail
detect_sealed_trailer ra size =
    if ltb size sealed_trailer_size
    then ok false
    else probe_tail (ra (size - sealed_trailer_size) sealed_trailer_size)

-- The size of the region that the transform covers, before its checks.
unfoldable pub transform_size_of : ReaderAt → ℕ → Bool → Result ℕ
unfolding detect_sealed_trailer
transform_size_of ra size false = ok size
transform_size_of ra size true = do
  has_trailer ← detect_sealed_trailer ra size
  ok (if has_trailer then size - sealed_trailer_size else size)

unfoldable pub build_sealed_layout : ℕ → ReaderAt → ℕ → Bool → Result SealedLayout
build_sealed_layout fuel ra size detect_trailer = do
  guard (leb header_size size) invalid_header
  transform_size ← transform_size_of ra size detect_trailer
  guard (leb header_size transform_size && leb transform_size max_u32) size_overflow
  (_, _, table_offset) ← parse_header_section fuel ra
  guard (leb table_offset transform_size) invalid_header
  guard (ltb table_offset sealed_block_size) invalid_header
  ok (record {
    header_skip = table_offset;
    transform_size = transform_size;
    seed = sealed_seed transform_size;
  })

-- The segment of the block `k`, behind the first.
abbrev pub block_segment : SealedLayout → ℕ → ℕ × ℕ × ℕ
block_segment l k =
    let start = k * sealed_block_size in
    (
      start,
      min (start + sealed_block_size) l.transform_size,
      if leb start max_u32 then start else 0,
    )

-- Start, end and stream position of the segment that holds a position.
unfoldable pub sealed_segment_at : SealedLayout → ℕ → ℕ × ℕ × ℕ
sealed_segment_at l pos =
    if ltb pos sealed_block_size
    then (l.header_skip, min sealed_block_size l.transform_size, 0)
    else block_segment l (pos / sealed_block_size)

module _ (l : SealedLayout) (key : Bytes) where
  -- The state at the start of a segment.
  unfoldable pub segment_state : ℕ → Rc4State
  unfolding swap_indices state_for_stream_pos
  segment_state stream_pos = swap_indices (state_for_stream_pos key l.seed stream_pos)

  -- The loop of `applySealedRangeInPlace` on the bytes from `offset` on.
  unfoldable pub range_loop : ℕ → ℕ → ℕ → ℕ → Bytes → Bytes
  range_loop zero cur range_end offset d = d
  range_loop (suc fuel) cur range_end offset d =
      let (start, end, stream_pos) = sealed_segment_at l cur in
      let segment_end = min end range_end in
      let s = discard (cur - start) (segment_state stream_pos) in
      let first = cur - offset in
      let last = segment_end - offset in
      let d' = take first d ++ (apply s (take (last - first) (drop first d)) ++ drop last d) in
      let rest = range_loop fuel segment_end range_end offset d' in
      if leb range_end cur then d else rest

  unfoldable pub apply_sealed_range : ℕ → Bytes → Bytes
  apply_sealed_range offset d =
      let range_start = max offset l.header_skip in
      let range_end = min (offset + length d) l.transform_size in
      if leb range_end range_start
      then d
      else range_loop (suc (length d)) range_start range_end offset d

  -- The callback of `applySealedTransformToReadWriteAt` on one segment of the archive.
  unfoldable pub transform_segment : ℕ → ℕ → ℕ → Bytes → Bytes
  transform_segment start end stream_pos content =
      let buf = apply (segment_state stream_pos) (take (end - start) (drop start content)) in
      take start content ++ (buf ++ drop end content)

  -- The loop of `forEachSealedSegment` behind the first block. A start is at most max_u32, since
  -- the layout refuses a larger size.
  unfoldable pub segments_loop : ℕ → ℕ → Bytes → Bytes
  segments_loop zero start content = content
  segments_loop (suc fuel) start content =
      let end = min (start + sealed_block_size) l.transform_size in
      let rest =
        segments_loop fuel (start + sealed_block_size)
          (transform_segment start end start content) in
      if ltb start l.transform_size then rest else content

  unfoldable pub transform_first : Bytes → Bytes
  transform_first content =
      let first_end = min sealed_block_size l.transform_size in
      if ltb l.header_skip first_end
      then transform_segment l.header_skip first_end 0 content
      else content

  -- `forEachSealedSegment` with that callback.
  unfoldable pub transform_segments : Bytes → Bytes
  transform_segments content =
      if leb l.transform_size l.header_skip
      then content
      else segments_loop (suc (length content)) sealed_block_size (transform_first content)

  -- The byte of the key stream at a position of the archive, and the transform of one byte.
  unfoldable pub keystream : ℕ → ℕ
  unfolding segment_state sealed_segment_at iterate step output
  keystream pos =
      let segment = sealed_segment_at l pos in
      output (iterate (suc (pos - segment.0)) (segment_state segment.2))

  unfoldable pub seal_byte : ℕ → ℕ → ℕ
  unfolding keystream
  seal_byte pos c =
      if leb l.header_skip pos && ltb pos l.transform_size then bit_xor c (keystream pos) else c

  -- The description: each byte from `pos` on is transformed by its position alone.
  unfoldable pub sealed : ℕ → Bytes → Bytes
  unfolding seal_byte
  sealed pos [] = []
  sealed pos (c ∷ d) = seal_byte pos c ∷ sealed (pos + 1) d

-- `sealedReaderAt.ReadAt`
unfoldable pub sealed_reader_at : ReaderAt → SealedLayout → Bytes → ReaderAt
sealed_reader_at source l key off n =
    let (part, e) = source off n in (apply_sealed_range l key off part, e)

-- `prepareReaderAtWithSealedOptions`: without a key the reader stays as it is.
unfoldable pub prepare_reader_at : ℕ → ReaderAt → ℕ → Option Bytes → Result ReaderAt
prepare_reader_at fuel ra size none = ok ra
prepare_reader_at fuel ra size (some key) = do
  l ← build_sealed_layout fuel ra size true
  ok (sealed_reader_at ra l key)

-- `applySealedTransformToReadWriteAt` with an enabled key, on an archive in memory.
unfoldable pub apply_sealed_transform : ℕ → Bytes → Bytes → Bool → Result Bytes
apply_sealed_transform fuel key content detect_trailer = do
  l ← build_sealed_layout fuel (bytes_reader content) (length content) detect_trailer
  ok (transform_segments l key content)
