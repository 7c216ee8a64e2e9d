-- ===== src/Payload/Copied.antt =====
-- A payload that is copied as it is from a source archive.
use pbo.Common.{
  ℕ, ◌+◌, ◌^◌, ◌≤◌, ◌<◌, ◌≡◌, refl, ◌∙◌, ap, arith, true, false, ◌==◌, leb, length, Bytes, max_u32,
}
use pbo.Model.{ok, EntryInfo}
use pbo.Wire.{bytes_reader}
use pbo.Wire.Parts.{part_of, length-part_of}
use pbo.Streams.{Stream, copy_payload_bounded}
use pbo.Streams.Bounded.{IsHealthy, stream_data, copy_payload_bounded_lem, checked_data_size_ok}
use pbo.Payload.{write_source_packed_payload}
use pbo.Payload.Sections.{once, once-IsHealthy, stream_data-once, section_stream-once}

-- A healthy source that is no longer than the limit is copied whole.
pub copy_payload_bounded-whole :
    (fuel buffer : ℕ) (src : Stream) (limit : ℕ)
    → IsHealthy src
    → limit < 2 ^ 63
    → length (stream_data src) < fuel
    → length (stream_data src) ≤ limit
    → copy_payload_bounded fuel buffer src limit ≡ ok (stream_data src)
copy_payload_bounded-whole fuel buffer src limit healthy small enough fits =
    let within : leb (length (stream_data src)) limit ≡ true = ground arith in
    copy_payload_bounded_lem fuel buffer src limit healthy small enough ∙ rw (within) refl

-- The payload of an entry that lies within the source file and fits behind the running offset is
-- copied: the call succeeds with the bytes of the source from the entry's offset on, as many as its
-- packed size, and with a record under the new path that keeps the entry's sizes, mime type and
-- time. The fuel exceeds the packed size; the copy buffer may have any size.
pub write_source_packed_payload_lem :
    (fuel buffer : ℕ) (content path : Bytes) (e : EntryInfo) (current : ℕ)
    → e.offset + e.data_size ≤ length content
    → current + e.data_size ≤ max_u32
    → e.data_size < fuel
    → write_source_packed_payload fuel buffer (bytes_reader content) path e current
      ≡ ok (
        record {
          path = path;
          data_size = e.data_size;
          original_size = e.original_size;
          mime = e.mime_type;
          timestamp = e.time_stamp;
          compression_candidate = false;
        },
        part_of content e.offset e.data_size,
      )
unfolding write_source_packed_payload
write_source_packed_payload_lem fuel buffer content path e current inside room enough =
    let part = part_of content e.offset e.data_size in
    let data_is = stream_data-once part in
    let size = length-part_of content e.offset e.data_size inside in
    let all : length (stream_data (once part)) ≡ e.data_size = ap length data_is ∙ size in
    let copy : copy_payload_bounded fuel buffer (once part) e.data_size ≡ ok part =
      copy_payload_bounded-whole fuel buffer (once part) e.data_size (once-IsHealthy part)
        (omega arith) (omega arith) (omega arith)
      ∙ ap ok data_is in
    let whole : (length part == e.data_size) ≡ true = ground arith in
    rw
      (
        checked_data_size_ok e.data_size current room,
        section_stream-once content e.offset e.data_size inside,
        copy,
        whole,
      )
      refl
