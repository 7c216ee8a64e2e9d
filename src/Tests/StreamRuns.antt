-- ===== src/Tests/StreamRuns.antt =====
-- The bounded copy and the payloads on small streams.
use pbo.Common.{◌-◌, true, false, ◌≡◌, refl, [], ◌∷◌, none, some, take, max_u32, Bytes, arith}
use pbo.Model.{ok, err, EntryInfo, size_overflow}
use pbo.Text.{codes}
use pbo.Wire.{bytes_reader, is_empty}
use pbo.Paths.{normalize_path}
use pbo.Streams.{
  chunk, Stream, copy_payload_bounded, copy_loop, read, after_read, probe, checked_data_size,
}
use pbo.Streams.Bounded.{stream_data, copy_payload_bounded_lem}
use pbo.Payload.{
  Input, PackOptions, WrittenEntry, time_to_u32, should_use_compression_for_input,
  should_use_in_memory_compress_path, should_compress_by_size, should_compress, matches,
  should_skip_compress_by_size_hint, choose_payload, compressed_payload, write_uncompressed_payload,
  write_compressed_candidate_payload, write_compressed_candidate_payload_in_memory,
  write_input_payload, open_input_reader, close_input, write_rewrite_input_payload,
  write_source_packed_payload,
}
use pbo.Payload.Sizes.{IsPayload}
use pbo.Payload.Choice.{Describes}
use pbo.Payload.Written.{
  is_candidate, write_rewrite_input_payload_lem, write_rewrite_input_payload_ok,
}
use pbo.Payload.Copied.{write_source_packed_payload_lem}

abbrev source : Stream
source = chunk (1 ∷ 2 ∷ 3 ∷ []) ∷ chunk (4 ∷ []) ∷ []

copy_payload_bounded_lem_example : copy_payload_bounded 10 2 source 3 ≡ err size_overflow
copy_payload_bounded_lem_example =
    copy_payload_bounded_lem 10 2 source 3 (cc, (cc, tt)) (omega arith) (omega arith)

abbrev plain : Input
plain = record {
  path = codes "a";
  size_hint = 4;
  mod_time = 7;
  open_source = some (ok source);
  close_error = none;
}

abbrev options : PackOptions
options = record {
  headers = [];
  sizes = record { writer_buffer_size = 0; min_compress_size = 0; max_compress_size = 0 };
  matcher = none;
  compress = λ raw. ok raw;
}

abbrev written : WrittenEntry × Bytes
written = (
  record {
    path = codes "a";
    data_size = 4;
    original_size = 0;
    mime = 0;
    timestamp = 7;
    compression_candidate = false;
  },
  1 ∷ 2 ∷ 3 ∷ 4 ∷ [],
)

written_run : write_rewrite_input_payload 10 2 (some plain) options 100 ≡ ok written
unfolding write_rewrite_input_payload write_input_payload write_uncompressed_payload
    should_use_compression_for_input open_input_reader close_input copy_payload_bounded copy_loop
    read after_read probe checked_data_size time_to_u32 is_empty
written_run = refl

-- A rule for every path, and a compressor that gives two bytes.
abbrev squeeze : PackOptions
squeeze = record {
  headers = [];
  sizes = record { writer_buffer_size = 0; min_compress_size = 2; max_compress_size = 9 };
  matcher = some (λ path. true);
  compress = λ raw. ok (take 2 raw);
}

abbrev squeezed : WrittenEntry × Bytes
squeezed = (
  record {
    path = codes "a";
    data_size = 2;
    original_size = 4;
    mime = 0x43707273;
    timestamp = 7;
    compression_candidate = true;
  },
  1 ∷ 2 ∷ [],
)

squeezed_run : write_rewrite_input_payload 10 2 (some plain) squeeze 100 ≡ ok squeezed
unfolding write_rewrite_input_payload write_input_payload write_compressed_candidate_payload
    write_compressed_candidate_payload_in_memory should_use_in_memory_compress_path
    should_compress_by_size choose_payload compressed_payload should_compress matches
    should_skip_compress_by_size_hint normalize_path should_use_compression_for_input
    open_input_reader close_input copy_payload_bounded copy_loop read after_read probe
    checked_data_size time_to_u32 is_empty
squeezed_run = refl

write_rewrite_input_payload_lem_example :
    IsPayload 100 squeezed
    × (squeezed.0.compression_candidate
        ≡ should_use_compression_for_input squeeze.sizes squeeze.matcher plain)
    × (plain.close_error ≡ none)
    × (src : Stream) × (open_input_reader plain ≡ ok src)
    × Describes
        (copy_payload_bounded 10 2 src (max_u32 - 100))
        plain
        squeeze
        (is_candidate squeeze plain 100)
        squeezed
write_rewrite_input_payload_lem_example =
    write_rewrite_input_payload_lem 10 2 plain squeeze 100 {w = squeezed} (omega arith) squeezed_run

plain_opens : open_input_reader plain ≡ ok source
unfolding open_input_reader
plain_opens = refl

write_rewrite_input_payload_ok_example :
    (w : WrittenEntry × Bytes) × (write_rewrite_input_payload 10 2 (some plain) squeeze 100 ≡ ok w)
    × Describes (ok (stream_data source)) plain squeeze (is_candidate squeeze plain 100) w
write_rewrite_input_payload_ok_example =
    write_rewrite_input_payload_ok 10 2 source 100 (cc, (cc, tt)) (omega arith) (omega arith) plain
      squeeze {packed = 1 ∷ 2 ∷ []} plain_opens refl refl

abbrev packed : EntryInfo
packed = record {
  path = codes "b";
  offset = 1;
  data_size = 2;
  original_size = 6;
  time_stamp = 3;
  mime_type = 0x43707273;
}

abbrev copied : WrittenEntry × Bytes
copied = (
  record {
    path = codes "a";
    data_size = 2;
    original_size = 6;
    mime = 0x43707273;
    timestamp = 3;
    compression_candidate = false;
  },
  8 ∷ 7 ∷ [],
)

write_source_packed_payload_lem_example :
    write_source_packed_payload 10 4 (bytes_reader (9 ∷ 8 ∷ 7 ∷ 6 ∷ [])) (codes "a") packed 100
    ≡ ok copied
write_source_packed_payload_lem_example =
    write_source_packed_payload_lem 10 4 (9 ∷ 8 ∷ 7 ∷ 6 ∷ []) (codes "a") packed 100 (omega arith)
      (omega arith) (omega arith)
