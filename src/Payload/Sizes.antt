-- ===== src/Payload/Sizes.antt =====
-- What a written payload guarantees of its record.
use pbo.Common.{
  ℕ, ◌+◌, ◌-◌, ◌^◌, ◌≤◌, ◌<◌, ◌≡◌, refl, Bool, true, false, Option, none, some, length, Bytes,
  arith, max_u32, subst, if_elim, ◌==◌, leb,
}
use pbo.Model.{Error, Result, ok, err, ◌>>=◌, guard, EntryInfo, mime_nil, io_failure}
use pbo.Wire.{ReaderAt}
use pbo.Streams.{Stream, copy_payload_bounded, checked_data_size}
use pbo.Payload.{
  Input, WrittenEntry, PackOptions, time_to_u32, should_compress_by_size,
  should_use_compression_for_input, write_uncompressed_payload, compressed_payload, choose_payload,
  write_compressed_candidate_payload_in_memory, write_compressed_candidate_payload,
  write_input_payload, open_input_reader, close_input, write_rewrite_input_payload,
  write_source_packed_payload, section_stream,
}

-- The record describes the bytes, they fit behind the running offset, and the numbers are uint32.
pub record IsPayload (current : ℕ) (w : WrittenEntry × Bytes) : Type 0 where
  pub counts : length w.1 ≡ w.0.data_size
  pub fits : current + w.0.data_size ≤ max_u32
  pub original : w.0.original_size < 2 ^ 32
  pub mime : w.0.mime < 2 ^ 32
  pub stamp : w.0.timestamp < 2 ^ 32

abbrev pub IsPayloadOk : ℕ → Result (WrittenEntry × Bytes) → Type 0
IsPayloadOk current (ok w) = IsPayload current w
IsPayloadOk current (err _) = Unit

IsPayload-bind {ℓ} :
    {A : Type ℓ} (current : ℕ) (m : Result A) (f : A → Result (WrittenEntry × Bytes))
    → ((a : A) → m ≡ ok a → IsPayloadOk current (f a))
    → IsPayloadOk current (m >>= f)
IsPayload-bind current (ok a) f h = h a refl
IsPayload-bind current (err _) f h = tt

-- A checked size is the size, and fits.
pub record Checked (size current n : ℕ) : Type 0 where
  pub same : n ≡ size
  pub room : size + current ≤ max_u32

pub checked_data_size-Checked :
    (size current : ℕ) {n : ℕ}
    → current ≤ max_u32
    → checked_data_size size current ≡ ok n
    → Checked size current n
unfolding checked_data_size
checked_data_size-Checked size current {n} hc h = ground arith

time_to_u32-lt : (u : ℕ) → time_to_u32 u < 2 ^ 32
unfolding time_to_u32
time_to_u32-lt u = ground arith

compressed_payload-IsPayload :
    (r : WrittenEntry) (raw compressed : Bytes) (current : ℕ)
    → current ≤ max_u32
    → IsPayload current (r, raw)
    → IsPayloadOk current (compressed_payload r compressed current)
unfolding compressed_payload
compressed_payload-IsPayload r raw compressed current hc h =
    IsPayload-bind current (checked_data_size (length compressed) current) _ λ n e.
      let c = checked_data_size-Checked (length compressed) current hc e in
      record {
        counts = omega (arith, c.same);
        fits = omega (arith, c.same, c.room);
        original = omega (arith, h.fits);
        mime = omega arith;
        stamp = h.stamp;
      }

choose_payload-IsPayload :
    (r : WrittenEntry) (raw compressed : Bytes) (current : ℕ)
    → current ≤ max_u32
    → IsPayload current (r, raw)
    → IsPayloadOk current (choose_payload r raw compressed current)
unfolding choose_payload
choose_payload-IsPayload r raw compressed current hc h =
    if_elim (IsPayloadOk current) (leb (length raw) (length compressed)) (ok (r, raw))
      (compressed_payload r compressed current) h
      (compressed_payload-IsPayload r raw compressed current hc h)

close_input-IsPayload :
    (e : Option Error) (w : WrittenEntry × Bytes) (use_compression : Bool) (current : ℕ)
    → IsPayload current w
    → IsPayloadOk current (close_input e w use_compression)
unfolding close_input
close_input-IsPayload none w use_compression current h = record {
  counts = h.counts;
  fits = h.fits;
  original = h.original;
  mime = h.mime;
  stamp = h.stamp;
}
close_input-IsPayload (some e) w use_compression current h = tt

module _ (fuel buffer : ℕ) where
  write_uncompressed_payload-IsPayload :
      (src : Stream) (in_ : Input) (current : ℕ)
      → current ≤ max_u32
      → IsPayloadOk current (write_uncompressed_payload fuel buffer src in_ current)
  unfolding write_uncompressed_payload
  write_uncompressed_payload-IsPayload src in_ current hc =
      IsPayload-bind current (copy_payload_bounded fuel buffer src (max_u32 - current)) _
        λ streamed _. IsPayload-bind current (checked_data_size (length streamed) current) _ λ n e.
          let c = checked_data_size-Checked (length streamed) current hc e in
          record {
            counts = omega (arith, c.same);
            fits = omega (arith, c.same, c.room);
            original = omega arith;
            mime = omega arith;
            stamp = time_to_u32-lt in_.mod_time;
          }

  write_in_memory-IsPayload :
      (src : Stream) (in_ : Input) (opts : PackOptions) (current limit : ℕ)
      → current ≤ max_u32
      → IsPayloadOk current
          (write_compressed_candidate_payload_in_memory fuel buffer src in_ opts current limit)
  unfolding write_compressed_candidate_payload_in_memory
  write_in_memory-IsPayload src in_ opts current limit hc =
      IsPayload-bind current (copy_payload_bounded fuel buffer src limit) _ λ raw _.
        IsPayload-bind current (checked_data_size (length raw) current) _ λ n e.
          let c = checked_data_size-Checked (length raw) current hc e in
          let r : WrittenEntry = record {
            path = in_.path;
            data_size = n;
            original_size = 0;
            mime = mime_nil;
            timestamp = time_to_u32 in_.mod_time;
            compression_candidate = false;
          } in
          let plain : IsPayload current (r, raw) = record {
            counts = omega (arith, c.same);
            fits = omega (arith, c.same, c.room);
            original = omega arith;
            mime = omega arith;
            stamp = time_to_u32-lt in_.mod_time;
          } in
          if_elim (IsPayloadOk current) (should_compress_by_size opts.sizes n) _ (ok (r, raw))
            (IsPayload-bind current (opts.compress raw) _
              λ compressed _. choose_payload-IsPayload r raw compressed current hc plain)
            plain

  write_input_payload-IsPayload :
      (src : Stream) (in_ : Input) (opts : PackOptions) (use_compression : Bool) (current : ℕ)
      → current ≤ max_u32
      → IsPayloadOk current (write_input_payload fuel buffer src in_ opts use_compression current)
  unfolding write_input_payload write_compressed_candidate_payload
  write_input_payload-IsPayload src in_ opts true current hc =
      if_elim (IsPayloadOk current) _ _ _ (write_in_memory-IsPayload src in_ opts current _ hc)
        (write_uncompressed_payload-IsPayload src in_ current hc)
  write_input_payload-IsPayload src in_ opts false current hc =
      write_uncompressed_payload-IsPayload src in_ current hc

  pub write_rewrite_input_payload-IsPayload :
      (in_ : Option Input) (opts : PackOptions) (current : ℕ)
      → current ≤ max_u32
      → IsPayloadOk current (write_rewrite_input_payload fuel buffer in_ opts current)
  unfolding write_rewrite_input_payload
  write_rewrite_input_payload-IsPayload none opts current hc = tt
  write_rewrite_input_payload-IsPayload (some in_) opts current hc =
      let use_compression = should_use_compression_for_input opts.sizes opts.matcher in_ in
      IsPayload-bind current (open_input_reader in_) _ λ src _.
        IsPayload-bind current
          (write_input_payload fuel buffer src in_ opts use_compression current) _
          λ w e. close_input-IsPayload in_.close_error w use_compression current (
            subst (IsPayloadOk current) e
              (write_input_payload-IsPayload src in_ opts use_compression current hc))

  pub write_source_packed_payload-IsPayload :
      (src : ReaderAt) (path : Bytes) (e : EntryInfo) (current : ℕ)
      → current ≤ max_u32
      → e.original_size < 2 ^ 32
      → e.mime_type < 2 ^ 32
      → e.time_stamp < 2 ^ 32
      → IsPayloadOk current (write_source_packed_payload fuel buffer src path e current)
  unfolding write_source_packed_payload
  write_source_packed_payload-IsPayload src path e current hc ho hm ht =
      IsPayload-bind current (checked_data_size e.data_size current) _ λ n en.
        IsPayload-bind current
          (copy_payload_bounded fuel buffer (section_stream src e.offset e.data_size) e.data_size) _
          λ written _.
            IsPayload-bind current (guard (length written == e.data_size) io_failure) _ λ u eu.
              let c = checked_data_size-Checked e.data_size current hc en in
              let whole : length written ≡ e.data_size = ground (arith, eu) in
              record {
                counts = omega (arith, c.same, whole);
                fits = omega (arith, c.same, c.room);
                original = ho;
                mime = hm;
                stamp = ht;
              }
