-- ===== src/Payload/Written.antt =====
-- What an input that is packed leaves in the archive.
use pbo.Common.{
  ℕ, ◌+◌, ◌-◌, ◌≤◌, ◌<◌, ◌≡◌, refl, sym, ◌∙◌, ap, subst, arith, true, false, ◌&&◌, none, some, leb,
  inl, inr, if_elim, Bool, Bool-cases, length, Bytes, max_u32, Option,
}
use pbo.Model.{Error, Result, ok, err, bind-eq-ok, ok-injective}
use pbo.Streams.{Stream, copy_payload_bounded}
use pbo.Streams.Bounded.{IsHealthy, stream_data, checked_data_size_ok}
use pbo.Payload.{
  Input, WrittenEntry, PackOptions, should_compress_by_size, should_use_compression_for_input,
  should_use_in_memory_compress_path, write_uncompressed_payload, compressed_payload,
  choose_payload, write_compressed_candidate_payload_in_memory, write_compressed_candidate_payload,
  write_input_payload, open_input_reader, close_input, write_rewrite_input_payload,
}
use pbo.Payload.Copied.{copy_payload_bounded-whole}
use pbo.Payload.Sizes.{IsPayload, IsPayloadOk, write_rewrite_input_payload-IsPayload}
use pbo.Payload.Choice.{IsChoice, Describes, write_input_payload-Describes}

-- An input for which compression is tried where the size of its bytes allows it.
abbrev pub is_candidate : PackOptions → Input → ℕ → Bool
is_candidate opts in_ current =
    should_use_compression_for_input opts.sizes opts.matcher in_
    && should_use_in_memory_compress_path opts.sizes in_.size_hint (max_u32 - current)

record Closes (e : Option Error) (v w : WrittenEntry × Bytes) (use_compression : Bool)
    : Type 0 where
  closed : e ≡ none
  result : (record v.0 { compression_candidate = use_compression }, v.1) ≡ w

close_input-Closes :
    (e : Option Error) (v : WrittenEntry × Bytes) (use_compression : Bool)
    {w : WrittenEntry × Bytes}
    → close_input e v use_compression ≡ ok w
    → Closes e v w use_compression
unfolding close_input
close_input-Closes (some e) v use_compression h = cc
close_input-Closes none v use_compression h = record { closed = refl; result = ok-injective h }

IsChoice-marked :
    (opts : PackOptions) (tried : Bool) (raw : Bytes) (v : WrittenEntry × Bytes)
    (use_compression : Bool)
    → IsChoice opts tried raw v
    → IsChoice opts tried raw (record v.0 { compression_candidate = use_compression }, v.1)
IsChoice-marked opts false raw v use_compression h = record {
  bytes = h.bytes;
  mime = h.mime;
  original = h.original;
}
IsChoice-marked opts true raw v use_compression (packed, e, inl (no_gain, h)) =
    (packed, e, inl (no_gain, record { bytes = h.bytes; mime = h.mime; original = h.original }))
IsChoice-marked opts true raw v use_compression (packed, e, inr h) = (
  packed,
  e,
  inr (record { smaller = h.smaller; bytes = h.bytes; mime = h.mime; original = h.original }),
)

module _ (fuel buffer : ℕ) where
  -- If an input is written behind an offset that is a uint32, its source could be opened and closed,
  -- and the record describes the bytes: it has their number, which fits behind the offset, in numbers
  -- that are uint32, the path and the time of the input, and says if compression was chosen for it.
  -- The bytes are those copied from the source, with no mime type and original size 0; or, if the
  -- input is a candidate, the copied size is one to compress, and compressing makes the bytes
  -- fewer, they are the compressed ones, marked so, with the copied size as the original one.
  pub write_rewrite_input_payload_lem :
      (in_ : Input) (opts : PackOptions) (current : ℕ) {w : WrittenEntry × Bytes}
      → current ≤ max_u32
      → write_rewrite_input_payload fuel buffer (some in_) opts current ≡ ok w
      → IsPayload current w
        × (w.0.compression_candidate ≡ should_use_compression_for_input opts.sizes opts.matcher in_)
        × (in_.close_error ≡ none)
        × (src : Stream) × (open_input_reader in_ ≡ ok src)
        × Describes
            (copy_payload_bounded fuel buffer src (max_u32 - current))
            in_
            opts
            (is_candidate opts in_ current)
            w
  unfolding write_rewrite_input_payload
  write_rewrite_input_payload_lem in_ opts current {w} hc h =
      let use_compression = should_use_compression_for_input opts.sizes opts.matcher in_ in
      let (src, opened, h₁) = bind-eq-ok (open_input_reader in_) _ h in
      let (v, writes, h₂) =
        bind-eq-ok (write_input_payload fuel buffer src in_ opts use_compression current) _ h₁ in
      let c = close_input-Closes in_.close_error v use_compression h₂ in
      let d =
        write_input_payload-Describes fuel buffer src in_ opts use_compression current hc writes in
      (
        subst (IsPayloadOk current) h
            (write_rewrite_input_payload-IsPayload fuel buffer (some in_) opts current hc),
        ap (λ (x : WrittenEntry × Bytes). x.0.compression_candidate) (sym c.result),
        c.closed,
        src,
        opened,
        subst
            (Describes (copy_payload_bounded fuel buffer src (max_u32 - current)) in_ opts
              (is_candidate opts in_ current))
            c.result
            (record {
              raw = d.raw;
              source = d.source;
              path = d.path;
              stamp = d.stamp;
              choice = IsChoice-marked opts _ d.raw v use_compression d.choice;
            }),
      )

-- A call that succeeds.
abbrev IsOk : Result (WrittenEntry × Bytes) → Type 0
IsOk (ok _) = Unit
IsOk (err _) = ⊥

IsOk-returns :
    (r : Result (WrittenEntry × Bytes)) → IsOk r → (w : WrittenEntry × Bytes) × (r ≡ ok w)
IsOk-returns (ok w) h = (w, refl)
IsOk-returns (err _) h = absurd h

choose_payload-IsOk :
    (r : WrittenEntry) (raw packed : Bytes) (current : ℕ)
    → current + length raw ≤ max_u32
    → IsOk (choose_payload r raw packed current)
unfolding choose_payload compressed_payload
choose_payload-IsOk r raw packed current room =
    elim (Bool-cases (leb (length raw) (length packed))) [
      | inl no_gain ↦ rw (no_gain) tt
      | inr gain ↦
          let fits : current + length packed ≤ max_u32 = ground arith in
          rw (gain, checked_data_size_ok (length packed) current fits) tt
    ]

module _ (fuel buffer : ℕ) (src : Stream) (current : ℕ) (healthy : IsHealthy src)
    (enough : length (stream_data src) < fuel)
    (room : current + length (stream_data src) ≤ max_u32) where
  copies : copy_payload_bounded fuel buffer src (max_u32 - current) ≡ ok (stream_data src)
  copies =
      copy_payload_bounded-whole fuel buffer src (max_u32 - current) healthy (omega arith) enough
        (omega arith)

  write_uncompressed_payload-IsOk :
      (in_ : Input) → IsOk (write_uncompressed_payload fuel buffer src in_ current)
  unfolding write_uncompressed_payload
  write_uncompressed_payload-IsOk in_ =
      rw (copies, checked_data_size_ok (length (stream_data src)) current room) tt

  write_in_memory-IsOk :
      (in_ : Input) (opts : PackOptions) {packed : Bytes}
      → opts.compress (stream_data src) ≡ ok packed
      → IsOk (
          write_compressed_candidate_payload_in_memory fuel buffer src in_ opts current
            (max_u32 - current))
  unfolding write_compressed_candidate_payload_in_memory
  write_in_memory-IsOk in_ opts {packed} c =
      rw (copies, checked_data_size_ok (length (stream_data src)) current room, c)
        (if_elim IsOk (should_compress_by_size opts.sizes (length (stream_data src))) _ _
          (choose_payload-IsOk _ (stream_data src) packed current room) tt)

  write_input_payload-IsOk :
      (in_ : Input) (opts : PackOptions) (use_compression : Bool) {packed : Bytes}
      → opts.compress (stream_data src) ≡ ok packed
      → IsOk (write_input_payload fuel buffer src in_ opts use_compression current)
  unfolding write_input_payload write_compressed_candidate_payload
  write_input_payload-IsOk in_ opts true c =
      if_elim IsOk _ _ _ (write_in_memory-IsOk in_ opts c) (write_uncompressed_payload-IsOk in_)
  write_input_payload-IsOk in_ opts false c = write_uncompressed_payload-IsOk in_

  -- An input is written if its source opens, answers with data until it ends, fits behind the running
  -- offset and closes, and the compressor answers on its bytes: the record has the path and the time
  -- of the input, and the bytes are all those of the source, with no mime type and original size 0;
  -- or, if the input is a candidate, the size is one to compress, and compressing makes the bytes
  -- fewer, they are the compressed ones, marked so, with the source's size as the original one. The
  -- fuel exceeds the size of the source.
  pub write_rewrite_input_payload_ok :
      (in_ : Input) (opts : PackOptions) {packed : Bytes}
      → open_input_reader in_ ≡ ok src
      → in_.close_error ≡ none
      → opts.compress (stream_data src) ≡ ok packed
      → (w : WrittenEntry × Bytes) × (write_rewrite_input_payload fuel buffer
            (some in_)
            opts
            current
          ≡ ok w)
        × Describes (ok (stream_data src)) in_ opts (is_candidate opts in_ current) w
  unfolding write_rewrite_input_payload close_input
  write_rewrite_input_payload_ok in_ opts opened closes c =
      let use_compression = should_use_compression_for_input opts.sizes opts.matcher in_ in
      let (v, writes) =
        IsOk-returns (write_input_payload fuel buffer src in_ opts use_compression current)
          (write_input_payload-IsOk in_ opts use_compression c) in
      let d =
        write_input_payload-Describes fuel buffer src in_ opts use_compression current (omega arith)
          writes in
      (
        (record v.0 { compression_candidate = use_compression }, v.1),
        rw (opened, writes, closes) refl,
        record {
          raw = d.raw;
          source = sym copies ∙ d.source;
          path = d.path;
          stamp = d.stamp;
          choice = IsChoice-marked opts _ d.raw v use_compression d.choice;
        },
      )
