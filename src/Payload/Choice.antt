-- ===== src/Payload/Choice.antt =====
-- What the record of a packed input says of its bytes, on each compression path.
use pbo.Common.{
  ℕ, ◌-◌, ◌≤◌, ◌<◌, ◌≡◌, refl, sym, ◌∙◌, ap, subst, Bool, true, false, ◌&&◌, leb, ◌⊎◌, inl, inr,
  length, Bytes, arith, max_u32, Bool-cases,
}
use pbo.Model.{Result, ok, ◌>>=◌, bind-eq-ok, ok-injective, mime_nil, mime_compress}
use pbo.Streams.{Stream, copy_payload_bounded, checked_data_size}
use pbo.Payload.{
  Input, WrittenEntry, PackOptions, time_to_u32, should_compress_by_size,
  should_use_in_memory_compress_path, write_uncompressed_payload, compressed_payload,
  choose_payload, write_compressed_candidate_payload_in_memory, write_compressed_candidate_payload,
  write_input_payload,
}
use pbo.Payload.Sizes.{checked_data_size-Checked}

-- The bytes of the source as they are.
pub record IsRaw (raw : Bytes) (w : WrittenEntry × Bytes) : Type 0 where
  pub bytes : w.1 ≡ raw
  pub mime : w.0.mime ≡ mime_nil
  pub original : w.0.original_size ≡ 0

-- The compressed bytes, which are fewer, marked so, with the size of the source.
pub record IsPacked (raw packed : Bytes) (w : WrittenEntry × Bytes) : Type 0 where
  pub smaller : length packed < length raw
  pub bytes : w.1 ≡ packed
  pub mime : w.0.mime ≡ mime_compress
  pub original : w.0.original_size ≡ length raw

-- What is written of the bytes of a source, if compression is tried or not.
abbrev pub IsChoice : PackOptions → Bool → Bytes → WrittenEntry × Bytes → Type 0
IsChoice opts false raw w = IsRaw raw w
IsChoice opts true raw w =
    (packed : Bytes) × (opts.compress raw ≡ ok packed)
    × (((length raw ≤ length packed) × IsRaw raw w) ⊎ IsPacked raw packed w)

-- The record has the path and the time of the input, and the bytes are chosen for what was copied;
-- `candidate` says if the input is compressed where its size allows it.
pub record Describes (copied : Result Bytes) (in_ : Input) (opts : PackOptions) (candidate : Bool)
    (w : WrittenEntry × Bytes) : Type 0 where
  pub raw : Bytes
  pub source : copied ≡ ok raw
  pub path : w.0.path ≡ in_.path
  pub stamp : w.0.timestamp ≡ time_to_u32 in_.mod_time
  pub choice : IsChoice opts (candidate && should_compress_by_size opts.sizes (length raw)) raw w

compressed_payload-IsPacked :
    (r : WrittenEntry) (raw packed : Bytes) (current : ℕ) {w : WrittenEntry × Bytes}
    → r.data_size ≡ length raw
    → length packed < length raw
    → compressed_payload r packed current ≡ ok w
    → IsPacked raw packed w × (w.0.path ≡ r.path) × (w.0.timestamp ≡ r.timestamp)
unfolding compressed_payload
compressed_payload-IsPacked r raw packed current {w} size less h =
    let (n, _, e) = bind-eq-ok (checked_data_size (length packed) current) _ h in
    subst (λ v. IsPacked raw packed v × (v.0.path ≡ r.path) × (v.0.timestamp ≡ r.timestamp))
      (ok-injective e)
      (record { smaller = less; bytes = refl; mime = refl; original = size }, refl, refl)

choose_payload-IsChoice :
    (opts : PackOptions) (r : WrittenEntry) (raw packed : Bytes) (current : ℕ)
    {w : WrittenEntry × Bytes}
    → r.data_size ≡ length raw
    → IsRaw raw (r, raw)
    → opts.compress raw ≡ ok packed
    → choose_payload r raw packed current ≡ ok w
    → IsChoice opts true raw w × (w.0.path ≡ r.path) × (w.0.timestamp ≡ r.timestamp)
unfolding choose_payload
choose_payload-IsChoice opts r raw packed current {w} size plain c h =
    elim (Bool-cases (leb (length raw) (length packed))) [
      | inl no_gain ↦
          let same : ok (r, raw) ≡ ok w = sym (rw (no_gain) refl) ∙ h in
          subst
            (λ v. IsChoice opts true raw v × (v.0.path ≡ r.path) × (v.0.timestamp ≡ r.timestamp))
            (ok-injective same) ((packed, c, inl (ground arith, plain)), refl, refl)
      | inr gain ↦
          let packs : compressed_payload r packed current ≡ ok w = sym (rw (gain) refl) ∙ h in
          let (is, path, stamp) =
            compressed_payload-IsPacked r raw packed current size (ground arith) packs in
          ((packed, c, inr is), path, stamp)
    ]

module _ (fuel buffer : ℕ) where
  write_uncompressed_payload-Describes :
      (src : Stream) (in_ : Input) (opts : PackOptions) (current : ℕ) {w : WrittenEntry × Bytes}
      → write_uncompressed_payload fuel buffer src in_ current ≡ ok w
      → Describes (copy_payload_bounded fuel buffer src (max_u32 - current)) in_ opts false w
  unfolding write_uncompressed_payload
  write_uncompressed_payload-Describes src in_ opts current {w} h =
      let copied = copy_payload_bounded fuel buffer src (max_u32 - current) in
      let (raw, source, h₁) = bind-eq-ok copied _ h in
      let (n, _, e) = bind-eq-ok (checked_data_size (length raw) current) _ h₁ in
      subst (Describes copied in_ opts false) (ok-injective e) (record {
        raw = raw;
        source = source;
        path = refl;
        stamp = refl;
        choice = record { bytes = refl; mime = refl; original = refl };
      })

  write_in_memory-Describes :
      (src : Stream) (in_ : Input) (opts : PackOptions) (current limit : ℕ)
      {w : WrittenEntry × Bytes}
      → current ≤ max_u32
      → write_compressed_candidate_payload_in_memory fuel buffer src in_ opts current limit ≡ ok w
      → Describes (copy_payload_bounded fuel buffer src limit) in_ opts true w
  unfolding write_compressed_candidate_payload_in_memory
  write_in_memory-Describes src in_ opts current limit {w} hc h =
      let copied = copy_payload_bounded fuel buffer src limit in
      let (raw, source, h₁) = bind-eq-ok copied _ h in
      let (n, e, h₂) = bind-eq-ok (checked_data_size (length raw) current) _ h₁ in
      let c = checked_data_size-Checked (length raw) current hc e in
      let r : WrittenEntry = record {
        path = in_.path;
        data_size = n;
        original_size = 0;
        mime = mime_nil;
        timestamp = time_to_u32 in_.mod_time;
        compression_candidate = false;
      } in
      let plain : IsRaw raw (r, raw) = record { bytes = refl; mime = refl; original = refl } in
      elim (Bool-cases (should_compress_by_size opts.sizes n)) [
        | inl small ↦
            let h₃ : (opts.compress raw >>= λ packed. choose_payload r raw packed current) ≡ ok w =
              sym (rw (small) refl) ∙ h₂ in
            let (packed, is, h₄) = bind-eq-ok (opts.compress raw) _ h₃ in
            let (choice, path, stamp) =
              choose_payload-IsChoice opts r raw packed current c.same plain is h₄ in
            record {
              raw = raw;
              source = source;
              path = path;
              stamp = stamp;
              choice =
                  subst (λ b. IsChoice opts b raw w)
                    (sym small ∙ ap (should_compress_by_size opts.sizes) c.same) choice;
            }
        | inr large ↦
            let same : ok (r, raw) ≡ ok w = sym (rw (large) refl) ∙ h₂ in
            subst (Describes copied in_ opts true) (ok-injective same) (record {
              raw = raw;
              source = source;
              path = refl;
              stamp = refl;
              choice =
                  subst (λ b. IsChoice opts b raw (r, raw))
                    (sym large ∙ ap (should_compress_by_size opts.sizes) c.same) plain;
            })
      ]

  pub write_input_payload-Describes :
      (src : Stream) (in_ : Input) (opts : PackOptions) (use_compression : Bool) (current : ℕ)
      {w : WrittenEntry × Bytes}
      → current ≤ max_u32
      → write_input_payload fuel buffer src in_ opts use_compression current ≡ ok w
      → Describes
          (copy_payload_bounded fuel buffer src (max_u32 - current))
          in_
          opts
          (use_compression
            && should_use_in_memory_compress_path opts.sizes in_.size_hint (max_u32 - current))
          w
  unfolding write_input_payload write_compressed_candidate_payload
  write_input_payload-Describes src in_ opts false current hc h =
      write_uncompressed_payload-Describes src in_ opts current h
  write_input_payload-Describes src in_ opts true current {w} hc h =
      let limit = max_u32 - current in
      elim (Bool-cases (should_use_in_memory_compress_path opts.sizes in_.size_hint limit)) [
        | inl in_memory ↦
            let packs : write_compressed_candidate_payload_in_memory fuel buffer src in_ opts
                  current limit
                ≡ ok w =
              sym (rw (in_memory) refl) ∙ h in
            rw (in_memory) (write_in_memory-Describes src in_ opts current limit hc packs)
        | inr streamed ↦
            let plain : write_uncompressed_payload fuel buffer src in_ current ≡ ok w =
              sym (rw (streamed) refl) ∙ h in
            rw (streamed) (write_uncompressed_payload-Describes src in_ opts current plain)
      ]
