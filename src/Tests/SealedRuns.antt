-- ===== src/Tests/SealedRuns.antt =====
-- The sealed transform on a small archive.
use pbo.Common.{
  ◌⊎◌, ap, Bool, true, ◌&&◌, ◌≡◌, refl, ◌<◌, [], ◌∷◌, ◌++◌, Bytes, All, IsByte, arith, false,
  length, replicate, ltb,
}
use pbo.Model.{ok, ◌>>=◌}
use pbo.Wire.{bytes_reader, get_u32, is_empty, index_byte}
use pbo.Header.{
  parse_header_section, parse_pairs, check_header_read, read_null_terminated, read_null_from,
  on_index, after_chunk,
}
use pbo.Sealed.Cipher.{sealed_seed}
use pbo.Sealed.Layout.{
  SealedLayout, detect_sealed_trailer, build_sealed_layout, transform_size_of, transform_segments,
  apply_sealed_transform, apply_sealed_range, sealed, sealed_reader_at,
}
use pbo.Sealed.Range.{apply_sealed_range_lem}
use pbo.Sealed.InPlace.{transform_segments_lem}
use pbo.Sealed.Reads.{sealed_reader_at_lem}
use pbo.Sealed.RoundTrip.{apply_sealed_transform_lem}

abbrev key : Bytes
key = 0 ∷ 1 ∷ 2 ∷ 3 ∷ 4 ∷ 5 ∷ 6 ∷ 7 ∷ 8 ∷ 9 ∷ 10 ∷ 11 ∷ 12 ∷ 13 ∷ 14 ∷ 15 ∷ []

-- A header without pairs, an empty table and three bytes.
abbrev archive : Bytes
archive = 0 ∷ 115 ∷ 114 ∷ 101 ∷ 86 ∷ replicate 16 0 ++ (0 ∷ replicate 21 0 ++ (7 ∷ 8 ∷ 9 ∷ []))

abbrev layout : SealedLayout
layout = record { header_skip = 22; transform_size = 46; seed = sealed_seed 46 }

layout_run : build_sealed_layout 10 (bytes_reader archive) 46 false ≡ ok layout
unfolding build_sealed_layout transform_size_of parse_header_section parse_pairs check_header_read
    read_null_terminated read_null_from on_index after_chunk bytes_reader index_byte get_u32
    is_empty
layout_run = refl

transform_run :
    apply_sealed_transform 10 key archive false ≡ ok (transform_segments layout key archive)
unfolding apply_sealed_transform
transform_run = ap (λ m. m >>= λ l. ok (transform_segments l key archive)) layout_run

all_bytes : Bytes → Bool
all_bytes [] = true
all_bytes (c ∷ s) = ltb c 256 && all_bytes s

all_bytes_sound : (s : Bytes) → all_bytes s ≡ true → All IsByte s
unfolding all_bytes
all_bytes_sound [] h = tt
all_bytes_sound (c ∷ s) h =
    let here : c < 256 = ground arith in
    let rest : all_bytes s ≡ true = ground arith in (here, all_bytes_sound s rest)

archive-AllByte : All IsByte archive
unfolding all_bytes
archive-AllByte = all_bytes_sound archive refl

apply_sealed_transform_lem_example :
    (l : SealedLayout) × (build_sealed_layout 10 (bytes_reader archive) 46 false ≡ ok l)
    × (length (transform_segments layout key archive) ≡ 46)
    × (sealed_reader_at (bytes_reader (transform_segments layout key archive)) l key
        ≡ bytes_reader archive)
    × (transform_segments l key (transform_segments layout key archive) ≡ archive)
    × ((apply_sealed_transform 10 key (transform_segments layout key archive) false ≡ ok archive)
        ⊎ ((false ≡ true) × (detect_sealed_trailer (bytes_reader archive) 46 ≡ ok false)))
apply_sealed_transform_lem_example =
    apply_sealed_transform_lem 10 key archive false
      {transformed = transform_segments layout key archive} archive-AllByte transform_run

apply_sealed_range_lem_example :
    apply_sealed_range layout key 30 (1 ∷ 2 ∷ 3 ∷ []) ≡ sealed layout key 30 (1 ∷ 2 ∷ 3 ∷ [])
apply_sealed_range_lem_example = apply_sealed_range_lem layout key 30 (1 ∷ 2 ∷ 3 ∷ [])

transform_segments_lem_example : transform_segments layout key archive ≡ sealed layout key 0 archive
transform_segments_lem_example =
    transform_segments_lem layout key archive (omega arith) (omega arith) (omega arith)

sealed_reader_at_lem_example :
    sealed_reader_at (bytes_reader (sealed layout key 0 archive)) layout key ≡ bytes_reader archive
sealed_reader_at_lem_example = sealed_reader_at_lem layout key archive archive-AllByte
