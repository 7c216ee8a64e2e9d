-- ===== src/Offsets/Sequential.antt =====
-- The sequential policy lays the payloads out one behind the other.
use pbo.Common.{ℕ, ◌+◌, ◌%◌, ◌^◌, ◌≤◌, ◌<◌, ◌≡◌, refl, List, [], ◌∷◌, arith, add_u32}
use pbo.Model.{EntryInfo, ok, err, sequential, size_overflow}
use pbo.Offsets.Defs.{
  assign_sequential_from, assign_sequential_offsets, validate_resolved_offsets, assign_by_mode,
  resolve_entry_offsets,
}

abbrev pub total_data : List EntryInfo → ℕ
total_data [] = 0
total_data (e ∷ es) = e.data_size + total_data es

-- Each payload begins where the one before it ends.
abbrev pub laid_out : ℕ → List EntryInfo → List EntryInfo
laid_out start [] = []
laid_out start (e ∷ es) = record e { offset = start } ∷ laid_out (start + e.data_size) es

assign_sequential_from_lem :
    (es : List EntryInfo) (start : ℕ)
    → start + total_data es < 2 ^ 32
    → assign_sequential_from start es ≡ ok (laid_out start es)
unfolding assign_sequential_from
assign_sequential_from_lem [] start h = refl
assign_sequential_from_lem (e ∷ es) start h =
    let wraps : add_u32 start e.data_size ≡ start + e.data_size = omega arith in
    ground (arith, wraps, assign_sequential_from_lem es (start + e.data_size))

validate_laid_out :
    (es : List EntryInfo) (start d t : ℕ)
    → d ≤ start
    → d < 2 ^ 32
    → t < 2 ^ 63
    → start + total_data es < 2 ^ 32
    → start + total_data es ≤ t
    → validate_resolved_offsets (laid_out start es) d t ≡ ok tt
unfolding validate_resolved_offsets
validate_laid_out [] start d t _ _ _ _ _ = refl
validate_laid_out (e ∷ es) start d t h hd ht fits file =
    ground (arith, validate_laid_out es (start + e.data_size) d t)

-- If the data fits the file and the 4 GiB of the format, the sequential policy succeeds, and lays
-- the payloads out from the start of the data, each where the one before it ends, whatever offsets
-- are stored.
pub resolve_sequential :
    (es : List EntryInfo) (d t : ℕ)
    → t < 2 ^ 63
    → d + total_data es < 2 ^ 32
    → d + total_data es ≤ t
    → resolve_entry_offsets es d t sequential ≡ ok (laid_out d es)
unfolding resolve_entry_offsets assign_by_mode assign_sequential_offsets
resolve_sequential es d t ht fits file =
    let low : d % 2 ^ 32 ≡ d = omega arith in
    ground (
      arith,
      low,
      assign_sequential_from_lem es d fits,
      validate_laid_out es d d t (omega arith) (omega arith) ht fits file,
    )

-- Where the data runs past 4 GiB the sequential policy reports an overflow.
assign_sequential_from_overflow :
    (es : List EntryInfo) (start : ℕ)
    → start < 2 ^ 32
    → 2 ^ 32 ≤ start + total_data es
    → assign_sequential_from start es ≡ err size_overflow
unfolding assign_sequential_from
assign_sequential_from_overflow [] start h over = absurd (omega arith)
assign_sequential_from_overflow (e ∷ es) start h over =
    ground (arith, assign_sequential_from_overflow es (start + e.data_size))

-- If the data runs past the 4 GiB of the format, the sequential policy fails with the size error.
pub resolve_sequential_overflow :
    (es : List EntryInfo) (d t : ℕ)
    → d < 2 ^ 63
    → 2 ^ 32 ≤ d + total_data es
    → resolve_entry_offsets es d t sequential ≡ err size_overflow
unfolding resolve_entry_offsets assign_by_mode assign_sequential_offsets
resolve_sequential_overflow es d t hd over =
    ground (arith, assign_sequential_from_overflow es (d % 2 ^ 32))
