-- ===== src/Offsets/Stored.antt =====
-- The strict policy on stored offsets: valid ones are taken as they stand, and a failed first
-- attempt leaks into the second.
use pbo.Common.{
  ℕ, ◌+◌, ◌%◌, ◌^◌, ◌≤◌, ◌<◌, ◌≡◌, refl, true, false, List, [], ◌∷◌, arith, add_i64, minus_one_i64,
  lt_i64,
}
use pbo.Model.{EntryInfo, ok, stored_strict}
use pbo.Offsets.Bounds.{InFile, IsEntry}
use pbo.Offsets.Defs.{
  refuses_stored, assign_stored_from, assign_stored_offsets, try_both, try_assign_stored_offsets,
  has_meaningful, strict_fallback, validate_resolved_offsets, assign_by_mode, resolve_entry_offsets,
}

-- Absolute offsets inside the file, in ascending order from `prev`.
abbrev pub Ascends : ℕ → ℕ → ℕ → List EntryInfo → Type 0
Ascends d t prev [] = Unit
Ascends d t prev (e ∷ es) = (prev ≤ e.offset) × InFile d t e × IsEntry e × Ascends d t e.offset es

refuses_stored-fits :
    (d t prev resolved size : ℕ)
    → d ≤ resolved
    → resolved < 2 ^ 32
    → resolved + size ≤ t
    → t < 2 ^ 63
    → lt_i64 resolved prev ≡ false
    → refuses_stored d t prev resolved (add_i64 resolved size) ≡ false
unfolding refuses_stored
refuses_stored-fits d t prev resolved size h1 h2 h3 h4 h5 = ground arith

assign_stored_from-Ascends :
    (es : List EntryInfo) (d t prev : ℕ)
    → t < 2 ^ 63
    → prev < 2 ^ 32
    → Ascends d t prev es
    → assign_stored_from d t 0 prev es ≡ (es, true)
unfolding assign_stored_from
assign_stored_from-Ascends [] d t prev ht hp _ = refl
assign_stored_from-Ascends (e ∷ es) d t prev ht hp (up, inside, word, rest) =
    let same : add_i64 e.offset 0 ≡ e.offset = omega arith in
    let low : e.offset % 2 ^ 32 ≡ e.offset = omega arith in
    ground (
      arith,
      same,
      low,
      refuses_stored-fits d t prev e.offset e.data_size,
      assign_stored_from-Ascends es d t e.offset ht word.0 rest,
    )

assign_stored_offsets-Ascends :
    (e : EntryInfo) (es : List EntryInfo) (d t : ℕ)
    → t < 2 ^ 63
    → Ascends d t 0 (e ∷ es)
    → assign_stored_offsets (e ∷ es) d t true ≡ (e ∷ es, true)
unfolding assign_stored_offsets assign_stored_from
assign_stored_offsets-Ascends e es d t ht (_, inside, word, rest) =
    let same : add_i64 e.offset 0 ≡ e.offset = omega arith in
    let low : e.offset % 2 ^ 32 ≡ e.offset = omega arith in
    ground (
      arith,
      same,
      low,
      refuses_stored-fits d t minus_one_i64 e.offset e.data_size,
      assign_stored_from-Ascends es d t e.offset ht word.0 rest,
    )

validate_resolved_offsets-Ascends :
    (es : List EntryInfo) (d t prev : ℕ)
    → t < 2 ^ 63
    → Ascends d t prev es
    → validate_resolved_offsets es d t ≡ ok tt
unfolding validate_resolved_offsets
validate_resolved_offsets-Ascends [] d t prev ht _ = refl
validate_resolved_offsets-Ascends (e ∷ es) d t prev ht (up, inside, word, rest) =
    ground (arith, validate_resolved_offsets-Ascends es d t e.offset ht rest)

-- A table of ascending absolute offsets inside the file, the first of them not zero, passes the
-- strict policy unchanged.
pub resolve_strict_absolute :
    (e : EntryInfo) (es : List EntryInfo) (d t : ℕ)
    → 0 < e.offset
    → t < 2 ^ 63
    → Ascends d t 0 (e ∷ es)
    → resolve_entry_offsets (e ∷ es) d t stored_strict ≡ ok (e ∷ es)
unfolding resolve_entry_offsets assign_by_mode try_assign_stored_offsets has_meaningful try_both
    strict_fallback
resolve_strict_absolute e es d t pos ht h = ground (
  arith,
  assign_stored_offsets-Ascends e es d t ht h,
  validate_resolved_offsets-Ascends (e ∷ es) d t 0 ht h,
)

-- The relative attempt accepts the first of two entries and refuses the second: the slice it
-- leaves holds the first offset shifted.
first_attempt_leaks :
    (a b : EntryInfo) (d t : ℕ)
    → IsEntry a
    → IsEntry b
    → t < 2 ^ 63
    → a.offset < d
    → a.offset + d < 2 ^ 32
    → a.offset + d + a.data_size ≤ t
    → t < b.offset + d + b.data_size
    → assign_stored_offsets (a ∷ b ∷ []) d t false
      ≡ (record a { offset = a.offset + d } ∷ b ∷ [], false)
unfolding assign_stored_offsets assign_stored_from refuses_stored
first_attempt_leaks a b d t wa wb ht first fits inside outside = ground arith

-- If the relative reading of two stored offsets fits the first entry and not the second, and the
-- absolute reading puts the first entry before the data, the strict policy still accepts the
-- table, when the second offset read as absolute comes behind the first one read as relative and
-- fits the file: one entry is placed by each reading.
pub resolve_strict_mixed :
    (a b : EntryInfo) (d t : ℕ)
    → IsEntry a
    → IsEntry b
    → t < 2 ^ 63
    → a.offset < d
    → a.offset + d + a.data_size ≤ t
    → t < b.offset + d + b.data_size
    → a.offset + d ≤ b.offset
    → b.offset + b.data_size ≤ t
    → resolve_entry_offsets (a ∷ b ∷ []) d t stored_strict
      ≡ ok (record a { offset = a.offset + d } ∷ b ∷ [])
unfolding resolve_entry_offsets assign_by_mode try_assign_stored_offsets has_meaningful try_both
    strict_fallback
resolve_strict_mixed a b d t wa wb ht first inside outside behind file =
    let a' : EntryInfo = record a { offset = a.offset + d } in
    let up : Ascends d t 0 (a' ∷ b ∷ []) = omega arith in
    ground (
      arith,
      first_attempt_leaks a b d t wa wb ht first,
      assign_stored_offsets-Ascends a' (b ∷ []) d t ht up,
      validate_resolved_offsets-Ascends (a' ∷ b ∷ []) d t 0 ht up,
    )
