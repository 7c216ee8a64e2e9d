-- ===== src/Offsets/Defs.antt =====
-- The offset policies of reader.go. `Offset` fields are uint32, positions are int64 patterns. The
-- loops write into the entry slice while they run, so each returns the slice as it leaves it, also
-- when it fails.
use pbo.Common.{
  ℕ, ◌-◌, ◌%◌, ◌^◌, Bool, true, false, not, ◌||◌, List, [], ◌∷◌, ltb, leb, ◌==◌, if◌then◌else◌,
  max_u32, add_u32, add_i64, lt_i64, minus_one_i64,
}
use pbo.Model.{
  EntryInfo, OffsetMode, empty_mode, sequential, stored_compat, stored_strict, unknown_mode, Result,
  ok, err, size_overflow, malformed_offsets, invalid_entry_offset, ◌>>=◌, ◌>>◌, guard,
}

-- The loop of `assignSequentialOffsets`.
unfoldable pub assign_sequential_from : ℕ → List EntryInfo → Result (List EntryInfo)
assign_sequential_from current [] = ok []
assign_sequential_from current (e ∷ es) = do
  guard (leb e.data_size (max_u32 - current)) size_overflow
  rest ← assign_sequential_from (add_u32 current e.data_size) es
  ok (record e { offset = current } ∷ rest)

unfoldable pub assign_sequential_offsets : List EntryInfo → ℕ → Result (List EntryInfo)
assign_sequential_offsets entries data_start = do
  guard (not (lt_i64 data_start 0 || ltb max_u32 data_start)) size_overflow
  assign_sequential_from (data_start % 2 ^ 32) entries

-- The four tests of one round of `assignStoredOffsets`, each of which returns an error.
unfoldable pub refuses_stored : ℕ → ℕ → ℕ → ℕ → ℕ → Bool
refuses_stored data_start total_size prev resolved end =
    lt_i64 resolved data_start
    || (lt_i64 resolved 0 || ltb max_u32 resolved)
    || lt_i64 resolved prev
    || (lt_i64 end resolved || lt_i64 total_size end)

-- The loop of `assignStoredOffsets` behind an entry at `prev`: the slice as the loop leaves it,
-- and whether the loop reached its end.
unfoldable pub assign_stored_from : ℕ → ℕ → ℕ → ℕ → List EntryInfo → List EntryInfo × Bool
assign_stored_from data_start total_size adjust prev [] = ([], true)
assign_stored_from data_start total_size adjust prev (e ∷ es) =
    let resolved = add_i64 e.offset adjust in
    let end = add_i64 resolved e.data_size in
    let rest = assign_stored_from data_start total_size adjust resolved es in
    if refuses_stored data_start total_size prev resolved end
    then (e ∷ es, false)
    else (record e { offset = resolved % 2 ^ 32 } ∷ rest.0, rest.1)

unfoldable pub assign_stored_offsets : List EntryInfo → ℕ → ℕ → Bool → List EntryInfo × Bool
assign_stored_offsets entries data_start total_size absolute =
    assign_stored_from data_start total_size (if absolute then 0 else data_start) minus_one_i64
      entries

-- The scan for a non-zero offset.
unfoldable pub has_meaningful : List EntryInfo → Bool
has_meaningful [] = false
has_meaningful (e ∷ es) = not (e.offset == 0) || has_meaningful es

-- The two attempts, in the order that the first offset suggests. The second attempt runs on the
-- slice that the first one left behind.
unfoldable pub try_both : List EntryInfo → ℕ → ℕ → Bool → List EntryInfo × Result Bool
try_both entries data_start total_size absolute_first =
    let (es, done) = assign_stored_offsets entries data_start total_size absolute_first in
    let (es', done') = assign_stored_offsets es data_start total_size (not absolute_first) in
    if done then (es, ok true) else if done' then (es', ok true) else (es', err malformed_offsets)

unfoldable pub try_assign_stored_offsets : List EntryInfo → ℕ → ℕ → List EntryInfo × Result Bool
try_assign_stored_offsets [] data_start total_size = ([], ok false)
try_assign_stored_offsets (e ∷ es) data_start total_size =
    if has_meaningful (e ∷ es)
    then try_both (e ∷ es) data_start total_size (not (e.offset == 0 || lt_i64 e.offset data_start))
    else (e ∷ es, ok false)

unfoldable pub validate_resolved_offsets : List EntryInfo → ℕ → ℕ → Result (Unit {0})
validate_resolved_offsets [] data_start total_size = ok tt
validate_resolved_offsets (e ∷ es) data_start total_size = do
  let end = add_i64 e.offset e.data_size
  guard (not (lt_i64 e.offset data_start)) invalid_entry_offset
  guard (not (lt_i64 end e.offset || lt_i64 total_size end)) invalid_entry_offset
  validate_resolved_offsets es data_start total_size

-- What stored_compat does with the outcome of `tryAssignStoredOffsets`.
unfoldable pub compat_fallback : List EntryInfo → Result Bool → ℕ → Result (List EntryInfo)
compat_fallback es (err _) data_start = do
  es' ← assign_sequential_offsets es data_start
  assign_sequential_offsets es' data_start
compat_fallback es (ok false) data_start = assign_sequential_offsets es data_start
compat_fallback es (ok true) data_start = ok es

unfoldable pub strict_fallback : List EntryInfo → Result Bool → ℕ → Result (List EntryInfo)
strict_fallback es (err _) data_start = err invalid_entry_offset
strict_fallback es (ok false) data_start = assign_sequential_offsets es data_start
strict_fallback es (ok true) data_start = ok es

unfoldable pub assign_by_mode : OffsetMode → List EntryInfo → ℕ → ℕ → Result (List EntryInfo)
assign_by_mode sequential es data_start total_size = assign_sequential_offsets es data_start
assign_by_mode stored_compat es data_start total_size =
    let (es', used) = try_assign_stored_offsets es data_start total_size in
    compat_fallback es' used data_start
assign_by_mode stored_strict es data_start total_size =
    let (es', used) = try_assign_stored_offsets es data_start total_size in
    strict_fallback es' used data_start
assign_by_mode empty_mode es data_start total_size = err invalid_entry_offset
assign_by_mode unknown_mode es data_start total_size = err invalid_entry_offset

unfoldable pub resolve_entry_offsets : List EntryInfo → ℕ → ℕ → OffsetMode → Result (List EntryInfo)
resolve_entry_offsets entries data_start total_size mode = do
  es ← assign_by_mode mode entries data_start total_size
  validate_resolved_offsets es data_start total_size
  ok es
