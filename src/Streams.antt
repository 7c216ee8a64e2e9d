-- ===== src/Streams.antt =====
-- copyPayloadBounded and readPayloadBounded of writer.go over an io.Reader, and checkedDataSize.
-- A reader is the list of what it will answer; a write to the destination succeeds and is whole.
pub mod Bounded
use pbo.Common.{
  ℕ, zero, suc, ◌+◌, ◌-◌, ◌%◌, ◌^◌, Bool, true, false, not, ◌||◌, List, [], ◌∷◌, ◌++◌, ltb, leb,
  ◌==◌, if◌then◌else◌, length, take, drop, Bytes, lt_i64, max_u32, min,
}
use pbo.Model.{
  Error, Result, ok, err, ◌>>=◌, ◌>>◌, guard, size_overflow, no_progress, io_failure, out_of_fuel,
}
use pbo.Wire.{is_empty}

-- An answer of an io.Reader: data, nothing without an error, or an error. Behind the last answer
-- stands io.EOF.
pub data Answer : Type 0 where
  chunk : Bytes → Answer
  nothing failure : Answer

abbrev pub Stream : Type 0
Stream = List Answer

pub data ReadEnd : Type 0 where
  continues ended failed : ReadEnd

-- `src.Read` into a buffer of `n` bytes: the bytes, the error, and what the reader answers next.
unfoldable pub read : ℕ → Stream → Bytes × ReadEnd × Stream
read n [] = ([], ended, [])
read n (failure ∷ s) = ([], failed, s)
read n (nothing ∷ s) = ([], continues, s)
read n (chunk b ∷ s) =
    if leb (length b) n then (b, continues, s) else (take n b, continues, chunk (drop n b) ∷ s)

-- What follows one read in the loop: another round, the end of the loop, or an error.
unfoldable pub after_read :
    Bytes
    → ReadEnd
    → ℕ
    → Result (Bytes × Stream)
    → Result (Bytes × Stream)
    → Result (Bytes × Stream)
after_read part failed empty_reads done more = err io_failure
after_read part ended empty_reads done more = done
after_read (_ ∷ _) continues empty_reads done more = more
after_read [] continues empty_reads done more =
    if ltb 100 (empty_reads + 1) then err no_progress else more

-- The loop; the destination of the copy holds `out`, so `written` is its length.
unfoldable pub copy_loop : ℕ → ℕ → ℕ → ℕ → Bytes → Stream → Result (Bytes × Stream)
copy_loop zero buffer limit empty_reads out src = err out_of_fuel
copy_loop (suc fuel) buffer limit empty_reads out src =
    let (part, end, left) = read (min buffer (limit - length out)) src in
    let empty = if is_empty part then empty_reads + 1 else 0 in
    let more = copy_loop fuel buffer limit empty (out ++ part) left in
    if leb limit (length out)
    then ok (out, src)
    else after_read part end empty_reads (ok (out ++ part, left)) more

-- The probe of one byte behind a payload that fills the limit.
unfoldable pub probe : Bytes → ReadEnd → Bytes → Result Bytes
probe (_ ∷ _) end out = err size_overflow
probe [] failed out = err io_failure
probe [] continues out = ok out
probe [] ended out = ok out

-- `limit` is an int64 pattern. A buffer of no bytes is replaced by one of 32 KiB.
unfoldable pub copy_payload_bounded : ℕ → ℕ → Stream → ℕ → Result Bytes
copy_payload_bounded fuel buffer src limit = do
  guard (not (lt_i64 limit 0)) size_overflow
  (out, left) ← copy_loop fuel (if buffer == 0 then 32768 else buffer) limit 0 [] src
  let (part, end, _) = read 1 left
  if length out == limit then probe part end out else ok out

-- `checkedDataSize`; `size` is an int64 pattern.
unfoldable pub checked_data_size : ℕ → ℕ → Result ℕ
checked_data_size size current_offset = do
  guard (not (lt_i64 size 0 || ltb max_u32 size)) size_overflow
  guard (leb size (max_u32 - current_offset)) size_overflow
  ok (size % 2 ^ 32)
