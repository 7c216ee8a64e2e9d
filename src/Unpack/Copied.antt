-- ===== src/Unpack/Copied.antt =====
-- The copy loops of the extraction, on readers that answer with data until they end.
use pbo.Common.{
  ℕ, zero, suc, ◌+◌, ◌<◌, ◌≡◌, refl, sym, ◌∙◌, ap, ap₂, arith, false, [], ◌∷◌, ◌++◌, ◌==◌, length,
  drop, Bytes, append-nil, append_assoc, length-append, take-append, drop-append, drop-drop,
}
use pbo.Model.{ok}
use pbo.Wire.{is_empty}
use pbo.Streams.{Stream, chunk, nothing, failure, ReadEnd, continues, read}
use pbo.Streams.Bounded.{IsHealthy, stream_data, read-Reads}
use pbo.Trailer.{write_at}
use pbo.Unpack.{after_copy, copy_extract_loop, copy_extract_data, read_all}

-- A write at the end of what was written before goes over what is behind.
write_at-inside :
    (pre block rest : Bytes)
    → write_at (pre ++ rest) (length pre) block ≡ (pre ++ block) ++ drop (length block) rest
unfolding write_at
write_at-inside pre block rest = rw (take-append pre rest) (
    ap (λ t. pre ++ (block ++ t))
      (sym (drop-drop (length pre) (length block) (length pre + length block) (pre ++ rest) refl)
        ∙ ap (drop (length block)) (drop-append pre rest))
    ∙ sym (append_assoc pre block (drop (length block) rest)))

copied : Bytes → Bytes → Bytes → Bytes
copied pre payload rest = (pre ++ payload) ++ drop (length payload) rest

copied-append :
    (pre part more rest : Bytes)
    → copied (pre ++ part) more (drop (length part) rest) ≡ copied pre (part ++ more) rest
unfolding copied
copied-append pre part more rest =
    let size = length-append part more in
    ap₂ (λ a b. a ++ b) (append_assoc pre part more)
      (drop-drop (length part) (length more) (length (part ++ more)) rest (omega arith))

copy_extract_loop-chunk :
    (fuel buffer : ℕ) (pre rest : Bytes) (s : Stream) (part : Bytes) (end : ReadEnd) (left : Stream)
    → read buffer s ≡ (part, end, left)
    → end ≡ continues
    → is_empty part ≡ false
    → copy_extract_loop (suc fuel) buffer (pre ++ rest) (length pre) s
      ≡ copy_extract_loop fuel buffer
          ((pre ++ part) ++ drop (length part) rest)
          (length (pre ++ part))
          left
unfolding copy_extract_loop after_copy
copy_extract_loop-chunk fuel buffer pre rest s part end left e goes_on nonempty =
    rw (e, goes_on, nonempty, write_at-inside pre part rest)
      (ap (λ n. copy_extract_loop fuel buffer ((pre ++ part) ++ drop (length part) rest) n left)
        (sym (length-append pre part)))

nonempty-length : (s : Bytes) → is_empty s ≡ false → 0 < length s
unfolding is_empty
nonempty-length [] h = cc
nonempty-length (c ∷ s) h = omega arith

copy_extract_loop_lem :
    (fuel buffer : ℕ) (pre rest : Bytes) (s : Stream)
    → 0 < buffer
    → IsHealthy s
    → length (stream_data s) < fuel
    → copy_extract_loop fuel buffer (pre ++ rest) (length pre) s
      ≡ ok (copied pre (stream_data s) rest, length pre + length (stream_data s))
unfolding copy_extract_loop after_copy read is_empty copied
copy_extract_loop_lem zero buffer pre rest s pos healthy enough = absurd (omega arith)
copy_extract_loop_lem (suc fuel) buffer pre rest [] pos healthy enough =
    ap (λ (p : Bytes). ok (p ++ rest, length pre + 0)) (sym (append-nil pre))
copy_extract_loop_lem (suc fuel) buffer pre rest (chunk b ∷ s) pos healthy enough =
    let src : Stream = chunk b ∷ s in
    let (part, end, left) = read buffer src in
    let r = read-Reads buffer b s pos healthy in
    let some_data = nonempty-length part r.nonempty in
    let sum = length-append part (stream_data left) in
    let all : length (part ++ stream_data left) ≡ length (stream_data src) = ap length r.splits in
    let first = length-append pre part in
    let total : length (pre ++ part) + length (stream_data left)
        ≡ length pre + length (stream_data src) =
      omega arith in
    copy_extract_loop-chunk fuel buffer pre rest src part end left refl r.goes_on r.nonempty
    ∙ (copy_extract_loop_lem fuel buffer (pre ++ part) (drop (length part) rest) left pos r.healthy
          (omega arith)
        ∙ ap₂ (λ a n. ok (a, n))
            (copied-append pre part (stream_data left) rest ∙ ap (λ t. copied pre t rest) r.splits)
            total)
copy_extract_loop_lem (suc fuel) buffer pre rest (nothing ∷ s) pos healthy enough = absurd healthy
copy_extract_loop_lem (suc fuel) buffer pre rest (failure ∷ s) pos healthy enough = absurd healthy

-- From a reader that answers with data until it ends, the copy puts the data over the front of what
-- the file had.
pub copy_extract_data_lem :
    (fuel buffer : ℕ) (old : Bytes) (s : Stream)
    → 0 < buffer
    → IsHealthy s
    → length (stream_data s) < fuel
    → copy_extract_data fuel buffer old s
      ≡ ok (stream_data s ++ drop (length (stream_data s)) old, length (stream_data s))
unfolding copy_extract_data copied
copy_extract_data_lem fuel buffer old s pos healthy enough =
    let given : (buffer == 0) ≡ false = ground arith in
    let zero_first : 0 + length (stream_data s) ≡ length (stream_data s) = omega arith in
    rw (given) (
      copy_extract_loop_lem fuel buffer [] old s pos healthy enough
      ∙ ap (λ n. ok (stream_data s ++ drop (length (stream_data s)) old, n)) zero_first)

pub read_all_lem :
    (fuel buffer : ℕ) (out : Bytes) (s : Stream)
    → 0 < buffer
    → IsHealthy s
    → length (stream_data s) < fuel
    → read_all fuel buffer out s ≡ ok (out ++ stream_data s)
unfolding read_all after_copy read
read_all_lem zero buffer out s pos healthy enough = absurd (omega arith)
read_all_lem (suc fuel) buffer out [] pos healthy enough = refl
read_all_lem (suc fuel) buffer out (chunk b ∷ s) pos healthy enough =
    let src : Stream = chunk b ∷ s in
    let (part, end, left) = read buffer src in
    let r = read-Reads buffer b s pos healthy in
    let some_data = nonempty-length part r.nonempty in
    let sum = length-append part (stream_data left) in
    let all : length (part ++ stream_data left) ≡ length (stream_data src) = ap length r.splits in
    rw (r.goes_on) (
      read_all_lem fuel buffer (out ++ part) left pos r.healthy (omega arith)
      ∙ ap ok (append_assoc out part (stream_data left) ∙ ap (λ t. out ++ t) r.splits))
read_all_lem (suc fuel) buffer out (nothing ∷ s) pos healthy enough = absurd healthy
read_all_lem (suc fuel) buffer out (failure ∷ s) pos healthy enough = absurd healthy
