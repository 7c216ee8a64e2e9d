-- ===== src/Sign/Chunks.antt =====
-- The chunked reads of sign_hashset.go and of io.Copy, of a part that lies within the file.
use pbo.Common.{
  ℕ, zero, suc, ◌+◌, ◌-◌, ◌≤◌, ◌<◌, ◌≡◌, refl, sym, ◌∙◌, ap, arith, false, [], ◌∷◌, ◌++◌, none, leb,
  ◌==◌, length, min, Bytes, Bool-cases, inl, inr, append-nil,
}
use pbo.Model.{Result, ok}
use pbo.Wire.{bytes_reader}
use pbo.Sign.Packed.{
  is_eof, after_packed, hash_packed_loop, section_read, after_section, copy_section,
}
use pbo.Wire.Parts.{part_of, part_of-split, reader-full, length-part_of}

after_packed-more :
    (part : Bytes) (remaining : ℕ) (out : Bytes) (more : Result Bytes)
    → 0 < length part
    → after_packed part none remaining out more ≡ more
unfolding after_packed
after_packed-more [] remaining out more h = absurd (omega arith)
after_packed-more (c ∷ part) remaining out more h = refl

pub hash_packed_loop_lem :
    (fuel : ℕ) (content : Bytes) (off remaining : ℕ) (out : Bytes)
    → off + remaining ≤ length content
    → remaining < fuel
    → hash_packed_loop fuel (bytes_reader content) off remaining out
      ≡ ok (out ++ part_of content off remaining)
unfolding hash_packed_loop
hash_packed_loop_lem zero content off remaining out h hf = absurd (omega arith)
hash_packed_loop_lem (suc fuel) content off zero out h hf = ap ok (sym (append-nil out))
hash_packed_loop_lem (suc fuel) content off (suc remaining) out h hf =
    let n = min 32768 (suc remaining) in
    let left = suc remaining - n in
    let fits : off + n ≤ length content = omega arith in
    let size = length-part_of content off n fits in
    let some_read : 0 < length (part_of content off n) = omega arith in
    let whole : n + left ≡ suc remaining = omega arith in
    let positive : (suc remaining == 0) ≡ false = ground arith in
    rw (reader-full content off n fits, size, positive)
      (after_packed-more (part_of content off n) left (out ++ part_of content off n)
          (hash_packed_loop fuel (bytes_reader content) (off + n) left
            (out ++ part_of content off n))
          some_read
        ∙ (hash_packed_loop_lem fuel content (off + n) left (out ++ part_of content off n)
              (omega arith) (omega arith)
            ∙ ap ok (
                part_of-split content out off n left
                ∙ ap (λ k. out ++ part_of content off k) whole)))

-- io.Copy from a section that lies within the file.
pub copy_section_lem :
    (fuel : ℕ) (content : Bytes) (off limit : ℕ) (out : Bytes)
    → off ≤ limit
    → limit ≤ length content
    → limit - off < fuel
    → copy_section fuel (bytes_reader content) off limit out
      ≡ ok (out ++ part_of content off (limit - off))
unfolding copy_section section_read after_section is_eof
copy_section_lem zero content off limit out h h' hf = absurd (omega arith)
copy_section_lem (suc fuel) content off limit out h h' hf = elim (Bool-cases (leb limit off)) [
  | inl at_end ↦ let none_left : limit - off ≡ 0 = ground arith in rw (at_end, none_left) refl
  | inr more ↦
      let n = min 32768 (limit - off) in
      let inside : off < limit = ground arith in
      let fits : off + n ≤ length content = omega arith in
      let size = length-part_of content off n fits in
      let whole : n + (limit - (off + n)) ≡ limit - off = omega arith in
      rw (more, reader-full content off n fits, size)
        (copy_section_lem fuel content (off + n) limit (out ++ part_of content off n) (omega arith)
            h' (omega arith)
          ∙ ap ok (
              part_of-split content out off n (limit - (off + n))
              ∙ ap (λ k. out ++ part_of content off k) whole))
]
