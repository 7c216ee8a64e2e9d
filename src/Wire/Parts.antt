-- ===== src/Wire/Parts.antt =====
-- Parts of a file, and reads that lie within it.
use pbo.Common.{
  ℕ, zero, suc, ◌+◌, ◌≤◌, ◌≡◌, refl, sym, ◌∙◌, ap, arith, false, [], ◌∷◌, ◌++◌, none, ltb, length,
  take, drop, Bytes, append_assoc, length-take, length-drop, drop-drop, take-nil,
}
use pbo.Wire.{bytes_reader}

-- The part of a file from an offset.
abbrev pub part_of : Bytes → ℕ → ℕ → Bytes
part_of content off n = take n (drop off content)

take-split : (n m : ℕ) (s : Bytes) → take n s ++ take m (drop n s) ≡ take (n + m) s
take-split zero m s = ap (λ k. take k s) (omega arith)
take-split (suc n) m [] = take-nil m ∙ sym (take-nil (suc n + m))
take-split (suc n) m (c ∷ s) =
    let next : suc (n + m) ≡ suc n + m = omega arith in
    ap (◌∷◌ c) (take-split n m s) ∙ ap (λ k. take k (c ∷ s)) next

pub part_of-split :
    (content out : Bytes) (off n m : ℕ)
    → (out ++ part_of content off n) ++ part_of content (off + n) m
      ≡ out ++ part_of content off (n + m)
part_of-split content out off n m =
    append_assoc out (part_of content off n) (part_of content (off + n) m)
    ∙ ap (◌++◌ out) (
        ap (λ t. part_of content off n ++ take m t) (sym (drop-drop off n (off + n) content refl))
        ∙ take-split n m (drop off content))

-- A read within the file is full.
pub reader-full :
    (content : Bytes) (off n : ℕ)
    → off + n ≤ length content
    → bytes_reader content off n ≡ (part_of content off n, none)
unfolding bytes_reader
reader-full content off n h =
    let left = length-drop off content in
    let got = length-take n (drop off content) in
    let full : ltb (length (part_of content off n)) n ≡ false = ground arith in rw (full) refl

pub length-part_of :
    (content : Bytes) (off n : ℕ) → off + n ≤ length content → length (part_of content off n) ≡ n
length-part_of content off n h =
    let left = length-drop off content in let got = length-take n (drop off content) in omega arith
