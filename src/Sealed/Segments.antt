-- ===== src/Sealed/Segments.antt =====
-- sealedSegmentAt of sealed.go, and the key stream within a segment.
use Prim.Native.Nat.{max, bit_xor}
use pbo.Common.{
  ℕ, zero, suc, ◌+◌, ◌-◌, ◌/◌, ◌≤◌, ◌<◌, ◌≡◌, refl, sym, ap, ap₂, ◌∙◌, arith, [], ◌∷◌, ◌++◌, true,
  false, inl, inr, length, Bytes, ltb, leb, Bool-cases, min, subst, lt→ltb, le→ltb, ◌&&◌,
}
use pbo.Sealed.Cipher.{Rc4State, step, output, iterate, apply}
use pbo.Sealed.Layout.{
  block_segment, sealed_block_size, SealedLayout, sealed_segment_at, segment_state, keystream,
  seal_byte, sealed,
}

iterate-step : (n : ℕ) (s : Rc4State) → iterate n (step s) ≡ step (iterate n s)
unfolding iterate
iterate-step zero s = refl
iterate-step (suc n) s = iterate-step n (step s)

-- The segment of a position is the first one or that of the position's block.
pub segment_near :
    (l : SealedLayout) (pos : ℕ)
    → pos < sealed_block_size
    → sealed_segment_at l pos ≡ (l.header_skip, min sealed_block_size l.transform_size, 0)
unfolding sealed_segment_at
segment_near l pos h = rw (lt→ltb pos sealed_block_size h)

pub segment_far :
    (l : SealedLayout) (pos : ℕ)
    → sealed_block_size ≤ pos
    → sealed_segment_at l pos ≡ block_segment l (pos / sealed_block_size)
unfolding sealed_segment_at
segment_far l pos h = rw (le→ltb pos sealed_block_size h)

-- The rest of a segment has its start, its end and its stream position.
segment_rest :
    (l : SealedLayout) (pos q : ℕ)
    → pos ≤ q
    → q < (sealed_segment_at l pos).1
    → sealed_segment_at l q ≡ sealed_segment_at l pos
segment_rest l pos q h h' = elim (Bool-cases (ltb pos sealed_block_size)) [
  | inl near ↦
      let p : pos < sealed_block_size = ground arith in
      let h : q < min sealed_block_size l.transform_size =
        subst (λ s. q < s.1) (segment_near l pos p) h' in
      segment_near l q (omega arith) ∙ sym (segment_near l pos p)
  | inr far ↦
      let p : sealed_block_size ≤ pos = ground arith in
      let bound : q < (block_segment l (pos / sealed_block_size)).1 =
        subst (λ s. q < s.1) (segment_far l pos p) h' in
      let same : q / sealed_block_size ≡ pos / sealed_block_size = omega arith in
      segment_far l q (omega arith) ∙ (ap (block_segment l) same ∙ sym (segment_far l pos p))
]

pub segment_progress :
    (l : SealedLayout) (pos : ℕ) → pos < l.transform_size → pos < (sealed_segment_at l pos).1
segment_progress l pos h = elim (Bool-cases (ltb pos sealed_block_size)) [
  | inl near ↦
      let p : pos < sealed_block_size = ground arith in
      subst (λ s. pos < s.1) (sym (segment_near l pos p)) (omega arith)
  | inr far ↦
      let p : sealed_block_size ≤ pos = ground arith in
      let bound : pos < (block_segment l (pos / sealed_block_size)).1 = omega arith in
      subst (λ s. pos < s.1) (sym (segment_far l pos p)) bound
]

pub segment_end_le : (l : SealedLayout) (pos : ℕ) → (sealed_segment_at l pos).1 ≤ l.transform_size
segment_end_le l pos = elim (Bool-cases (ltb pos sealed_block_size)) [
  | inl near ↦
      let p : pos < sealed_block_size = ground arith in
      subst (λ s. s.1 ≤ l.transform_size) (sym (segment_near l pos p)) (omega arith)
  | inr far ↦
      let p : sealed_block_size ≤ pos = ground arith in
      subst (λ s. s.1 ≤ l.transform_size) (sym (segment_far l pos p)) (omega arith)
]

segment_start_le :
    (l : SealedLayout) (pos : ℕ) → l.header_skip ≤ pos → (sealed_segment_at l pos).0 ≤ pos
segment_start_le l pos h = elim (Bool-cases (ltb pos sealed_block_size)) [
  | inl near ↦
      let p : pos < sealed_block_size = ground arith in
      subst (λ s. s.0 ≤ pos) (sym (segment_near l pos p)) h
  | inr far ↦
      let p : sealed_block_size ≤ pos = ground arith in
      subst (λ s. s.0 ≤ pos) (sym (segment_far l pos p)) (omega arith)
]

module _ (l : SealedLayout) (key : Bytes) where
  seal_inside :
      (pos c : ℕ)
      → l.header_skip ≤ pos
      → pos < l.transform_size
      → seal_byte l key pos c ≡ bit_xor c (keystream l key pos)
  unfolding seal_byte
  seal_inside pos c h h' =
      let e : (leb l.header_skip pos && ltb pos l.transform_size) ≡ true = ground arith in rw (e)

  seal_outside :
      (pos c : ℕ)
      → min (suc pos) l.transform_size ≤ max pos l.header_skip
      → seal_byte l key pos c ≡ c
  unfolding seal_byte
  seal_outside pos c h =
      let e : (leb l.header_skip pos && ltb pos l.transform_size) ≡ false = ground arith in rw (e)

  -- Bytes none of which lies in the transformed region are left alone.
  pub sealed_outside :
      (pos : ℕ) (d : Bytes)
      → min (pos + length d) l.transform_size ≤ max pos l.header_skip
      → sealed l key pos d ≡ d
  unfolding sealed
  sealed_outside pos [] h = refl
  sealed_outside pos (c ∷ d) h =
      ap₂ ◌∷◌ (seal_outside pos c (omega arith)) (sealed_outside (pos + 1) d (omega arith))

  pub sealed-append :
      (pos : ℕ) (d e : Bytes)
      → sealed l key pos (d ++ e) ≡ sealed l key pos d ++ sealed l key (pos + length d) e
  unfolding sealed
  sealed-append pos [] e = let p : pos ≡ pos + 0 = omega arith in ap (λ i. sealed l key i e) p
  sealed-append pos (c ∷ d) e =
      let p : pos + 1 + length d ≡ pos + suc (length d) = omega arith in
      ap (◌∷◌ (seal_byte l key pos c))
        (sealed-append (pos + 1) d e ∙ ap (λ i. sealed l key (pos + 1) d ++ sealed l key i e) p)

  pub length-sealed : (pos : ℕ) (d : Bytes) → length (sealed l key pos d) ≡ length d
  unfolding sealed
  length-sealed pos [] = refl
  length-sealed pos (c ∷ d) = ap suc (length-sealed (pos + 1) d)

  -- A byte of the key stream, counted from any earlier position of its segment.
  keystream_from :
      (at pos : ℕ)
      → at ≤ pos
      → pos < (sealed_segment_at l at).1
      → keystream l key pos
        ≡ output (
            iterate
              (suc (pos - (sealed_segment_at l at).0))
              (segment_state l key (sealed_segment_at l at).2))
  unfolding keystream
  keystream_from at pos h h' =
      ap (λ s. output (iterate (suc (pos - s.0)) (segment_state l key s.2)))
        (segment_rest l at pos h h')

  -- Within a segment, the generator that has skipped what lies before the position gives its bytes.
  pub apply_segment :
      (at pos : ℕ) (d : Bytes)
      → at ≤ pos
      → l.header_skip ≤ at
      → pos + length d ≤ (sealed_segment_at l at).1
      → apply
          (iterate
            (pos - (sealed_segment_at l at).0)
            (segment_state l key (sealed_segment_at l at).2))
          d
        ≡ sealed l key pos d
  unfolding apply sealed iterate
  apply_segment at pos [] h h' hd = refl
  apply_segment at pos (c ∷ d) h h' hd =
      let start = (sealed_segment_at l at).0 in
      let init = segment_state l key (sealed_segment_at l at).2 in
      let end_le = segment_end_le l at in
      let start_le = segment_start_le l at h' in
      let head : bit_xor c (output (step (iterate (pos - start) init))) ≡ seal_byte l key pos c =
        ap (λ s. bit_xor c (output s)) (sym (iterate-step (pos - start) init))
        ∙ (ap (bit_xor c) (sym (keystream_from at pos h (omega arith)))
            ∙ sym (seal_inside pos c (omega arith) (omega arith))) in
      let next : suc (pos - start) ≡ pos + 1 - start = omega arith in
      let state : step (iterate (pos - start) init) ≡ iterate (pos + 1 - start) init =
        sym (iterate-step (pos - start) init) ∙ ap (λ n. iterate n init) next in
      ap₂ ◌∷◌ head
        (ap (λ s. apply s d) state ∙ apply_segment at (pos + 1) d (omega arith) h' (omega arith))
