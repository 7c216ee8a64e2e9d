-- ===== src/Sealed/Reads.antt =====
-- sealedReaderAt of sealed.go: reading a transformed archive as if it were plain.
use pbo.Common.{
  ℕ, zero, suc, ◌+◌, ◌-◌, ◌≡◌, refl, ap, ap₂, ◌∙◌, fun_ext, arith, [], ◌∷◌, none, some, ltb,
  if◌then◌else◌, Bytes, All, IsByte, leb, ◌&&◌, Bool-cases, take, drop, All-drop, All-take, length,
  inl, inr,
}
use pbo.Model.{eof}
use pbo.Wire.{bytes_reader}
use pbo.Sealed.Cipher.{iterate}
use pbo.Sealed.Cipher.States.{iterate-AllByte, output-IsByte, stream_state-AllByte}
use pbo.Sealed.Layout.{
  SealedLayout, sealed_segment_at, segment_state, keystream, seal_byte, sealed, sealed_reader_at,
}
use pbo.Sealed.Segments.{length-sealed}
use pbo.Sealed.Range.{apply_sealed_range_lem}
use pbo.Sealed.Xor.{bit_xor_twice}

module _ (l : SealedLayout) (key : Bytes) where
  keystream-IsByte : (pos : ℕ) → IsByte (keystream l key pos)
  unfolding keystream segment_state
  keystream-IsByte pos =
      let (start, end, stream_pos) = sealed_segment_at l pos in
      let init = segment_state l key stream_pos in
      output-IsByte (iterate (suc (pos - start)) init)
        (iterate-AllByte (suc (pos - start)) init (stream_state-AllByte key l.seed stream_pos))

  seal_byte_twice : (pos c : ℕ) → IsByte c → seal_byte l key pos (seal_byte l key pos c) ≡ c
  unfolding seal_byte
  seal_byte_twice pos c h = elim (Bool-cases (leb l.header_skip pos && ltb pos l.transform_size)) [
    | inl e ↦ rw (e) (bit_xor_twice c (keystream l key pos) h (keystream-IsByte pos))
    | inr e ↦ rw (e)
  ]

  -- The transform of a range is its own inverse.
  pub sealed_twice :
      (pos : ℕ) (d : Bytes) → All IsByte d → sealed l key pos (sealed l key pos d) ≡ d
  unfolding sealed
  sealed_twice pos [] h = refl
  sealed_twice pos (c ∷ d) (hc, h) = ap₂ ◌∷◌ (seal_byte_twice pos c hc) (sealed_twice (pos + 1) d h)

  drop-sealed :
      (n pos : ℕ) (d : Bytes) → drop n (sealed l key pos d) ≡ sealed l key (pos + n) (drop n d)
  unfolding sealed
  drop-sealed zero pos d = let e : pos ≡ pos + 0 = omega arith in ap (λ i. sealed l key i d) e
  drop-sealed (suc n) pos [] = refl
  drop-sealed (suc n) pos (c ∷ d) =
      let e : pos + 1 + n ≡ pos + suc n = omega arith in
      drop-sealed n (pos + 1) d ∙ ap (λ i. sealed l key i (drop n d)) e

  pub take-sealed :
      (n pos : ℕ) (d : Bytes) → take n (sealed l key pos d) ≡ sealed l key pos (take n d)
  unfolding sealed
  take-sealed zero pos d = refl
  take-sealed (suc n) pos [] = refl
  take-sealed (suc n) pos (c ∷ d) = ap (◌∷◌ (seal_byte l key pos c)) (take-sealed n (pos + 1) d)

  -- What a read of the transformed archive holds, is the transform of what a read of the plain one
  -- holds.
  pub part_sealed :
      (content : Bytes) (off n : ℕ)
      → take n (drop off (sealed l key 0 content)) ≡ sealed l key off (take n (drop off content))
  part_sealed content off n =
      let e : 0 + off ≡ off = omega arith in
      ap (take n) (drop-sealed off 0 content ∙ ap (λ i. sealed l key i (drop off content)) e)
      ∙ take-sealed n off (drop off content)

  -- On an archive of bytes that is transformed as a whole, every read through the sealed reader, at
  -- any offset and of any length, gives the bytes and the error that the same read of the plain
  -- archive gives.
  pub sealed_reader_at_lem :
      (content : Bytes)
      → All IsByte content
      → sealed_reader_at (bytes_reader (sealed l key 0 content)) l key ≡ bytes_reader content
  unfolding sealed_reader_at bytes_reader
  sealed_reader_at_lem content h = fun_ext (λ off. fun_ext (λ n. read off n))
    where
      read :
          (off n : ℕ)
          → sealed_reader_at (bytes_reader (sealed l key 0 content)) l key off n
            ≡ bytes_reader content off n
      read off n =
          let part = take n (drop off content) in
          let taken = part_sealed content off n in
          let bytes : All IsByte part =
            All-take IsByte n (drop off content) (All-drop IsByte off content h) in
          let count : length (take n (drop off (sealed l key 0 content))) ≡ length part =
            ap length taken ∙ length-sealed l key off part in
          ap₂ (λ d m. (d, if ltb m n then some eof else none))
            (apply_sealed_range_lem l key off (take n (drop off (sealed l key 0 content)))
              ∙ (ap (sealed l key off) taken ∙ sealed_twice off part bytes))
            count
