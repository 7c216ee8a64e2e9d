-- ===== src/Sealed/Range.antt =====
-- applySealedRangeInPlace of sealed.go against the description by positions.
use Prim.Native.Nat.{max}
use pbo.Common.{
  ℕ, zero, suc, ◌+◌, ◌-◌, ◌≤◌, ◌<◌, ◌≡◌, sym, ap, ◌∙◌, arith, ◌++◌, inl, inr, length, take, drop,
  length-append, length-take, length-drop, take-append-drop, append_assoc, splice-append, Bytes,
  leb, Bool-cases, min,
}
use pbo.Sealed.Cipher.{iterate, apply, discard}
use pbo.Sealed.Layout.{
  SealedLayout, sealed_segment_at, segment_state, range_loop, apply_sealed_range, sealed,
}
use pbo.Sealed.Segments.{
  segment_progress, apply_segment, sealed_outside, sealed-append, length-sealed,
}

module _ (l : SealedLayout) (key : Bytes) where
  -- One round of the loop: the segment's bytes are cut out, transformed and put back.
  round :
      (at : ℕ) (pre mid post : Bytes) (first last : ℕ)
      → length pre ≡ first
      → first + length mid ≡ last
      → l.header_skip ≤ at
      → at + length mid ≤ (sealed_segment_at l at).1
      → take first (pre ++ (mid ++ post))
          ++ (apply
                (discard
                  (at - (sealed_segment_at l at).0)
                  (segment_state l key (sealed_segment_at l at).2))
                (take (last - first) (drop first (pre ++ (mid ++ post))))
              ++ drop last (pre ++ (mid ++ post)))
        ≡ (pre ++ sealed l key at mid) ++ post
  unfolding discard
  round at pre mid post first last hf hl h h' =
      let (start, end, stream_pos) = sealed_segment_at l at in
      splice-append (apply (iterate (at - start) (segment_state l key stream_pos))) pre mid post
        first last hf hl
      ∙ ap (λ d. (pre ++ d) ++ post) (apply_segment l key at at mid (omega arith) h h')

  -- The prefix that is done grows by what a round transforms.
  pub grown :
      (cur next : ℕ) (pre mid post rest : Bytes)
      → next ≡ cur + length mid
      → mid ++ post ≡ rest
      → (pre ++ sealed l key cur mid) ++ sealed l key next post ≡ pre ++ sealed l key cur rest
  grown cur next pre mid post rest hn hr =
      append_assoc pre (sealed l key cur mid) (sealed l key next post)
      ∙ ap (λ r. pre ++ r)
          (ap (λ i. sealed l key cur mid ++ sealed l key i post) hn
            ∙ (sym (sealed-append l key cur mid post) ∙ ap (sealed l key cur) hr))

  -- The loop on a prefix that is done and a rest.
  range_loop_lem :
      (fuel cur range_end offset : ℕ) (pre rest : Bytes)
      → cur ≡ offset + length pre
      → l.header_skip ≤ cur
      → range_end ≡ min (offset + (length pre + length rest)) l.transform_size
      → range_end - cur < fuel
      → range_loop l key fuel cur range_end offset (pre ++ rest) ≡ pre ++ sealed l key cur rest
  unfolding range_loop
  range_loop_lem zero cur range_end offset pre rest hc hs he hf = absurd (omega arith)
  range_loop_lem (suc fuel) cur range_end offset pre rest hc hs he hf =
      elim (Bool-cases (leb range_end cur)) [
        | inl stop ↦
            rw (stop) (ap (λ r. pre ++ r) (sym (sealed_outside l key cur rest (ground arith))))
        | inr go ↦
            let more : cur < range_end = ground arith in
            let inside = segment_progress l cur (omega arith) in
            let next = min (sealed_segment_at l cur).1 range_end in
            let mid = take (next - cur) rest in
            let post = drop (next - cur) rest in
            let split : mid ++ post ≡ rest = take-append-drop (next - cur) rest in
            let width : length mid ≡ next - cur = omega (arith, length-take (next - cur) rest) in
            let remain = length-drop (next - cur) rest in
            let sizes = length-append pre (sealed l key cur mid) in
            let same = length-sealed l key cur mid in
            let once =
              round cur pre mid post (cur - offset) (next - offset) (omega arith) (omega arith) hs
                (omega arith) in
            let after =
              range_loop_lem fuel next range_end offset (pre ++ sealed l key cur mid) post
                (omega arith) (omega arith) (omega arith) (omega arith) in
            rw (go) (
              ap
                (λ r. range_loop l key fuel next range_end offset (
                  take (cur - offset) (pre ++ r)
                  ++ (apply
                        (discard (cur - (sealed_segment_at l cur).0)
                          (segment_state l key (sealed_segment_at l cur).2))
                        (take (next - offset - (cur - offset)) (drop (cur - offset) (pre ++ r)))
                      ++ drop (next - offset) (pre ++ r))))
                (sym split)
              ∙ (ap (range_loop l key fuel next range_end offset) once
                  ∙ (after ∙ grown cur next pre mid post rest (omega arith) split)))
      ]

  -- Random access agrees with the description: whatever range of the archive a read covers, the
  -- transform of the range is the transform of each of its bytes by the byte's position alone.
  pub apply_sealed_range_lem :
      (offset : ℕ) (d : Bytes) → apply_sealed_range l key offset d ≡ sealed l key offset d
  unfolding apply_sealed_range
  apply_sealed_range_lem offset d =
      let start = max offset l.header_skip in
      let range_end = min (offset + length d) l.transform_size in
      let pre = take (start - offset) d in
      let rest = drop (start - offset) d in
      let split : pre ++ rest ≡ d = take-append-drop (start - offset) d in
      let width = length-take (start - offset) d in
      let remain = length-drop (start - offset) d in
      elim (Bool-cases (leb range_end start)) [
        | inl stop ↦ rw (stop) (sym (sealed_outside l key offset d (ground arith)))
        | inr go ↦
            let more : start < range_end = ground arith in
            let cut : length pre ≡ start - offset = omega arith in
            let run =
              range_loop_lem (suc (length d)) start range_end offset pre rest (omega arith)
                (omega arith) (omega arith) (omega arith) in
            let clear : sealed l key offset pre ≡ pre =
              sealed_outside l key offset pre (omega arith) in
            let at_start : start ≡ offset + length pre = omega arith in
            rw (go) (
              ap (range_loop l key (suc (length d)) start range_end offset) (sym split)
              ∙ (run
                  ∙ (ap (λ p. p ++ sealed l key start rest) (sym clear)
                      ∙ (ap (λ i. sealed l key offset pre ++ sealed l key i rest) at_start
                          ∙ (sym (sealed-append l key offset pre rest)
                              ∙ ap (sealed l key offset) split)))))
      ]
