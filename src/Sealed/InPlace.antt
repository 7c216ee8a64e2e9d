-- ===== src/Sealed/InPlace.antt =====
-- applySealedTransformToReadWriteAt and forEachSealedSegment of sealed.go.
use pbo.Common.{
  ℕ, zero, suc, ◌+◌, ◌-◌, ◌*◌, ◌/◌, ◌≤◌, ◌<◌, ◌≡◌, sym, ap, ap₂, subst, ◌∙◌, arith, ◌++◌, true, inl,
  inr, length, take, drop, length-append, length-take, length-drop, take-append-drop, splice-append,
  ◌%◌, Bytes, leb, ltb, if◌then◌else◌, Bool-cases, min, max_u32, lt→ltb,
}
use pbo.Sealed.Cipher.{apply, iterate}
use pbo.Sealed.Layout.{
  SealedLayout, sealed_block_size, sealed_segment_at, segment_state, transform_segment,
  segments_loop, transform_first, transform_segments, sealed,
}
use pbo.Sealed.Range.{grown}
use pbo.Sealed.Segments.{
  apply_segment, sealed_outside, sealed-append, length-sealed, segment_near, segment_far,
}

module _ (l : SealedLayout) (key : Bytes) where
  -- Transforming a segment behind a prefix that is done makes the prefix longer.
  transform_segment_lem :
      (start end stream_pos : ℕ) (pre mid post : Bytes)
      → length pre ≡ start
      → start + length mid ≡ end
      → l.header_skip ≤ start
      → sealed_segment_at l start ≡ (start, end, stream_pos)
      → transform_segment l key start end stream_pos (pre ++ (mid ++ post))
        ≡ (pre ++ sealed l key start mid) ++ post
  unfolding transform_segment iterate
  transform_segment_lem start end stream_pos pre mid post hp he hs hseg =
      let none_skipped : 0 ≡ start - start = omega arith in
      let bound : start + length mid ≤ (sealed_segment_at l start).1 =
        subst (λ s. start + length mid ≤ s.1) (sym hseg) (omega arith) in
      let body : apply (segment_state l key stream_pos) mid ≡ sealed l key start mid =
        ap (λ n. apply (iterate n (segment_state l key stream_pos)) mid) none_skipped
        ∙ (ap (λ s. apply (iterate (start - s.0) (segment_state l key s.2)) mid) (sym hseg)
            ∙ apply_segment l key start start mid (omega arith) hs bound) in
      splice-append (apply (segment_state l key stream_pos)) pre mid post start end hp he
      ∙ ap (λ d. (pre ++ d) ++ post) body

  segment_at_start :
      (start : ℕ)
      → sealed_block_size ≤ start
      → start % sealed_block_size ≡ 0
      → start ≤ max_u32
      → sealed_segment_at l start ≡ (start, min (start + sealed_block_size) l.transform_size, start)
  segment_at_start start h hm hu =
      let whole : start / sealed_block_size * sealed_block_size ≡ start = omega arith in
      let e : leb start max_u32 ≡ true = ground arith in
      segment_far l start h
      ∙ (ap (λ s. (s, min (s + sealed_block_size) l.transform_size, if leb s max_u32 then s else 0))
            whole
          ∙ ap
              (λ b.
                (start, min (start + sealed_block_size) l.transform_size, if b then start else 0))
              e)

  segments_loop_lem :
      (fuel start : ℕ) (pre rest : Bytes)
      → sealed_block_size ≤ start
      → start % sealed_block_size ≡ 0
      → l.header_skip ≤ start
      → l.transform_size ≤ max_u32
      → length pre ≡ min start l.transform_size
      → l.transform_size ≤ length pre + length rest
      → l.transform_size - start < fuel
      → segments_loop l key fuel start (pre ++ rest)
        ≡ pre ++ sealed l key (min start l.transform_size) rest
  unfolding segments_loop
  segments_loop_lem zero start pre rest h hm hs hu hp ht hf = absurd (omega arith)
  segments_loop_lem (suc fuel) start pre rest h hm hs hu hp ht hf =
      elim (Bool-cases (ltb start l.transform_size)) [
        | inl more ↦
            let more_lt : start < l.transform_size = ground arith in
            let end = min (start + sealed_block_size) l.transform_size in
            let mid = take (end - start) rest in
            let post = drop (end - start) rest in
            let split : mid ++ post ≡ rest = take-append-drop (end - start) rest in
            let width : length mid ≡ end - start = omega (arith, length-take (end - start) rest) in
            let remain = length-drop (end - start) rest in
            let sizes = length-append pre (sealed l key start mid) in
            let same = length-sealed l key start mid in
            let once =
              transform_segment_lem start end start pre mid post (omega arith) (omega arith) hs
                (segment_at_start start h hm (omega arith)) in
            let after =
              segments_loop_lem fuel (start + sealed_block_size) (pre ++ sealed l key start mid)
                post (omega arith) (omega arith) (omega arith) hu (omega arith) (omega arith)
                (omega arith) in
            let at_start : start ≡ min start l.transform_size = omega arith in
            rw (more) (
              ap
                (λ r.
                  segments_loop l key fuel (start + sealed_block_size)
                    (transform_segment l key start end start (pre ++ r)))
                (sym split)
              ∙ (ap (segments_loop l key fuel (start + sealed_block_size)) once
                  ∙ (after
                      ∙ (grown l key start end pre mid post rest (omega arith) split
                          ∙ ap (λ i. pre ++ sealed l key i rest) at_start))))
        | inr stop ↦
            let stop_le : l.transform_size ≤ start = ground arith in
            rw (stop) (
              ap (λ r. pre ++ r)
                (sym (sealed_outside l key (min start l.transform_size) rest (omega arith))))
      ]

  -- The transform in place is the transform of each byte by its position alone, on an archive that
  -- holds the transformed region, for a header that ends in the first block.
  pub transform_segments_lem :
      (content : Bytes)
      → l.header_skip < sealed_block_size
      → l.transform_size ≤ max_u32
      → l.transform_size ≤ length content
      → transform_segments l key content ≡ sealed l key 0 content
  unfolding transform_segments transform_first
  transform_segments_lem content hb hu ht = elim (Bool-cases (leb l.transform_size l.header_skip)) [
    | inl stop ↦ rw (stop) (sym (sealed_outside l key 0 content (ground arith)))
    | inr go ↦
        let go_lt : l.header_skip < l.transform_size = ground arith in
        let skip = l.header_skip in
        let end = min sealed_block_size l.transform_size in
        let first : ltb skip end ≡ true = lt→ltb skip end (omega arith) in
        let pre = take skip content in
        let rest = drop skip content in
        let mid = take (end - skip) rest in
        let post = drop (end - skip) rest in
        let split : pre ++ rest ≡ content = take-append-drop skip content in
        let split_rest : mid ++ post ≡ rest = take-append-drop (end - skip) rest in
        let pre_size : length pre ≡ skip = omega (arith, length-take skip content) in
        let rest_size = length-drop skip content in
        let width : length mid ≡ end - skip = omega (arith, length-take (end - skip) rest) in
        let remain = length-drop (end - skip) rest in
        let sizes = length-append pre (sealed l key skip mid) in
        let same = length-sealed l key skip mid in
        let cut : content ≡ pre ++ (mid ++ post) = sym (ap (λ r. pre ++ r) split_rest ∙ split) in
        let once =
          transform_segment_lem skip end 0 pre mid post pre_size (omega arith) (omega arith)
            (segment_near l skip hb) in
        let after =
          segments_loop_lem (suc (length content)) sealed_block_size (pre ++ sealed l key skip mid)
            post (omega arith) (omega arith) (omega arith) hu (omega arith) (omega arith)
            (omega arith) in
        let clear : pre ≡ sealed l key 0 pre = sym (sealed_outside l key 0 pre (omega arith)) in
        let at_skip : skip ≡ 0 + length pre = omega arith in
        rw (go, first)
          (ap (segments_loop l key (suc (length content)) sealed_block_size)
              (ap (transform_segment l key skip end 0) cut ∙ once)
            ∙ (after
                ∙ (grown l key skip end pre mid post rest (omega arith) split_rest
                    ∙ (ap₂ (λ p i. p ++ sealed l key i rest) clear at_skip
                        ∙ (sym (sealed-append l key 0 pre rest) ∙ ap (sealed l key 0) split)))))
  ]
