-- ===== src/Sealed/RoundTrip.antt =====
-- Sealing in place and reading sealed, both of sealed.go, fit together.
use pbo.Common.{
  ℕ, ◌-◌, ◌⊎◌, inl, inr, ◌≤◌, ◌<◌, ◌≡◌, sym, ap, subst, ◌∙◌, arith, Bool, true, false, ◌&&◌, ltb,
  leb, if◌then◌else◌, if_elim, length, Bytes, All, IsByte, max_u32,
}
use pbo.Model.{
  ok, guard, bind-eq-ok, ok-injective, guard-eq-ok, header_size, invalid_header, size_overflow,
}
use pbo.Wire.{ReaderAt, bytes_reader}
use pbo.Header.{parse_header_section}
use pbo.Sealed.Layout.{
  SealedLayout, sealed_block_size, sealed_trailer_size, detect_sealed_trailer, transform_size_of,
  build_sealed_layout, transform_segments, apply_sealed_transform, sealed, sealed_reader_at,
}
use pbo.Sealed.Segments.{length-sealed}
use pbo.Sealed.Again.{build_sealed_layout-again}
use pbo.Sealed.InPlace.{transform_segments_lem}
use pbo.Sealed.Reads.{sealed_reader_at_lem, sealed_twice}

transform_size_le :
    (ra : ReaderAt) (size : ℕ) (detect_trailer : Bool) {t : ℕ}
    → transform_size_of ra size detect_trailer ≡ ok t
    → t ≤ size
unfolding transform_size_of
transform_size_le ra size false h = let e = ok-injective h in omega arith
transform_size_le ra size true h =
    let (has, _, e) = bind-eq-ok (detect_sealed_trailer ra size) _ h in
    let le : (if has then size - sealed_trailer_size else size) ≤ size =
      if_elim (λ t. t ≤ size) has (size - sealed_trailer_size) size (omega arith) (omega arith) in
    subst (λ t. t ≤ size) (ok-injective e) le

-- What the layout promises.
abbrev pub IsLayoutOf : ℕ → SealedLayout → Type 0
IsLayoutOf size l =
    l.header_skip < sealed_block_size
    × l.header_skip ≤ l.transform_size
    × header_size ≤ l.transform_size
    × l.transform_size ≤ max_u32
    × l.transform_size ≤ size

build_sealed_layout-IsLayout :
    (fuel : ℕ) (ra : ReaderAt) (size : ℕ) (detect_trailer : Bool) {l : SealedLayout}
    → build_sealed_layout fuel ra size detect_trailer ≡ ok l
    → IsLayoutOf size l
unfolding build_sealed_layout
build_sealed_layout-IsLayout fuel ra size detect_trailer {l = l} h =
    let (_, _, h₁) = bind-eq-ok (guard (leb header_size size) invalid_header) _ h in
    let (t, e₂, h₂) = bind-eq-ok (transform_size_of ra size detect_trailer) _ h₁ in
    let (_, e₃, h₃) = bind-eq-ok (guard (leb header_size t && leb t max_u32) size_overflow) _ h₂ in
    let ((_, _, skip), _, h₄) = bind-eq-ok (parse_header_section fuel ra) _ h₃ in
    let (_, e₅, h₅) = bind-eq-ok (guard (leb skip t) invalid_header) _ h₄ in
    let (_, e₆, h₆) = bind-eq-ok (guard (ltb skip sealed_block_size) invalid_header) _ h₅ in
    let t_le = transform_size_le ra size detect_trailer e₂ in
    let g₃ = guard-eq-ok (leb header_size t && leb t max_u32) size_overflow e₃ in
    let g₅ = guard-eq-ok (leb skip t) invalid_header e₅ in
    let g₆ = guard-eq-ok (ltb skip sealed_block_size) invalid_header e₆ in
    let e = ok-injective h₆ in
    subst (IsLayoutOf size) e (ground arith, ground arith, ground arith, ground arith, t_le)

-- If the transform in place of an archive of bytes succeeds, the archive keeps its length; reading
-- the result through the sealed reader of the layout that was used is reading the plain archive, at
-- every offset and length, and the transform of the result with that layout is the plain archive
-- again. The transform in place of the result, which looks for the layout anew, succeeds with the
-- plain archive, unless a trailer was looked for in the plain archive and not found.
pub apply_sealed_transform_lem :
    (fuel : ℕ) (key content : Bytes) (detect_trailer : Bool) {transformed : Bytes}
    → All IsByte content
    → apply_sealed_transform fuel key content detect_trailer ≡ ok transformed
    → (l : SealedLayout) × (build_sealed_layout fuel
          (bytes_reader content)
          (length content)
          detect_trailer
        ≡ ok l)
      × (length transformed ≡ length content)
      × (sealed_reader_at (bytes_reader transformed) l key ≡ bytes_reader content)
      × (transform_segments l key transformed ≡ content)
      × ((apply_sealed_transform fuel key transformed detect_trailer ≡ ok content)
          ⊎ ((detect_trailer ≡ true)
              × (detect_sealed_trailer (bytes_reader content) (length content) ≡ ok false)))
unfolding apply_sealed_transform
apply_sealed_transform_lem fuel key content detect_trailer {transformed = r} hb h =
    let size = length content in
    let (l, e, h') =
      bind-eq-ok (build_sealed_layout fuel (bytes_reader content) size detect_trailer) _ h in
    let (near, _, _, word, inside) =
      build_sealed_layout-IsLayout fuel (bytes_reader content) size detect_trailer e in
    let by_position : sealed l key 0 content ≡ r =
      sym (transform_segments_lem l key content near word inside) ∙ ok-injective h' in
    let sizes : length r ≡ size = ap length (sym by_position) ∙ length-sealed l key 0 content in
    let undone : transform_segments l key r ≡ content =
      transform_segments_lem l key r near word (omega arith)
      ∙ (ap (sealed l key 0) (sym by_position) ∙ sealed_twice l key 0 content hb) in
    (
      l,
      e,
      sizes,
      ap (λ d. sealed_reader_at (bytes_reader d) l key) (sym by_position)
          ∙ sealed_reader_at_lem l key content hb,
      undone,
      elim (build_sealed_layout-again fuel key content detect_trailer l e) [
        | inl again ↦
            let found : build_sealed_layout fuel (bytes_reader r) (length r) detect_trailer ≡ ok l =
              ap (λ n. build_sealed_layout fuel (bytes_reader r) n detect_trailer) sizes
              ∙ (ap (λ d. build_sealed_layout fuel (bytes_reader d) size detect_trailer)
                    (sym by_position)
                  ∙ again) in
            inl (rw (found) (ap ok undone))
        | inr absent ↦ inr absent
      ],
    )
