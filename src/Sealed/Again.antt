-- ===== src/Sealed/Again.antt =====
-- The layout that sealed.go finds for an archive whose header section and trailer are as they were.
use pbo.Common.{
  ℕ, ◌-◌, ◌⊎◌, inl, inr, some, none, drop, Bool-cases, if◌then◌else◌, length-take, ◌≡◌, refl, sym,
  ap, ◌∙◌, Bool, true, false, ◌&&◌, ltb, leb, take, length, Bytes, subst, arith, max_u32,
}
use pbo.Model.{ok, guard, bind-eq-ok, ok-injective, header_size, eof, invalid_header, size_overflow}
use pbo.Wire.{bytes_reader}
use pbo.Header.{parse_header_section}
use pbo.Header.Local.{parse_header_section_local}
use pbo.Sealed.Layout.{
  SealedLayout, sealed_block_size, sealed_trailer_size, detect_sealed_trailer, transform_size_of,
  build_sealed_layout, sealed,
}
use pbo.Sealed.Segments.{sealed_outside}
use pbo.Sealed.Reads.{take-sealed, part_sealed}

layout_of_parts :
    (fuel : ℕ) (a b : Bytes) (size : ℕ) (detect_trailer : Bool) (l : SealedLayout)
    → build_sealed_layout fuel (bytes_reader a) size detect_trailer ≡ ok l
    → take l.header_skip a ≡ take l.header_skip b
    → transform_size_of (bytes_reader b) size detect_trailer
      ≡ transform_size_of (bytes_reader a) size detect_trailer
    → build_sealed_layout fuel (bytes_reader b) size detect_trailer ≡ ok l
unfolding build_sealed_layout
layout_of_parts fuel a b size detect_trailer l h agree sizes =
    let (_, e₁, h₁) = bind-eq-ok (guard (leb header_size size) invalid_header) _ h in
    let (t, e₂, h₂) = bind-eq-ok (transform_size_of (bytes_reader a) size detect_trailer) _ h₁ in
    let (_, e₃, h₃) = bind-eq-ok (guard (leb header_size t && leb t max_u32) size_overflow) _ h₂ in
    let ((header, hs, skip), e₄, h₄) =
      bind-eq-ok (parse_header_section fuel (bytes_reader a)) _ h₃ in
    let (_, e₅, h₅) = bind-eq-ok (guard (leb skip t) invalid_header) _ h₄ in
    let (_, e₆, h₆) = bind-eq-ok (guard (ltb skip sealed_block_size) invalid_header) _ h₅ in
    let at : skip ≡ l.header_skip = ap (λ (x : SealedLayout). x.header_skip) (ok-injective h₆) in
    let parses =
      parse_header_section_local fuel l.header_skip a b header hs skip agree e₄
        (omega (arith, at)) in
    rw (e₁, sizes, e₂, e₃, parses, e₅, e₆) h₆

build_sealed_layout-size :
    (fuel : ℕ) (content : Bytes) (size : ℕ) (detect_trailer : Bool) (l : SealedLayout)
    → build_sealed_layout fuel (bytes_reader content) size detect_trailer ≡ ok l
    → transform_size_of (bytes_reader content) size detect_trailer ≡ ok l.transform_size
unfolding build_sealed_layout
build_sealed_layout-size fuel content size detect_trailer l h =
    let (_, _, h₁) = bind-eq-ok (guard (leb header_size size) invalid_header) _ h in
    let (t, e₂, h₂) =
      bind-eq-ok (transform_size_of (bytes_reader content) size detect_trailer) _ h₁ in
    let (_, _, h₃) = bind-eq-ok (guard (leb header_size t && leb t max_u32) size_overflow) _ h₂ in
    let ((_, _, skip), _, h₄) =
      bind-eq-ok (parse_header_section fuel (bytes_reader content)) _ h₃ in
    let (_, _, h₅) = bind-eq-ok (guard (leb skip t) invalid_header) _ h₄ in
    let (_, _, h₆) = bind-eq-ok (guard (ltb skip sealed_block_size) invalid_header) _ h₅ in
    e₂ ∙ ap ok (ap (λ (x : SealedLayout). x.transform_size) (ok-injective h₆))

module _ (l : SealedLayout) (key content : Bytes) where
  -- The header section is not transformed, ...
  sealed-header : take l.header_skip (sealed l key 0 content) ≡ take l.header_skip content
  sealed-header =
      let size = length-take l.header_skip content in
      take-sealed l key l.header_skip 0 content
      ∙ sealed_outside l key 0 (take l.header_skip content) (omega arith)

  -- ... nor is a trailer that was found.
  sealed-tail :
      (size : ℕ)
      → l.transform_size ≡ size - sealed_trailer_size
      → bytes_reader (sealed l key 0 content) (size - sealed_trailer_size) sealed_trailer_size
        ≡ bytes_reader content (size - sealed_trailer_size) sealed_trailer_size
  unfolding bytes_reader
  sealed-tail size e =
      let at = size - sealed_trailer_size in
      ap (λ (w : Bytes). (w, if ltb (length w) sealed_trailer_size then some eof else none))
        (part_sealed l key content at sealed_trailer_size
          ∙ sealed_outside l key at (take sealed_trailer_size (drop at content)) (omega (arith, e)))

  -- The transform is found to cover as much again, unless no trailer was found.
  transform_size_again :
      (size : ℕ) (detect_trailer : Bool)
      → transform_size_of (bytes_reader content) size detect_trailer ≡ ok l.transform_size
      → (transform_size_of (bytes_reader (sealed l key 0 content)) size detect_trailer
          ≡ transform_size_of (bytes_reader content) size detect_trailer)
        ⊎ ((detect_trailer ≡ true) × (detect_sealed_trailer (bytes_reader content) size ≡ ok false))
  unfolding transform_size_of detect_sealed_trailer
  transform_size_again size false h = inl refl
  transform_size_again size true h =
      let (has, e, h₁) = bind-eq-ok (detect_sealed_trailer (bytes_reader content) size) _ h in
      elim (Bool-cases has) [
        | inr absent ↦ inr (refl, e ∙ ap ok absent)
        | inl found ↦
            let covered : (if true then size - sealed_trailer_size else size) ≡ l.transform_size =
              subst (λ b. (if b then size - sealed_trailer_size else size) ≡ l.transform_size) found
                (ok-injective h₁) in
            inl (rw (sealed-tail size (sym covered)) refl)
      ]

-- The transformed archive has the layout of the plain one, unless a trailer was looked for in the
-- plain one and not found.
pub build_sealed_layout-again :
    (fuel : ℕ) (key content : Bytes) (detect_trailer : Bool) (l : SealedLayout)
    → build_sealed_layout fuel (bytes_reader content) (length content) detect_trailer ≡ ok l
    → (build_sealed_layout fuel
          (bytes_reader (sealed l key 0 content))
          (length content)
          detect_trailer
        ≡ ok l)
      ⊎ ((detect_trailer ≡ true)
          × (detect_sealed_trailer (bytes_reader content) (length content) ≡ ok false))
build_sealed_layout-again fuel key content detect_trailer l h =
    let size = length content in
    elim (transform_size_again l key content size detect_trailer
      (build_sealed_layout-size fuel content size detect_trailer l h)) [
        | inl sizes ↦ inl (
            layout_of_parts fuel content (sealed l key 0 content) size detect_trailer l h
              (sym (sealed-header l key content)) sizes)
        | inr absent ↦ inr absent
      ]
