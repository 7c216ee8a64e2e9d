-- ===== src/Text/Equal.antt =====
-- Equality of Go strings decides equality.
use pbo.Common.{
  ◌≡◌, ◌≢◌, refl, sym, ap, ap₂, ◌∙◌, true, false, [], ◌∷◌, Bytes, arith, Bool-cases, inl, inr,
}
use pbo.Text.{equal}

pub equal_sound : (s t : Bytes) → equal s t ≡ true → s ≡ t
unfolding equal
equal_sound [] [] h = refl
equal_sound [] (d ∷ t) h = cc
equal_sound (c ∷ s) [] h = cc
equal_sound (c ∷ s) (d ∷ t) h =
    let same : c ≡ d = ground arith in
    let rest : equal s t ≡ true = ground arith in ap₂ ◌∷◌ same (equal_sound s t rest)

pub equal_same : (s : Bytes) → equal s s ≡ true
unfolding equal
equal_same [] = refl
equal_same (c ∷ s) = ground (arith, equal_same s)

pub equal_of : (s t : Bytes) → s ≡ t → equal s t ≡ true
equal_of s t e = ap (equal s) (sym e) ∙ equal_same s

pub equal-apart : (s t : Bytes) → s ≢ t → equal s t ≡ false
equal-apart s t h = elim (Bool-cases (equal s t)) [
  | inl e ↦ absurd (h (equal_sound s t e))
  | inr e ↦ e
]

pub equal_comm : (s t : Bytes) → equal s t ≡ equal t s
unfolding equal
equal_comm [] [] = refl
equal_comm [] (d ∷ t) = refl
equal_comm (c ∷ s) [] = refl
equal_comm (c ∷ s) (d ∷ t) = ground (arith, equal_comm s t)
