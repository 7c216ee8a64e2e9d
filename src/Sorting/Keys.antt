-- ===== src/Sorting/Keys.antt =====
-- Sorting keeps elements apart that a key tells apart, and what a search by that key finds.
use pbo.Common.{
  ◌≡◌, ◌≢◌, refl, sym, ap, ◌∙◌, true, false, List, [], ◌∷◌, Bytes, All, arith, if◌then◌else◌,
  Option, none, some, Bool-cases, inl, inr,
}
use pbo.Text.{equal}
use pbo.Text.Equal.{equal_sound}
use pbo.Sorting.{less, insert_by, sort_by}
use pbo.Sorting.Laws.{insert_by-All, sort_by-All}
use pbo.Maps.Laws.{Distinct}

module _ {ℓ} {A : Type ℓ} (key : A → Bytes) where
  -- The first element with a key.
  abbrev pub first_with : List A → Bytes → Option A
  first_with [] k = none
  first_with (x ∷ xs) k = let rest = first_with xs k in if equal (key x) k then some x else rest

module _ {ℓ} {A : Type ℓ} (order key : A → Bytes) where
  insert_by-Distinct :
      (x : A) (xs : List A) → Distinct key (x ∷ xs) → Distinct key (insert_by order x xs)
  unfolding insert_by
  insert_by-Distinct x [] h = h
  insert_by-Distinct x (y ∷ ys) ((hxy, hx), (hy, h)) =
      elim (Bool-cases (less (order y) (order x))) [
        | inl e ↦ rw (e) (
          insert_by-All order (λ (z : A). key z ≢ key y) x ys (λ same. hxy (sym same)) hy,
          insert_by-Distinct x ys (hx, h),
        )
        | inr e ↦ rw (e) ((hxy, hx), (hy, h))
      ]

  pub sort_by-Distinct : (xs : List A) → Distinct key xs → Distinct key (sort_by order xs)
  unfolding sort_by
  sort_by-Distinct [] h = tt
  sort_by-Distinct (x ∷ xs) (hx, h) =
      insert_by-Distinct x (sort_by order xs)
        (sort_by-All order (λ (y : A). key y ≢ key x) xs hx, sort_by-Distinct xs h)

  first_with-insert_by :
      (x : A) (xs : List A) (k : Bytes)
      → All (λ (y : A). key y ≢ key x) xs
      → first_with key (insert_by order x xs) k ≡ first_with key (x ∷ xs) k
  unfolding insert_by
  first_with-insert_by x [] k h = refl
  first_with-insert_by x (y ∷ ys) k (hy, h) =
      let apart : equal (key y) k ≡ true → equal (key x) k ≡ false = λ e.
        elim (Bool-cases (equal (key x) k)) [
          | inl e' ↦ absurd (hy (equal_sound (key y) k e ∙ sym (equal_sound (key x) k e')))
          | inr e' ↦ e'
        ] in
      ground (arith, first_with-insert_by x ys k h)

  pub first_with-sort_by :
      (xs : List A) (k : Bytes)
      → Distinct key xs
      → first_with key (sort_by order xs) k ≡ first_with key xs k
  unfolding sort_by
  first_with-sort_by [] k h = refl
  first_with-sort_by (x ∷ xs) k (hx, h) =
      first_with-insert_by x (sort_by order xs) k
        (sort_by-All order (λ (y : A). key y ≢ key x) xs hx)
      ∙ ap (λ o. if equal (key x) k then some x else o) (first_with-sort_by xs k h)
