-- ===== src/Sorting/Laws.antt =====
-- What the sorts return: the sorted permutation, which does not depend on the order of the input
-- where keys tell the elements apart.
use mathlib.Core.List.{Perm, is_set}
use mathlib.Core.List.Perm
use mathlib.Core.List.{Permᴰ}
use mathlib.Core.Logic.{∥∥₁_elim}
use native.Mathlib.Nat.{ℕ_set}
use pbo.Common.{◌≡◌, refl, ap₂, ◌∙◌, false, List, [], ◌∷◌, Bytes, All, arith, Bool-cases, inl, inr}
use pbo.Sorting.{less, insert_by, sort_by}
use pbo.Sorting.Order.{less_asymm, less_antisymm, not_less_trans}

module _ {ℓ} {A : Type ℓ} (key : A → Bytes) where
  -- No later element has a smaller key.
  abbrev pub Sorted : List A → Type 0
  Sorted [] = Unit
  Sorted (x ∷ xs) = All (λ (y : A). less (key y) (key x) ≡ false) xs × Sorted xs

  pub insert_by-All {κ} :
      (P : A → Type κ) (x : A) (xs : List A) → P x → All P xs → All P (insert_by key x xs)
  unfolding insert_by
  insert_by-All P x [] px h = (px, tt)
  insert_by-All P x (y ∷ ys) px (py, h) = elim (Bool-cases (less (key y) (key x))) [
    | inl e ↦ rw (e) (py, insert_by-All P x ys px h)
    | inr e ↦ rw (e) (px, (py, h))
  ]

  above :
      (x y : A) (ys : List A)
      → less (key y) (key x) ≡ false
      → All (λ (z : A). less (key z) (key y) ≡ false) ys
      → All (λ (z : A). less (key z) (key x) ≡ false) ys
  above x y [] e h = tt
  above x y (z ∷ zs) e (hz, h) = (not_less_trans (key x) (key y) (key z) e hz, above x y zs e h)

  insert_by-Sorted : (x : A) (xs : List A) → Sorted xs → Sorted (insert_by key x xs)
  unfolding insert_by
  insert_by-Sorted x [] h = (tt, tt)
  insert_by-Sorted x (y ∷ ys) (hy, h) = elim (Bool-cases (less (key y) (key x))) [
    | inl e ↦ rw (e) (
      insert_by-All (λ (z : A). less (key z) (key y) ≡ false) x ys (less_asymm (key y) (key x) e)
          hy,
      insert_by-Sorted x ys h,
    )
    | inr e ↦ rw (e) ((e, above x y ys e hy), (hy, h))
  ]

  pub sort_by-Sorted : (xs : List A) → Sorted (sort_by key xs)
  unfolding sort_by
  sort_by-Sorted [] = tt
  sort_by-Sorted (x ∷ xs) = insert_by-Sorted x (sort_by key xs) (sort_by-Sorted xs)

  insert_by-perm : (x : A) (xs : List A) → Perm (insert_by key x xs) (x ∷ xs)
  unfolding insert_by
  insert_by-perm x [] = Perm.refl (x ∷ [])
  insert_by-perm x (y ∷ ys) = elim (Bool-cases (less (key y) (key x))) [
    | inl e ↦ rw (e) (Perm.trans (Perm.cons y (insert_by-perm x ys)) (Perm.swap x y ys))
    | inr e ↦ rw (e) (Perm.refl (x ∷ y ∷ ys))
  ]

  pub sort_by-perm : (xs : List A) → Perm (sort_by key xs) xs
  unfolding sort_by
  sort_by-perm [] = Perm.refl []
  sort_by-perm (x ∷ xs) =
      Perm.trans (insert_by-perm x (sort_by key xs)) (Perm.cons x (sort_by-perm xs))

  pub sort_by-All {κ} : (P : A → Type κ) (xs : List A) → All P xs → All P (sort_by key xs)
  unfolding sort_by
  sort_by-All P [] h = tt
  sort_by-All P (x ∷ xs) (hx, h) = insert_by-All P x (sort_by key xs) hx (sort_by-All P xs h)

insert_strings_comm :
    (s t : Bytes) (l : List Bytes)
    → insert_by (λ x. x) s (insert_by (λ x. x) t l) ≡ insert_by (λ x. x) t (insert_by (λ x. x) s l)
unfolding insert_by
insert_strings_comm s t [] = ground (arith, less_antisymm s t, less_asymm s t)
insert_strings_comm s t (u ∷ l) = ground (
  arith,
  insert_strings_comm s t l,
  less_antisymm s t,
  less_asymm s t,
  not_less_trans t s u,
  not_less_trans s t u,
)

sort_strings-eq_of_permd :
    {xs ys : List Bytes} → Permᴰ xs ys → sort_by (λ x. x) xs ≡ sort_by (λ x. x) ys
unfolding sort_by
sort_strings-eq_of_permd Permᴰ.nil = refl
sort_strings-eq_of_permd (Permᴰ.cons e d) = ap₂ (insert_by (λ x. x)) e (sort_strings-eq_of_permd d)
sort_strings-eq_of_permd (Permᴰ.swap {a} {b} {a'} {b'} {l} e e') =
    insert_strings_comm a b (sort_by (λ x. x) l)
    ∙ ap₂ (λ x y. insert_by (λ x. x) x (insert_by (λ x. x) y (sort_by (λ x. x) l))) e' e
sort_strings-eq_of_permd (Permᴰ.trans d d') =
    sort_strings-eq_of_permd d ∙ sort_strings-eq_of_permd d'

-- A sorted list of strings does not depend on the order that they came in.
pub sort_strings-eq_of_perm :
    {xs ys : List Bytes} → Perm xs ys → sort_by (λ x. x) xs ≡ sort_by (λ x. x) ys
sort_strings-eq_of_perm {xs} {ys} p =
    ∥∥₁_elim p (is_set (is_set ℕ_set) (sort_by (λ x. x) xs) (sort_by (λ x. x) ys))
      sort_strings-eq_of_permd
