-- ===== src/Sign/Names.antt =====
-- The name hash of sign_hashset.go: what of the entries it depends on.
use mathlib.Core.List.{Perm}
use mathlib.Core.List.Perm
use mathlib.Core.List.{Permᴰ}
use mathlib.Core.Logic.{∥∥₁_elim, ∥∥₁_prop}
use pbo.Common.{◌≡◌, ap, subst, List, [], ◌∷◌, Bytes, Bool-cases, inl, inr}
use pbo.Model.{EntryInfo}
use pbo.Sorting.Laws.{sort_strings-eq_of_perm}
use pbo.Sign.{normalize_sign_entry_name, is_skipped, sign_names, distinct_names}
use pbo.Sign.Packed.{compute_sign_name_hash}

sign_names-cons :
    (e : EntryInfo) (xs ys : List EntryInfo)
    → Perm (sign_names xs) (sign_names ys)
    → Perm (sign_names (e ∷ xs)) (sign_names (e ∷ ys))
unfolding sign_names
sign_names-cons e xs ys p = elim (Bool-cases (is_skipped e)) [
  | inl skipped ↦ rw (skipped) p
  | inr used ↦ rw (used) (Perm.cons (normalize_sign_entry_name e.path) p)
]

sign_names-swap :
    (a b : EntryInfo) (xs : List EntryInfo)
    → Perm (sign_names (b ∷ a ∷ xs)) (sign_names (a ∷ b ∷ xs))
unfolding sign_names
sign_names-swap a b xs = elim (Bool-cases (is_skipped a)) [
  | inl skipped ↦ rw (skipped) (Perm.refl (sign_names (b ∷ xs)))
  | inr used ↦ elim (Bool-cases (is_skipped b)) [
    | inl skipped ↦
        rw (used, skipped) (Perm.refl (normalize_sign_entry_name a.path ∷ sign_names xs))
    | inr both ↦
        rw (used, both)
          (Perm.swap (normalize_sign_entry_name a.path) (normalize_sign_entry_name b.path)
            (sign_names xs))
  ]
]

sign_names-permd : {xs ys : List EntryInfo} → Permᴰ xs ys → Perm (sign_names xs) (sign_names ys)
sign_names-permd Permᴰ.nil = Perm.refl (sign_names [])
sign_names-permd (Permᴰ.cons {a} {b} {l₁} {l₂} e d) =
    subst (λ x. Perm (sign_names (a ∷ l₁)) (sign_names (x ∷ l₂))) e
      (sign_names-cons a l₁ l₂ (sign_names-permd d))
sign_names-permd (Permᴰ.swap {a} {b} {a'} {b'} {l} e e') =
    subst (λ x. Perm (sign_names (a ∷ b ∷ l)) (sign_names (a' ∷ x ∷ l))) e
      (subst (λ x. Perm (sign_names (a ∷ b ∷ l)) (sign_names (x ∷ a ∷ l))) e'
        (sign_names-swap b a l))
sign_names-permd (Permᴰ.trans d d') = Perm.trans (sign_names-permd d) (sign_names-permd d')

-- The name hash does not depend on the order of the rows.
pub compute_sign_name_hash-perm :
    (sha1 : Bytes → Bytes) (xs ys : List EntryInfo)
    → Perm xs ys
    → compute_sign_name_hash sha1 xs ≡ compute_sign_name_hash sha1 ys
unfolding compute_sign_name_hash
compute_sign_name_hash-perm sha1 xs ys p =
    let names : Perm (sign_names xs) (sign_names ys) = ∥∥₁_elim p ∥∥₁_prop sign_names-permd in
    ap (λ l. sha1 (distinct_names [] l)) (sort_strings-eq_of_perm names)
