-- ===== src/Maps/Laws.antt =====
-- The laws of the maps.
use pbo.Common.{
  ◌≡◌, ◌≢◌, refl, sym, ap, ◌∙◌, Bool, true, false, Option, none, some, List, [], ◌∷◌, if◌then◌else◌,
  Bytes, All, arith, Bool-cases, inl, inr, subst, if_elim,
}
use pbo.Text.{equal}
use pbo.Text.Equal.{equal_sound, equal_of, equal-apart}
use pbo.Maps.{find, put, delete_where}

module _ {ℓ} {A : Type ℓ} (key : A → Bytes) where
  -- No two elements have the same key.
  abbrev pub Distinct : List A → Type 0
  Distinct [] = Unit
  Distinct (x ∷ xs) = All (λ (y : A). key y ≢ key x) xs × Distinct xs

module _ {ℓ} {V : Type ℓ} where
  -- A list that stands for a map.
  abbrev pub IsMap : List (Bytes × V) → Type 0
  IsMap = Distinct (λ (e : Bytes × V). e.0)

  pub find-put :
      (m : List (Bytes × V)) (k j : Bytes) (v : V)
      → find (put m k v) j ≡ (if equal k j then some v else find m j)
  unfolding find put
  find-put [] k j v = refl
  find-put ((i, w) ∷ m) k j v = elim (Bool-cases (equal i k)) [
    | inl e ↦
        let same : i ≡ k = equal_sound i k e in
        let tests : equal i j ≡ equal k j = ap (λ s. equal s j) same in ground arith
    | inr e ↦
        let apart : equal k j ≡ true → equal i j ≡ false =
          λ h. subst (λ s. equal i s ≡ false) (equal_sound k j h) e in
        ground (arith, find-put m k j v)
  ]

  -- What a loop that deletes leaves under a key.
  abbrev pub left_of : (Bytes → V → Bool) → Bytes → Option V → Option V
  left_of picks j none = none
  left_of picks j (some v) = if picks j v then none else some v

  find-none_of_All :
      (m : List (Bytes × V)) (k : Bytes) → All (λ (e : Bytes × V). e.0 ≢ k) m → find m k ≡ none
  unfolding find
  find-none_of_All [] k h = refl
  find-none_of_All ((i, v) ∷ m) k (hi, h) = rw (equal-apart i k hi) (find-none_of_All m k h)

  pub find-delete_where :
      (picks : Bytes → V → Bool) (m : List (Bytes × V)) (j : Bytes)
      → IsMap m
      → find (delete_where picks m) j ≡ left_of picks j (find m j)
  unfolding find delete_where
  find-delete_where picks [] j h = refl
  find-delete_where picks ((k, v) ∷ m) j (hk, h) =
      let ih = find-delete_where picks m j h in
      elim (Bool-cases (equal k j)) [
        | inl e ↦
            let same : k ≡ j = equal_sound k j e in
            let rest : find m j ≡ none =
              find-none_of_All m j (subst (λ s. All (λ (e : Bytes × V). e.0 ≢ s) m) same hk) in
            let picked : picks k v ≡ picks j v = ap (λ s. picks s v) same in
            elim (Bool-cases (picks k v)) [
              | inl p ↦
                  let pj : picks j v ≡ true = sym picked ∙ p in rw (p) (ih ∙ rw (rest, e, pj) refl)
              | inr p ↦ let pj : picks j v ≡ false = sym picked ∙ p in rw (p, e, pj)
            ]
        | inr e ↦ elim (Bool-cases (picks k v)) [ inl p ↦ rw (p, e) ih | inr p ↦ rw (p, e) ih ]
      ]

  pub delete_where-All {κ} :
      (P : Bytes × V → Type κ) (picks : Bytes → V → Bool) (m : List (Bytes × V))
      → All P m
      → All P (delete_where picks m)
  unfolding delete_where
  delete_where-All P picks [] h = tt
  delete_where-All P picks ((k, v) ∷ m) (hk, h) =
      if_elim (All P) (picks k v) (delete_where picks m) ((k, v) ∷ delete_where picks m)
        (delete_where-All P picks m h) (hk, delete_where-All P picks m h)

  pub delete_where-IsMap :
      (picks : Bytes → V → Bool) (m : List (Bytes × V)) → IsMap m → IsMap (delete_where picks m)
  unfolding delete_where
  delete_where-IsMap picks [] h = tt
  delete_where-IsMap picks ((k, v) ∷ m) (hk, h) =
      if_elim IsMap (picks k v) (delete_where picks m) ((k, v) ∷ delete_where picks m)
        (delete_where-IsMap picks m h)
        (delete_where-All (λ (e : Bytes × V). e.0 ≢ k) picks m hk, delete_where-IsMap picks m h)

  put-All {κ} :
      (P : Bytes → Type κ) (m : List (Bytes × V)) (k : Bytes) (v : V)
      → P k
      → All (λ (e : Bytes × V). P e.0) m
      → All (λ (e : Bytes × V). P e.0) (put m k v)
  unfolding put
  put-All P [] k v pk h = (pk, tt)
  put-All P ((i, w) ∷ m) k v pk (hi, h) =
      if_elim (All (λ (e : Bytes × V). P e.0)) (equal i k) ((i, v) ∷ m) ((i, w) ∷ put m k v) (hi, h)
        (hi, put-All P m k v pk h)

  pub put-IsMap : (m : List (Bytes × V)) (k : Bytes) (v : V) → IsMap m → IsMap (put m k v)
  unfolding put
  put-IsMap [] k v h = (tt, tt)
  put-IsMap ((i, w) ∷ m) k v (hi, h) = elim (Bool-cases (equal i k)) [
    | inl e ↦ rw (e) (hi, h)
    | inr e ↦
        let apart : k ≢ i = λ same. let e' : equal i k ≡ true = equal_of i k (sym same) in cc in
        rw (e) (put-All (λ s. s ≢ i) m k v apart hi, put-IsMap m k v h)
  ]
