-- ===== src/Sorting/Order.antt =====
-- `<` on strings is a strict total order.
use pbo.Common.{◌≡◌, refl, ap₂, true, false, [], ◌∷◌, Bytes, arith}
use pbo.Sorting.{less}

pub less_irrefl : (s : Bytes) → less s s ≡ false
unfolding less
less_irrefl [] = refl
less_irrefl (c ∷ s) = ground (arith, less_irrefl s)

pub less_asymm : (s t : Bytes) → less s t ≡ true → less t s ≡ false
unfolding less
less_asymm [] [] h = refl
less_asymm [] (d ∷ t) h = refl
less_asymm (c ∷ s) [] h = cc
less_asymm (c ∷ s) (d ∷ t) h = ground (arith, less_asymm s t)

pub less_trans : (s t u : Bytes) → less s t ≡ true → less t u ≡ true → less s u ≡ true
unfolding less
less_trans s t [] h h' = absurd (ground arith)
less_trans [] t (e ∷ u) h h' = refl
less_trans (c ∷ s) [] (e ∷ u) h h' = cc
less_trans (c ∷ s) (d ∷ t) (e ∷ u) h h' = ground (arith, less_trans s t u)

pub less_antisymm : (s t : Bytes) → less s t ≡ false → less t s ≡ false → s ≡ t
unfolding less
less_antisymm [] [] h h' = refl
less_antisymm [] (d ∷ t) h h' = cc
less_antisymm (c ∷ s) [] h h' = cc
less_antisymm (c ∷ s) (d ∷ t) h h' =
    let same : c ≡ d = ground arith in
    let st : less s t ≡ false = ground arith in
    let ts : less t s ≡ false = ground arith in ap₂ ◌∷◌ same (less_antisymm s t st ts)

-- What is not above something above is above it.
pub not_less_trans : (s t u : Bytes) → less t s ≡ false → less u t ≡ false → less u s ≡ false
unfolding less
not_less_trans [] [] [] h h' = refl
not_less_trans (c ∷ s) [] [] h h' = cc
not_less_trans [] (d ∷ t) [] h h' = cc
not_less_trans (c ∷ s) (d ∷ t) [] h h' = cc
not_less_trans [] t (e ∷ u) h h' = refl
not_less_trans (c ∷ s) [] (e ∷ u) h h' = cc
not_less_trans (c ∷ s) (d ∷ t) (e ∷ u) h h' = ground (arith, not_less_trans s t u)
