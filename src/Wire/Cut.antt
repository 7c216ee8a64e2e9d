-- ===== src/Wire/Cut.antt =====
-- bytes.IndexByte, and what a window of `k` bytes shows of a text that a NUL ends.
use pbo.Common.{
  ℕ, zero, suc, ◌≤◌, ◌<◌, ◌≡◌, refl, ap, List, [], ◌∷◌, ◌++◌, Option, none, some, arith, ◌==◌,
  if◌then◌else◌, length, take, drop, Bytes, Lacks,
}
use mathlib.Core.Option

unfoldable pub index_byte : Bytes → ℕ → Option ℕ
index_byte [] b = none
index_byte (c ∷ s) b = if c == b then some 0 else Option.map suc (index_byte s b)

pub index_byte-Lacks : (b : ℕ) (s : Bytes) → Lacks b s → index_byte s b ≡ none
unfolding index_byte
index_byte-Lacks b [] h = refl
index_byte-Lacks b (c ∷ s) (hc, h) = ground (arith, index_byte-Lacks b s h)

-- The byte is found behind `s` in every window that reaches past `s`.
pub index_byte-take :
    (b : ℕ) (s rest : Bytes) (k : ℕ)
    → Lacks b s
    → length s < k
    → index_byte (take k (s ++ b ∷ rest)) b ≡ some (length s)
unfolding index_byte
index_byte-take b s rest zero h lt = absurd (omega arith)
index_byte-take b [] rest (suc k) h lt = ground arith
index_byte-take b (c ∷ s) rest (suc k) (hc, h) lt =
    ground (arith, index_byte-take b s rest k h (omega arith))

module _ {ℓ} {A : Type ℓ} where
  pub take-take-append :
      (s rest : List A) (k : ℕ) → length s ≤ k → take (length s) (take k (s ++ rest)) ≡ s
  take-take-append [] rest k h = refl
  take-take-append (c ∷ s) rest zero h = absurd (omega arith)
  take-take-append (c ∷ s) rest (suc k) h = ap (◌∷◌ c) (take-take-append s rest k (omega arith))

  pub take-append_le : (s rest : List A) (k : ℕ) → k ≤ length s → take k (s ++ rest) ≡ take k s
  take-append_le s rest zero h = refl
  take-append_le [] rest (suc k) h = absurd (omega arith)
  take-append_le (c ∷ s) rest (suc k) h = ap (◌∷◌ c) (take-append_le s rest k (omega arith))

  pub drop-append_le :
      (s rest : List A) (k : ℕ) → k ≤ length s → drop k (s ++ rest) ≡ drop k s ++ rest
  drop-append_le s rest zero h = refl
  drop-append_le [] rest (suc k) h = absurd (omega arith)
  drop-append_le (c ∷ s) rest (suc k) h = drop-append_le s rest k (omega arith)
