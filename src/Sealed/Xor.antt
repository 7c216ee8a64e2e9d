-- ===== src/Sealed/Xor.antt =====
-- The exclusive or of sealed.go on bytes undoes itself.
use Prim.Native.Nat.{bit_xor}
use pbo.Common.{
  ℕ, zero, suc, ◌≤◌, ◌≡◌, refl, Bool, true, false, arith, ◌==◌, ==_iff, if◌then◌else◌, IsByte,
  Bool-cases, inl, inr, ap, ◌∙◌,
}

-- Whether a test holds of all numbers up to a bound.
holds_up_to : (ℕ → Bool) → ℕ → Bool
holds_up_to test zero = test zero
holds_up_to test (suc bound) = if test (suc bound) then holds_up_to test bound else false

holds_up_to-le :
    (test : ℕ → Bool) (bound : ℕ)
    → holds_up_to test bound ≡ true
    → (i : ℕ) → i ≤ bound
    → test i ≡ true
unfolding holds_up_to
holds_up_to-le test zero all i le = let first : i ≡ zero = omega arith in ap test first ∙ all
holds_up_to-le test (suc bound) all i le = elim (Bool-cases (test (suc bound))) [
  | inr failed ↦ let contrary = rw (failed) at all in cc
  | inl passed ↦
      let below : holds_up_to test bound ≡ true = rw (passed) at all in
      elim (Bool-cases (i == suc bound)) [
        | inl last ↦ ap test ((==_iff i (suc bound)).0 last) ∙ passed
        | inr other ↦ holds_up_to-le test bound below i (ground arith)
      ]
]

-- The test of one byte of the stream against all bytes.
abbrev undoes : ℕ → Bool
undoes k = holds_up_to (λ x. bit_xor (bit_xor x k) k == x) 255

undoes_all : holds_up_to undoes 255 ≡ true
unfolding holds_up_to
undoes_all = refl

pub bit_xor_twice : (x k : ℕ) → IsByte x → IsByte k → bit_xor (bit_xor x k) k ≡ x
bit_xor_twice x k hx hk =
    let row = holds_up_to-le undoes 255 undoes_all k (omega arith) in
    (==_iff (bit_xor (bit_xor x k) k) x).0
      (holds_up_to-le (λ x. bit_xor (bit_xor x k) k == x) 255 row x (omega arith))
