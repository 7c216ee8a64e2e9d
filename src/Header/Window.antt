-- ===== src/Header/Window.antt =====
-- Windows of two texts that begin alike, and the first NUL in them.
use pbo.Common.{
  ℕ, zero, suc, ◌+◌, ◌≤◌, ◌<◌, ◌≡◌, refl, sym, ap, ◌∙◌, subst, true, false, [], ◌∷◌, Option, none,
  some, arith, length, take, drop, Bytes, inl, inr, ◌⊎◌, Bool-cases, Option-cases, ◌==◌,
}
use pbo.Wire.{index_byte}

pub take-take : (n k : ℕ) (s : Bytes) → n ≤ k → take n (take k s) ≡ take n s
take-take zero k s h = refl
take-take (suc n) zero s h = absurd (omega arith)
take-take (suc n) (suc k) [] h = refl
take-take (suc n) (suc k) (c ∷ s) h = ap (◌∷◌ c) (take-take n k s (omega arith))

window-take :
    (off n k : ℕ) (s : Bytes) → off + n ≤ k → take n (drop off (take k s)) ≡ take n (drop off s)
window-take zero n k s h = take-take n k s (omega arith)
window-take (suc off) n zero s h = absurd (omega arith)
window-take (suc off) n (suc k) [] h = refl
window-take (suc off) n (suc k) (c ∷ s) h = window-take off n k s (omega arith)

abbrev pred : ℕ → ℕ
pred zero = zero
pred (suc n) = n

-- A byte that is found is the first one, or is found behind it.
index_byte-cases :
    (c b : ℕ) (s : Bytes) (i : ℕ)
    → index_byte (c ∷ s) b ≡ some i
    → (((c == b) ≡ true) × (i ≡ 0))
      ⊎ (j : ℕ) × (i ≡ suc j) × ((c == b) ≡ false) × (index_byte s b ≡ some j)
unfolding index_byte
index_byte-cases c b s i h = elim (Bool-cases (c == b)) [
  | inl at ↦ let same : some i ≡ some 0 = sym h ∙ rw (at) refl in inl (at, cc)
  | inr off ↦ elim (Option-cases (index_byte s b)) [
    | inl lacks ↦ let clash : some i ≡ none = sym h ∙ rw (off, lacks) refl in cc
    | inr (j, e) ↦
        let same : some i ≡ some (suc j) = sym h ∙ rw (off, e) refl in inr (j, cc, off, e)
  ]
]

pub window :
    (a b : Bytes) (k : ℕ)
    → take k a ≡ take k b
    → (off n : ℕ) → off + n ≤ k
    → take n (drop off a) ≡ take n (drop off b)
window a b k agree off n inside =
    sym (window-take off n k a inside)
    ∙ (ap (λ t. take n (drop off t)) agree ∙ window-take off n k b inside)

pub lacks : {i : ℕ} → ◌≡◌ {A = Option ℕ} none (some i) → ⊥
lacks h = cc

pub index_byte-lt : (s : Bytes) (b i : ℕ) → index_byte s b ≡ some i → i < length s
unfolding index_byte
index_byte-lt [] b i h = absurd (lacks (h))
index_byte-lt (c ∷ s) b i h = elim (index_byte-cases c b s i h) [
  | inl (_, e) ↦ omega (arith, e)
  | inr (j, e, _, rest) ↦ omega (arith, e, index_byte-lt s b j rest)
]

pub index_byte_local :
    (p q : Bytes) (b i : ℕ)
    → index_byte p b ≡ some i
    → take (suc i) p ≡ take (suc i) q
    → index_byte q b ≡ some i
unfolding index_byte
index_byte_local [] q b i h e = let lt = index_byte-lt [] b i h in absurd (omega arith)
index_byte_local (c ∷ p) [] b i h e = let clash = ap length e in absurd (omega arith)
index_byte_local (c ∷ p) (d ∷ q) b i h e =
    let head : c ≡ d = cc in
    let tail : take i p ≡ take i q = cc in
    elim (index_byte-cases c b p i h) [
      | inl (at, zero_i) ↦
          let at' : (d == b) ≡ true = subst (λ x. (x == b) ≡ true) head at in
          rw (at') (ap some (sym zero_i))
      | inr (j, e', off, rest) ↦
          let off' : (d == b) ≡ false = subst (λ x. (x == b) ≡ false) head off in
          let tail' : take (suc j) p ≡ take (suc j) q = subst (λ n. take n p ≡ take n q) e' tail in
          rw (off', index_byte_local p q b j rest tail') (ap some (sym e'))
    ]
