-- ===== src/Text/Split.antt =====
-- strings.Split, strings.Join, strings.TrimSuffix and strings.ReplaceAll, related.
use pbo.Common.{
  ℕ, ◌≡◌, ◌≢◌, refl, ap, ◌∙◌, false, List, [], ◌∷◌, ◌++◌, Bytes, All, Lacks, ◌==◌, Bool-cases, inl,
  inr, if_elim, arith,
}
use pbo.Text.{trim_suffix_byte, trim_prefix_byte, replace_byte, cons_head, split, join}

module _ {ℓ} (P : ℕ → Type ℓ) where
  cons_head-All : (c : ℕ) (ps : List Bytes) → P c → All (All P) ps → All (All P) (cons_head c ps)
  unfolding cons_head
  cons_head-All c [] hc h = ((hc, tt), tt)
  cons_head-All c (p ∷ ps) hc (hp, h) = ((hc, hp), h)

  -- What holds of every byte of a string holds of every byte of its parts.
  pub split-All : (s : Bytes) (sep : ℕ) → All P s → All (All P) (split s sep)
  unfolding split
  split-All [] sep h = (tt, tt)
  split-All (c ∷ s) sep (hc, h) = elim (Bool-cases (c == sep)) [
    | inl e ↦ rw (e) (tt, split-All s sep h)
    | inr e ↦ rw (e) (cons_head-All c (split s sep) hc (split-All s sep h))
  ]

-- No part holds the separator.
pub split-Lacks : (s : Bytes) (sep : ℕ) → All (Lacks sep) (split s sep)
unfolding split
split-Lacks [] sep = (tt, tt)
split-Lacks (c ∷ s) sep = elim (Bool-cases (c == sep)) [
  | inl e ↦ rw (e) (tt, split-Lacks s sep)
  | inr e ↦
      let differ : c ≢ sep = ground arith in
      rw (e) (cons_head-All (λ x. x ≢ sep) c (split s sep) differ (split-Lacks s sep))
]

trim_suffix_byte-Lacks : (b : ℕ) (s : Bytes) → Lacks b s → trim_suffix_byte b s ≡ s
unfolding trim_suffix_byte
trim_suffix_byte-Lacks b [] h = refl
trim_suffix_byte-Lacks b (c ∷ []) (hc, h) = let e : (c == b) ≡ false = ground arith in rw (e)
trim_suffix_byte-Lacks b (c ∷ d ∷ s) (hc, h) = ap (◌∷◌ c) (trim_suffix_byte-Lacks b (d ∷ s) h)

trim_suffix_byte-append :
    (b : ℕ) (x s : Bytes) → s ≢ [] → trim_suffix_byte b (x ++ s) ≡ x ++ trim_suffix_byte b s
unfolding trim_suffix_byte
trim_suffix_byte-append b [] s h = refl
trim_suffix_byte-append b (c ∷ []) [] h = absurd (h refl)
trim_suffix_byte-append b (c ∷ []) (d ∷ s) h = refl
trim_suffix_byte-append b (c ∷ d ∷ x) s h = ap (◌∷◌ c) (trim_suffix_byte-append b (d ∷ x) s h)

-- A part that is not empty and lacks the separator.
abbrev pub IsPart : ℕ → Bytes → Type 0
IsPart b p = (p ≢ []) × Lacks b p

join-ne : (b : ℕ) (p : Bytes) (ps : List Bytes) → p ≢ [] → join (p ∷ ps) b ≢ []
unfolding join
join-ne b [] ps h = absurd (h refl)
join-ne b (c ∷ p) [] h = (cc)
join-ne b (c ∷ p) (q ∷ ps) h = (cc)

-- A join of such parts does not end in the separator.
pub trim_suffix_byte-join :
    (b : ℕ) (ps : List Bytes) → All (IsPart b) ps → trim_suffix_byte b (join ps b) ≡ join ps b
unfolding join trim_suffix_byte
trim_suffix_byte-join b [] h = refl
trim_suffix_byte-join b (p ∷ []) ((_, hp), h) = trim_suffix_byte-Lacks b p hp
trim_suffix_byte-join b (p ∷ q ∷ ps) (_, ((hq, hq'), h)) =
    trim_suffix_byte-append b p (b ∷ join (q ∷ ps) b) (cc)
    ∙ ap (λ s. p ++ s)
        (trim_suffix_byte-append b (b ∷ []) (join (q ∷ ps) b) (join-ne b q ps hq)
          ∙ ap (◌∷◌ b) (trim_suffix_byte-join b (q ∷ ps) ((hq, hq'), h)))

pub replace_byte-Lacks : (a b : ℕ) (s : Bytes) → b ≢ a → Lacks a (replace_byte a b s)
unfolding replace_byte
replace_byte-Lacks a b [] h = tt
replace_byte-Lacks a b (c ∷ s) h = elim (Bool-cases (c == a)) [
  | inl e ↦ rw (e) (h, replace_byte-Lacks a b s h)
  | inr e ↦ let differ : c ≢ a = ground arith in rw (e) (differ, replace_byte-Lacks a b s h)
]

pub trim_prefix_byte-All :
    (P : ℕ → Type 0) (b : ℕ) (s : Bytes) → All P s → All P (trim_prefix_byte b s)
unfolding trim_prefix_byte
trim_prefix_byte-All P b [] h = tt
trim_prefix_byte-All P b (c ∷ s) (hc, h) = if_elim (λ t. All P t) (c == b) s (c ∷ s) h (hc, h)
