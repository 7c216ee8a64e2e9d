-- ===== src/Extract/Safe.antt =====
-- normalizeExtractEntryPath of extract.go: what it lets through stays below the output directory.
use pbo.Common.{
  ℕ, ◌≡◌, ◌≢◌, sym, subst, arith, Bool, true, false, not, ◌||◌, List, [], ◌∷◌, Bytes, All, Lacks,
  ◌==◌, Bool-cases, inl, inr,
}
use pbo.Model.{ok, guard, bind-eq-ok, ok-injective, guard-eq-ok, invalid_extract_path}
use pbo.Wire.{is_empty}
use pbo.Text.{has_prefix, trim_space, replace_byte, split, join}
use pbo.Text.Split.{split-All, split-Lacks, replace_byte-Lacks}
use pbo.Paths.{is_dot, is_dot_dot}
use pbo.Paths.Clean.{IsSegment, is_empty-false, or-false}
use pbo.Extract.{
  has_windows_abs_drive_prefix, contains_byte, clean_parts, joined, normalize_extract_entry_path,
}

contains_byte-Lacks : (b : ℕ) (s : Bytes) → contains_byte b s ≡ false → Lacks b s
unfolding contains_byte
contains_byte-Lacks b [] h = tt
contains_byte-Lacks b (c ∷ s) h =
    let (e, e') = or-false (c == b) (contains_byte b s) h in
    let differ : c ≢ b = ground arith in (differ, contains_byte-Lacks b s e')

replace_byte-keeps : (a b x : ℕ) (s : Bytes) → b ≢ x → Lacks x s → Lacks x (replace_byte a b s)
unfolding replace_byte
replace_byte-keeps a b x [] hb h = tt
replace_byte-keeps a b x (c ∷ s) hb (hc, h) = elim (Bool-cases (c == a)) [
  | inl e ↦ rw (e) (hb, replace_byte-keeps a b x s hb h)
  | inr e ↦ rw (e) (hc, replace_byte-keeps a b x s hb h)
]

-- A segment of a safe path is clean and holds no NUL.
abbrev pub IsSafeSegment : Bytes → Type 0
IsSafeSegment p = IsSegment p × Lacks 0 p

clean_parts-IsSafe :
    (ps : List Bytes) {kept : List Bytes}
    → All (Lacks b'/') ps
    → All (Lacks b'\\') ps
    → All (Lacks 0) ps
    → clean_parts ps ≡ ok kept
    → All IsSafeSegment kept
unfolding clean_parts
clean_parts-IsSafe [] hs hb hz h = subst (All IsSafeSegment) (ok-injective h) tt
clean_parts-IsSafe (p ∷ ps) (hp, hs) (hp', hb) (hp'', hz) h =
    elim (Bool-cases (is_empty p || is_dot p)) [
      | inl e ↦ clean_parts-IsSafe ps hs hb hz (rw (e) at h)
      | inr e ↦
          let (e₁, e₂) = or-false (is_empty p) (is_dot p) e in
          let h' = rw (e) at h in
          elim (Bool-cases (is_dot_dot p)) [
            | inl e' ↦ let h'' = rw (e') at h' in cc
            | inr e' ↦
                let h'' = rw (e') at h' in
                let (kept, rest, last) = bind-eq-ok (clean_parts ps) _ h'' in
                let segment : IsSegment p = record {
                  not_empty = is_empty-false p e₁;
                  not_dot = e₂;
                  not_dot_dot = e';
                  no_slash = hp;
                  no_backslash = hp';
                } in
                subst (All IsSafeSegment) (ok-injective last)
                  ((segment, hp''), clean_parts-IsSafe ps hs hb hz rest)
          ]
    ]

joined-ok : (ps : List Bytes) {p : Bytes} → joined ps ≡ ok p → (ps ≢ []) × (p ≡ join ps b'/')
unfolding joined
joined-ok [] h = cc
joined-ok (p ∷ ps) h = (cc, sym (ok-injective h))

not-true : (b : Bool) → not b ≡ true → b ≡ false
not-true b h = ground arith

-- A path that extraction accepts is at least one segment, joined by "/"; no segment is empty, "." or
-- "..", or holds a slash, a backslash or a NUL.
pub normalize_extract_entry_path_lem :
    (raw : Bytes) {p : Bytes}
    → normalize_extract_entry_path raw ≡ ok p
    → (segments : List Bytes) × (segments ≢ [])
      × (p ≡ join segments b'/')
      × All IsSafeSegment segments
unfolding normalize_extract_entry_path
normalize_extract_entry_path_lem entry_path h =
    let raw = trim_space entry_path in
    let slashed = replace_byte b'\\' b'/' raw in
    let (_, _, h₁) = bind-eq-ok (guard (not (is_empty raw)) invalid_extract_path) _ h in
    let (_, e₂, h₂) = bind-eq-ok (guard (not (contains_byte 0 raw)) invalid_extract_path) _ h₁ in
    let (_, _, h₃) =
      bind-eq-ok
        (guard (not (has_prefix raw (b'/' ∷ []) || has_prefix raw (b'\\' ∷ [])))
          invalid_extract_path)
        _ h₂ in
    let (_, _, h₄) =
      bind-eq-ok (guard (not (has_windows_abs_drive_prefix slashed)) invalid_extract_path) _ h₃ in
    let (parts, e₅, h₅) = bind-eq-ok (clean_parts (split slashed b'/')) _ h₄ in
    let no_nul = contains_byte-Lacks 0 raw (
      not-true (contains_byte 0 raw)
        (guard-eq-ok (not (contains_byte 0 raw)) invalid_extract_path e₂)) in
    let (some_parts, is_join) = joined-ok parts h₅ in
    (
      parts,
      some_parts,
      is_join,
      clean_parts-IsSafe (split slashed b'/') (split-Lacks slashed b'/')
          (split-All (λ c. c ≢ b'\\') slashed b'/'
            (replace_byte-Lacks b'\\' b'/' raw (omega arith)))
          (split-All (λ c. c ≢ 0) slashed b'/'
            (replace_byte-keeps b'\\' b'/' 0 raw (omega arith) no_nul))
          e₅,
    )
