-- ===== src/Paths/Clean.antt =====
-- NormalizePath of path.go: its result is clean.
use pbo.Common.{
  ℕ, ◌≡◌, ◌≢◌, refl, arith, Bool, false, ◌||◌, ◌&&◌, List, [], ◌∷◌, Bytes, All, Lacks, ◌==◌,
  if◌then◌else◌, Bool-cases, if_elim, inl, inr,
}
use pbo.Wire.{is_empty}
use pbo.Text.{trim_space, replace_byte, trim_dot_slash, trim_prefix_byte, split, join}
use pbo.Text.Split.{
  split-All, split-Lacks, IsPart, trim_suffix_byte-join, replace_byte-Lacks, trim_prefix_byte-All,
}
use pbo.Paths.{
  pop, is_dot, is_dot_dot, clean_segments, reverse_segments, clean_rooted,
  normalize_path_for_matching, normalize_path,
}

-- A segment of a clean path: a name that is neither "." nor ".." and holds no separator.
pub record IsSegment (p : Bytes) : Type 0 where
  pub not_empty : p ≢ []
  pub not_dot : is_dot p ≡ false
  pub not_dot_dot : is_dot_dot p ≡ false
  pub no_slash : Lacks b'/' p
  pub no_backslash : Lacks b'\\' p

pop-IsSegment : (stack : List Bytes) → All IsSegment stack → All IsSegment (pop stack)
unfolding pop
pop-IsSegment [] h = tt
pop-IsSegment (p ∷ ps) (hp, h) = h

pub is_empty-false : (p : Bytes) → is_empty p ≡ false → p ≢ []
unfolding is_empty
is_empty-false [] h = (cc)
is_empty-false (c ∷ p) h = (cc)

pub or-false : (a b : Bool) → (a || b) ≡ false → (a ≡ false) × (b ≡ false)
or-false a b h = (ground arith, ground arith)

-- One segment is put on the stack only if it is clean.
push-IsSegment :
    (stack : List Bytes) (p : Bytes)
    → All IsSegment stack
    → Lacks b'/' p
    → Lacks b'\\' p
    → All IsSegment
        (if is_empty p || is_dot p then stack else if is_dot_dot p then pop stack else p ∷ stack)
push-IsSegment stack p h hs hb = elim (Bool-cases (is_empty p || is_dot p)) [
  | inl e ↦ rw (e) h
  | inr e ↦
      let (e₁, e₂) = or-false (is_empty p) (is_dot p) e in
      elim (Bool-cases (is_dot_dot p)) [
        | inl e' ↦ rw (e, e') (pop-IsSegment stack h)
        | inr e' ↦
            rw (e, e')
              (
                record {
                  not_empty = is_empty-false p e₁;
                  not_dot = e₂;
                  not_dot_dot = e';
                  no_slash = hs;
                  no_backslash = hb;
                },
                h,
              )
      ]
]

clean_segments-IsSegment :
    (stack ps : List Bytes)
    → All IsSegment stack
    → All (Lacks b'/') ps
    → All (Lacks b'\\') ps
    → All IsSegment (clean_segments stack ps)
unfolding clean_segments
clean_segments-IsSegment stack [] h hs hb = h
clean_segments-IsSegment stack (p ∷ ps) h (hp, hs) (hp', hb) =
    clean_segments-IsSegment
      (if is_empty p || is_dot p then stack else if is_dot_dot p then pop stack else p ∷ stack) ps
      (push-IsSegment stack p h hp hp') hs hb

reverse_segments-IsSegment :
    (out ps : List Bytes)
    → All IsSegment out
    → All IsSegment ps
    → All IsSegment (reverse_segments out ps)
unfolding reverse_segments
reverse_segments-IsSegment out [] ho h = ho
reverse_segments-IsSegment out (p ∷ ps) ho (hp, h) =
    reverse_segments-IsSegment (p ∷ out) ps (hp, ho) h

trim_dot_slash-All : (P : ℕ → Type 0) (s : Bytes) → All P s → All P (trim_dot_slash s)
unfolding trim_dot_slash
trim_dot_slash-All P [] h = h
trim_dot_slash-All P (a ∷ []) h = h
trim_dot_slash-All P (a ∷ b ∷ s) (ha, (hb, h)) =
    if_elim (λ t. All P t) (a == b'.' && b == b'/') s (a ∷ b ∷ s) h (ha, (hb, h))

parts-IsPart : (ps : List Bytes) → All IsSegment ps → All (IsPart b'/') ps
parts-IsPart [] h = tt
parts-IsPart (p ∷ ps) (hp, h) = ((hp.not_empty, hp.no_slash), parts-IsPart ps h)

-- The segments that the path of a trimmed string resolves to.
resolved : Bytes → List Bytes
resolved trimmed = reverse_segments [] (clean_segments [] (split trimmed b'/'))

resolved-IsSegment : (s : Bytes) → Lacks b'\\' s → All IsSegment (resolved s)
unfolding resolved
resolved-IsSegment s h = reverse_segments-IsSegment [] (clean_segments [] (split s b'/')) tt (
    clean_segments-IsSegment [] (split s b'/') tt (split-Lacks s b'/')
      (split-All (λ c. c ≢ b'\\') s b'/' h))

-- Every path normalises to a list of segments joined by "/", none of which is empty, "." or "..",
-- or holds a slash or a backslash; the list is empty where the result is the empty path.
pub normalize_path_lem :
    (raw : Bytes)
    → (segments : List Bytes) × (normalize_path raw ≡ join segments b'/') × All IsSegment segments
unfolding normalize_path normalize_path_for_matching clean_rooted resolved trim_prefix_byte
normalize_path_lem raw =
    let slashed = replace_byte b'\\' b'/' (trim_space raw) in
    let trimmed = trim_prefix_byte b'/' (trim_dot_slash slashed) in
    let lacks : Lacks b'\\' trimmed =
      trim_prefix_byte-All (λ c. c ≢ b'\\') b'/' (trim_dot_slash slashed)
        (trim_dot_slash-All (λ c. c ≢ b'\\') slashed
          (replace_byte-Lacks b'\\' b'/' (trim_space raw) (omega arith))) in
    let clean = resolved-IsSegment trimmed lacks in
    elim (Bool-cases (is_dot (join (resolved trimmed) b'/'))) [
      | inl e ↦ ([], rw (e) refl, tt)
      | inr e ↦ (
        resolved trimmed,
        rw (e)
            (trim_suffix_byte-join b'/' (resolved trimmed) (parts-IsPart (resolved trimmed) clean)),
        clean,
      )
    ]
