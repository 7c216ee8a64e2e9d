-- ===== src/Sanitize/Unique.antt =====
-- The paths that the two loops of sanitize.go give out.
use pbo.Common.{
  ℕ, zero, suc, ◌+◌, ◌-◌, ◌≡◌, ◌≢◌, refl, ◌∙◌, ap, subst, arith, Bool, true, false, List, [], ◌∷◌,
  ◌++◌, Bytes, All, Bool-cases, inl, inr,
}
use pbo.Model.{Result, ok, err, bind-eq-ok, ok-injective, EntryInfo}
use pbo.Text.{equal}
use pbo.Text.Equal.{equal_same}
use pbo.Extract.{normalize_extract_entry_path}
use pbo.Maps.{find, has_key}
use pbo.Maps.Laws.{Distinct}
use pbo.Sanitize.Names.{
  with_numeric_suffix, sanitize_path_segment, sanitize_control_char_path_segment,
}
use pbo.Sanitize.Entries.{
  Sanitizer, sanitize_relative_path_with, Taken, dir_of, base_of, start_idx, search_suffix,
  make_sanitized_path_unique, relative_path, sanitize_from, none_taken, sanitize_entry_info_paths,
  sanitize_entry_info_control_paths,
}

-- Each row as it was but for its path.
abbrev pub SameButPath : EntryInfo → EntryInfo → Type 0
SameButPath e e' = record e { path = e'.path } ≡ e'

abbrev pub Renamed : List EntryInfo → List EntryInfo → Type 0
Renamed [] [] = Unit
Renamed (e ∷ es) (e' ∷ es') = SameButPath e e' × Renamed es es'
Renamed _ _ = ⊥

module _ (lower : Bytes → Bytes) where
  -- A path whose key was free, and is now taken.
  record IsFresh (taken : Taken) (path : Bytes) (taken' : Taken) : Type 0 where
    free : has_key taken.used (lower path) ≡ false
    used : taken'.used ≡ lower path ∷ taken.used

  -- Both at once, of a result.
  Gives : Taken → Result (Bytes × Taken) → Type 0
  Gives taken (ok (path, taken')) = IsFresh taken path taken'
  Gives taken (err e) = Unit

  search_suffix-Gives :
      (count idx : ℕ) (key dir name : Bytes) (taken : Taken)
      → Gives taken (search_suffix lower count idx key dir name taken)
  unfolding search_suffix Gives
  search_suffix-Gives zero idx key dir name taken = tt
  search_suffix-Gives (suc count) idx key dir name taken =
      let candidate = dir ++ with_numeric_suffix name idx in
      elim (Bool-cases (has_key taken.used (lower candidate))) [
        | inl busy ↦ rw (busy, Gives) (search_suffix-Gives count (idx + 1) key dir name taken)
        | inr free ↦ rw (free, Gives) (record { free = free; used = refl })
      ]

  make_sanitized_path_unique-Gives :
      (path : Bytes) (taken : Taken) → Gives taken (make_sanitized_path_unique lower path taken)
  unfolding make_sanitized_path_unique Gives
  make_sanitized_path_unique-Gives path taken =
      let start = start_idx (find taken.next_suffix (lower path)) in
      elim (Bool-cases (has_key taken.used (lower path))) [
        | inl busy ↦
            rw (busy, Gives)
              (search_suffix-Gives (1000000 - start) start (lower path) (dir_of path) (base_of path)
                taken)
        | inr free ↦ rw (free, Gives) (record { free = free; used = refl })
      ]

  -- The rows with new paths: no two under one key, none under a key that was taken, each accepted,
  -- and the rest of each row as it was.
  record IsSanitized (check : Bytes → Result Bytes) (taken : Taken) (es out : List EntryInfo)
      : Type 0 where
    renamed : Renamed es out
    distinct : Distinct (λ (e : EntryInfo). lower e.path) out
    fresh : All (λ (e : EntryInfo). has_key taken.used (lower e.path) ≡ false) out
    accepted : All (λ (e : EntryInfo). (path : Bytes) × (check e.path ≡ ok path)) out

  -- What is free behind a row differs from it, and was free before.
  split-fresh :
      (key : Bytes) (used : List Bytes) (es : List EntryInfo)
      → All (λ (e : EntryInfo). has_key (key ∷ used) (lower e.path) ≡ false) es
      → All (λ (e : EntryInfo). lower e.path ≢ key) es
        × All (λ (e : EntryInfo). has_key used (lower e.path) ≡ false) es
  unfolding has_key
  split-fresh key used [] h = (tt, tt)
  split-fresh key used (e ∷ es) (he, h) =
      let (differ, free) = split-fresh key used es h in
      let here : equal key (lower e.path) ≡ false = ground arith in
      let still : has_key used (lower e.path) ≡ false = ground arith in
      let apart : lower e.path ≢ key = λ same.
        let clash : equal key (lower e.path) ≡ true = ap (equal key) same ∙ equal_same key in cc in
      ((apart, differ), (still, free))

  IsFresh-unique :
      (path : Bytes) (taken : Taken) (unique : Bytes) (taken' : Taken)
      → make_sanitized_path_unique lower path taken ≡ ok (unique, taken')
      → IsFresh taken unique taken'
  unfolding Gives
  IsFresh-unique path taken unique taken' e =
      subst (Gives taken) e (make_sanitized_path_unique-Gives path taken)

  IsSanitized-cons :
      (check : Bytes → Result Bytes) (taken taken' : Taken) (e : EntryInfo) (unique checked : Bytes)
      (es rest : List EntryInfo)
      → IsFresh taken unique taken'
      → check unique ≡ ok checked
      → IsSanitized check taken' es rest
      → IsSanitized check taken (e ∷ es) (record e { path = unique } ∷ rest)
  IsSanitized-cons check taken taken' e unique checked es rest given good later =
      let keys =
        subst (λ used. All (λ (r : EntryInfo). has_key used (lower r.path) ≡ false) rest) given.used
          later.fresh in
      let (differ, free) = split-fresh (lower unique) taken.used rest keys in
      record {
        renamed = (refl, later.renamed);
        distinct = (differ, later.distinct);
        fresh = (given.free, free);
        accepted = ((checked, good), later.accepted);
      }

  sanitize_from-IsSanitized :
      (sanitize : Sanitizer) (check : Bytes → Result Bytes) (taken : Taken) (es : List EntryInfo)
      {out : List EntryInfo}
      → sanitize_from lower sanitize check taken es ≡ ok out
      → IsSanitized check taken es out
  unfolding sanitize_from Gives
  sanitize_from-IsSanitized sanitize check taken [] h =
      subst (IsSanitized check taken []) (ok-injective h)
        (record { renamed = tt; distinct = tt; fresh = tt; accepted = tt })
  sanitize_from-IsSanitized sanitize check taken (e ∷ es) h =
      let (sanitized, e₁, h₁) =
        bind-eq-ok (sanitize_relative_path_with (relative_path e.path) sanitize) _ h in
      let ((unique, taken'), e₂, h₂) =
        bind-eq-ok (make_sanitized_path_unique lower sanitized taken) _ h₁ in
      let (checked, e₃, h₃) = bind-eq-ok (check unique) _ h₂ in
      let (rest, e₄, h₄) = bind-eq-ok (sanitize_from lower sanitize check taken' es) _ h₃ in
      let given = IsFresh-unique sanitized taken unique taken' e₂ in
      subst (IsSanitized check taken (e ∷ es)) (ok-injective h₄) (
        IsSanitized-cons check taken taken' e unique checked es rest given e₃
          (sanitize_from-IsSanitized sanitize check taken' es e₄))

  -- If the entries are sanitised for files, no two of the new paths have the same lower-case form,
  -- the extraction accepts each, and of each entry only the path has changed, in the old order.
  pub sanitize_entry_info_paths_lem :
      (is_format : ℕ → Bool) (es : List EntryInfo) {out : List EntryInfo}
      → sanitize_entry_info_paths lower is_format es ≡ ok out
      → Renamed es out
        × Distinct (λ (e : EntryInfo). lower e.path) out
        × All
            (λ (e : EntryInfo). (path : Bytes) × (normalize_extract_entry_path e.path ≡ ok path))
            out
  unfolding sanitize_entry_info_paths
  sanitize_entry_info_paths_lem is_format es h =
      let all =
        sanitize_from-IsSanitized (sanitize_path_segment lower is_format)
          normalize_extract_entry_path none_taken es h in
      (all.renamed, all.distinct, all.accepted)

  -- The same of the control characters, where the extraction need not accept the paths.
  pub sanitize_entry_info_control_paths_lem :
      (is_format : ℕ → Bool) (es : List EntryInfo) {out : List EntryInfo}
      → sanitize_entry_info_control_paths lower is_format es ≡ ok out
      → Renamed es out × Distinct (λ (e : EntryInfo). lower e.path) out
  unfolding sanitize_entry_info_control_paths
  sanitize_entry_info_control_paths_lem is_format es h =
      let all =
        sanitize_from-IsSanitized (sanitize_control_char_path_segment is_format) ok none_taken es
          h in
      (all.renamed, all.distinct)
