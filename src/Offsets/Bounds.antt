-- ===== src/Offsets/Bounds.antt =====
-- What every offset policy guarantees of the entries that it lets through.
use pbo.Common.{
  ℕ, ◌+◌, ◌%◌, ◌^◌, ◌≤◌, ◌<◌, ◌≡◌, refl, ap, ◌∙◌, Bool, true, false, not, List, [], ◌∷◌, map, All,
  arith, if_elim, subst, add_u32, add_i64,
}
use pbo.Model.{
  EntryInfo, OffsetMode, Error, Result, ok, err, bind-eq-ok, ◌>>=◌, guard, sequential,
  stored_compat, stored_strict, empty_mode, unknown_mode,
}
use pbo.Offsets.Defs.{
  assign_sequential_from, assign_sequential_offsets, assign_stored_from, assign_stored_offsets,
  try_both, try_assign_stored_offsets, validate_resolved_offsets, compat_fallback, strict_fallback,
  assign_by_mode, resolve_entry_offsets,
}

-- The numbers that take part are uint32.
abbrev pub IsEntry : EntryInfo → Type 0
IsEntry e = (e.offset < 2 ^ 32) × (e.data_size < 2 ^ 32)

-- The payload lies between the start of the data and the end of the file.
abbrev pub InFile : ℕ → ℕ → EntryInfo → Type 0
InFile data_start total_size e = (data_start ≤ e.offset) × (e.offset + e.data_size ≤ total_size)

abbrev pub without_offset : EntryInfo → EntryInfo
without_offset e = record e { offset = 0 }

-- Nothing but offsets differs.
abbrev pub SameTable : List EntryInfo → List EntryInfo → Type 0
SameTable es es' = map without_offset es ≡ map without_offset es'

-- What one assignment does to a table.
pub record Keeps (es es' : List EntryInfo) : Type 0 where
  pub words : All IsEntry es'
  pub same : SameTable es' es

abbrev KeepsOk : List EntryInfo → Result (List EntryInfo) → Type 0
KeepsOk es (ok es') = Keeps es es'
KeepsOk es (err _) = Unit

Keeps-refl : (es : List EntryInfo) → All IsEntry es → Keeps es es
Keeps-refl es h = record { words = h; same = refl }

Keeps-trans : {es es' es'' : List EntryInfo} → Keeps es es' → Keeps es' es'' → Keeps es es''
Keeps-trans h k = record { words = k.words; same = k.same ∙ h.same }

Keeps-cons :
    (e : EntryInfo) (o : ℕ) {es es' : List EntryInfo}
    → o < 2 ^ 32
    → IsEntry e
    → Keeps es es'
    → Keeps (e ∷ es) (record e { offset = o } ∷ es')
Keeps-cons e o ho he h = record {
  words = ((ho, he.1), h.words);
  same = ap (◌∷◌ (without_offset e)) h.same;
}

pub validate_sound :
    (es : List EntryInfo) (d t : ℕ)
    → All IsEntry es
    → d < 2 ^ 63
    → t < 2 ^ 63
    → validate_resolved_offsets es d t ≡ ok tt
    → All (InFile d t) es
unfolding validate_resolved_offsets
validate_sound [] d t _ hd ht h = tt
validate_sound (e ∷ es) d t (he, hes) hd ht h = ground (arith, validate_sound es d t hes hd ht)

KeepsOk-cons :
    (e : EntryInfo) (o : ℕ) (es : List EntryInfo) (r : Result (List EntryInfo))
    → o < 2 ^ 32
    → IsEntry e
    → KeepsOk es r
    → KeepsOk (e ∷ es) (r >>= λ rest. ok (record e { offset = o } ∷ rest))
KeepsOk-cons e o es (ok es') ho he h = Keeps-cons e o ho he h
KeepsOk-cons e o es (err _) ho he h = tt

KeepsOk-guard :
    (es : List EntryInfo) (b : Bool) (x : Error) (r : Result (List EntryInfo))
    → KeepsOk es r
    → KeepsOk es (guard b x >>= λ _. r)
KeepsOk-guard es true x r h = h
KeepsOk-guard es false x r h = tt

assign_sequential_from-Keeps :
    (es : List EntryInfo) (current : ℕ)
    → current < 2 ^ 32
    → All IsEntry es
    → KeepsOk es (assign_sequential_from current es)
unfolding assign_sequential_from
assign_sequential_from-Keeps [] current h _ = Keeps-refl [] tt
assign_sequential_from-Keeps (e ∷ es) current h (he, hes) = KeepsOk-guard (e ∷ es) _ _ _ (
    KeepsOk-cons e current es _ h he
      (assign_sequential_from-Keeps es (add_u32 current e.data_size) (omega arith) hes))

assign_sequential_offsets-Keeps :
    (es : List EntryInfo) (d : ℕ) → All IsEntry es → KeepsOk es (assign_sequential_offsets es d)
unfolding assign_sequential_offsets
assign_sequential_offsets-Keeps es d h =
    KeepsOk-guard es _ _ _ (assign_sequential_from-Keeps es (d % 2 ^ 32) (omega arith) h)

assign_stored_from-Keeps :
    (es : List EntryInfo) (d t adjust prev : ℕ)
    → All IsEntry es
    → Keeps es (assign_stored_from d t adjust prev es).0
unfolding assign_stored_from
assign_stored_from-Keeps [] d t adjust prev _ = Keeps-refl [] tt
assign_stored_from-Keeps (e ∷ es) d t adjust prev (he, hes) =
    let resolved = add_i64 e.offset adjust in
    let stay = Keeps-refl (e ∷ es) (he, hes) in
    let move =
      Keeps-cons e (resolved % 2 ^ 32) (omega arith) he
        (assign_stored_from-Keeps es d t adjust resolved hes) in
    if_elim (λ (r : List EntryInfo × Bool). Keeps (e ∷ es) r.0) _ _ _ stay move

assign_stored_offsets-Keeps :
    (es : List EntryInfo) (d t : ℕ) (absolute : Bool)
    → All IsEntry es
    → Keeps es (assign_stored_offsets es d t absolute).0
unfolding assign_stored_offsets
assign_stored_offsets-Keeps es d t absolute h = assign_stored_from-Keeps es d t _ _ h

try_both-Keeps :
    (es : List EntryInfo) (d t : ℕ) (absolute : Bool)
    → All IsEntry es
    → Keeps es (try_both es d t absolute).0
unfolding try_both
try_both-Keeps es d t absolute h =
    let first = assign_stored_offsets-Keeps es d t absolute h in
    let second = Keeps-trans first (assign_stored_offsets-Keeps _ d t (not absolute) first.words) in
    let P = λ (r : List EntryInfo × Result Bool). Keeps es r.0 in
    if_elim P _ _ _ first (if_elim P _ _ _ second second)

try_assign_stored_offsets-Keeps :
    (es : List EntryInfo) (d t : ℕ) → All IsEntry es → Keeps es (try_assign_stored_offsets es d t).0
unfolding try_assign_stored_offsets
try_assign_stored_offsets-Keeps [] d t h = Keeps-refl [] tt
try_assign_stored_offsets-Keeps (e ∷ es) d t h =
    let P = λ (r : List EntryInfo × Result Bool). Keeps (e ∷ es) r.0 in
    if_elim P _ _ _ (try_both-Keeps (e ∷ es) d t _ h) (Keeps-refl (e ∷ es) h)

KeepsOk-trans :
    {es es' : List EntryInfo} (r : Result (List EntryInfo))
    → Keeps es es'
    → KeepsOk es' r
    → KeepsOk es r
KeepsOk-trans (ok _) h k = Keeps-trans h k
KeepsOk-trans (err _) h k = tt

KeepsOk-bind :
    (es : List EntryInfo) (m : Result (List EntryInfo))
    (f : List EntryInfo → Result (List EntryInfo))
    → KeepsOk es m
    → ((es' : List EntryInfo) → All IsEntry es' → KeepsOk es' (f es'))
    → KeepsOk es (m >>= f)
KeepsOk-bind es (ok es') f h k = KeepsOk-trans (f es') h (k es' h.words)
KeepsOk-bind es (err _) f h k = tt

compat_fallback-Keeps :
    (es : List EntryInfo) (r : Result Bool) (d : ℕ)
    → All IsEntry es
    → KeepsOk es (compat_fallback es r d)
unfolding compat_fallback
compat_fallback-Keeps es (err _) d h =
    KeepsOk-bind es (assign_sequential_offsets es d) _ (assign_sequential_offsets-Keeps es d h)
      λ es' h'. assign_sequential_offsets-Keeps es' d h'
compat_fallback-Keeps es (ok false) d h = assign_sequential_offsets-Keeps es d h
compat_fallback-Keeps es (ok true) d h = Keeps-refl es h

strict_fallback-Keeps :
    (es : List EntryInfo) (r : Result Bool) (d : ℕ)
    → All IsEntry es
    → KeepsOk es (strict_fallback es r d)
unfolding strict_fallback
strict_fallback-Keeps es (err _) d h = tt
strict_fallback-Keeps es (ok false) d h = assign_sequential_offsets-Keeps es d h
strict_fallback-Keeps es (ok true) d h = Keeps-refl es h

assign_by_mode-Keeps :
    (mode : OffsetMode) (es : List EntryInfo) (d t : ℕ)
    → All IsEntry es
    → KeepsOk es (assign_by_mode mode es d t)
unfolding assign_by_mode
assign_by_mode-Keeps sequential es d t h = assign_sequential_offsets-Keeps es d h
assign_by_mode-Keeps stored_compat es d t h =
    let tried = try_assign_stored_offsets-Keeps es d t h in
    KeepsOk-trans _ tried (compat_fallback-Keeps _ _ d tried.words)
assign_by_mode-Keeps stored_strict es d t h =
    let tried = try_assign_stored_offsets-Keeps es d t h in
    KeepsOk-trans _ tried (strict_fallback-Keeps _ _ d tried.words)
assign_by_mode-Keeps empty_mode es d t h = tt
assign_by_mode-Keeps unknown_mode es d t h = tt

-- Under every policy, a table that is let through has each payload between the start of the data
-- and the end of the file, and differs from the parsed table in nothing but offsets. The fields
-- are uint32, and the two positions are int64 values that are not negative.
pub resolve_entry_offsets-InFile :
    (es : List EntryInfo) (d t : ℕ) (mode : OffsetMode) {es' : List EntryInfo}
    → All IsEntry es
    → d < 2 ^ 63
    → t < 2 ^ 63
    → resolve_entry_offsets es d t mode ≡ ok es'
    → All (InFile d t) es' × SameTable es' es
unfolding resolve_entry_offsets
resolve_entry_offsets-InFile es d t mode {es'} h hd ht e =
    let (mid, assigned, checked) = bind-eq-ok (assign_by_mode mode es d t) _ e in
    let kept : Keeps es mid = subst (KeepsOk es) assigned (assign_by_mode-Keeps mode es d t h) in
    let (_, valid, last) = bind-eq-ok (validate_resolved_offsets mid d t) _ checked in
    let same : mid ≡ es' = cc in
    subst (λ l. All (InFile d t) l × SameTable l es) same
      (validate_sound mid d t kept.words hd ht valid, kept.same)
