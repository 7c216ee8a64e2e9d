-- ===== src/Lookup/First.antt =====
-- The index of entry_reader.go against a search through the entries.
use pbo.Common.{
  ℕ, suc, ◌+◌, ◌≡◌, refl, sym, ap, ◌∙◌, arith, Bool, true, false, Option, none, some, List, [], ◌∷◌,
  if◌then◌else◌, Bytes, Bool-cases, Option-cases, inl, inr,
}
use pbo.Model.{EntryInfo}
use pbo.Text.{equal}
use pbo.Text.Equal.{equal_sound}
use pbo.Paths.{normalize_path}
use pbo.Lookup.{
  lookup, insert_new, index_from, build_entry_index, entry_at, resolve, find_entry_by_name,
}

-- The first entry whose normalised path is the key.
abbrev pub first_entry : List EntryInfo → Bytes → Option EntryInfo
first_entry [] key = none
first_entry (e ∷ es) key =
    let rest = first_entry es key in if equal (normalize_path e.path) key then some e else rest

abbrev or_else : Option ℕ → Option ℕ → Option ℕ
or_else (some i) o = some i
or_else none o = o

abbrev shift : ℕ → Option ℕ → Option ℕ
shift n none = none
shift n (some i) = some (n + i)

abbrev position : List EntryInfo → Bytes → Option ℕ
position [] key = none
position (e ∷ es) key =
    let rest = shift 1 (position es key) in
    if equal (normalize_path e.path) key then some 0 else rest

or_else-none : (o : Option ℕ) → or_else o none ≡ o
or_else-none none = refl
or_else-none (some i) = refl

lookup-insert_new :
    (index : List (Bytes × ℕ)) (key k : Bytes) (i : ℕ)
    → lookup (insert_new index key i (lookup index key)) k
      ≡ or_else (lookup index k) (if equal key k then some i else none)
unfolding insert_new lookup
lookup-insert_new index key k i = elim (Option-cases (lookup index key)) [
  | inl free ↦ elim (Bool-cases (equal key k)) [
    | inl e ↦
        let here : lookup index k ≡ none = ap (lookup index) (sym (equal_sound key k e)) ∙ free in
        rw (free, e, here)
    | inr e ↦ rw (free, e) (sym (or_else-none (lookup index k)))
  ]
  | inr (j, taken) ↦ elim (Bool-cases (equal key k)) [
    | inl e ↦
        let here : lookup index k ≡ some j =
          ap (lookup index) (sym (equal_sound key k e)) ∙ taken in
        rw (taken, e, here)
    | inr e ↦ rw (taken, e) (sym (or_else-none (lookup index k)))
  ]
]

shift-shift : (i : ℕ) (o : Option ℕ) → shift i (shift 1 o) ≡ shift (i + 1) o
shift-shift i none = refl
shift-shift i (some j) = ap some (omega arith)

or_else_assoc : (a b c : Option ℕ) → or_else (or_else a b) c ≡ or_else a (or_else b c)
or_else_assoc none b c = refl
or_else_assoc (some i) b c = refl

shift-if :
    (b : Bool) (i : ℕ) (o : Option ℕ)
    → or_else (if b then some i else none) (shift (i + 1) o)
      ≡ shift i (if b then some 0 else shift 1 o)
shift-if true i o = ap some (omega arith)
shift-if false i o = sym (shift-shift i o)

lookup-index_from :
    (i : ℕ) (index : List (Bytes × ℕ)) (es : List EntryInfo) (k : Bytes)
    → lookup (index_from i index es) k ≡ or_else (lookup index k) (shift i (position es k))
unfolding index_from
lookup-index_from i index [] k = sym (or_else-none (lookup index k))
lookup-index_from i index (e ∷ es) k =
    let key = normalize_path e.path in
    lookup-index_from (i + 1) (insert_new index key i (lookup index key)) es k
    ∙ (ap (λ o. or_else o (shift (i + 1) (position es k))) (lookup-insert_new index key k i)
        ∙ (or_else_assoc (lookup index k) (if equal key k then some i else none)
              (shift (i + 1) (position es k))
            ∙ ap (or_else (lookup index k)) (shift-if (equal key k) i (position es k))))

resolve-shift :
    (e : EntryInfo) (es : List EntryInfo) (o : Option ℕ)
    → resolve (e ∷ es) (shift 1 o) ≡ resolve es o
unfolding resolve entry_at
resolve-shift e es none = refl
resolve-shift e es (some i) = let step : 1 + i ≡ suc i = omega arith in ap (entry_at (e ∷ es)) step

resolve-position : (es : List EntryInfo) (k : Bytes) → resolve es (position es k) ≡ first_entry es k
unfolding resolve entry_at
resolve-position [] k = refl
resolve-position (e ∷ es) k = elim (Bool-cases (equal (normalize_path e.path) k)) [
  | inl h ↦ rw (h)
  | inr h ↦ rw (h) (resolve-shift e es (position es k) ∙ resolve-position es k)
]

shift-zero : (o : Option ℕ) → shift 0 o ≡ o
shift-zero none = refl
shift-zero (some i) = ap some (omega arith)

-- The lookup by name finds the first entry of the table whose normalised path is the normalised
-- name, and finds nothing exactly where there is none.
pub find_entry_by_name_lem :
    (es : List EntryInfo) (name : Bytes)
    → find_entry_by_name es name ≡ first_entry es (normalize_path name)
unfolding find_entry_by_name build_entry_index lookup
find_entry_by_name_lem es name =
    let key = normalize_path name in
    ap (resolve es) (lookup-index_from 0 [] es key ∙ shift-zero (position es key))
    ∙ resolve-position es key
