-- ===== src/Plan/Unique.antt =====
-- What the pack plan of writer.go promises the rewrite pass.
use pbo.Common.{◌≡◌, ◌≢◌, sym, ap, ◌∙◌, true, not, List, [], ◌∷◌, Bytes, All, map, arith, lt_i64}
use pbo.Model.{
  ok, guard, guard-eq-ok, bind-eq-ok, ok-injective, duplicate_entry_path, max_pbo_data,
  size_overflow,
}
use pbo.Payload.{Input, RewriteEntry}
use pbo.Text.Equal.{equal_same}
use pbo.Maps.{has_key}
use pbo.Sorting.Laws.{Sorted, sort_by-Sorted, sort_by-perm}
use mathlib.Core.List.{Perm}
use pbo.Plan.{
  normalize_inputs, sort_inputs, unique_from, validate_unique_entry_paths, total_hint, planned,
  prepare_pack_rewrite_plan,
}

-- No two entries have the same key.
abbrev pub Distinct : (Bytes → Bytes) → List Input → Type 0
Distinct lower [] = Unit
Distinct lower (i ∷ is) = All (λ (j : Input). lower j.path ≢ lower i.path) is × Distinct lower is

-- A key that the map has is not the key of a later entry.
unseen :
    (lower : Bytes → Bytes) (key : Bytes) (seen : List Bytes) (is : List Input)
    → has_key seen key ≡ true
    → unique_from lower seen is ≡ ok tt
    → All (λ (j : Input). lower j.path ≢ key) is
unfolding has_key unique_from
unseen lower key seen [] h e = tt
unseen lower key seen (i ∷ is) h e =
    let (_, g, e') =
      bind-eq-ok (guard (not (has_key seen (lower i.path))) duplicate_entry_path) _ e in
    let fresh = guard-eq-ok (not (has_key seen (lower i.path))) duplicate_entry_path g in
    let differ : lower i.path ≢ key = λ same.
      let here : has_key seen (lower i.path) ≡ true = ap (has_key seen) same ∙ h in ground arith in
    let still : has_key (lower i.path ∷ seen) key ≡ true = ground arith in
    (differ, unseen lower key (lower i.path ∷ seen) is still e')

unique_from-Distinct :
    (lower : Bytes → Bytes) (seen : List Bytes) (is : List Input)
    → unique_from lower seen is ≡ ok tt
    → Distinct lower is
unfolding has_key unique_from
unique_from-Distinct lower seen [] e = tt
unique_from-Distinct lower seen (i ∷ is) e =
    let (_, _, e') =
      bind-eq-ok (guard (not (has_key seen (lower i.path))) duplicate_entry_path) _ e in
    let same = equal_same (lower i.path) in
    let here : has_key (lower i.path ∷ seen) (lower i.path) ≡ true = ground arith in
    (
      unseen lower (lower i.path) (lower i.path ∷ seen) is here e',
      unique_from-Distinct lower (lower i.path ∷ seen) is e',
    )

-- If the plan of a pack succeeds, it is a reordering of the inputs with their normalised paths, in
-- ascending order of the paths, and no two of its entries have paths with the same lower-case form.
pub prepare_pack_rewrite_plan_lem :
    (lower : Bytes → Bytes) (inputs : List Input) {plan : List RewriteEntry}
    → prepare_pack_rewrite_plan lower inputs ≡ ok plan
    → (normalized sorted : List Input) × (normalize_inputs inputs ≡ ok normalized)
      × (plan ≡ map planned sorted)
      × Perm sorted normalized
      × Sorted (λ (i : Input). i.path) sorted
      × Distinct lower sorted
unfolding prepare_pack_rewrite_plan validate_unique_entry_paths sort_inputs
prepare_pack_rewrite_plan_lem lower inputs h =
    let (normalized, e, h₁) = bind-eq-ok (normalize_inputs inputs) _ h in
    let sorted = sort_inputs normalized in
    let (_, u, h₂) = bind-eq-ok (unique_from lower [] sorted) _ h₁ in
    let (_, _, h₃) =
      bind-eq-ok (guard (not (lt_i64 max_pbo_data (total_hint 0 sorted))) size_overflow) _ h₂ in
    (
      normalized,
      sorted,
      e,
      sym (ok-injective h₃),
      sort_by-perm (λ (i : Input). i.path) normalized,
      sort_by-Sorted (λ (i : Input). i.path) normalized,
      unique_from-Distinct lower [] sorted u,
    )
