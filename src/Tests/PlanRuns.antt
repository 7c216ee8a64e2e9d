-- ===== src/Tests/PlanRuns.antt =====
-- The plan of a pack of two inputs.
use Prim.Native.String.{String}
use pbo.Common.{◌≡◌, refl, List, [], ◌∷◌, none, map}
use pbo.Model.{ok}
use pbo.Text.{codes, ascii_lower, lower_byte, replace_byte, equal}
use pbo.Wire.{is_empty}
use pbo.Paths.{normalize_path, normalize_archive_entry_path}
use pbo.Payload.{Input, RewriteEntry}
use pbo.Plan.{
  normalize_inputs, sort_inputs, unique_from, validate_unique_entry_paths, total_hint, planned,
  prepare_pack_rewrite_plan,
}
use mathlib.Core.List.{Perm}
use pbo.Maps.{has_key}
use pbo.Sorting.{less, insert_by, sort_by}
use pbo.Sorting.Laws.{Sorted}
use pbo.Plan.Unique.{Distinct, prepare_pack_rewrite_plan_lem}

abbrev input : String → Input
input name = record {
  path = codes name;
  size_hint = 3;
  mod_time = 0;
  open_source = none;
  close_error = none;
}

abbrev inputs : List Input
inputs = input "b/c" ∷ input "./a" ∷ []

abbrev plan : List RewriteEntry
plan = planned (input "a") ∷ planned (input "b\\c") ∷ []

plans : prepare_pack_rewrite_plan ascii_lower inputs ≡ ok plan
unfolding prepare_pack_rewrite_plan normalize_inputs sort_inputs sort_by insert_by less has_key
    unique_from validate_unique_entry_paths total_hint normalize_archive_entry_path normalize_path
    ascii_lower lower_byte equal is_empty replace_byte
plans = refl

prepare_pack_rewrite_plan_lem_example :
    (normalized sorted : List Input) × (normalize_inputs inputs ≡ ok normalized)
    × (plan ≡ map planned sorted)
    × Perm sorted normalized
    × Sorted (λ (i : Input). i.path) sorted
    × Distinct ascii_lower sorted
prepare_pack_rewrite_plan_lem_example =
    prepare_pack_rewrite_plan_lem ascii_lower inputs {plan = plan} plans
