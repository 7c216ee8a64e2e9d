-- ===== src/Editor/Plans.antt =====
-- buildEditPlan of editor.go against the meaning of the operations.
use pbo.Common.{
  fun_ext, ◌≡◌, ◌≢◌, refl, sym, ap, ◌∙◌, subst, Bool, true, false, is_some, not, List, [], ◌∷◌,
  Option, none, some, Bytes, All, if◌then◌else◌, Bool-cases, Option-cases, inl, inr,
}
use pbo.Model.{ok, guard, bind-eq-ok, ok-injective, guard-eq-ok, EntryInfo, duplicate_entry_path}
use pbo.Text.{equal}
use pbo.Text.Equal.{equal_sound, equal_same}
use pbo.Payload.{RewriteEntry}
use pbo.Maps.{find, put, values}
use pbo.Maps.Laws.{Distinct, IsMap, find-put}
use pbo.Sorting.{sort_by}
use pbo.Sorting.Laws.{sort_by-Sorted}
use pbo.Sorting.Keys.{first_with, sort_by-Distinct, first_with-sort_by}
use pbo.Editor.{
  EditOperation, from_source, normalize_editor_archive_path, apply_edits, source_state,
  build_edit_plan,
}
use pbo.Editor.Spec.{Contents, or_else, MeansAll, IsSource, empty, entry, IsPlan}
use pbo.Editor.Edits.{IsState, IsKeyed, put-IsState, apply_edits_lem}

unused_of : (o : Option RewriteEntry) → not (is_some o) ≡ true → o ≡ none
unused_of none h = refl
unused_of (some x) h = cc

module _ (lower : Bytes → Bytes) where
  -- What the loop over the source entries adds to a state.
  record Adds (es : List EntryInfo) (s s' : List (Bytes × RewriteEntry)) : Type 0 where
    state : IsState lower s'
    contents : Contents
    source : IsSource lower es contents
    finds : (k : Bytes) → find s' k ≡ or_else (contents k) (find s k)
    fresh : (k : Bytes) → contents k ≢ none → find s k ≡ none

  -- A contents that has an entry under a key, in front of a rest.
  or_else_front :
      (b : Bool) (item : RewriteEntry) (rest old : Option RewriteEntry)
      → (b ≡ true → rest ≡ none)
      → or_else rest (if b then some item else old) ≡ or_else (if b then some item else rest) old
  or_else_front true item rest old h = rw (h refl)
  or_else_front false item rest old h = refl

  Adds-cons :
      (e : EntryInfo) (es : List EntryInfo) (s s' : List (Bytes × RewriteEntry)) (path : Bytes)
      → normalize_editor_archive_path e.path ≡ ok path
      → find s (lower path) ≡ none
      → Adds es (put s (lower path) (from_source e path)) s'
      → Adds (e ∷ es) s s'
  Adds-cons e es s s' path e₁ unused more =
      let key = lower path in
      let item = from_source e path in
      let taken : find (put s key item) key ≡ some item =
        find-put s key key item ∙ rw (equal_same key) refl in
      let rest_free : more.contents key ≡ none = elim (Option-cases (more.contents key)) [
        | inl gone ↦ gone
        | inr (x, there) ↦
            let clash =
              more.fresh key (λ gone. let no_item : some x ≡ none = sym there ∙ gone in cc) in
            cc
      ] in
      let free_at : (k : Bytes) → equal key k ≡ true → more.contents k ≡ none =
        λ k same. subst (λ j. more.contents j ≡ none) (equal_sound key k same) rest_free in
      record {
        state = more.state;
        contents = λ k. if equal key k then some item else more.contents k;
        source = entry e₁ rest_free (λ k. refl) more.source;
        finds = λ k.
            more.finds k
            ∙ (ap (or_else (more.contents k)) (find-put s key k item)
                ∙ or_else_front (equal key k) item (more.contents k) (find s k) (free_at k));
        fresh = λ k. elim (Bool-cases (equal key k)) [
          | inl same ↦ λ _. subst (λ j. find s j ≡ none) (equal_sound key k same) unused
          | inr other ↦ λ new.
              let law : find (put s key item) k ≡ find s k =
                find-put s key k item ∙ rw (other) refl in
              sym law ∙ more.fresh k (λ gone. new (rw (other) gone))
        ];
      }

  source_state_lem :
      (s : List (Bytes × RewriteEntry)) (es : List EntryInfo) {s' : List (Bytes × RewriteEntry)}
      → IsState lower s
      → source_state lower s es ≡ ok s'
      → Adds es s s'
  unfolding source_state
  source_state_lem s [] h e =
      let same = ok-injective e in
      record {
        state = subst (IsState lower) same h;
        contents = λ k. none;
        source = empty;
        finds = λ k. ap (λ m. find m k) (sym same);
        fresh = λ k h. absurd (h refl);
      }
  source_state_lem s (e ∷ es) {s' = s'} h eq =
      let (path, e₁, eq₁) = bind-eq-ok (normalize_editor_archive_path e.path) _ eq in
      let unused_test = not (is_some (find s (lower path))) in
      let (_, g, eq₂) = bind-eq-ok (guard unused_test duplicate_entry_path) _ eq₁ in
      let unused =
        unused_of (find s (lower path)) (guard-eq-ok unused_test duplicate_entry_path g) in
      Adds-cons e es s s' path e₁ unused (
        source_state_lem (put s (lower path) (from_source e path)) es
          (put-IsState lower s (from_source e path) h) eq₂)

  or_else-none : (o : Option RewriteEntry) → or_else o none ≡ o
  or_else-none none = refl
  or_else-none (some x) = refl

  first_with-values :
      (s : List (Bytes × RewriteEntry)) (k : Bytes)
      → IsKeyed lower s
      → first_with (λ (item : RewriteEntry). lower item.path) (values s) k ≡ find s k
  unfolding find
  first_with-values [] k h = refl
  first_with-values ((j, v) ∷ s) k (hj, h) =
      rw (← hj) (ap (λ o. if equal j k then some v else o) (first_with-values s k h))

  All-values :
      (k : Bytes) (s : List (Bytes × RewriteEntry))
      → IsKeyed lower s
      → All (λ (e : Bytes × RewriteEntry). e.0 ≢ k) s
      → All (λ (item : RewriteEntry). lower item.path ≢ k) (values s)
  All-values k [] h d = tt
  All-values k ((j, v) ∷ s) (hj, h) (dj, d) = ((λ same. dj (hj ∙ same)), All-values k s h d)

  values-Distinct :
      (s : List (Bytes × RewriteEntry))
      → IsKeyed lower s
      → IsMap s
      → Distinct (λ (item : RewriteEntry). lower item.path) (values s)
  values-Distinct [] h d = tt
  values-Distinct ((j, v) ∷ s) (hj, h) (dj, d) = (
    All-values (lower v.path) s h
        (subst (λ i. All (λ (e : Bytes × RewriteEntry). e.0 ≢ i) s) hj dj),
    values-Distinct s h d,
  )

  IsPlan-state :
      (s : List (Bytes × RewriteEntry))
      → IsState lower s
      → IsPlan lower (find s) (sort_by (λ (item : RewriteEntry). item.path) (values s))
  IsPlan-state s h =
      let order = λ (item : RewriteEntry). item.path in
      let key = λ (item : RewriteEntry). lower item.path in
      let distinct = values-Distinct s h.keyed h.distinct in
      record {
        sorted = sort_by-Sorted order (values s);
        distinct = sort_by-Distinct order key (values s) distinct;
        holds =
            λ k. first_with-sort_by order key (values s) k distinct ∙ first_with-values s k h.keyed;
      }

  -- If the edit plan succeeds, the source table has contents, with no two entries under one
  -- lower-case path; each operation in turn was allowed on what the one before it left, and had its
  -- meaning: an add wants new paths, a replacement wants paths that are there, a deletion takes the
  -- named paths or all under the named directories away, and nothing else changes; and the plan is
  -- the list of the last contents, in the order of the paths, each entry once.
  pub build_edit_plan_lem :
      (entries : List EntryInfo) (ops : List EditOperation) {plan : List RewriteEntry}
      → build_edit_plan lower entries ops ≡ ok plan
      → (old new : Contents) × IsSource lower entries old
        × MeansAll lower old ops new
        × IsPlan lower new plan
  unfolding build_edit_plan find
  build_edit_plan_lem entries ops e =
      let (s, e₁, e') = bind-eq-ok (source_state lower [] entries) _ e in
      let (s', e₂, e'') = bind-eq-ok (apply_edits lower s ops) _ e' in
      let start : IsState lower [] = record { distinct = tt; keyed = tt } in
      let source = source_state_lem [] entries start e₁ in
      let (h, means) = apply_edits_lem lower s ops source.state e₂ in
      let same_contents : (k : Bytes) → find s k ≡ source.contents k =
        λ k. source.finds k ∙ or_else-none (source.contents k) in
      (
        source.contents,
        find s',
        source.source,
        subst (λ (c : Contents). MeansAll lower c ops (find s')) (fun_ext same_contents) means,
        subst (IsPlan lower (find s')) (ok-injective e'') (IsPlan-state s' h),
      )
