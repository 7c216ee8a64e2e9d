-- ===== src/Editor/Edits.antt =====
-- The operations of editor.go against their meaning.
use pbo.Common.{
  ◌≡◌, ◌≢◌, refl, sym, ap, ◌∙◌, subst, arith, Bool, true, false, not, List, [], ◌∷◌, Option, none,
  some, Bytes, All, if◌then◌else◌, Bool-cases, inl, inr,
}
use pbo.Model.{
  ok, guard, bind-eq-ok, ok-injective, guard-eq-ok, duplicate_entry_path, entry_not_found,
}
use pbo.Text.{equal}
use pbo.Text.Equal.{equal_sound, equal_of, equal_comm}
use pbo.Payload.{Input, RewriteEntry}
use pbo.Maps.{find, put, delete, delete_where}
use pbo.Maps.Laws.{
  IsMap, find-put, find-delete_where, left_of, put-IsMap, delete_where-IsMap, delete_where-All,
}
use pbo.Editor.{
  EditOperation, add, replace, delete_paths, delete_dirs, from_input, is_some,
  has_editor_dir_prefix, apply_edit_add, apply_edit_replace, apply_edit_delete,
  apply_edit_delete_dir, apply_edit, apply_edits,
}
use pbo.Editor.Spec.{or_else, last_input, names, outside, Means, MeansAll, stop, next}

or_else_if {ℓ} :
    {A : Type ℓ} (a : Option A) (b : Bool) (x : A) (o : Option A)
    → or_else a (if b then some x else o) ≡ or_else (or_else a (if b then some x else none)) o
or_else_if none true x o = refl
or_else_if none false x o = refl
or_else_if (some a) b x o = refl

module _ (lower : Bytes → Bytes) where
  -- Each entry of the state stands under the key of its path.
  abbrev pub IsKeyed : List (Bytes × RewriteEntry) → Type 0
  IsKeyed = All (λ (e : Bytes × RewriteEntry). e.0 ≡ lower e.1.path)

  pub record IsState (s : List (Bytes × RewriteEntry)) : Type 0 where
    pub distinct : IsMap s
    pub keyed : IsKeyed s

  put-IsKeyed :
      (s : List (Bytes × RewriteEntry)) (item : RewriteEntry)
      → IsKeyed s
      → IsKeyed (put s (lower item.path) item)
  unfolding put
  put-IsKeyed [] item h = (refl, tt)
  put-IsKeyed ((k, v) ∷ s) item (hk, h) = elim (Bool-cases (equal k (lower item.path))) [
    | inl e ↦ rw (e) (equal_sound k (lower item.path) e, h)
    | inr e ↦ rw (e) (hk, put-IsKeyed s item h)
  ]

  pub put-IsState :
      (s : List (Bytes × RewriteEntry)) (item : RewriteEntry)
      → IsState s
      → IsState (put s (lower item.path) item)
  put-IsState s item h = record {
    distinct = put-IsMap s (lower item.path) item h.distinct;
    keyed = put-IsKeyed s item h.keyed;
  }

  delete_where-IsState :
      (picks : Bytes → RewriteEntry → Bool) (s : List (Bytes × RewriteEntry))
      → IsState s
      → IsState (delete_where picks s)
  delete_where-IsState picks s h = record {
    distinct = delete_where-IsMap picks s h.distinct;
    keyed = delete_where-All (λ (e : Bytes × RewriteEntry). e.0 ≡ lower e.1.path) picks s h.keyed;
  }

  -- What the rest of a list of inputs does not collide with.
  free_before :
      (s : List (Bytes × RewriteEntry)) (i : Input) (is : List Input)
      → All (λ (j : Input). find (put s (lower i.path) (from_input i)) (lower j.path) ≡ none) is
      → All (λ (j : Input). lower j.path ≢ lower i.path) is
        × All (λ (j : Input). find s (lower j.path) ≡ none) is
  free_before s i [] h = (tt, tt)
  free_before s i (j ∷ js) (hj, h) =
      let law = find-put s (lower i.path) (lower j.path) (from_input i) in
      let (apart, free) = free_before s i js h in
      let differ : lower j.path ≢ lower i.path =
        λ same. let e = equal_of (lower i.path) (lower j.path) (sym same) in ground arith in
      let unused : find s (lower j.path) ≡ none = ground arith in ((differ, apart), (unused, free))

  apply_edit_add_lem :
      (s : List (Bytes × RewriteEntry)) (is : List Input) {s' : List (Bytes × RewriteEntry)}
      → IsState s
      → apply_edit_add lower s is ≡ ok s'
      → IsState s' × Means lower (find s) (add is) (find s')
  unfolding apply_edit_add
  apply_edit_add_lem s [] h e =
      let same = ok-injective e in
      (subst IsState same h, (tt, tt, λ k. ap (λ m. find m k) (sym same)))
  apply_edit_add_lem s (i ∷ is) {s' = s'} h e =
      let key = lower i.path in
      let s₁ = put s key (from_input i) in
      let (_, g, e') = bind-eq-ok (guard (not (is_some (find s key))) duplicate_entry_path) _ e in
      let fresh = guard-eq-ok (not (is_some (find s key))) duplicate_entry_path g in
      let unused : find s key ≡ none = ground arith in
      let (state, (distinct, free, last)) =
        apply_edit_add_lem s₁ is (put-IsState s (from_input i) h) e' in
      let (apart, free_s) = free_before s i is free in
      (
        state,
        (
          (apart, distinct),
          (unused, free_s),
          λ k.
              last k
              ∙ (ap (or_else (last_input lower is k)) (find-put s key k (from_input i))
                  ∙ or_else_if (last_input lower is k) (equal key k) (from_input i) (find s k)),
        ),
      )

  -- A key that a replaced input leaves in the state was there before.
  taken_before :
      (s : List (Bytes × RewriteEntry)) (i : Input) (is : List Input)
      → find s (lower i.path) ≢ none
      → All (λ (j : Input). find (put s (lower i.path) (from_input i)) (lower j.path) ≢ none) is
      → All (λ (j : Input). find s (lower j.path) ≢ none) is
  taken_before s i [] hi h = tt
  taken_before s i (j ∷ js) hi (hj, h) =
      let law = find-put s (lower i.path) (lower j.path) (from_input i) in
      elim (Bool-cases (equal (lower i.path) (lower j.path))) [
        | inl e ↦
            let same = equal_sound (lower i.path) (lower j.path) e in
            (subst (λ k. find s k ≢ none) same hi, taken_before s i js hi h)
        | inr e ↦
            let there : find s (lower j.path) ≢ none = λ gone. hj (law ∙ rw (e) gone) in
            (there, taken_before s i js hi h)
      ]

  apply_edit_replace_lem :
      (s : List (Bytes × RewriteEntry)) (is : List Input) {s' : List (Bytes × RewriteEntry)}
      → IsState s
      → apply_edit_replace lower s is ≡ ok s'
      → IsState s' × Means lower (find s) (replace is) (find s')
  unfolding apply_edit_replace
  apply_edit_replace_lem s [] h e =
      let same = ok-injective e in (subst IsState same h, (tt, λ k. ap (λ m. find m k) (sym same)))
  apply_edit_replace_lem s (i ∷ is) {s' = s'} h e =
      let key = lower i.path in
      let s₁ = put s key (from_input i) in
      let (_, g, e') = bind-eq-ok (guard (is_some (find s key)) entry_not_found) _ e in
      let there = guard-eq-ok (is_some (find s key)) entry_not_found g in
      let used : find s key ≢ none =
        λ gone. let no_key : is_some (find s key) ≡ false = ap is_some gone in cc in
      let (state, (taken, last)) =
        apply_edit_replace_lem s₁ is (put-IsState s (from_input i) h) e' in
      (
        state,
        (
          (used, taken_before s i is used taken),
          λ k.
              last k
              ∙ (ap (or_else (last_input lower is k)) (find-put s key k (from_input i))
                  ∙ or_else_if (last_input lower is k) (equal key k) (from_input i) (find s k)),
        ),
      )

  names_left :
      (p : Bytes) (ps : List Bytes) (k : Bytes) (o : Option RewriteEntry)
      → (if names lower ps k then none else left_of (λ j v. equal j (lower p)) k o)
        ≡ (if names lower (p ∷ ps) k then none else o)
  names_left p ps k none = ground arith
  names_left p ps k (some item) = ground (arith, equal_comm k (lower p))

  outside_nil : (o : Option RewriteEntry) → o ≡ outside lower [] o
  outside_nil none = refl
  outside_nil (some item) = refl

  outside_left :
      (p : Bytes) (ps : List Bytes) (k : Bytes) (o : Option RewriteEntry)
      → outside lower ps (left_of (λ j v. has_editor_dir_prefix lower v.path p) k o)
        ≡ outside lower (p ∷ ps) o
  outside_left p ps k none = refl
  outside_left p ps k (some item) = elim (Bool-cases (has_editor_dir_prefix lower item.path p)) [
    | inl e ↦ rw (e)
    | inr e ↦ rw (e)
  ]

  apply_edit_delete_lem :
      (s : List (Bytes × RewriteEntry)) (ps : List Bytes)
      → IsState s
      → IsState (apply_edit_delete lower s ps)
        × Means lower (find s) (delete_paths ps) (find (apply_edit_delete lower s ps))
  unfolding apply_edit_delete delete
  apply_edit_delete_lem s [] h = (h, λ k. refl)
  apply_edit_delete_lem s (p ∷ ps) h =
      let picks = λ (k : Bytes) (v : RewriteEntry). equal k (lower p) in
      let (state, rest) =
        apply_edit_delete_lem (delete_where picks s) ps (delete_where-IsState picks s h) in
      (
        state,
        λ k.
            rest k
            ∙ (ap (λ o. if names lower ps k then none else o)
                  (find-delete_where picks s k h.distinct)
                ∙ names_left p ps k (find s k)),
      )

  apply_edit_delete_dir_lem :
      (s : List (Bytes × RewriteEntry)) (ps : List Bytes)
      → IsState s
      → IsState (apply_edit_delete_dir lower s ps)
        × Means lower (find s) (delete_dirs ps) (find (apply_edit_delete_dir lower s ps))
  unfolding apply_edit_delete_dir
  apply_edit_delete_dir_lem s [] h = (h, λ k. outside_nil (find s k))
  apply_edit_delete_dir_lem s (p ∷ ps) h =
      let picks = λ (k : Bytes) (v : RewriteEntry). has_editor_dir_prefix lower v.path p in
      let (state, rest) =
        apply_edit_delete_dir_lem (delete_where picks s) ps (delete_where-IsState picks s h) in
      (
        state,
        λ k.
            rest k
            ∙ (ap (outside lower ps) (find-delete_where picks s k h.distinct)
                ∙ outside_left p ps k (find s k)),
      )

  apply_edit_lem :
      (s : List (Bytes × RewriteEntry)) (op : EditOperation) {s' : List (Bytes × RewriteEntry)}
      → IsState s
      → apply_edit lower s op ≡ ok s'
      → IsState s' × Means lower (find s) op (find s')
  unfolding apply_edit
  apply_edit_lem s (add is) h e = apply_edit_add_lem s is h e
  apply_edit_lem s (replace is) h e = apply_edit_replace_lem s is h e
  apply_edit_lem s (delete_paths ps) {s' = s'} h e =
      subst (λ t. IsState t × Means lower (find s) (delete_paths ps) (find t)) (ok-injective e)
        (apply_edit_delete_lem s ps h)
  apply_edit_lem s (delete_dirs ps) {s' = s'} h e =
      subst (λ t. IsState t × Means lower (find s) (delete_dirs ps) (find t)) (ok-injective e)
        (apply_edit_delete_dir_lem s ps h)

  pub apply_edits_lem :
      (s : List (Bytes × RewriteEntry)) (ops : List EditOperation)
      {s' : List (Bytes × RewriteEntry)}
      → IsState s
      → apply_edits lower s ops ≡ ok s'
      → IsState s' × MeansAll lower (find s) ops (find s')
  unfolding apply_edits
  apply_edits_lem s [] h e =
      subst (λ t. IsState t × MeansAll lower (find s) [] (find t)) (ok-injective e) (h, stop)
  apply_edits_lem s (op ∷ ops) h e =
      let (mid, e₁, e₂) = bind-eq-ok (apply_edit lower s op) _ e in
      let (h₁, m₁) = apply_edit_lem s op h e₁ in
      let (h₂, m₂) = apply_edits_lem mid ops h₁ e₂ in (h₂, next m₁ m₂)
