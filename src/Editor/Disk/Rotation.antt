-- ===== src/Editor/Disk/Rotation.antt =====
-- prepareBackupSlot of editor.go: what a rotation that succeeds leaves.
use pbo.Common.{
  ℕ, zero, suc, ◌-◌, ◌≤◌, ◌<◌, ◌^◌, ◌≡◌, refl, sym, ◌∙◌, ap, subst, arith, Bool, true, false,
  Option, none, some, if◌then◌else◌, ◌==◌, leb, lt_i64, Bytes, Bool-cases, inl, inr,
}
use pbo.Model.{Error, ok, err, io_failure}
use pbo.Editor.Disk.{
  FileName, main, backup, generation, same_name, Disk, Done, called, and_then, on_remove, on_rename,
  on_stat, remove_if_exists, os_rename, rename_if_exists, rotate_from, rotate_backups,
  prepare_backup_slot,
}

pub and_then-ok :
    (m : Done) (rest : Disk → Done) {d' : Disk}
    → and_then m rest ≡ (d', ok tt)
    → (mid : Disk) × (m ≡ (mid, ok tt)) × (rest mid ≡ (d', ok tt))
and_then-ok (d, ok tt) rest h = (d, refl, h)
and_then-ok (d, err e) rest h = let clash = ap (λ (p : Done). p.1) h in cc

pub same_name_sound : (n m : FileName) → same_name n m ≡ true → n ≡ m
unfolding same_name
same_name_sound main main h = refl
same_name_sound main backup h = cc
same_name_sound main (generation j) h = cc
same_name_sound backup main h = cc
same_name_sound backup backup h = refl
same_name_sound backup (generation j) h = cc
same_name_sound (generation i) main h = cc
same_name_sound (generation i) backup h = cc
same_name_sound (generation i) (generation j) h = let e : i ≡ j = ground arith in ap generation e

no_success {ℓ} : {B : Type ℓ} (d d' : Disk) (e : Error) → ◌≡◌ {A = Done} (d, err e) (d', ok tt) → B
no_success d d' e h = let clash = ap (λ (p : Done). p.1) h in cc

on_remove_lem :
    (d : Disk) (n m : FileName) (faulty : Bool) (content : Option Bytes) {d' : Disk}
    → d.files n ≡ content
    → on_remove d n faulty content ≡ (d', ok tt)
    → d'.files m ≡ (if same_name n m then none else d.files m)
on_remove_lem d n m true content {d' = d'} e h = no_success (called d) d' io_failure h
on_remove_lem d n m false none e h =
    let after = ap (λ (p : Done). p.0.files m) h in
    elim (Bool-cases (same_name n m)) [
      | inl same ↦
          let gone : d.files m ≡ none = ap d.files (sym (same_name_sound n m same)) ∙ e in
          rw (same) (sym after ∙ gone)
      | inr other ↦ rw (other) (sym after)
    ]
on_remove_lem d n m false (some c) e h = sym (ap (λ (p : Done). p.0.files m) h)

on_rename_lem :
    (d : Disk) (from to m : FileName) (faulty : Bool) (content : Option Bytes) {d' : Disk}
    → d.files from ≡ content
    → on_rename d from to faulty content ≡ (d', ok tt)
    → d'.files m
      ≡ (if same_name to m then d.files from else if same_name from m then none else d.files m)
on_rename_lem d from to m true content {d' = d'} e h = no_success (called d) d' io_failure h
on_rename_lem d from to m false none {d' = d'} e h = no_success (called d) d' io_failure h
on_rename_lem d from to m false (some c) e h = sym (ap (λ (p : Done). p.0.files m) h) ∙ rw (e) refl

module _ (faults : ℕ → Bool) where
  pub remove_if_exists_lem :
      (d : Disk) (n m : FileName) {d' : Disk}
      → remove_if_exists faults d n ≡ (d', ok tt)
      → d'.files m ≡ (if same_name n m then none else d.files m)
  unfolding remove_if_exists
  remove_if_exists_lem d n m h = on_remove_lem d n m (faults d.calls) (d.files n) refl h

  pub os_rename_lem :
      (d : Disk) (from to m : FileName) {d' : Disk}
      → os_rename faults d from to ≡ (d', ok tt)
      → d'.files m
        ≡ (if same_name to m then d.files from else if same_name from m then none else d.files m)
  unfolding os_rename
  os_rename_lem d from to m h = on_rename_lem d from to m (faults d.calls) (d.files from) refl h

  -- A rename to a free name moves the file, if there is one.
  on_stat_lem :
      (d : Disk) (from to m : FileName) (faulty : Bool) (content : Option Bytes) {d' : Disk}
      → d.files from ≡ content
      → d.files to ≡ none
      → same_name to from ≡ false
      → on_stat faults d from to faulty content ≡ (d', ok tt)
      → d'.files m
        ≡ (if same_name to m then d.files from else if same_name from m then none else d.files m)
  on_stat_lem d from to m true content {d' = d'} e free apart h =
      no_success (called d) d' io_failure h
  on_stat_lem d from to m false none {d' = d'} e free apart h =
      let after : d.files m ≡ d'.files m = ap (λ (p : Done). p.0.files m) h in
      sym after ∙ elim (Bool-cases (same_name to m)) [
        | inl at_to ↦
            let gone : d.files m ≡ none = ap d.files (sym (same_name_sound to m at_to)) ∙ free in
            rw (at_to) (gone ∙ sym e)
        | inr not_to ↦ elim (Bool-cases (same_name from m)) [
          | inl at_from ↦
              let gone : d.files m ≡ none = ap d.files (sym (same_name_sound from m at_from)) ∙ e in
              rw (not_to, at_from) gone
          | inr not_from ↦ rw (not_to, not_from)
        ]
      ]
  on_stat_lem d from to m false (some c) {d' = d'} e free apart h =
      let (mid, e₁, e₂) =
        and_then-ok (remove_if_exists faults (called d) to) (λ d₁. os_rename faults d₁ from to) h in
      let source : mid.files from ≡ d.files from =
        remove_if_exists_lem (called d) to from e₁ ∙ rw (apart) refl in
      let here = remove_if_exists_lem (called d) to m e₁ in
      let moved = os_rename_lem mid from to m e₂ in
      moved ∙ elim (Bool-cases (same_name to m)) [
        | inl at_to ↦ rw (at_to) source
        | inr not_to ↦
            let kept : mid.files m ≡ d.files m = here ∙ rw (not_to) refl in
            rw (not_to) (ap (λ o. if same_name from m then none else o) kept)
      ]

  pub rename_if_exists_lem :
      (d : Disk) (from to m : FileName) {d' : Disk}
      → d.files to ≡ none
      → same_name to from ≡ false
      → rename_if_exists faults d from to ≡ (d', ok tt)
      → d'.files m
        ≡ (if same_name to m then d.files from else if same_name from m then none else d.files m)
  unfolding rename_if_exists
  rename_if_exists_lem d from to m free apart h =
      on_stat_lem d from to m (faults d.calls) (d.files from) refl free apart h

  -- What the loop leaves: backups up to the number `top` are one number higher.
  record Rotated (top : ℕ) (d d' : Disk) : Type 0 where
    moved : (i : ℕ) → 0 < i → i ≤ top → d'.files (generation (suc i)) ≡ d.files (generation i)
    low : d'.files (generation 1) ≡ (if top == 0 then d.files (generation 1) else none)
    rest : (i : ℕ) → suc top < i → d'.files (generation i) ≡ d.files (generation i)
    main_same : d'.files main ≡ d.files main
    backup_same : d'.files backup ≡ d.files backup

  rotate_from_lem :
      (top : ℕ) (d : Disk) {d' : Disk}
      → d.files (generation (suc top)) ≡ none
      → rotate_from faults top d ≡ (d', ok tt)
      → Rotated top d d'
  unfolding rotate_from same_name
  rotate_from_lem zero d {d' = d'} free h =
      let same : (m : FileName) → d'.files m ≡ d.files m =
        λ m. sym (ap (λ (p : Done). p.0.files m) h) in
      record {
        moved = λ i pos le. absurd (omega arith);
        low = same (generation 1);
        rest = λ i lt. same (generation i);
        main_same = same main;
        backup_same = same backup;
      }
  rotate_from_lem (suc top) d {d' = d'} free h =
      let (mid, e₁, e₂) =
        and_then-ok (rename_if_exists faults d (generation (suc top)) (generation (suc (suc top))))
          (rotate_from faults top) h in
      let apart : same_name (generation (suc (suc top))) (generation (suc top)) ≡ false =
        ground arith in
      let step = λ (m : FileName).
        rename_if_exists_lem d (generation (suc top)) (generation (suc (suc top))) m free apart
          e₁ in
      let slot : (k : ℕ)
          → mid.files (generation k) ≡ (
              if suc (suc top) == k
              then d.files (generation (suc top))
              else if suc top == k
              then none
              else d.files (generation k)) =
        λ k. step (generation k) in
      let freed : mid.files (generation (suc top)) ≡ none =
        let at = slot (suc top) in ground arith in
      let later = rotate_from_lem top mid freed e₂ in
      let not_zero : (suc top == 0) ≡ false = ground arith in
      record {
        moved = λ i pos le. elim (Bool-cases (i == suc top)) [
          | inl last ↦
              let same : i ≡ suc top = ground arith in
              let at = slot (suc (suc top)) in
              let taken : mid.files (generation (suc (suc top))) ≡ d.files (generation (suc top)) =
                ground arith in
              subst (λ k. d'.files (generation (suc k)) ≡ d.files (generation k)) (sym same)
                (later.rest (suc (suc top)) (omega arith) ∙ taken)
          | inr before ↦
              let at = slot i in
              let below : i ≤ top = ground arith in
              let kept : mid.files (generation i) ≡ d.files (generation i) = ground arith in
              later.moved i pos below ∙ kept
        ];
        low = elim (Bool-cases (top == 0)) [
          | inl none_left ↦
              let zero_top : top ≡ 0 = ground arith in
              let freed_low : mid.files (generation 1) ≡ none =
                subst (λ k. mid.files (generation (suc k)) ≡ none) zero_top freed in
              later.low ∙ rw (none_left, not_zero) freed_low
          | inr more ↦ later.low ∙ rw (more, not_zero) refl
        ];
        rest = λ i lt.
            let at = slot i in
            let kept : mid.files (generation i) ≡ d.files (generation i) = ground arith in
            later.rest i (omega arith) ∙ kept;
        main_same = later.main_same ∙ step main;
        backup_same = later.backup_same ∙ step backup;
      }

  -- If the backups are rotated without an error for a number to keep of two or more, the backup is
  -- the first older one and its name is free, each older backup has the next number, what was the
  -- last is gone, and the archive and backups of higher numbers are as they were.
  pub prepare_backup_slot_lem :
      (keep : ℕ) (d : Disk) {d' : Disk}
      → 2 ≤ keep
      → keep < 2 ^ 63
      → prepare_backup_slot faults keep d ≡ (d', ok tt)
      → (d'.files main ≡ d.files main)
        × (d'.files backup ≡ none)
        × (d'.files (generation 1) ≡ d.files backup)
        × ((i : ℕ) → 0 < i → suc i < keep → d'.files (generation (suc i)) ≡ d.files (generation i))
        × ((i : ℕ) → keep ≤ i → d'.files (generation i) ≡ d.files (generation i))
  unfolding prepare_backup_slot rotate_backups same_name
  prepare_backup_slot_lem keep d {d' = d'} h hu e =
      let not_negative : lt_i64 keep 0 ≡ false = ground arith in
      let many : leb keep 1 ≡ false = ground arith in
      let e₀ : rotate_backups faults keep d ≡ (d', ok tt) = rw (not_negative, many) at e in
      let (d₁, e₁, rest₁) =
        and_then-ok (remove_if_exists faults d (generation (keep - 1)))
          (λ d₁.
            and_then (rotate_from faults (keep - 2) d₁)
              (λ d₂. rename_if_exists faults d₂ backup (generation 1)))
          e₀ in
      let (d₂, e₂, e₃) =
        and_then-ok (rotate_from faults (keep - 2) d₁)
          (λ d₂. rename_if_exists faults d₂ backup (generation 1)) rest₁ in
      let removed = λ (m : FileName). remove_if_exists_lem d (generation (keep - 1)) m e₁ in
      let top : suc (keep - 2) ≡ keep - 1 = omega arith in
      let oldest_gone : d₁.files (generation (keep - 1)) ≡ none =
        let at = removed (generation (keep - 1)) in ground arith in
      let rotated =
        rotate_from_lem (keep - 2) d₁ (ap (λ k. d₁.files (generation k)) top ∙ oldest_gone) e₂ in
      let free : d₂.files (generation 1) ≡ none = rotated.low ∙ elim (Bool-cases (keep - 2 == 0)) [
        | inl two ↦
            let one : keep - 1 ≡ 1 = ground arith in
            rw (two) (subst (λ k. d₁.files (generation k) ≡ none) one oldest_gone)
        | inr more ↦ rw (more) refl
      ] in
      let last = λ (m : FileName). rename_if_exists_lem d₂ backup (generation 1) m free refl e₃ in
      (
        last main ∙ (rotated.main_same ∙ removed main),
        last backup,
        last (generation 1) ∙ (rotated.backup_same ∙ removed backup),
        (λ i pos lt.
            let at = last (generation (suc i)) in
            let before = removed (generation i) in
            let shifted = rotated.moved i pos (omega arith) in
            let now : d'.files (generation (suc i)) ≡ d₂.files (generation (suc i)) =
              ground arith in
            let was : d₁.files (generation i) ≡ d.files (generation i) = ground arith in
            now ∙ (shifted ∙ was)),
        (λ i le.
            let at = last (generation i) in
            let before = removed (generation i) in
            let kept = rotated.rest i (omega arith) in
            let now : d'.files (generation i) ≡ d₂.files (generation i) = ground arith in
            let was : d₁.files (generation i) ≡ d.files (generation i) = ground arith in
            now ∙ (kept ∙ was)),
      )
