-- ===== src/Editor/Disk/Kept.antt =====
-- The file operations of editor.go: the files that each leaves alone, also where it fails.
use pbo.Common.{
  ℕ, ◌≡◌, refl, ◌∙◌, subst, Bool, true, false, Option, none, some, if◌then◌else◌, leb, lt_i64,
  Bytes, Bool-cases, inl, inr, zero, suc, ◌-◌,
}
use pbo.Model.{Error, Result, ok, err}
use pbo.Editor.Disk.{
  FileName, main, backup, generation, same_name, Disk, Done, called, and_then, on_remove, on_rename,
  on_stat, remove_if_exists, os_rename, rename_if_exists, rotate_from, rotate_backups,
  prepare_backup_slot,
}

-- A file keeps its content, whether the operation succeeds or not.
unfoldable pub Keeps {ℓ} : {A : Type ℓ} → FileName → Disk → Disk × A → Type 0
Keeps n d m = m.0.files n ≡ d.files n

pub and_then-Keeps {ℓ} :
    {A : Type ℓ} (n : FileName) (d : Disk) (m : Done) (rest : Disk → Disk × Result A)
    → Keeps n d m
    → ((mid : Disk) → Keeps n mid (rest mid))
    → Keeps n d (and_then m rest)
unfolding Keeps
and_then-Keeps n d (mid, ok _) rest h later = later mid ∙ h
and_then-Keeps n d (mid, err e) rest h later = h

on_remove-Keeps :
    (n m : FileName) (d : Disk) (faulty : Bool) (content : Option Bytes)
    → same_name m n ≡ false
    → Keeps n d (on_remove d m faulty content)
unfolding Keeps
on_remove-Keeps n m d true content apart = refl
on_remove-Keeps n m d false none apart = refl
on_remove-Keeps n m d false (some c) apart = rw (apart) refl

on_rename-Keeps :
    (n from to : FileName) (d : Disk) (faulty : Bool) (content : Option Bytes)
    → same_name from n ≡ false
    → same_name to n ≡ false
    → Keeps n d (on_rename d from to faulty content)
unfolding Keeps
on_rename-Keeps n from to d true content apart apart' = refl
on_rename-Keeps n from to d false none apart apart' = refl
on_rename-Keeps n from to d false (some c) apart apart' = rw (apart', apart) refl

module _ (faults : ℕ → Bool) where
  pub remove-Keeps :
      (n m : FileName) (d : Disk) → same_name m n ≡ false → Keeps n d (remove_if_exists faults d m)
  unfolding remove_if_exists
  remove-Keeps n m d apart = on_remove-Keeps n m d (faults d.calls) (d.files m) apart

  pub rename-Keeps :
      (n from to : FileName) (d : Disk)
      → same_name from n ≡ false
      → same_name to n ≡ false
      → Keeps n d (os_rename faults d from to)
  unfolding os_rename
  rename-Keeps n from to d apart apart' =
      on_rename-Keeps n from to d (faults d.calls) (d.files from) apart apart'

  on_stat-Keeps :
      (n from to : FileName) (d : Disk) (faulty : Bool) (content : Option Bytes)
      → same_name from n ≡ false
      → same_name to n ≡ false
      → Keeps n d (on_stat faults d from to faulty content)
  unfolding Keeps
  on_stat-Keeps n from to d true content apart apart' = refl
  on_stat-Keeps n from to d false none apart apart' = refl
  on_stat-Keeps n from to d false (some c) apart apart' =
      and_then-Keeps n (called d) (remove_if_exists faults (called d) to)
        (λ d'. os_rename faults d' from to) (remove-Keeps n to (called d) apart')
        (λ mid. rename-Keeps n from to mid apart apart')

  rename_if_exists-Keeps :
      (n from to : FileName) (d : Disk)
      → same_name from n ≡ false
      → same_name to n ≡ false
      → Keeps n d (rename_if_exists faults d from to)
  unfolding rename_if_exists
  rename_if_exists-Keeps n from to d apart apart' =
      on_stat-Keeps n from to d (faults d.calls) (d.files from) apart apart'

  rotate_from-Keeps : (top : ℕ) (d : Disk) → Keeps main d (rotate_from faults top d)
  unfolding rotate_from Keeps same_name
  rotate_from-Keeps zero d = refl
  rotate_from-Keeps (suc top) d =
      and_then-Keeps main d
        (rename_if_exists faults d (generation (suc top)) (generation (suc (suc top))))
        (rotate_from faults top)
        (rename_if_exists-Keeps main (generation (suc top)) (generation (suc (suc top))) d refl
          refl)
        (rotate_from-Keeps top)

  rotate_backups-Keeps : (keep : ℕ) (d : Disk) → Keeps main d (rotate_backups faults keep d)
  unfolding rotate_backups same_name
  rotate_backups-Keeps keep d =
      and_then-Keeps main d (remove_if_exists faults d (generation (keep - 1)))
        (λ d₁.
          and_then (rotate_from faults (keep - 2) d₁)
            (λ d₂. rename_if_exists faults d₂ backup (generation 1)))
        (remove-Keeps main (generation (keep - 1)) d refl)
        (λ d₁.
          and_then-Keeps main d₁ (rotate_from faults (keep - 2) d₁)
            (λ d₂. rename_if_exists faults d₂ backup (generation 1))
            (rotate_from-Keeps (keep - 2) d₁)
            (λ d₂. rename_if_exists-Keeps main backup (generation 1) d₂ refl refl))

  pub prepare_backup_slot-Keeps :
      (keep : ℕ) (d : Disk) → Keeps main d (prepare_backup_slot faults keep d)
  unfolding prepare_backup_slot same_name
  prepare_backup_slot-Keeps keep d =
      let generations = if lt_i64 keep 0 then 0 else keep in
      elim (Bool-cases (leb generations 1)) [
        | inl few ↦ rw (few) (remove-Keeps main backup d refl)
        | inr many ↦ rw (many) (rotate_backups-Keeps generations d)
      ]

-- The content is under the new name after a rename that succeeds, and under the old after one that
-- fails.
unfoldable pub Moved : FileName → FileName → Bytes → Done → Type 0
Moved from to content (d, ok _) = d.files to ≡ some content
Moved from to content (d, err e) = d.files from ≡ some content

on_rename-Moved :
    (from to : FileName) (d : Disk) (faulty : Bool) (content : Bytes) (here : Option Bytes)
    → same_name to to ≡ true
    → d.files from ≡ here
    → here ≡ some content
    → Moved from to content (on_rename d from to faulty here)
unfolding Moved
on_rename-Moved from to d true content here same e h = e ∙ h
on_rename-Moved from to d false content none same e h = e ∙ h
on_rename-Moved from to d false content (some c) same e h = rw (same) h

pub os_rename-Moved :
    (faults : ℕ → Bool) (from to : FileName) (d : Disk) (content : Bytes)
    → same_name to to ≡ true
    → d.files from ≡ some content
    → Moved from to content (os_rename faults d from to)
unfolding os_rename
os_rename-Moved faults from to d content same h =
    on_rename-Moved from to d (faults d.calls) content (d.files from) same refl h

-- A removal that fails changes nothing.
Refused : Disk → Done → Type 0
Refused d (d', ok _) = Unit {0}
Refused d (d', err e) = (n : FileName) → d'.files n ≡ d.files n

on_remove-Refused :
    (n : FileName) (d : Disk) (faulty : Bool) (content : Option Bytes)
    → Refused d (on_remove d n faulty content)
unfolding Refused
on_remove-Refused n d true content = λ m. refl
on_remove-Refused n d false none = tt
on_remove-Refused n d false (some c) = tt

pub remove_if_exists-refused :
    (faults : ℕ → Bool) (n m : FileName) (d : Disk) {d' : Disk} {e : Error}
    → remove_if_exists faults d n ≡ (d', err e)
    → d'.files m ≡ d.files m
unfolding remove_if_exists Refused
remove_if_exists-refused faults n m d h =
    subst (Refused d) h (on_remove-Refused n d (faults d.calls) (d.files n)) m
