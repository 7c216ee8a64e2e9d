-- ===== src/Editor/Spec.antt =====
-- What the staged operations of editor.go mean, on contents as a function from the lower-case path
-- to the entry.
use pbo.Common.{
  ◌≡◌, ◌≢◌, Bool, false, ◌||◌, List, [], ◌∷◌, Option, none, some, Bytes, All, if◌then◌else◌,
}
use pbo.Model.{ok, EntryInfo}
use pbo.Text.{equal}
use pbo.Payload.{Input, RewriteEntry}
use pbo.Maps.Laws.{Distinct}
use pbo.Sorting.Laws.{Sorted}
use pbo.Sorting.Keys.{first_with}
use pbo.Editor.{
  EditOperation, add, replace, delete_paths, delete_dirs, from_input, from_source,
  has_editor_dir_prefix, normalize_editor_archive_path,
}

abbrev pub Contents : Type 0
Contents = Bytes → Option RewriteEntry

abbrev pub or_else {ℓ} : {A : Type ℓ} → Option A → Option A → Option A
or_else (some a) o = some a
or_else none o = o

module _ (lower : Bytes → Bytes) where
  -- The last input with a key.
  abbrev pub last_input : List Input → Bytes → Option RewriteEntry
  last_input [] k = none
  last_input (i ∷ is) k =
      let later = last_input is k in
      or_else later (if equal (lower i.path) k then some (from_input i) else none)

  -- Whether one of the paths has a key.
  abbrev pub names : List Bytes → Bytes → Bool
  names [] k = false
  names (p ∷ ps) k = let rest = names ps k in equal (lower p) k || rest

  -- Whether a path lies under one of the directories.
  abbrev pub under : List Bytes → Bytes → Bool
  under [] path = false
  under (p ∷ ps) path = let rest = under ps path in has_editor_dir_prefix lower path p || rest

  abbrev pub outside : List Bytes → Option RewriteEntry → Option RewriteEntry
  outside ps none = none
  outside ps (some item) = if under ps item.path then none else some item

  -- What an operation makes of the contents, and when it may.
  abbrev pub Means : Contents → EditOperation → Contents → Type 0
  Means old (add is) new =
      Distinct (λ (i : Input). lower i.path) is
      × All (λ (i : Input). old (lower i.path) ≡ none) is
      × ((k : Bytes) → new k ≡ or_else (last_input is k) (old k))
  Means old (replace is) new =
      All (λ (i : Input). old (lower i.path) ≢ none) is
      × ((k : Bytes) → new k ≡ or_else (last_input is k) (old k))
  Means old (delete_paths ps) new = (k : Bytes) → new k ≡ (if names ps k then none else old k)
  Means old (delete_dirs ps) new = (k : Bytes) → new k ≡ outside ps (old k)

  -- A sequence of operations, each on what the one before it left.
  pub data MeansAll : Contents → List EditOperation → Contents → Type 0 where
    stop : {old : Contents} → MeansAll old [] old
    next :
        {old mid new : Contents} {op : EditOperation} {ops : List EditOperation}
        → Means old op mid
        → MeansAll mid ops new
        → MeansAll old (op ∷ ops) new

  -- The contents of the source archive: each path is normalised and keys are told apart.
  pub data IsSource : List EntryInfo → Contents → Type 0 where
    empty : IsSource [] (λ k. none)
    entry :
        {e : EntryInfo} {es : List EntryInfo} {path : Bytes} {rest all : Contents}
        → normalize_editor_archive_path e.path ≡ ok path
        → rest (lower path) ≡ none
        → ((k : Bytes)
            → all k ≡ (if equal (lower path) k then some (from_source e path) else rest k))
        → IsSource es rest
        → IsSource (e ∷ es) all

  -- A plan of the contents: ascending paths, no key twice, and an entry under each key of the
  -- contents and under no other.
  pub record IsPlan (contents : Contents) (plan : List RewriteEntry) : Type 0 where
    pub sorted : Sorted (λ (item : RewriteEntry). item.path) plan
    pub distinct : Distinct (λ (item : RewriteEntry). lower item.path) plan
    pub holds :
        (k : Bytes) → first_with (λ (item : RewriteEntry). lower item.path) plan k ≡ contents k
