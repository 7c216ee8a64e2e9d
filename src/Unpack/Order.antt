-- ===== src/Unpack/Order.antt =====
-- The order in which the workers of the extraction take the items.
use mathlib.Core.List.{Perm, is_set}
use mathlib.Core.List.{Permᴰ}
use mathlib.Core.Logic.{∥∥₁_elim}
use mathlib.Core.Option
use native.Mathlib.Nat.{ℕ_set}
use pbo.Common.{
  ℕ, ◌<◌, ◌≡◌, ◌≢◌, refl, sym, ◌∙◌, ap, subst, fun_ext, true, Option, none, some, List, ◌∷◌,
  if◌then◌else◌, Bytes, All, Bool-cases, inl, inr,
}
use pbo.Model.{ok}
use pbo.Text.{equal}
use pbo.Text.Equal.{equal_sound}
use pbo.Wire.{bytes_reader}
use pbo.Streams.{Stream}
use pbo.Maps.Laws.{Distinct}
use pbo.Wire.Parts.{part_of}
use pbo.Unpack.{OpenFaults, ExtractFileMode, Tree, WorkItem, extract_items}
use pbo.Unpack.Files.{IsReady, is_replacing}
use pbo.Unpack.Last.{or_else, last_payload, extract_items-last}

All-permd {ℓ κ} : {A : Type ℓ} (P : A → Type κ) {xs ys : List A} → Permᴰ xs ys → All P xs → All P ys
All-permd P Permᴰ.nil h = tt
All-permd P (Permᴰ.cons e d) (hx, h) = (subst P e hx, All-permd P d h)
All-permd P (Permᴰ.swap e e') (ha, (hb, h)) = (subst P e' hb, (subst P e ha, h))
All-permd P (Permᴰ.trans d d') h = All-permd P d' (All-permd P d h)

abbrev path_of : WorkItem → Bytes
path_of item = item.rel_path

Distinct-permd : {xs ys : List WorkItem} → Permᴰ xs ys → Distinct path_of xs → Distinct path_of ys
Distinct-permd Permᴰ.nil h = tt
Distinct-permd (Permᴰ.cons {a} {b} {l₁} {l₂} e d) (hx, h) = (
  subst (λ (x : WorkItem). All (λ (y : WorkItem). y.rel_path ≢ x.rel_path) l₂) e
      (All-permd (λ (y : WorkItem). y.rel_path ≢ a.rel_path) d hx),
  Distinct-permd d h,
)
Distinct-permd (Permᴰ.swap {a} {b} {a'} {b'} {l} e e') ((hab, ha), (hb, h)) =
    let flipped : Distinct path_of (b ∷ a ∷ l) = (((λ same. hab (sym same)), hb), (ha, h)) in
    subst (λ x. Distinct path_of (a' ∷ x ∷ l)) e
      (subst (λ x. Distinct path_of (x ∷ a ∷ l)) e' flipped)
Distinct-permd (Permᴰ.trans d d') h = Distinct-permd d' (Distinct-permd d h)

or_else-none : (o : Option Bytes) → or_else o none ≡ o
or_else-none none = refl
or_else-none (some c) = refl

or_else-swap :
    (o : Option Bytes) (c : Bytes)
    → or_else (or_else o none) (some c) ≡ or_else (or_else o (some c)) none
or_else-swap none c = refl
or_else-swap (some d) c = refl

or_else-none_swap : (o p : Option Bytes) → or_else (or_else o p) none ≡ or_else (or_else o none) p
or_else-none_swap none p = or_else-none p
or_else-none_swap (some d) p = refl

module _ (content : Bytes) where
  -- Two items with different paths may change places.
  last_payload-swap :
      (a b : WorkItem) (l : List WorkItem) (path : Bytes)
      → b.rel_path ≢ a.rel_path
      → last_payload content (a ∷ b ∷ l) path ≡ last_payload content (b ∷ a ∷ l) path
  last_payload-swap a b l path apart = elim (Bool-cases (equal a.rel_path path)) [
    | inl at_a ↦ elim (Bool-cases (equal b.rel_path path)) [
      | inl at_b ↦
          absurd (apart (equal_sound b.rel_path path at_b ∙ sym (equal_sound a.rel_path path at_a)))
      | inr not_b ↦
          rw (at_a, not_b)
            (or_else-swap (last_payload content l path)
              (part_of content a.entry.offset a.entry.data_size))
    ]
    | inr not_a ↦ rw (not_a) (
        or_else-none_swap (last_payload content l path) (
          if equal b.rel_path path
          then some (part_of content b.entry.offset b.entry.data_size)
          else none))
  ]

  last_payload-permd :
      (path : Bytes) {xs ys : List WorkItem}
      → Permᴰ xs ys
      → Distinct path_of xs
      → last_payload content xs path ≡ last_payload content ys path
  last_payload-permd path Permᴰ.nil h = refl
  last_payload-permd path (Permᴰ.cons {a} {b} {l₁} {l₂} e d) (hx, h) =
      subst (λ x. last_payload content (a ∷ l₁) path ≡ last_payload content (x ∷ l₂) path) e
        (ap
          (λ o. or_else o (
            if equal a.rel_path path
            then some (part_of content a.entry.offset a.entry.data_size)
            else none))
          (last_payload-permd path d h))
  last_payload-permd path (Permᴰ.swap {a} {b} {a'} {b'} {l} e e') ((hab, ha), (hb, h)) =
      subst (λ x. last_payload content (a ∷ b ∷ l) path ≡ last_payload content (a' ∷ x ∷ l) path) e
        (subst (λ x. last_payload content (a ∷ b ∷ l) path ≡ last_payload content (x ∷ a ∷ l) path)
          e' (last_payload-swap a b l path hab))
  last_payload-permd path (Permᴰ.trans d d') h =
      last_payload-permd path d h ∙ last_payload-permd path d' (Distinct-permd d h)

-- The order of the items does not matter, if no two have the same path: in a mode that replaces
-- files, entries that are stored as they are, whose files can be opened, give the same files in every
-- order.
pub extract_items-perm :
    (decompress : Stream → ℕ → Stream) (fuel buffer : ℕ) (content : Bytes)
    (faults : Bytes → OpenFaults) (mode : ExtractFileMode) (items items' : List WorkItem)
    (tree : Tree)
    → 0 < buffer
    → is_replacing mode ≡ true
    → Distinct (λ (item : WorkItem). item.rel_path) items
    → All (IsReady fuel content faults) items
    → All (IsReady fuel content faults) items'
    → Perm items items'
    → (tree' : Tree) × (extract_items decompress fuel buffer
          (bytes_reader content)
          faults
          mode
          items
          tree
        ≡ ok tree')
      × (extract_items decompress fuel buffer (bytes_reader content) faults mode items' tree
          ≡ ok tree')
extract_items-perm decompress fuel buffer content faults mode items items' tree pos replaces
      distinct ready ready' p =
    let (t, e, finds) =
      extract_items-last decompress fuel buffer content pos faults mode items tree replaces ready in
    let (t', e', finds') =
      extract_items-last decompress fuel buffer content pos faults mode items' tree replaces
        ready' in
    let last : (path : Bytes) → last_payload content items path ≡ last_payload content items' path =
      λ path.
        ∥∥₁_elim p
          (Option.is_set (is_set ℕ_set) (last_payload content items path)
            (last_payload content items' path))
          (λ d. last_payload-permd content path d distinct) in
    let same : t' ≡ t = fun_ext (λ path.
      finds' path ∙ (ap (λ o. or_else o (tree path)) (sym (last path)) ∙ sym (finds path))) in
    (t, e, e' ∙ ap ok same)
