-- ===== src/Unpack/Apart.antt =====
-- The extraction of items whose files are apart, which is where the workers do not meet.
use pbo.Common.{
  ℕ, ◌<◌, ◌≡◌, ◌≢◌, refl, ◌∙◌, true, false, some, List, [], ◌∷◌, ◌++◌, Bytes, All, Bool-cases, ◌⊎◌,
  inl, inr,
}
use pbo.Model.{ok}
use pbo.Text.{equal, has_prefix}
use pbo.Text.Equal.{equal_sound, equal_same}
use pbo.Wire.{bytes_reader}
use pbo.Streams.{Stream}
use pbo.Wire.Parts.{part_of}
use pbo.Unpack.{OpenFaults, ExtractFileMode, Tree, set_path, WorkItem, extract_items}
use pbo.Unpack.Files.{IsReady, is_replacing, extract_prepared_entry-ready}

-- Two paths of different files, of which none is a directory on the way to the other.
pub record IsApart (p q : Bytes) : Type 0 where
  pub differ : p ≢ q
  pub not_above : has_prefix q (p ++ b'/' ∷ []) ≡ false
  pub not_below : has_prefix p (q ++ b'/' ∷ []) ≡ false

abbrev pub AllApart : List WorkItem → Type 0
AllApart [] = Unit
AllApart (item ∷ items) =
    All (λ (other : WorkItem). IsApart other.rel_path item.rel_path) items × AllApart items

-- A path is that of an item.
abbrev pub IsPathOf : Bytes → List WorkItem → Type 0
IsPathOf path [] = ⊥
IsPathOf path (item ∷ items) = (item.rel_path ≡ path) ⊎ IsPathOf path items

IsPathOf-apart :
    (path : Bytes) (items : List WorkItem)
    → All (λ (other : WorkItem). IsApart other.rel_path path) items
    → IsPathOf path items
    → ⊥
IsPathOf-apart path [] h found = found
IsPathOf-apart path (item ∷ items) (h, hs) (inl e) = h.differ e
IsPathOf-apart path (item ∷ items) (h, hs) (inr found) = IsPathOf-apart path items hs found

module _ (decompress : Stream → ℕ → Stream) (fuel buffer : ℕ) (content : Bytes)
    (pos : 0 < buffer) where
  -- Items whose paths differ, none the directory of another, whose entries are stored as they are and
  -- whose files can be opened, are all extracted in a mode that replaces files, in whatever order
  -- they are taken: then the file of each item holds its payload and nothing else, and a file that
  -- has changed is that of an item.
  pub extract_items_lem :
      (faults : Bytes → OpenFaults) (mode : ExtractFileMode) (items : List WorkItem) (tree : Tree)
      → is_replacing mode ≡ true
      → AllApart items
      → All (IsReady fuel content faults) items
      → (tree' : Tree) × (extract_items decompress fuel buffer
            (bytes_reader content)
            faults
            mode
            items
            tree
          ≡ ok tree')
        × All
            (λ (item : WorkItem).
              tree' item.rel_path ≡ some (part_of content item.entry.offset item.entry.data_size))
            items
        × ((path : Bytes) → (tree' path ≡ tree path) ⊎ IsPathOf path items)
  unfolding extract_items
  extract_items_lem faults mode [] tree replaces apart h = (tree, refl, tt, λ path. inl refl)
  extract_items_lem faults mode (item ∷ items) tree replaces (apart, aparts) (ready, h) =
      let payload = part_of content item.entry.offset item.entry.data_size in
      let first =
        extract_prepared_entry-ready decompress fuel buffer content pos faults mode item tree
          replaces ready in
      let (tree', rest, each, others) =
        extract_items_lem faults mode items (set_path tree item.rel_path payload) replaces aparts
          h in
      let own : tree' item.rel_path ≡ some payload = elim (others item.rel_path) [
        | inl same ↦ same ∙ rw (equal_same item.rel_path) refl
        | inr found ↦ absurd (IsPathOf-apart item.rel_path items apart found)
      ] in
      (
        tree',
        rw (first) rest,
        (own, each),
        λ path. elim (others path) [
          | inl same ↦ elim (Bool-cases (equal item.rel_path path)) [
            | inl at ↦ inr (inl (equal_sound item.rel_path path at))
            | inr off ↦ inl (same ∙ rw (off) refl)
          ]
          | inr found ↦ inr (inr found)
        ],
      )
