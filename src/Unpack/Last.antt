-- ===== src/Unpack/Last.antt =====
-- What a sequence of work items leaves, item by item.
use pbo.Common.{
  ℕ, ◌<◌, ◌≡◌, refl, ◌∙◌, Bool, true, false, Option, none, some, List, [], ◌∷◌, if◌then◌else◌,
  Bytes, All,
}
use pbo.Model.{ok}
use pbo.Text.{equal}
use pbo.Wire.{bytes_reader}
use pbo.Streams.{Stream}
use pbo.Wire.Parts.{part_of}
use pbo.Unpack.{OpenFaults, ExtractFileMode, Tree, set_path, WorkItem, extract_items}
use pbo.Unpack.Files.{IsReady, is_replacing, extract_prepared_entry-ready}

abbrev pub or_else : Option Bytes → Option Bytes → Option Bytes
or_else (some a) o = some a
or_else none o = o

or_else_assoc :
    (a : Option Bytes) (b : Bool) (c : Bytes) (d : Option Bytes)
    → or_else a (if b then some c else d) ≡ or_else (or_else a (if b then some c else none)) d
or_else_assoc none true c d = refl
or_else_assoc none false c d = refl
or_else_assoc (some a) b c d = refl

-- The payload of the last item with a path.
abbrev pub last_payload : Bytes → List WorkItem → Bytes → Option Bytes
last_payload content [] path = none
last_payload content (item ∷ items) path = or_else (last_payload content items path) (
    if equal item.rel_path path
    then some (part_of content item.entry.offset item.entry.data_size)
    else none)

module _ (decompress : Stream → ℕ → Stream) (fuel buffer : ℕ) (content : Bytes)
    (pos : 0 < buffer) where
  -- A sequence of items that are ready: a file holds the payload of the last item with its path.
  pub extract_items-last :
      (faults : Bytes → OpenFaults) (mode : ExtractFileMode) (items : List WorkItem) (tree : Tree)
      → is_replacing mode ≡ true
      → All (IsReady fuel content faults) items
      → (tree' : Tree) × (extract_items decompress fuel buffer
            (bytes_reader content)
            faults
            mode
            items
            tree
          ≡ ok tree')
        × ((path : Bytes) → tree' path ≡ or_else (last_payload content items path) (tree path))
  unfolding extract_items
  extract_items-last faults mode [] tree replaces h = (tree, refl, λ path. refl)
  extract_items-last faults mode (item ∷ items) tree replaces (ready, h) =
      let payload = part_of content item.entry.offset item.entry.data_size in
      let first =
        extract_prepared_entry-ready decompress fuel buffer content pos faults mode item tree
          replaces ready in
      let (tree', rest, finds) =
        extract_items-last faults mode items (set_path tree item.rel_path payload) replaces h in
      (
        tree',
        rw (first) rest,
        λ path.
            finds path
            ∙ or_else_assoc (last_payload content items path) (equal item.rel_path path) payload
                (tree path),
      )
