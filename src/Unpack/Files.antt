-- ===== src/Unpack/Files.antt =====
-- What the extraction and a read of one entry give for entries that are stored as they are.
use pbo.Common.{
  ℕ, ◌+◌, ◌≤◌, ◌<◌, ◌≡◌, refl, ◌∙◌, ap, subst, arith, Bool, true, false, Option, none, some, List,
  [], ◌++◌, ltb, if◌then◌else◌, length, take, drop, Bytes, Bool-cases, inl, inr, append-nil,
  take-append, drop-of_le, drop-nil,
}
use pbo.Model.{Result, ok, err, io_failure, ok-injective, EntryInfo, is_compressed}
use pbo.Wire.{bytes_reader}
use pbo.Streams.{Stream}
use pbo.Streams.Bounded.{stream_data}
use pbo.Payload.Sections.{once, once-IsHealthy, stream_data-once, section_stream-once}
use pbo.Lookup.{find_entry_by_name}
use pbo.Wire.Parts.{part_of, length-part_of}
use pbo.Unpack.{
  ExtractFileMode, auto, overwrite_smart, truncate_file, create_only, unknown_file_mode, OpenFaults,
  open_extract_file, Tree, set_path, WorkItem, expected_size_of, open_entry_by_info, open_entry,
  read_entry, extract_prepared_entry,
}
use pbo.Unpack.Copied.{copy_extract_data_lem, read_all_lem}

-- What the copy and the cut leave of a payload over an old content.
abbrev left_of : Bytes → Bytes × Bool → Bytes
left_of payload (old, needs) =
    if needs
    then take (length payload) (payload ++ drop (length payload) old)
    else payload ++ drop (length payload) old

left_of-fresh : (payload : Bytes) → left_of payload ([], false) ≡ payload
left_of-fresh payload = ap (λ t. payload ++ t) (drop-nil (length payload)) ∙ append-nil payload

left_of-old :
    (payload before : Bytes) (expected : ℕ)
    → expected ≤ length payload
    → left_of payload (before, ltb expected (length before)) ≡ payload
left_of-old payload before expected h = elim (Bool-cases (ltb expected (length before))) [
  | inl longer ↦ rw (longer) (take-append payload (drop (length payload) before))
  | inr short ↦
      let covered : length before ≤ length payload = ground arith in
      rw (short, drop-of_le (length payload) before covered) (append-nil payload)
]

-- A file was opened without a fault.
opened_ok :
    {r : Result (Bytes × Bool)} {p : Bytes × Bool} (fails : Bool)
    → (if fails then err io_failure else r) ≡ ok p
    → r ≡ ok p
opened_ok true e = cc
opened_ok false e = e

-- A file that was opened holds the copied data alone in the end, if the data has the expected size.
open_extract_file_lem :
    (f : OpenFaults) (there : Option Bytes) (mode : ExtractFileMode) (expected : ℕ)
    (payload old : Bytes) (needs : Bool)
    → open_extract_file f there mode expected ≡ ok (old, needs)
    → expected ≤ length payload
    → left_of payload (old, needs) ≡ payload
unfolding open_extract_file
open_extract_file_lem f none auto expected payload old needs e h =
    subst (λ p. left_of payload p ≡ payload) (ok-injective (opened_ok _ e)) (left_of-fresh payload)
open_extract_file_lem f (some before) auto expected payload old needs e h =
    subst (λ p. left_of payload p ≡ payload) (ok-injective (opened_ok _ e)) (left_of-fresh payload)
open_extract_file_lem f none overwrite_smart expected payload old needs e h =
    subst (λ p. left_of payload p ≡ payload) (ok-injective (opened_ok _ e)) (left_of-fresh payload)
open_extract_file_lem f (some before) overwrite_smart expected payload old needs e h =
    subst (λ p. left_of payload p ≡ payload) (ok-injective (opened_ok _ e))
      (left_of-old payload before expected h)
open_extract_file_lem f there truncate_file expected payload old needs e h =
    subst (λ p. left_of payload p ≡ payload) (ok-injective (opened_ok _ e)) (left_of-fresh payload)
open_extract_file_lem f none create_only expected payload old needs e h =
    subst (λ p. left_of payload p ≡ payload) (ok-injective (opened_ok _ e)) (left_of-fresh payload)
open_extract_file_lem f (some before) create_only expected payload old needs e h = cc
open_extract_file_lem f there unknown_file_mode expected payload old needs e h = cc

-- An entry that is stored as it is, within the file.
pub record IsStored (fuel : ℕ) (content : Bytes) (e : EntryInfo) : Type 0 where
  pub raw : is_compressed e ≡ false
  pub inside : e.offset + e.data_size ≤ length content
  pub enough : e.data_size < fuel

expected-raw : (e : EntryInfo) → is_compressed e ≡ false → expected_size_of e ≤ e.data_size
unfolding is_compressed expected_size_of
expected-raw e h = ground arith

-- Modes that replace a file.
abbrev pub is_replacing : ExtractFileMode → Bool
is_replacing auto = true
is_replacing overwrite_smart = true
is_replacing truncate_file = true
is_replacing create_only = false
is_replacing unknown_file_mode = false

abbrev pub no_faults : OpenFaults
no_faults = record { exclusive_fails = false; open_fails = false; stat_fails = false }

opens :
    (there : Option Bytes) (mode : ExtractFileMode) (expected : ℕ)
    → is_replacing mode ≡ true
    → (result : Bytes × Bool) × (open_extract_file no_faults there mode expected ≡ ok result)
unfolding open_extract_file
opens none auto expected h = (_, refl)
opens (some before) auto expected h = (_, refl)
opens none overwrite_smart expected h = (_, refl)
opens (some before) overwrite_smart expected h = (_, refl)
opens there truncate_file expected h = (_, refl)
opens there create_only expected h = cc
opens there unknown_file_mode expected h = cc

-- An item whose entry is stored as it is and whose file can be opened.
pub record IsReady (fuel : ℕ) (content : Bytes) (faults : Bytes → OpenFaults) (item : WorkItem)
    : Type 0 where
  pub stored : IsStored fuel content item.entry
  pub unfaulted : faults item.rel_path ≡ no_faults

module _ (decompress : Stream → ℕ → Stream) (fuel buffer : ℕ) (content : Bytes)
    (pos : 0 < buffer) where
  open_entry_by_info-raw :
      (e : EntryInfo)
      → IsStored fuel content e
      → open_entry_by_info decompress fuel buffer (bytes_reader content) e
        ≡ once (part_of content e.offset e.data_size)
  unfolding open_entry_by_info
  open_entry_by_info-raw e h =
      rw (h.raw) (section_stream-once content e.offset e.data_size h.inside)

  -- An entry that is found and stored as it is, is read as the bytes of its payload.
  pub read_entry_lem :
      (entries : List EntryInfo) (name : Bytes) (e : EntryInfo)
      → find_entry_by_name entries name ≡ some e
      → IsStored fuel content e
      → read_entry decompress fuel buffer (bytes_reader content) false entries name
        ≡ ok (part_of content e.offset e.data_size)
  unfolding read_entry open_entry
  read_entry_lem entries name e found h =
      let payload = part_of content e.offset e.data_size in
      let data_is = stream_data-once payload in
      let size = length-part_of content e.offset e.data_size h.inside in
      let same : length (stream_data (once payload)) ≡ e.data_size = ap length data_is ∙ size in
      let enough = h.enough in
      rw (found, open_entry_by_info-raw e h)
        (read_all_lem fuel buffer [] (once payload) pos (once-IsHealthy payload) (omega arith)
          ∙ ap ok data_is)

  -- If the file of an entry that is stored as it is can be opened in the chosen mode, the extraction
  -- leaves the bytes of the payload in it, and nothing of what it held before; no other file changes.
  pub extract_prepared_entry_lem :
      (faults : Bytes → OpenFaults) (mode : ExtractFileMode) (item : WorkItem) (tree : Tree)
      {old : Bytes} {needs : Bool}
      → IsStored fuel content item.entry
      → open_extract_file
          (faults item.rel_path)
          (tree item.rel_path)
          mode
          (expected_size_of item.entry)
        ≡ ok (old, needs)
      → extract_prepared_entry decompress fuel buffer (bytes_reader content) faults mode item tree
        ≡ ok (set_path tree item.rel_path (part_of content item.entry.offset item.entry.data_size))
  unfolding extract_prepared_entry
  extract_prepared_entry_lem faults mode item tree {old} {needs} h opened =
      let e = item.entry in
      let payload = part_of content e.offset e.data_size in
      let data_is = stream_data-once payload in
      let size = length-part_of content e.offset e.data_size h.inside in
      let same : length (stream_data (once payload)) ≡ e.data_size = ap length data_is ∙ size in
      let enough = h.enough in
      let expected = expected-raw e h.raw in
      let copy =
        copy_extract_data_lem fuel buffer old (once payload) pos (once-IsHealthy payload)
          (omega arith) in
      rw (opened, open_entry_by_info-raw e h, copy, data_is)
        (ap (λ t. ok (set_path tree item.rel_path t))
          (open_extract_file_lem (faults item.rel_path) (tree item.rel_path) mode
            (expected_size_of e) payload old needs opened (omega arith)))

  -- An item that is ready, in a mode that replaces files.
  pub extract_prepared_entry-ready :
      (faults : Bytes → OpenFaults) (mode : ExtractFileMode) (item : WorkItem) (tree : Tree)
      → is_replacing mode ≡ true
      → IsReady fuel content faults item
      → extract_prepared_entry decompress fuel buffer (bytes_reader content) faults mode item tree
        ≡ ok (set_path tree item.rel_path (part_of content item.entry.offset item.entry.data_size))
  extract_prepared_entry-ready faults mode item tree replaces h =
      let ((old, needs), opened) =
        opens (tree item.rel_path) mode (expected_size_of item.entry) replaces in
      extract_prepared_entry_lem faults mode item tree {old = old} {needs = needs} h.stored
        (rw (h.unfaulted) opened)
