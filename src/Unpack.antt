-- ===== src/Unpack.antt =====
-- The extraction of extract.go to files, and the streams and reads of single entries of
-- entry_reader.go. `decompress` stands for the LZSS decoder behind the pipe: from the packed stream and
-- the size of the output to what the pipe answers. The files are a function from the relative path,
-- and what the operating system answers when a file is opened is an argument. Writing, cutting and
-- closing a file succeed. Directories, the pool of workers, contexts and ContinueOnError are left out:
-- the work items are extracted one behind the other.
pub mod Apart
pub mod Copied
pub mod Files
pub mod Last
pub mod Order
use pbo.Common.{
  ℕ, zero, suc, ◌+◌, Bool, true, false, ◌||◌, Option, none, some, List, [], ◌∷◌, ◌++◌, ltb, leb,
  ◌==◌, if◌then◌else◌, length, take, Bytes,
}
use pbo.Model.{
  Error, Result, ok, err, ◌>>=◌, entry_not_found, closed, io_failure, out_of_fuel, EntryInfo,
  is_compressed,
}
use pbo.Text.{equal, trim_space}
use pbo.Wire.{ReaderAt, is_empty}
use pbo.Streams.{Stream, ReadEnd, continues, ended, failed, read}
use pbo.Payload.{section_stream}
use pbo.Lookup.{find_entry_by_name}
use pbo.Trailer.{write_at}
use pbo.Extract.{normalize_extract_entry_path}
use pbo.Sanitize.Entries.{sanitize_entry_info_paths}

-- What follows one read: another round, the end, or an error.
unfoldable pub after_copy {ℓ} : {A : Type ℓ} → ReadEnd → A → Result A → Result A
after_copy continues done more = more
after_copy ended done more = ok done
after_copy failed done more = err io_failure

-- The loop of `copyExtractData`: the content of the file, and the bytes written.
unfoldable pub copy_extract_loop : ℕ → ℕ → Bytes → ℕ → Stream → Result (Bytes × ℕ)
copy_extract_loop zero buffer content total src = err out_of_fuel
copy_extract_loop (suc fuel) buffer content total src =
    let (part, end, left) = read buffer src in
    let content' = if is_empty part then content else write_at content total part in
    let more = copy_extract_loop fuel buffer content' (total + length part) left in
    after_copy end (content', total + length part) more

unfoldable pub copy_extract_data : ℕ → ℕ → Bytes → Stream → Result (Bytes × ℕ)
copy_extract_data fuel buffer content src =
    if buffer == 0 then err io_failure else copy_extract_loop fuel buffer content 0 src

-- `io.ReadAll`
unfoldable pub read_all : ℕ → ℕ → Bytes → Stream → Result Bytes
read_all zero buffer out src = err out_of_fuel
read_all (suc fuel) buffer out src =
    let (part, end, left) = read buffer src in
    let more = read_all fuel buffer (out ++ part) left in after_copy end (out ++ part) more

pub data ExtractFileMode : Type 0 where
  auto overwrite_smart truncate_file create_only unknown_file_mode : ExtractFileMode

-- What the operating system does with one path: whether an exclusive opening fails for another
-- reason than that the file is there, whether a plain opening fails, and whether `Stat` fails.
pub record OpenFaults : Type 0 where
  pub exclusive_fails : Bool
  pub open_fails : Bool
  pub stat_fails : Bool

-- The content that the file has when it is opened, and whether it is to be cut behind the copy.
unfoldable pub open_extract_file :
    OpenFaults → Option Bytes → ExtractFileMode → ℕ → Result (Bytes × Bool)
open_extract_file f none auto expected_size =
    if f.exclusive_fails then err io_failure else ok ([], false)
open_extract_file f (some old) auto expected_size =
    if f.exclusive_fails || f.open_fails then err io_failure else ok ([], false)
open_extract_file f none overwrite_smart expected_size =
    if f.open_fails || f.stat_fails then err io_failure else ok ([], false)
open_extract_file f (some old) overwrite_smart expected_size =
    if f.open_fails || f.stat_fails
    then err io_failure
    else ok (old, ltb expected_size (length old))
open_extract_file f there truncate_file expected_size =
    if f.open_fails then err io_failure else ok ([], false)
open_extract_file f none create_only expected_size =
    if f.exclusive_fails then err io_failure else ok ([], false)
open_extract_file f (some old) create_only expected_size = err io_failure
open_extract_file f there unknown_file_mode expected_size = err io_failure

abbrev pub Tree : Type 0
Tree = Bytes → Option Bytes

abbrev pub set_path : Tree → Bytes → Bytes → Tree
set_path tree path content = λ p. if equal path p then some content else tree p

pub record WorkItem : Type 0 where
  pub rel_path : Bytes
  pub entry : EntryInfo

unfoldable pub prepare_extract_work_items : List EntryInfo → Result (List WorkItem)
prepare_extract_work_items [] = ok []
prepare_extract_work_items (e ∷ es) =
    let rest = prepare_extract_work_items es in
    if is_empty (trim_space e.path)
    then rest
    else normalize_extract_entry_path e.path >>= λ path.
        rest >>= λ items. ok (record { rel_path = path; entry = e } ∷ items)

unfoldable pub expected_size_of : EntryInfo → ℕ
expected_size_of e = if ltb 0 e.original_size then e.original_size else e.data_size

module _ (decompress : Stream → ℕ → Stream) (fuel buffer : ℕ) (ra : ReaderAt) where
  unfoldable pub open_entry_by_info : EntryInfo → Stream
  open_entry_by_info e =
      let section = section_stream ra e.offset e.data_size in
      if is_compressed e then decompress section e.original_size else section

  abbrev pub open_found : Option EntryInfo → Result Stream
  open_found none = err entry_not_found
  open_found (some e) = ok (open_entry_by_info e)

  unfoldable pub open_entry : Bool → List EntryInfo → Bytes → Result Stream
  open_entry is_closed entries name =
      if is_closed then err closed else open_found (find_entry_by_name entries name)

  unfoldable pub open_entry_info : Bool → EntryInfo → Result Stream
  open_entry_info is_closed e = if is_closed then err closed else ok (open_entry_by_info e)

  unfoldable pub read_entry : Bool → List EntryInfo → Bytes → Result Bytes
  read_entry is_closed entries name =
      open_entry is_closed entries name >>= λ src. read_all fuel buffer [] src

  unfoldable pub extract_prepared_entry :
      (Bytes → OpenFaults) → ExtractFileMode → WorkItem → Tree → Result Tree
  extract_prepared_entry faults mode item tree = do
    let src = open_entry_by_info item.entry
    (old, needs_truncate) ←
        open_extract_file (faults item.rel_path) (tree item.rel_path) mode
          (expected_size_of item.entry)
    (content, written) ← copy_extract_data fuel buffer old src
    ok (set_path tree item.rel_path (if needs_truncate then take written content else content))

  -- The items in the order in which they are taken, up to the first error. The workers of the
  -- program take them at the same time: a sequence stands for that only if no two items have the
  -- same path, and no path of one is a directory of another.
  unfoldable pub extract_items :
      (Bytes → OpenFaults) → ExtractFileMode → List WorkItem → Tree → Result Tree
  extract_items faults mode [] tree = ok tree
  extract_items faults mode (item ∷ items) tree =
      extract_prepared_entry faults mode item tree >>= λ tree'.
      extract_items faults mode items tree'

  -- `Extract` on a reader that is open; `raw_names` and `mode` are its options.
  unfoldable pub extract :
      (Bytes → OpenFaults)
      → (Bytes → Bytes)
      → (ℕ → Bool)
      → Bool
      → ExtractFileMode
      → List EntryInfo
      → Tree
      → Result Tree
  extract faults lower is_format raw_names mode entries tree = do
    named ← if raw_names then ok entries else sanitize_entry_info_paths lower is_format entries
    items ← prepare_extract_work_items named
    extract_items faults mode items tree
