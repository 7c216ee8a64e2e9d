-- ===== src/Reader.antt =====
-- The index part of Reader.parse in reader.go, and what metadata.go shares with it.
use pbo.Common.{ℕ, ◌-◌, List, [], ◌∷◌, Option, none, some, leb, ◌==◌, if◌then◌else◌, Bytes}
use pbo.Model.{Error, Result, ok, ◌>>=◌, EntryInfo, HeaderPair, OffsetMode, HeaderPair}
use pbo.Wire.{ReaderAt}
use pbo.Header.{parse_header_section}
use pbo.Table.{parse_entries_buffered}
use pbo.Offsets.Defs.{resolve_entry_offsets}

-- The fields of Reader that the index fills.
pub record Index : Type 0 where
  pub header : Bytes
  pub headers : List HeaderPair
  pub entries : List EntryInfo
  pub data_start : ℕ

-- Header section, entry table and offsets, in that order.
unfoldable pub parse_index : ℕ → ReaderAt → ℕ → OffsetMode → Result Index
parse_index fuel ra size mode = do
  (header, headers, off) ← parse_header_section fuel ra
  (entries, entries_end) ← parse_entries_buffered fuel ra off size
  resolved ← resolve_entry_offsets entries entries_end size mode
  ok (record { header = header; headers = headers; entries = resolved; data_start = entries_end })

-- The check for a SHA1 trailer: the hash bytes, if the byte before them is zero.
unfoldable pub trailer_of : Bytes × Option Error → Option Bytes
trailer_of (zero_byte ∷ hash, none) = if zero_byte == 0 then some hash else none
trailer_of ([], none) = none
trailer_of (_, some _) = none

unfoldable pub sha1_trailer : ReaderAt → ℕ → Option Bytes
unfolding trailer_of
sha1_trailer ra size = if leb 21 size then trailer_of (ra (size - 21) 21) else none
