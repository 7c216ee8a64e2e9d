-- ===== src/Model.antt =====
-- errors.go and model.go: the sentinel errors, the records of the format and the options.
-- An error is the sentinel that `errors.Is` finds in it; the text that wraps it is left out.
mod Errors
pub use Errors.*
use pbo.Common.{
  ℕ, ◌*◌, ◌≡◌, Bool, true, false, ◌&&◌, ◌||◌, not, List, Option, ltb, leb, ◌==◌, if◌then◌else◌,
  lt_i64, Bytes,
}

abbrev pub header_size : ℕ
header_size = 21

abbrev pub sha_size : ℕ
sha_size = 20

abbrev pub max_name_len : ℕ
max_name_len = 512

-- `maxPBOData = 1 << 32`
abbrev pub max_pbo_data : ℕ
max_pbo_data = 4294967296

abbrev pub default_write_buffer : ℕ
default_write_buffer = 16 * 1024 * 1024

abbrev pub default_min_compress_size : ℕ
default_min_compress_size = 512

abbrev pub default_max_compress_size : ℕ
default_max_compress_size = 16 * 1024 * 1024

abbrev pub mime_header : ℕ
mime_header = 0x56657273

abbrev pub mime_compress : ℕ
mime_compress = 0x43707273

abbrev pub mime_nil : ℕ
mime_nil = 0

-- A parsed entry; every number is a uint32.
pub record EntryInfo : Type 0 where
  pub path : Bytes
  pub offset : ℕ
  pub data_size : ℕ
  pub original_size : ℕ
  pub time_stamp : ℕ
  pub mime_type : ℕ

unfoldable pub is_compressed : EntryInfo → Bool
is_compressed e =
    e.mime_type == mime_compress || (not (e.original_size == 0) && ltb e.data_size e.original_size)

pub record HeaderPair : Type 0 where
  pub key : Bytes
  pub value : Bytes

pub data OffsetMode : Type 0 where
  empty_mode sequential stored_compat stored_strict unknown_mode : OffsetMode

-- The key of sealed mode is 16 bytes.
pub record ReaderOptions : Type 0 where
  pub sealed_key : Option Bytes
  pub offset_mode : OffsetMode
  pub entry_path_prefix : Bytes
  pub min_entry_original_size : ℕ
  pub min_entry_data_size : ℕ
  pub enable_junk_filter : Bool
  pub filter_ascii_only : Bool
  pub sanitize_control_chars : Bool
  pub sanitize_names : Bool

-- The empty string is the zero value of `OffsetMode`.
pub default_mode : OffsetMode → OffsetMode
default_mode empty_mode = sequential
default_mode m = m

unfoldable pub reader_apply_defaults : ReaderOptions → ReaderOptions
unfolding default_mode
reader_apply_defaults opts = record opts { offset_mode = default_mode opts.offset_mode }

-- The parts of `PackOptions` that are numbers; `writer_buffer_size` is an int64 pattern.
pub record PackSizes : Type 0 where
  pub writer_buffer_size : ℕ
  pub min_compress_size : ℕ
  pub max_compress_size : ℕ

unfoldable pub pack_apply_defaults : PackSizes → PackSizes
pack_apply_defaults o =
    let buffer =
      if lt_i64 o.writer_buffer_size 4096 then default_write_buffer else o.writer_buffer_size in
    let low = if o.min_compress_size == 0 then default_min_compress_size else o.min_compress_size in
    let high =
      if o.max_compress_size == 0 || leb o.max_compress_size low
      then default_max_compress_size
      else o.max_compress_size in
    record { writer_buffer_size = buffer; min_compress_size = low; max_compress_size = high }
