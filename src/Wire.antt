-- ===== src/Wire.antt =====
-- The byte-level pieces under reader.go and writer.go: little-endian words of encoding/binary,
-- bytes.IndexByte, and positional readers.
mod Cut
pub mod Parts
unfoldable pub use Cut.{index_byte}
pub use Cut.{index_byte-Lacks, index_byte-take, take-take-append, take-append_le, drop-append_le}
use pbo.Common.{
  ℕ, zero, suc, ◌+◌, ◌*◌, ◌/◌, ◌%◌, ◌^◌, ◌<◌, ◌≡◌, ◌≢◌, refl, List, [], ◌∷◌, ◌++◌, Bool, true,
  false, Option, none, some, arith, ltb, ◌==◌, if◌then◌else◌, length, take, drop, Bytes,
}
use pbo.Model.{Error, eof}

-- `binary.LittleEndian.PutUint32`
unfoldable pub put_u32 : ℕ → Bytes
put_u32 v = (v % 256) ∷ (v / 256 % 256) ∷ (v / 65536 % 256) ∷ (v / 16777216 % 256) ∷ []

-- `binary.LittleEndian.Uint32` of the first four bytes
unfoldable pub get_u32 : Bytes → ℕ
get_u32 (a ∷ b ∷ c ∷ d ∷ _) = a + b * 256 + c * 65536 + d * 16777216
get_u32 _ = 0

pub get_u32-put_u32 : (v : ℕ) (rest : Bytes) → v < 2 ^ 32 → get_u32 (put_u32 v ++ rest) ≡ v
unfolding get_u32 put_u32
get_u32-put_u32 v rest h = omega arith

-- An io.ReaderAt at an offset and a buffer length: the bytes read and the error.
abbrev pub ReaderAt : Type 0
ReaderAt = ℕ → ℕ → Bytes × Option Error

-- The positional reader of a file or of a byte slice (os.File, bytes.Reader): a short read is
-- reported as io.EOF, a full one without an error.
unfoldable pub bytes_reader : Bytes → ReaderAt
bytes_reader content off n =
    let part = take n (drop off content) in (part, if ltb (length part) n then some eof else none)

unfoldable pub is_empty : Bytes → Bool
is_empty [] = true
is_empty (_ ∷ _) = false

pub is_empty_of_ne : (s : Bytes) → s ≢ [] → is_empty s ≡ false
unfolding is_empty
is_empty_of_ne [] h = absurd (h refl)
is_empty_of_ne (c ∷ s) h = refl
