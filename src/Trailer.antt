-- ===== src/Trailer.antt =====
-- trailer.go: the SHA1 trailer of an archive file. SHA-1 itself is an argument, and the file is its
-- content.
pub mod Laws
use pbo.Common.{
  ℕ, ◌+◌, ◌-◌, Bool, false, ◌&&◌, [], ◌∷◌, ◌++◌, leb, ◌==◌, if◌then◌else◌, length, take, drop,
  Bytes,
}
use pbo.Text.{equal}

-- A write at a position of a file.
unfoldable pub write_at : Bytes → ℕ → Bytes → Bytes
write_at content pos block = take pos content ++ (block ++ drop (pos + length block) content)

-- The test of the last 21 bytes, given the hash of what is before them.
unfoldable pub is_trailer : Bytes → Bytes → Bool
is_trailer sum [] = false
is_trailer sum (zero_byte ∷ hash) = zero_byte == 0 && equal sum hash

module _ (sha1 : Bytes → Bytes) where
  -- Where the trailer is written, which is also how much is hashed.
  unfoldable pub write_pos : Bytes → ℕ
  write_pos content =
      let size = length content in
      let candidate = size - 21 in
      if leb 21 size && is_trailer (sha1 (take candidate content)) (drop candidate content)
      then candidate
      else size

  unfoldable pub write_sha1_trailer : Bytes → Bytes
  write_sha1_trailer content =
      let pos = write_pos content in write_at content pos (0 ∷ sha1 (take pos content))
