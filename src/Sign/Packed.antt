-- ===== src/Sign/Packed.antt =====
-- The part of sign_hashset.go that reads an archive: the hashes of the whole and of the payloads, and
-- the hash set. Reads have fuel; a chunk has 32 KiB at most, here and in io.Copy.
use pbo.Common.{
  ℕ, zero, suc, ◌+◌, ◌-◌, Bool, true, false, ◌&&◌, ◌||◌, List, [], ◌∷◌, ◌++◌, Option, none, some,
  leb, ◌==◌, if◌then◌else◌, length, min, is_some, Bytes,
}
use pbo.Text.{codes}
use pbo.Model.{
  Error, Result, ok, err, ◌>>=◌, ◌>>◌, no_progress, out_of_fuel, eof, EntryInfo, HeaderPair,
  sequential,
}
use pbo.Wire.{ReaderAt, bytes_reader}
use pbo.Sorting.{sort_by}
use pbo.Reader.{Index, parse_index, sha1_trailer}
use pbo.Sign.{
  HashSet, sign_version_v2, normalize_game_type, validate_sign_hash_args, pbo_prefix_from_headers,
  write_sign_prefix, sign_names, distinct_names, is_skipped, should_hash_file_for_sign,
}

abbrev pub sign_hash_copy_buffer_size : ℕ
sign_hash_copy_buffer_size = 32768

unfoldable pub is_eof : Error → Bool
is_eof eof = true
is_eof e = false

-- What follows one ReadAt of the payload loop.
unfoldable pub after_packed : Bytes → Option Error → ℕ → Bytes → Result Bytes → Result Bytes
after_packed part (some e) remaining out more = if is_eof e && remaining == 0 then ok out else err e
after_packed [] none remaining out more = err no_progress
after_packed (_ ∷ _) none remaining out more = more

-- The loop over one payload; `out` is what the hash has taken.
unfoldable pub hash_packed_loop : ℕ → ReaderAt → ℕ → ℕ → Bytes → Result Bytes
hash_packed_loop zero ra offset remaining out = err out_of_fuel
hash_packed_loop (suc fuel) ra offset remaining out =
    let (part, e) = ra offset (min sign_hash_copy_buffer_size remaining) in
    let left = remaining - length part in
    let more = hash_packed_loop fuel ra (offset + length part) left (out ++ part) in
    if remaining == 0 then ok out else after_packed part e left (out ++ part) more

-- Whether the loop over the rows takes a row.
unfoldable pub is_selected : ℕ → Bytes → EntryInfo → Result Bool
is_selected version game e =
    if is_skipped e then ok false else should_hash_file_for_sign version game e.path

-- The loop over the rows: what the hash took, and whether any row was taken.
unfoldable pub hash_files :
    ℕ → ReaderAt → ℕ → Bytes → List EntryInfo → Bytes → Bool → Result (Bytes × Bool)
hash_files fuel ra version game [] out any = ok (out, any)
hash_files fuel ra version game (e ∷ es) out any = do
  selected ← is_selected version game e
  out' ← if selected then hash_packed_loop fuel ra e.offset e.data_size out else ok out
  hash_files fuel ra version game es out' (any || selected)

-- What is hashed when no row was taken.
unfoldable pub nothing_hashed : ℕ → Bytes
nothing_hashed version = if version == sign_version_v2 then codes "nothing" else codes "gnihton"

-- One read of the section of a reader that ends at `limit`, and io.Copy from it.
unfoldable pub section_read : ReaderAt → ℕ → ℕ → Bytes × Option Error
section_read ra off limit =
    if leb limit off then ([], some eof) else ra off (min sign_hash_copy_buffer_size (limit - off))

unfoldable pub after_section : Bytes → Option Error → Result Bytes → Result Bytes
after_section out none more = more
after_section out (some e) more = if is_eof e then ok out else err e

unfoldable pub copy_section : ℕ → ReaderAt → ℕ → ℕ → Bytes → Result Bytes
copy_section zero ra off limit out = err out_of_fuel
copy_section (suc fuel) ra off limit out =
    let (part, e) = section_read ra off limit in
    let more = copy_section fuel ra (off + length part) limit (out ++ part) in
    after_section (out ++ part) e more

module _ (sha1 : Bytes → Bytes) where
  unfoldable pub compute_sign_hash1 : ℕ → ReaderAt → ℕ → Bool → Result Bytes
  compute_sign_hash1 fuel ra size has_trailer = do
    content ← copy_section fuel ra 0 (if has_trailer && leb 21 size then size - 21 else size) []
    ok (sha1 content)

  unfoldable pub compute_sign_hash2 : Bytes → Bytes → Bytes → Bytes
  compute_sign_hash2 hash1 name_hash prefix =
      sha1 ((hash1 ++ name_hash) ++ write_sign_prefix prefix)

  unfoldable pub compute_sign_hash3 : Bytes → Bytes → Bytes → Bytes
  compute_sign_hash3 file_hash name_hash prefix =
      sha1 ((file_hash ++ name_hash) ++ write_sign_prefix prefix)

  unfoldable pub compute_sign_name_hash : List EntryInfo → Bytes
  compute_sign_name_hash entries = sha1 (distinct_names [] (sort_by (λ n. n) (sign_names entries)))

  unfoldable pub compute_sign_file_hash : ℕ → ReaderAt → List EntryInfo → ℕ → Bytes → Result Bytes
  compute_sign_file_hash fuel ra entries version game = do
    (out, any) ← hash_files fuel ra version (normalize_game_type game) entries [] false
    ok (sha1 (if any then out else out ++ nothing_hashed version))

  unfoldable pub compute_hash_set_from_packed_parts :
      ℕ → ReaderAt → ℕ → Bool → List HeaderPair → List EntryInfo → ℕ → Bytes → Result HashSet
  compute_hash_set_from_packed_parts fuel ra size has_trailer headers entries version game = do
    first ← compute_sign_hash1 fuel ra size has_trailer
    file_hash ← compute_sign_file_hash fuel ra entries version game
    let prefix = pbo_prefix_from_headers headers
    let name_hash = compute_sign_name_hash entries
    ok (record {
      hash1 = first;
      hash2 = compute_sign_hash2 first name_hash prefix;
      hash3 = compute_sign_hash3 file_hash name_hash prefix;
    })

  -- A reader that is open: the index and the rest of its fields.
  unfoldable pub compute_hash_set_from_reader :
      ℕ → ReaderAt → ℕ → Index → ℕ → Bytes → Result HashSet
  compute_hash_set_from_reader fuel ra size index version game =
      compute_hash_set_from_packed_parts fuel ra size (is_some (sha1_trailer ra size)) index.headers
        index.entries version game

  -- `Open` with the default options, on a file that can be read.
  unfoldable pub compute_hash_set : ℕ → Bytes → ℕ → Bytes → Result HashSet
  compute_hash_set fuel content version game =
      validate_sign_hash_args version game
      >> (parse_index fuel (bytes_reader content) (length content) sequential >>= λ index.
          compute_hash_set_from_reader fuel (bytes_reader content) (length content) index version
            game)
