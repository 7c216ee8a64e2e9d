-- ===== src/Sign.antt =====
-- sign_hashset.go and sign_types.go: the hashes that signatures are made of. SHA-1 is an argument;
-- what the code writes into a hash state is collected and hashed at the end. Versions and game types
-- stand for the values of Go's named types.
pub mod Names
pub mod Packed
pub mod Chunks
pub mod Content
pub mod Trailed
use pbo.Common.{
  ℕ, zero, suc, ◌+◌, ◌-◌, Bool, true, false, not, ◌&&◌, ◌||◌, List, [], ◌∷◌, ◌++◌, Option, none,
  some, ltb, leb, ◌==◌, if◌then◌else◌, length, drop, min, Bytes,
}
use pbo.Text.{codes, equal, lower_byte, ascii_lower, last_index}
use pbo.Model.{
  Error, Result, ok, err, ◌>>=◌, ◌>>◌, guard, unsupported_sign_version, unsupported_game_type_v3,
  no_progress, out_of_fuel, eof, EntryInfo, HeaderPair,
}
use pbo.Wire.{ReaderAt, is_empty}
use pbo.Sorting.{sort_by}

pub record HashSet : Type 0 where
  pub hash1 : Bytes
  pub hash2 : Bytes
  pub hash3 : Bytes

abbrev pub sign_version_v2 : ℕ
sign_version_v2 = 2

abbrev pub sign_version_v3 : ℕ
sign_version_v3 = 3

abbrev pub game_type_arma : Bytes
game_type_arma = codes "arma"

abbrev pub game_type_dayz : Bytes
game_type_dayz = codes "dayz"

unfoldable pub normalize_game_type : Bytes → Bytes
normalize_game_type game = ascii_lower game

unfoldable pub validate_sign_hash_args : ℕ → Bytes → Result (Unit {0})
validate_sign_hash_args version game =
    let g = normalize_game_type game in
    guard (version == sign_version_v2 || version == sign_version_v3) unsupported_sign_version
    >> guard
        (not (
          version == sign_version_v3
          && (not (equal g game_type_arma) && not (equal g game_type_dayz))))
        unsupported_game_type_v3

-- `strings.EqualFold` with "prefix": no other letter than the ASCII ones folds to one of its letters.
unfoldable pub pbo_prefix_from_headers : List HeaderPair → Bytes
pbo_prefix_from_headers [] = []
pbo_prefix_from_headers (h ∷ hs) =
    let rest = pbo_prefix_from_headers hs in
    if equal (ascii_lower h.key) (codes "prefix") then h.value else rest

-- `strings.HasSuffix` with one byte
unfoldable pub has_suffix_byte : ℕ → Bytes → Bool
has_suffix_byte b [] = false
has_suffix_byte b (c ∷ []) = c == b
has_suffix_byte b (c ∷ d ∷ s) = has_suffix_byte b (d ∷ s)

-- What is written of the prefix.
unfoldable pub write_sign_prefix : Bytes → Bytes
write_sign_prefix prefix =
    if is_empty prefix
    then []
    else if has_suffix_byte b'\\' prefix
    then prefix
    else prefix ++ b'\\' ∷ []

-- One byte of a name: a slash is turned, an ASCII letter is lowered.
unfoldable pub sign_name_byte : ℕ → ℕ
sign_name_byte c = if c == b'/' then b'\\' else lower_byte c

unfoldable pub needs_transform : Bytes → Bool
needs_transform [] = false
needs_transform (c ∷ s) = (c == b'/' || leb b'A' c && leb c b'Z') || needs_transform s

unfoldable pub transform_name : Bytes → Bytes
transform_name [] = []
transform_name (c ∷ s) = sign_name_byte c ∷ transform_name s

unfoldable pub normalize_sign_entry_name : Bytes → Bytes
normalize_sign_entry_name path = if needs_transform path then transform_name path else path

-- The skipped rows: no path, or no data.
unfoldable pub is_skipped : EntryInfo → Bool
is_skipped e = is_empty e.path || e.data_size == 0

unfoldable pub sign_names : List EntryInfo → List Bytes
sign_names [] = []
sign_names (e ∷ es) =
    let rest = sign_names es in
    if is_skipped e then rest else normalize_sign_entry_name e.path ∷ rest

-- The loop over the sorted names, behind the name `prev`.
unfoldable pub distinct_names : Bytes → List Bytes → Bytes
distinct_names prev [] = []
distinct_names prev (n ∷ ns) =
    let rest = distinct_names (if equal n prev then prev else n) ns in
    if equal n prev then rest else n ++ rest

abbrev pub is_separator : ℕ → Bool
is_separator c = c == b'/' || c == b'\\'

unfoldable pub sign_file_ext_lower : Bytes → Bytes
sign_file_ext_lower filename =
    let sep = last_index is_separator filename in
    let dot = last_index (λ c. c == b'.') filename in
    if leb dot sep || leb (length filename) dot then [] else ascii_lower (drop dot filename)

-- A `switch` over strings with one result.
unfoldable pub is_one_of : List Bytes → Bytes → Bool
is_one_of [] s = false
is_one_of (t ∷ ts) s = equal s t || is_one_of ts s

unfoldable pub is_v2_sign_excluded_ext : Bytes → Bool
is_v2_sign_excluded_ext = is_one_of (
    codes "paa"
    ∷ codes "jpg"
    ∷ codes "p3d"
    ∷ codes "tga"
    ∷ codes "rvmat"
    ∷ codes "lip"
    ∷ codes "ogg"
    ∷ codes "wss"
    ∷ codes "png"
    ∷ codes "rtm"
    ∷ codes "pac"
    ∷ codes "fxy"
    ∷ codes "wrp"
    ∷ [])

unfoldable pub is_dayz_v3_sign_allowed_ext : Bytes → Bool
is_dayz_v3_sign_allowed_ext = is_one_of (
    codes "bikb"
    ∷ codes "c"
    ∷ codes "ext"
    ∷ codes "hpp"
    ∷ codes "cfg"
    ∷ codes "h"
    ∷ codes "inc"
    ∷ [])

unfoldable pub is_arma_v3_sign_allowed_ext : Bytes → Bool
is_arma_v3_sign_allowed_ext = is_one_of (
    codes "sqf"
    ∷ codes "inc"
    ∷ codes "bikb"
    ∷ codes "ext"
    ∷ codes "fsm"
    ∷ codes "sqm"
    ∷ codes "hpp"
    ∷ codes "cfg"
    ∷ codes "sqs"
    ∷ codes "h"
    ∷ codes "cpp"
    ∷ [])

unfoldable pub should_hash_file_for_sign : ℕ → Bytes → Bytes → Result Bool
should_hash_file_for_sign version game filename =
    let ext = sign_file_ext_lower filename in
    let g = normalize_game_type game in
    if version == sign_version_v2
    then ok (not (is_v2_sign_excluded_ext ext))
    else if version == sign_version_v3
    then (if equal g game_type_dayz
        then ok (is_dayz_v3_sign_allowed_ext ext)
        else if equal g game_type_arma
        then ok (is_arma_v3_sign_allowed_ext ext)
        else err unsupported_game_type_v3)
    else err unsupported_sign_version
