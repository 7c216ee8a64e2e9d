-- ===== src/Paths.antt =====
-- path.go: the normal forms of archive paths. `path.Clean` on a rooted path is the resolution of
-- its segments.
pub mod Clean
use pbo.Common.{
  ℕ, ◌≡◌, refl, Bool, true, false, ◌||◌, List, [], ◌∷◌, ◌++◌, Option, none, some, ◌==◌,
  if◌then◌else◌, Bytes,
}
use pbo.Model.{Result, ok, err, guard, ◌>>=◌, ◌>>◌, invalid_entry_path}
use pbo.Wire.{is_empty}
use pbo.Text.{
  codes, equal, trim_space, replace_byte, trim_dot_slash, trim_prefix_byte, trim_suffix_byte, split,
  join,
}

-- Segments from the left; the stack holds the kept ones, the last on top. ".." at the root is
-- dropped.
pop : List Bytes → List Bytes
pop [] = []
pop (p ∷ ps) = ps

abbrev pub is_dot : Bytes → Bool
is_dot p = equal p (b'.' ∷ [])

abbrev pub is_dot_dot : Bytes → Bool
is_dot_dot p = equal p (b'.' ∷ b'.' ∷ [])

clean_segments : List Bytes → List Bytes → List Bytes
clean_segments stack [] = stack
clean_segments stack (p ∷ ps) =
    clean_segments
      (if is_empty p || is_dot p then stack else if is_dot_dot p then pop stack else p ∷ stack) ps

reverse_segments : List Bytes → List Bytes → List Bytes
reverse_segments out [] = out
reverse_segments out (p ∷ ps) = reverse_segments (p ∷ out) ps

-- `path.Clean("/" + s)`
unfoldable pub clean_rooted : Bytes → Bytes
unfolding clean_segments reverse_segments pop equal is_empty split join
clean_rooted s = b'/' ∷ join (reverse_segments [] (clean_segments [] (split s b'/'))) b'/'

unfoldable pub normalize_path_for_matching : Bytes → Bytes
unfolding trim_space replace_byte trim_dot_slash
normalize_path_for_matching path = trim_dot_slash (replace_byte b'\\' b'/' (trim_space path))

unfoldable pub normalize_path : Bytes → Bytes
unfolding normalize_path_for_matching clean_rooted trim_prefix_byte trim_suffix_byte
normalize_path raw =
    let trimmed = trim_prefix_byte b'/' (normalize_path_for_matching raw) in
    let cleaned = trim_prefix_byte b'/' (clean_rooted trimmed) in
    if is_dot cleaned then [] else trim_suffix_byte b'/' cleaned

unfoldable pub normalize_prefix_header : Bytes → Bytes
unfolding normalize_path
normalize_prefix_header raw =
    let normalized = normalize_path raw in
    if is_empty normalized then [] else replace_byte b'/' b'\\' normalized

unfoldable pub normalize_archive_entry_path : Bytes → Result Bytes
unfolding normalize_path
normalize_archive_entry_path raw =
    let normalized = normalize_path raw in
    if is_empty normalized then err invalid_entry_path else ok (replace_byte b'/' b'\\' normalized)

normalize_test : normalize_path (codes " ./a\\..//b/./c/ ") ≡ codes "b/c"
unfolding normalize_path
normalize_test = refl
