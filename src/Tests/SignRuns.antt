-- ===== src/Tests/SignRuns.antt =====
-- A trailer, and the hashes of a small archive.
use Prim.Native.String.{String}
use mathlib.Core.List.Perm
use pbo.Common.{
  ℕ, is_some, ◌<◌, ◌≡◌, ◌≢◌, ◌⊎◌, refl, false, List, [], ◌∷◌, ◌++◌, some, Bytes, arith, take,
  length, length-take, length-append, length-replicate, replicate,
}
use pbo.Model.{ok, EntryInfo, HeaderPair}
use pbo.Text.{codes, ascii_lower, lower_byte, equal}
use pbo.Wire.{bytes_reader}
use pbo.Reader.{sha1_trailer}
use pbo.Trailer.{write_sha1_trailer, write_pos, write_at, is_trailer}
use pbo.Trailer.Laws.{trailed, write_sha1_trailer_lem, write_sha1_trailer_idem}
use pbo.Sign.{
  validate_sign_hash_args, normalize_game_type, pbo_prefix_from_headers, write_sign_prefix,
}
use pbo.Sign.Trailed.{compute_sign_hash1-write_sha1_trailer}
use pbo.Sign.Packed.{compute_sign_hash1, compute_sign_name_hash, compute_hash_set_from_packed_parts}
use pbo.Sign.Content.{IsWithin, body_of, signed_content, compute_hash_set_lem}
use pbo.Sign.Names.{compute_sign_name_hash-perm}

-- A hash of 20 bytes: the first ones, and zeros behind.
abbrev pad : Bytes → Bytes
pad s = take 20 (s ++ replicate 20 0)

length-pad : (s : Bytes) → length (pad s) ≡ 20
length-pad s = omega (
  arith,
  length-take 20 (s ++ replicate 20 0),
  length-append s (replicate 20 0),
  length-replicate {A = ℕ} 20 0,
)

write_sha1_trailer_lem_example :
    (body : Bytes) × (write_sha1_trailer pad (codes "body") ≡ trailed pad body)
    × (((codes "body" ≡ body) × ((b : Bytes) → codes "body" ≢ trailed pad b))
        ⊎ (codes "body" ≡ trailed pad body))
    × (sha1_trailer
          (bytes_reader (write_sha1_trailer pad (codes "body")))
          (length (write_sha1_trailer pad (codes "body")))
        ≡ some (pad body))
write_sha1_trailer_lem_example = write_sha1_trailer_lem pad length-pad (codes "body")

write_sha1_trailer_idem_example :
    write_sha1_trailer pad (write_sha1_trailer pad (codes "body"))
    ≡ write_sha1_trailer pad (codes "body")
write_sha1_trailer_idem_example = write_sha1_trailer_idem pad length-pad (codes "body")

abbrev row : String → ℕ → EntryInfo
row name at = record {
  path = codes name;
  offset = at;
  data_size = 1;
  original_size = 1;
  time_stamp = 0;
  mime_type = 0;
}

abbrev rows : List EntryInfo
rows = row "a/B.cpp" 0 ∷ row "c.paa" 1 ∷ []

abbrev prefixes : List HeaderPair
prefixes = record { key = codes "Prefix"; value = codes "x" } ∷ []

valid : validate_sign_hash_args 3 (codes "Arma") ≡ ok tt
unfolding validate_sign_hash_args normalize_game_type ascii_lower lower_byte equal
valid = refl

compute_hash_set_lem_example :
    compute_hash_set_from_packed_parts pad 5
      (bytes_reader (codes "xyz"))
      3
      false
      prefixes
      rows
      3
      (codes "Arma")
    ≡ (let prefix = pbo_prefix_from_headers prefixes in
        let first = pad (body_of (codes "xyz") false) in
        let names = compute_sign_name_hash pad rows in
        ok (record {
          hash1 = first;
          hash2 = pad ((first ++ names) ++ write_sign_prefix prefix);
          hash3 = pad (
              (pad (signed_content 3 (codes "Arma") (codes "xyz") rows) ++ names)
              ++ write_sign_prefix prefix);
        }))
unfolding IsWithin
compute_hash_set_lem_example =
    compute_hash_set_lem 3 (codes "Arma") valid pad 5 (codes "xyz") rows
      ((omega arith, omega arith), ((omega arith, omega arith), tt)) prefixes false (omega arith)

compute_sign_name_hash-perm_example :
    compute_sign_name_hash pad (row "b" 1 ∷ row "a" 0 ∷ [])
    ≡ compute_sign_name_hash pad (row "a" 0 ∷ row "b" 1 ∷ [])
compute_sign_name_hash-perm_example =
    compute_sign_name_hash-perm pad (row "b" 1 ∷ row "a" 0 ∷ []) (row "a" 0 ∷ row "b" 1 ∷ [])
      (Perm.swap (row "a" 0) (row "b" 1) [])

fits : length (write_sha1_trailer pad (codes "body")) < 100
unfolding write_sha1_trailer write_pos write_at is_trailer equal
fits = omega arith

compute_sign_hash1-write_sha1_trailer_example :
    (hash : Bytes) × (sha1_trailer
        (bytes_reader (write_sha1_trailer pad (codes "body")))
        (length (write_sha1_trailer pad (codes "body")))
      ≡ some hash)
    × (compute_sign_hash1 pad 100
          (bytes_reader (write_sha1_trailer pad (codes "body")))
          (length (write_sha1_trailer pad (codes "body")))
          (is_some (
            sha1_trailer
              (bytes_reader (write_sha1_trailer pad (codes "body")))
              (length (write_sha1_trailer pad (codes "body")))))
        ≡ ok hash)
compute_sign_hash1-write_sha1_trailer_example =
    compute_sign_hash1-write_sha1_trailer pad length-pad 100 (codes "body") fits
