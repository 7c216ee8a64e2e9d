-- ===== src/Sign/Content.antt =====
-- What sign_hashset.go hashes of an archive whose payloads lie within the file.
use pbo.Common.{
  ℕ, ◌+◌, ◌-◌, ◌≤◌, ◌<◌, ◌≡◌, refl, sym, ◌∙◌, ap, ap₂, arith, Bool, true, false, not, ◌&&◌, ◌||◌,
  List, [], ◌∷◌, ◌++◌, leb, ◌==◌, if◌then◌else◌, length, take, Bytes, All, Bool-cases, inl, inr,
  append-nil, append_assoc,
}
use pbo.Text.{equal, lower_byte, ascii_lower}
use pbo.Model.{
  Result, ok, err, guard, guard-eq-ok, bind-eq-ok, unsupported_sign_version,
  unsupported_game_type_v3, EntryInfo, HeaderPair,
}
use pbo.Wire.{bytes_reader}
use pbo.Sign.{
  game_type_arma, game_type_dayz, normalize_game_type, validate_sign_hash_args,
  pbo_prefix_from_headers, write_sign_prefix, is_skipped, should_hash_file_for_sign,
}
use pbo.Sign.Packed.{
  is_selected, hash_files, nothing_hashed, compute_sign_hash1, compute_sign_hash2,
  compute_sign_hash3, compute_sign_name_hash, compute_sign_file_hash,
  compute_hash_set_from_packed_parts,
}
use pbo.Wire.Parts.{part_of}
use pbo.Sign.Chunks.{hash_packed_loop_lem, copy_section_lem}

-- The archive without its trailer.
abbrev pub body_of : Bytes → Bool → Bytes
body_of content has_trailer =
    take (if has_trailer && leb 21 (length content) then length content - 21 else length content)
      content

module _ (sha1 : Bytes → Bytes) (fuel : ℕ) (content : Bytes) where
  pub hash1_lem :
      (has_trailer : Bool)
      → length content < fuel
      → compute_sign_hash1 sha1 fuel (bytes_reader content) (length content) has_trailer
        ≡ ok (sha1 (body_of content has_trailer))
  unfolding compute_sign_hash1
  hash1_lem has_trailer h =
      let stop =
        if has_trailer && leb 21 (length content) then length content - 21 else length content in
      let whole : stop - 0 ≡ stop = omega arith in
      let inside : stop ≤ length content = ground arith in
      rw (copy_section_lem fuel content 0 stop [] (omega arith) inside (omega arith))
        (ap (λ k. ok (sha1 (take k content))) whole)

lower_byte-lower_byte : (c : ℕ) → lower_byte (lower_byte c) ≡ lower_byte c
unfolding lower_byte
lower_byte-lower_byte c = ground arith

ascii_lower-ascii_lower : (s : Bytes) → ascii_lower (ascii_lower s) ≡ ascii_lower s
unfolding ascii_lower
ascii_lower-ascii_lower [] = refl
ascii_lower-ascii_lower (c ∷ s) =
    ap (◌∷◌ (lower_byte (lower_byte c))) (ascii_lower-ascii_lower s)
    ∙ ap (λ d. d ∷ ascii_lower s) (lower_byte-lower_byte c)

-- Whether a row is taken, and the rows that are.
abbrev pub is_taken : Result Bool → Bool
is_taken (ok b) = b
is_taken (err e) = false

unfoldable pub signed_rows : ℕ → Bytes → List EntryInfo → List EntryInfo
signed_rows version game [] = []
signed_rows version game (e ∷ es) =
    let rest = signed_rows version game es in
    if is_taken (is_selected version game e) then e ∷ rest else rest

unfoldable pub payloads : Bytes → List EntryInfo → Bytes
payloads content [] = []
payloads content (e ∷ es) = part_of content e.offset e.data_size ++ payloads content es

-- The payload lies within the file, and there is fuel for it.
unfoldable pub IsWithin : ℕ → Bytes → EntryInfo → Type 0
IsWithin fuel content e = (e.offset + e.data_size ≤ length content) × (e.data_size < fuel)

unfoldable pub is_any : List EntryInfo → Bool
is_any [] = false
is_any (e ∷ es) = true

-- The bytes of the files that are signed.
unfoldable pub signed_content : ℕ → Bytes → Bytes → List EntryInfo → Bytes
signed_content version game content entries =
    let rows = signed_rows version (normalize_game_type game) entries in
    if is_any rows then payloads content rows else nothing_hashed version

no_rows :
    (version : ℕ) (content : Bytes) (rows : List EntryInfo)
    → (if false || is_any rows
        then payloads content rows
        else payloads content rows ++ nothing_hashed version)
      ≡ (if is_any rows then payloads content rows else nothing_hashed version)
unfolding payloads is_any
no_rows version content [] = refl
no_rows version content (e ∷ es) = refl

or_false : (b : Bool) → b ≡ (b || false)
or_false b = ground arith

or_true : (b c : Bool) → ((b || true) || c) ≡ (b || true)
or_true b c = ground arith

module _ (version : ℕ) (game : Bytes) (valid : validate_sign_hash_args version game ≡ ok tt) where
  should_hash_total :
      (name : Bytes)
      → should_hash_file_for_sign version (normalize_game_type game) name
        ≡ ok (is_taken (should_hash_file_for_sign version (normalize_game_type game) name))
  unfolding should_hash_file_for_sign validate_sign_hash_args normalize_game_type
  should_hash_total name =
      let again = ascii_lower-ascii_lower game in
      let g = ascii_lower game in
      let (known, e₁, e₂) =
        bind-eq-ok (guard (version == 2 || version == 3) unsupported_sign_version) _ valid in
      let is_known = guard-eq-ok (version == 2 || version == 3) unsupported_sign_version e₁ in
      let is_game =
        guard-eq-ok
          (not (version == 3 && (not (equal g game_type_arma) && not (equal g game_type_dayz))))
          unsupported_game_type_v3 e₂ in
      rw (again) (ground arith)

  is_selected_lem :
      (e : EntryInfo)
      → is_selected version (normalize_game_type game) e
        ≡ ok (is_taken (is_selected version (normalize_game_type game) e))
  unfolding is_selected
  is_selected_lem e = elim (Bool-cases (is_skipped e)) [
    | inl skipped ↦ rw (skipped) refl
    | inr used ↦ rw (used) (should_hash_total e.path)
  ]

  hash_files_lem :
      (fuel : ℕ) (content : Bytes) (es : List EntryInfo) (out : Bytes) (any : Bool)
      → All (IsWithin fuel content) es
      → hash_files fuel (bytes_reader content) version (normalize_game_type game) es out any
        ≡ ok (
          out ++ payloads content (signed_rows version (normalize_game_type game) es),
          any || is_any (signed_rows version (normalize_game_type game) es),
        )
  unfolding hash_files payloads signed_rows is_any IsWithin
  hash_files_lem fuel content [] out any h =
      ap₂ (λ a b. ok (a, b)) (sym (append-nil out)) (or_false any)
  hash_files_lem fuel content (e ∷ es) out any ((fits, fuel_left), h) =
      let selected = is_selected version (normalize_game_type game) e in
      let total = is_selected_lem e in
      elim (Bool-cases (is_taken selected)) [
        | inl taken ↦
            let here : selected ≡ ok true = total ∙ ap ok taken in
            let out' = out ++ part_of content e.offset e.data_size in
            let later = hash_files_lem fuel content es out' (any || true) h in
            rw (here, hash_packed_loop_lem fuel content e.offset e.data_size out fits fuel_left)
              (later
                ∙ ap₂ (λ a b. ok (a, b))
                    (append_assoc out (part_of content e.offset e.data_size)
                      (payloads content (signed_rows version (normalize_game_type game) es)))
                    (or_true any (is_any (signed_rows version (normalize_game_type game) es))))
        | inr left ↦
            let here : selected ≡ ok false = total ∙ ap ok left in
            rw (here) (
              hash_files_lem fuel content es out (any || false) h
              ∙ ap
                  (λ b. ok (
                    out ++ payloads content (signed_rows version (normalize_game_type game) es),
                    b || is_any (signed_rows version (normalize_game_type game) es),
                  ))
                  (sym (or_false any)))
      ]

  module _ (sha1 : Bytes → Bytes) (fuel : ℕ) (content : Bytes) (entries : List EntryInfo)
      (within : All (IsWithin fuel content) entries) where
    file_hash_lem :
        compute_sign_file_hash sha1 fuel (bytes_reader content) entries version game
        ≡ ok (sha1 (signed_content version game content entries))
    unfolding compute_sign_file_hash signed_content payloads is_any
    file_hash_lem =
        let rows = signed_rows version (normalize_game_type game) entries in
        rw (hash_files_lem fuel content entries [] false within)
          (ap (λ t. ok (sha1 t)) (no_rows version content rows))

    -- For a version and a game type that are supported, if the payloads lie within the file and there
    -- is fuel for its bytes: hash1 is the hash of the file without its trailer, hash2 of hash1, the
    -- name hash and the prefix, and hash3 of a hash, the name hash and the prefix, where that hash is
    -- of the stored payloads that the policy takes, in the order of the table, or of a fixed word if
    -- there is none.
    pub compute_hash_set_lem :
        (headers : List HeaderPair) (has_trailer : Bool)
        → length content < fuel
        → compute_hash_set_from_packed_parts sha1 fuel
            (bytes_reader content)
            (length content)
            has_trailer
            headers
            entries
            version
            game
          ≡ (let prefix = pbo_prefix_from_headers headers in
              let first = sha1 (body_of content has_trailer) in
              let names = compute_sign_name_hash sha1 entries in
              ok (record {
                hash1 = first;
                hash2 = sha1 ((first ++ names) ++ write_sign_prefix prefix);
                hash3 = sha1 (
                    (sha1 (signed_content version game content entries) ++ names)
                    ++ write_sign_prefix prefix);
              }))
    unfolding compute_hash_set_from_packed_parts compute_sign_hash2 compute_sign_hash3
    compute_hash_set_lem headers has_trailer h =
        rw (hash1_lem sha1 fuel content has_trailer h, file_hash_lem) refl
