-- ===== src/Listing/Laws.antt =====
-- metadata.go against the reader, and what sanitising options promise of an open reader.
use pbo.Common.{
  ℕ, ◌≤◌, ◌≡◌, refl, sym, ◌∙◌, ap, subst, arith, Bool, true, false, leb, if◌then◌else◌, Bytes, All,
  ◌⊎◌, inl, inr,
}
use pbo.Model.{
  Error, Result, ok, err, ◌>>=◌, bind-eq-ok, ok-injective, header_size, EntryInfo, ReaderOptions,
  reader_apply_defaults,
}
use pbo.Wire.{ReaderAt}
use pbo.Header.{parse_header_section}
use pbo.Table.{parse_entries_buffered}
use pbo.Offsets.Defs.{resolve_entry_offsets}
use pbo.Reader.{Index, parse_index, sha1_trailer}
use pbo.Extract.{normalize_extract_entry_path}
use pbo.Maps.Laws.{Distinct}
use pbo.Sealed.Layout.{prepare_reader_at}
use pbo.Sanitize.Entries.{sanitize_entry_info_paths, sanitize_entry_info_control_paths}
use pbo.Sanitize.Unique.{sanitize_entry_info_paths_lem}
use pbo.Listing.{
  Reader, drop_entries, rewrite_entries, parse, new_reader, read_headers, list_entries,
}

Result-cases {ℓ} :
    {A : Type ℓ} (m : Result A) → ((e : Error) × (m ≡ err e)) ⊎ ((a : A) × (m ≡ ok a))
Result-cases (err e) = inl (e, refl)
Result-cases (ok a) = inr (a, refl)

-- Entries that are put into a reader and taken out.
through {ℓ} :
    {A : Type ℓ} (m : Result A) (make : A → Reader) (take_out : Reader → A)
    → ((a : A) → take_out (make a) ≡ a)
    → m ≡ ((m >>= λ a. ok (make a)) >>= λ r. ok (take_out r))
through (err e) make take_out h = refl
through (ok a) make take_out h = ap ok (sym (h a))

if_true {ℓ} :
    {A : Type ℓ} (b : Bool) (x y : A) {out : A} → b ≡ true → (if b then x else y) ≡ out → x ≡ out
if_true true x y h e = e
if_true false x y h e = cc

module _ (lower : Bytes → Bytes) (is_format : ℕ → Bool) where
  -- On a source that is not shorter than a header, the list of the entries is that of an open
  -- reader, and fails as the opening does.
  pub list_entries-new_reader :
      (fuel : ℕ) (ra : ReaderAt) (size : ℕ) (opts : ReaderOptions)
      → header_size ≤ size
      → list_entries lower is_format fuel ra size opts
        ≡ (new_reader lower is_format fuel ra size opts >>= λ r. ok r.entries)
  unfolding list_entries new_reader parse parse_index drop_entries rewrite_entries
  list_entries-new_reader fuel ra size raw h =
      let long : leb header_size size ≡ true = ground arith in
      let opts = reader_apply_defaults raw in
      elim (Result-cases (prepare_reader_at fuel ra size opts.sealed_key)) [
        | inl (e, p) ↦ rw (long, p) refl
        | inr (plain, p) ↦ elim (Result-cases (parse_header_section fuel plain)) [
          | inl (e, p₁) ↦ rw (long, p, p₁) refl
          | inr ((header, headers, off), p₁) ↦
              elim (Result-cases (parse_entries_buffered fuel plain off size)) [
                | inl (e, p₂) ↦ rw (long, p, p₁, p₂) refl
                | inr ((entries, entries_end), p₂) ↦
                    elim (Result-cases
                      (resolve_entry_offsets entries entries_end size opts.offset_mode)) [
                        | inl (e, p₃) ↦ rw (long, p, p₁, p₂, p₃) refl
                        | inr (resolved, p₃) ↦
                            rw (long, p, p₁, p₂, p₃)
                              (through
                                (rewrite_entries lower is_format opts
                                  (drop_entries lower is_format opts resolved))
                                (λ es. record {
                                  header = header;
                                  headers = headers;
                                  entries = es;
                                  data_start = entries_end;
                                  sha1_trailer_hash = sha1_trailer plain size;
                                })
                                (λ r. r.entries) (λ es. refl))
                      ]
              ]
        ]
      ]

  -- The header pairs of an open reader are those that are read alone.
  pub read_headers-new_reader :
      (fuel : ℕ) (ra : ReaderAt) (size : ℕ) (opts : ReaderOptions) {r : Reader}
      → header_size ≤ size
      → new_reader lower is_format fuel ra size opts ≡ ok r
      → read_headers lower is_format fuel ra size opts ≡ ok r.headers
  unfolding read_headers new_reader parse parse_index
  read_headers-new_reader fuel ra size raw h e =
      let long : leb header_size size ≡ true = ground arith in
      let opts = reader_apply_defaults raw in
      let (plain, p, e₁) = bind-eq-ok (prepare_reader_at fuel ra size opts.sealed_key) _ e in
      let (index, p₁, e₂) = bind-eq-ok (parse_index fuel plain size opts.offset_mode) _ e₁ in
      let ((header, headers, off), p₂, e₃) = bind-eq-ok (parse_header_section fuel plain) _ p₁ in
      let ((entries, entries_end), p₃, e₄) =
        bind-eq-ok (parse_entries_buffered fuel plain off size) _ e₃ in
      let (resolved, p₄, e₅) =
        bind-eq-ok (resolve_entry_offsets entries entries_end size opts.offset_mode) _ e₄ in
      let (filtered, p₅, e₆) =
        bind-eq-ok
          (rewrite_entries lower is_format opts (drop_entries lower is_format opts index.entries)) _
          e₂ in
      rw (long, p, p₂)
        (ap ok (
          ap (λ (i : Index). i.headers) (ok-injective e₅)
          ∙ ap (λ (r : Reader). r.headers) (ok-injective e₆)))

  -- With the option that sanitises names, an open reader has no two entries whose paths have the same
  -- lower-case form, and the extraction accepts each path.
  pub new_reader-sanitized :
      (fuel : ℕ) (ra : ReaderAt) (size : ℕ) (opts : ReaderOptions) {r : Reader}
      → opts.sanitize_names ≡ true
      → new_reader lower is_format fuel ra size opts ≡ ok r
      → Distinct (λ (e : EntryInfo). lower e.path) r.entries
        × All
            (λ (e : EntryInfo). (path : Bytes) × (normalize_extract_entry_path e.path ≡ ok path))
            r.entries
  unfolding new_reader parse rewrite_entries reader_apply_defaults
  new_reader-sanitized fuel ra size raw on e =
      let opts = reader_apply_defaults raw in
      let (plain, p, e₁) = bind-eq-ok (prepare_reader_at fuel ra size opts.sealed_key) _ e in
      let (index, p₁, e₂) = bind-eq-ok (parse_index fuel plain size opts.offset_mode) _ e₁ in
      let kept = drop_entries lower is_format opts index.entries in
      let (filtered, p₂, e₃) = bind-eq-ok (rewrite_entries lower is_format opts kept) _ e₂ in
      let (controlled, p₃, e₄) =
        bind-eq-ok
          (if opts.sanitize_control_chars
            then sanitize_entry_info_control_paths lower is_format kept
            else ok kept)
          _ p₂ in
      let last : sanitize_entry_info_paths lower is_format controlled ≡ ok filtered =
        if_true opts.sanitize_names (sanitize_entry_info_paths lower is_format controlled)
          (ok controlled) on e₄ in
      let (renamed, distinct, accepted) =
        sanitize_entry_info_paths_lem lower is_format controlled last in
      let same = ap (λ (r : Reader). r.entries) (ok-injective e₃) in
      (
        subst (Distinct (λ (e : EntryInfo). lower e.path)) same distinct,
        subst
            (All
              (λ (e : EntryInfo). (path : Bytes) × (normalize_extract_entry_path e.path ≡ ok path)))
            same accepted,
      )
