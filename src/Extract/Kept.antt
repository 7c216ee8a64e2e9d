-- ===== src/Extract/Kept.antt =====
-- The filters of filter.go: what they keep.
use pbo.Common.{
  ◌≡◌, ◌≢◌, refl, ap, ◌∙◌, arith, true, not, ◌&&◌, List, [], ◌∷◌, Bytes, All, ◌==◌, Bool-cases, inl,
  inr,
}
use pbo.Model.{Result, ok, err, EntryInfo, mime_compress}
use pbo.Text.{join}
use pbo.Extract.{normalize_extract_entry_path, filter_junk_entries, is_ok}
use pbo.Extract.Safe.{IsSafeSegment, normalize_extract_entry_path_lem}

-- An entry that can be extracted: it has bytes, a compressed one has an original size, and its path
-- is accepted, as segments that stay below the output directory.
pub record IsExtractable (e : EntryInfo) : Type 0 where
  pub some_data : e.data_size ≢ 0
  pub original_known : e.mime_type ≡ mime_compress → e.original_size ≢ 0
  pub segments : List Bytes
  pub some_segments : segments ≢ []
  pub accepted : normalize_extract_entry_path e.path ≡ ok (join segments b'/')
  pub safe : All IsSafeSegment segments

is_ok-cases : (r : Result Bytes) → is_ok r ≡ true → (p : Bytes) × (r ≡ ok p)
is_ok-cases (ok p) h = (p, refl)
is_ok-cases (err e) h = cc

-- What the loop of `filterJunkEntries` lets through.
kept-IsExtractable :
    (e : EntryInfo)
    → (not (e.data_size == 0)
        && (not (e.mime_type == mime_compress && e.original_size == 0)
            && is_ok (normalize_extract_entry_path e.path)))
      ≡ true
    → IsExtractable e
kept-IsExtractable e h =
    let safe_path : is_ok (normalize_extract_entry_path e.path) ≡ true = ground arith in
    let (p, accepted) = is_ok-cases (normalize_extract_entry_path e.path) safe_path in
    let (segments, some_segments, is_join, safe) =
      normalize_extract_entry_path_lem e.path accepted in
    record {
      some_data = ground arith;
      original_known = λ m. ground arith;
      segments = segments;
      some_segments = some_segments;
      accepted = accepted ∙ ap ok is_join;
      safe = safe;
    }

dropped-IsExtractable :
    (e : EntryInfo)
    → IsExtractable e
    → (not (e.data_size == 0)
        && (not (e.mime_type == mime_compress && e.original_size == 0)
            && is_ok (normalize_extract_entry_path e.path)))
      ≡ true
dropped-IsExtractable e h =
    let size = h.some_data in
    let original = h.original_known in
    let safe_path : is_ok (normalize_extract_entry_path e.path) ≡ true = ap is_ok h.accepted in
    ground arith

-- The second list is the first one without its entries that cannot be extracted, in order.
pub data Keeps : List EntryInfo → List EntryInfo → Type 0 where
  none_left : Keeps [] []
  keep :
      {e : EntryInfo} {es ks : List EntryInfo}
      → IsExtractable e
      → Keeps es ks
      → Keeps (e ∷ es) (e ∷ ks)
  leave :
      {e : EntryInfo} {es ks : List EntryInfo} → ¬ IsExtractable e → Keeps es ks → Keeps (e ∷ es) ks

-- The junk filter keeps, in order, exactly the entries that can be extracted: those that have bytes,
-- have an original size if they are compressed, and have a path that extraction accepts, which is
-- then a path of safe segments.
pub filter_junk_entries_lem : (es : List EntryInfo) → Keeps es (filter_junk_entries es)
unfolding filter_junk_entries
filter_junk_entries_lem [] = none_left
filter_junk_entries_lem (e ∷ es) =
    let rest = filter_junk_entries_lem es in
    elim (Bool-cases (
      not (e.data_size == 0)
      && (not (e.mime_type == mime_compress && e.original_size == 0)
          && is_ok (normalize_extract_entry_path e.path)))) [
            | inl good ↦ rw (good) (keep (kept-IsExtractable e good) rest)
            | inr bad ↦
                let refused : ¬ IsExtractable e = λ h. let good = dropped-IsExtractable e h in cc in
                rw (bad) (leave refused rest)
          ]
