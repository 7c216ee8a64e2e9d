-- ===== src/Archive/Rows.antt =====
-- The payload loop: the records it collects lay their payloads out one behind the other.
use pbo.Common.{
  ℕ, ◌+◌, ◌^◌, ◌≤◌, ◌<◌, ◌≡◌, refl, sym, ◌∙◌, subst, List, [], ◌∷◌, ◌++◌, Option, none, some,
  length, Bytes, All, arith, max_u32, add_u32, length-append, append_assoc, append-nil,
}
use pbo.Model.{Error, ok, bind-eq-ok, ok-injective, EntryInfo}
use pbo.Wire.{ReaderAt}
use pbo.Offsets.Sequential.{laid_out, total_data}
use pbo.Table.RoundTrip.{IsWords}
use pbo.Payload.{WrittenEntry, RewriteEntry, PackOptions}
use pbo.Payload.Sizes.{
  IsPayload, IsPayloadOk, write_rewrite_input_payload-IsPayload,
  write_source_packed_payload-IsPayload,
}
use pbo.Archive.{
  Progress, append_written_entry, write_item, write_items, stored_entry, check_context,
}

-- An entry taken over from another archive has uint32 fields.
abbrev pub IsSource : Option EntryInfo → Type 0
IsSource none = Unit
IsSource (some e) = (e.original_size < 2 ^ 32) × (e.mime_type < 2 ^ 32) × (e.time_stamp < 2 ^ 32)

abbrev pub IsItem : RewriteEntry → Type 0
IsItem item = IsSource item.source

-- The rows of the final table.
abbrev pub rows : List RewriteEntry → List WrittenEntry → List EntryInfo
rows [] written = []
rows (item ∷ plan) [] = []
rows (item ∷ plan) (r ∷ written) = stored_entry item.path r ∷ rows plan written

-- What the loop adds to its variables.
pub record Wrote (plan : List RewriteEntry) (p q : Progress) : Type 0 where
  pub added : List WrittenEntry
  pub bytes : Bytes
  pub written : q.written ≡ p.written ++ added
  pub one_each : length added ≡ length plan
  pub payloads : q.payloads ≡ p.payloads ++ bytes
  pub entries : q.entries ≡ p.entries ++ laid_out p.current_offset (rows plan added)
  pub counts : length bytes ≡ total_data (rows plan added)
  pub current : q.current_offset ≡ p.current_offset + total_data (rows plan added)
  pub bounded : q.current_offset ≤ max_u32
  pub words : All IsWords (rows plan added)

Wrote-nil : (p : Progress) → p.current_offset ≤ max_u32 → Wrote [] p p
Wrote-nil p h = record {
  added = [];
  bytes = [];
  written = sym (append-nil p.written);
  one_each = refl;
  payloads = sym (append-nil p.payloads);
  entries = sym (append-nil p.entries);
  counts = refl;
  current = omega arith;
  bounded = h;
  words = tt;
}

stored-IsWords :
    (path : Bytes) (r : WrittenEntry) (payload : Bytes) (current : ℕ)
    → IsPayload current (r, payload)
    → IsWords (stored_entry path r)
unfolding stored_entry
stored-IsWords path r payload current h = record {
  offset = omega arith;
  data_size = omega (arith, h.fits);
  original_size = h.original;
  time_stamp = h.stamp;
  mime_type = h.mime;
}

Wrote-cons :
    (item : RewriteEntry) (plan : List RewriteEntry) (p q : Progress) (r : WrittenEntry)
    (payload : Bytes)
    → IsPayload p.current_offset (r, payload)
    → Wrote plan (append_written_entry p item.path r payload) q
    → Wrote (item ∷ plan) p q
unfolding append_written_entry stored_entry
Wrote-cons item plan p q r payload h w =
    let next : add_u32 p.current_offset r.data_size ≡ p.current_offset + r.data_size =
      omega (arith, h.fits) in
    record {
      added = r ∷ w.added;
      bytes = payload ++ w.bytes;
      written = w.written ∙ append_assoc p.written (r ∷ []) w.added;
      one_each = omega (arith, w.one_each);
      payloads = w.payloads ∙ append_assoc p.payloads payload w.bytes;
      entries = w.entries ∙ append_assoc p.entries _ _ ∙ rw next;
      counts = omega (arith, length-append payload w.bytes, h.counts, w.counts);
      current = omega (arith, w.current, next);
      bounded = w.bounded;
      words = (stored-IsWords item.path r payload p.current_offset h, w.words);
    }

write_item-IsPayload :
    (fuel buffer : ℕ) (src : Option ReaderAt) (opts : PackOptions) (source : Option EntryInfo)
    (item : RewriteEntry) (current : ℕ)
    → current ≤ max_u32
    → IsSource source
    → IsPayloadOk current (write_item fuel buffer src opts source item current)
unfolding write_item
write_item-IsPayload fuel buffer src opts none item current hc h =
    write_rewrite_input_payload-IsPayload fuel buffer item.input opts current hc
write_item-IsPayload fuel buffer none opts (some e) item current hc h = tt
write_item-IsPayload fuel buffer (some ra) opts (some e) item current hc (ho, hm, ht) =
    write_source_packed_payload-IsPayload fuel buffer ra item.path e current hc ho hm ht

append_written_entry-bounded :
    (p : Progress) (path : Bytes) (r : WrittenEntry) (payload : Bytes)
    → IsPayload p.current_offset (r, payload)
    → (append_written_entry p path r payload).current_offset ≤ max_u32
unfolding append_written_entry
append_written_entry-bounded p path r payload h = omega (arith, h.fits)

pub write_items-Wrote :
    (fuel buffer : ℕ) (src : Option ReaderAt) (opts : PackOptions) (ctx : ℕ → Option Error)
    (plan : List RewriteEntry) (i : ℕ) (p : Progress) {q : Progress}
    → All IsItem plan
    → p.current_offset ≤ max_u32
    → write_items fuel buffer src opts ctx i plan p ≡ ok q
    → Wrote plan p q
unfolding write_items
write_items-Wrote fuel buffer src opts ctx [] i p {q} _ hp e =
    subst (Wrote [] p) (ok-injective e) (Wrote-nil p hp)
write_items-Wrote fuel buffer src opts ctx (item ∷ plan) i p {q} (hi, his) hp e =
    let (_, _, e₁) = bind-eq-ok (check_context (ctx i)) _ e in
    let ((r, payload), wrote, e₂) =
      bind-eq-ok (write_item fuel buffer src opts item.source item p.current_offset) _ e₁ in
    let h : IsPayload p.current_offset (r, payload) =
      subst (IsPayloadOk p.current_offset) wrote
        (write_item-IsPayload fuel buffer src opts item.source item p.current_offset hp hi) in
    Wrote-cons item plan p q r payload h (
      write_items-Wrote fuel buffer src opts ctx plan (i + 1)
        (append_written_entry p item.path r payload) his
        (append_written_entry-bounded p item.path r payload h) e₂)
