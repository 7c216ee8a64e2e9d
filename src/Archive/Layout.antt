-- ===== src/Archive/Layout.antt =====
-- The bytes of the archive: patching the placeholders gives the table that printing the records
-- would have given.
use pbo.Common.{
  ℕ, ◌+◌, ◌-◌, ◌≡◌, refl, sym, ap, ap₂, ◌∙◌, List, [], ◌∷◌, ◌++◌, length, take, drop, replicate,
  Bytes, arith, length-append, append_assoc, append-nil, take-append, drop-append, drop-drop,
  drop-of_le, take-of_le,
}
use pbo.Table.{encode_fields, encode_entries, encode_table, table_end}
use pbo.Table.RoundTrip.{length-encode_fields, length-encode_table}
use pbo.Payload.{WrittenEntry, RewriteEntry}
use pbo.Archive.{File, overwrite, write, placeholder_table, patch_entries, stored_entry, fresh_file}
use pbo.Archive.Rows.{rows}

-- A write over as many bytes replaces them and nothing else.
overwrite_lem :
    (c : Bytes) (pos : ℕ) (pre old post new : Bytes)
    → c ≡ pre ++ (old ++ post)
    → pos ≡ length pre
    → length new ≡ length old
    → overwrite c pos new ≡ pre ++ (new ++ post)
unfolding overwrite
overwrite_lem c pos pre old post new split at same =
    let size = ap length split in
    let inside : pos - length c ≡ 0 =
      omega (arith, size, length-append pre (old ++ post), length-append old post) in
    let front : take pos c ≡ pre = ap₂ take at split ∙ take-append pre (old ++ post) in
    let back : drop (pos + length new) c ≡ post =
      ap₂ drop (ap₂ (λ a b. a + b) at same) split
      ∙ sym (drop-drop (length pre) (length old) _ (pre ++ (old ++ post)) refl)
      ∙ ap (drop (length old)) (drop-append pre (old ++ post))
      ∙ drop-append old post in
    rw (inside, front, back)

overwrite_end : (c : Bytes) (pos : ℕ) (d : Bytes) → pos ≡ length c → overwrite c pos d ≡ c ++ d
unfolding overwrite
overwrite_end c pos d at =
    let inside : pos - length c ≡ 0 = omega (arith, at) in
    rw
      (
        inside,
        take-of_le pos c (omega (arith, at)),
        drop-of_le (pos + length d) c (omega (arith, at)),
      )
      (ap (λ t. c ++ t) (append-nil d))

-- A write at the end appends.
pub write-end :
    (f : File) (d : Bytes)
    → f.pos ≡ length f.content
    → write f d ≡ record { content = f.content ++ d; pos = length (f.content ++ d) }
unfolding write
write-end f d at =
    let e : f.pos + length d ≡ length (f.content ++ d) = omega (arith, length-append f.content d) in
    let c : overwrite f.content f.pos d ≡ f.content ++ d = overwrite_end f.content f.pos d at in
    λ i. record { content = c i; pos = e i }

placeholder_table-nil : placeholder_table [] ≡ encode_entries (table_end ∷ [])
unfolding placeholder_table encode_entries encode_fields
placeholder_table-nil = refl

-- The write of one patch.
patch_row :
    (f : File) (path pre post fields : Bytes) (at : ℕ)
    → length fields ≡ 20
    → at ≡ length (pre ++ (path ++ 0 ∷ []))
    → f.content ≡ pre ++ (path ++ 0 ∷ (replicate 20 0 ++ post))
    → (write (record f { pos = at }) fields).content ≡ (pre ++ (path ++ 0 ∷ fields)) ++ post
unfolding write
patch_row f path pre post fields at size here e =
    let split = e ∙ sym (simp append_assoc) in
    overwrite_lem f.content at (pre ++ (path ++ 0 ∷ [])) (replicate 20 0) post fields split here
      size
    ∙ simp append_assoc

patch_entries_lem :
    (plan : List RewriteEntry) (written : List WrittenEntry) (f : File) (pos : ℕ) (pre post : Bytes)
    → length written ≡ length plan
    → pos ≡ length pre
    → f.content ≡ pre ++ (placeholder_table plan ++ post)
    → (patch_entries pos plan written f).content
      ≡ pre ++ (encode_entries (rows plan written) ++ (encode_entries (table_end ∷ []) ++ post))
unfolding patch_entries
patch_entries_lem [] written f pos pre post _ at e =
    e ∙ ap (λ t. pre ++ (t ++ post)) placeholder_table-nil ∙ unfold encode_entries in refl
patch_entries_lem (item ∷ plan) [] f pos pre post one at e = absurd (omega arith)
patch_entries_lem (item ∷ plan) (r ∷ written) f pos pre post one at e =
    let fields = encode_fields (stored_entry item.path r) in
    let size = length-encode_fields (stored_entry item.path r) in
    let here = pos + (length item.path + 1) in
    let rest = placeholder_table plan ++ post in
    let at' : here ≡ length (pre ++ (item.path ++ 0 ∷ [])) =
      omega (arith, length-append pre (item.path ++ 0 ∷ []), length-append item.path (0 ∷ [])) in
    let next : here + 20 ≡ length (pre ++ (item.path ++ 0 ∷ fields)) = omega (
      arith,
      size,
      length-append pre (item.path ++ 0 ∷ fields),
      length-append item.path (0 ∷ fields),
    ) in
    let e' : f.content ≡ pre ++ (item.path ++ 0 ∷ (replicate 20 0 ++ rest)) =
      e ∙ ap (λ t. pre ++ t) (unfold placeholder_table in simp append_assoc) in
    let row = patch_row f item.path pre rest fields here size at' e' in
    patch_entries_lem plan written (write (record f { pos = here }) fields) (here + 20)
      (pre ++ (item.path ++ 0 ∷ fields)) post (omega arith) next row
    ∙ (unfold encode_entries stored_entry in simp append_assoc)

-- The destination after the whole run: printing the records gives the same bytes.
pub patched_layout :
    (head : Bytes) (plan : List RewriteEntry) (written : List WrittenEntry) (payloads : Bytes)
    (f : File)
    → length written ≡ length plan
    → f.content ≡ head ++ (placeholder_table plan ++ payloads)
    → (patch_entries (length head) plan written f).content
      ≡ head ++ (encode_table (rows plan written) ++ payloads)
unfolding encode_table
patched_layout head plan written payloads f one e =
    patch_entries_lem plan written f (length head) head payloads one refl e ∙ simp append_assoc

-- Header section, table and payloads written one behind the other.
pub record IsWritten (head table payloads : Bytes) (f₁ f₂ f₃ : File) : Type 0 where
  pub pos₁ : f₁.pos ≡ length head
  pub pos₂ : f₂.pos ≡ length head + length table
  pub content₃ : f₃.content ≡ head ++ (table ++ payloads)

pub write_three :
    (head table payloads : Bytes)
    → IsWritten head table payloads
        (write fresh_file head)
        (write (write fresh_file head) table)
        (write (write (write fresh_file head) table) payloads)
write_three head table payloads =
    let f₁ = write-end fresh_file head refl in
    let f₂ = ap (λ f. write f table) f₁ ∙ write-end _ table refl in
    let f₃ = ap (λ f. write f payloads) f₂ ∙ write-end _ payloads refl in
    record {
      pos₁ = ap (λ (f : File). f.pos) f₁;
      pos₂ = ap (λ (f : File). f.pos) f₂ ∙ length-append head table;
      content₃ = ap (λ (f : File). f.content) f₃ ∙ append_assoc head table payloads;
    }

-- The placeholders take as many bytes as the records that replace them.
length-encode_entries-rows :
    (plan : List RewriteEntry) (written : List WrittenEntry)
    → length written ≡ length plan
    → length (encode_entries (rows plan written)) + 21 ≡ length (placeholder_table plan)
unfolding placeholder_table encode_entries stored_entry
length-encode_entries-rows [] written one = omega arith
length-encode_entries-rows (item ∷ plan) [] one = absurd (omega arith)
length-encode_entries-rows (item ∷ plan) (r ∷ written) one = omega (
  arith,
  length-append item.path
      (0 ∷ (encode_fields (stored_entry item.path r) ++ encode_entries (rows plan written))),
  length-append (encode_fields (stored_entry item.path r)) (encode_entries (rows plan written)),
  length-encode_fields (stored_entry item.path r),
  length-append item.path (0 ∷ (replicate 20 0 ++ placeholder_table plan)),
  length-encode_entries-rows plan written (omega arith),
)

pub length-encode_table-rows :
    (plan : List RewriteEntry) (written : List WrittenEntry)
    → length written ≡ length plan
    → length (encode_table (rows plan written)) ≡ length (placeholder_table plan)
length-encode_table-rows plan written one =
    length-encode_table (rows plan written) ∙ length-encode_entries-rows plan written one
