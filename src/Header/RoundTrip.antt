-- ===== src/Header/RoundTrip.antt =====
-- The header section that the writer emits is read back.
use pbo.Common.{
  ℕ, zero, suc, ◌+◌, ◌-◌, ◌≤◌, ◌<◌, ◌≡◌, ◌≢◌, refl, sym, ap, ap₂, ◌∙◌, List, [], ◌∷◌, ◌++◌, none,
  some, arith, length, take, drop, length-append, length-take, drop-append, drop-drop,
  take-append-drop, append_assoc, append-nil, Bytes, All, Lacks, All-take, All-drop, inl, inr,
  Bool-cases, ltb, ltb→lt, length-drop, if◌then◌else◌,
}
use pbo.Model.{Result, ok, HeaderPair, header_size, eof}
use pbo.Wire.{
  bytes_reader, index_byte-Lacks, index_byte-take, take-take-append, take-append_le, drop-append_le,
  get_u32, is_empty, is_empty_of_ne,
}
use pbo.Header.{
  after_chunk, on_index, read_null_from, read_null_terminated, parse_pairs, check_header_read,
  parse_header_section, encode_header, encode_pairs, encode_header_section, reader_scan_chunk_size,
}

after_chunk_full :
    (part : Bytes) (chunk : ℕ) (more : Result (Bytes × ℕ))
    → 0 < chunk
    → length part ≡ chunk
    → after_chunk (if ltb (length part) chunk then some eof else none) part more ≡ more
unfolding after_chunk
after_chunk_full [] chunk more pos e = absurd (omega arith)
after_chunk_full (c ∷ part) chunk more pos e = ground arith

-- One round finds the NUL in the window.
read_null_from_found :
    (fuel chunk : ℕ) (content : Bytes) (offset total : ℕ) (out s rest : Bytes)
    → Lacks 0 s
    → length s < chunk
    → drop (offset + total) content ≡ s ++ 0 ∷ rest
    → read_null_from (suc fuel) chunk (bytes_reader content) offset total out
      ≡ ok (out ++ s, total + length s + 1)
unfolding read_null_from bytes_reader on_index
read_null_from_found fuel chunk content offset total out s rest h short at =
    rw (at, index_byte-take 0 s rest chunk h short)
      (rw (take-take-append s (0 ∷ rest) chunk (omega arith)))

-- One round passes over a full window without a NUL.
read_null_from_next :
    (fuel chunk : ℕ) (content : Bytes) (offset total : ℕ) (out s rest : Bytes)
    → 0 < chunk
    → Lacks 0 s
    → chunk ≤ length s
    → drop (offset + total) content ≡ s ++ 0 ∷ rest
    → read_null_from (suc fuel) chunk (bytes_reader content) offset total out
      ≡ read_null_from fuel chunk
          (bytes_reader content)
          offset
          (total + chunk)
          (out ++ take chunk s)
unfolding read_null_from bytes_reader on_index
read_null_from_next fuel chunk content offset total out s rest pos h long at =
    let full : length (take chunk s) ≡ chunk = omega (arith, length-take chunk s) in
    rw
      (
        at,
        take-append_le s (0 ∷ rest) chunk long,
        index_byte-Lacks 0 (take chunk s) (All-take _ chunk s h),
        after_chunk_full (take chunk s) chunk _ pos full,
      )
      (rw full)

-- With `s` and a NUL at the position, the scan returns `s` and steps over the NUL.
read_null_from_lem :
    (fuel chunk : ℕ) (content : Bytes) (offset total : ℕ) (out s rest : Bytes)
    → 0 < chunk
    → Lacks 0 s
    → length s < fuel
    → drop (offset + total) content ≡ s ++ 0 ∷ rest
    → read_null_from fuel chunk (bytes_reader content) offset total out
      ≡ ok (out ++ s, total + length s + 1)
read_null_from_lem zero chunk content offset total out s rest pos h lt at = absurd (omega arith)
read_null_from_lem (suc fuel) chunk content offset total out s rest pos h lt at =
    elim (Bool-cases (ltb (length s) chunk)) [
      | inl short ↦
          read_null_from_found fuel chunk content offset total out s rest h (ltb→lt _ _ short) at
      | inr long ↦
          let le : chunk ≤ length s = ground arith in
          let left : length (drop chunk s) ≡ length s - chunk = length-drop chunk s in
          let at' : drop (offset + (total + chunk)) content ≡ drop chunk s ++ 0 ∷ rest =
            sym (drop-drop (offset + total) chunk _ content (omega arith))
            ∙ ap (drop chunk) at
            ∙ drop-append_le s (0 ∷ rest) chunk le in
          read_null_from_next fuel chunk content offset total out s rest pos h le at
          ∙ read_null_from_lem fuel chunk content offset (total + chunk) (out ++ take chunk s)
              (drop chunk s) rest pos (All-drop _ chunk s h) (omega arith) at'
          ∙ ap ok (
              ap₂ (λ a b. (a, b))
                (append_assoc out (take chunk s) (drop chunk s)
                  ∙ ap (λ t. out ++ t) (take-append-drop chunk s))
                (omega arith))
    ]

-- Where a string without a NUL and a NUL stand at a position of the source, the scan returns the
-- string, across any number of scan chunks, and the count that steps over the NUL; the fuel
-- exceeds the length of the string.
pub read_null_terminated_lem :
    (fuel : ℕ) (content : Bytes) (off : ℕ) (s rest : Bytes)
    → Lacks 0 s
    → length s < fuel
    → drop off content ≡ s ++ 0 ∷ rest
    → read_null_terminated fuel (bytes_reader content) off ≡ ok (s, length s + 1)
unfolding read_null_terminated
read_null_terminated_lem fuel content off s rest h lt at =
    let at' : drop (off + 0) content ≡ s ++ 0 ∷ rest =
      ap (λ n. drop n content) (omega arith) ∙ at in
    read_null_from_lem fuel reader_scan_chunk_size content off 0 [] s rest (omega arith) h lt at'
    ∙ ap (λ n. ok (s, n)) (omega arith)

-- A pair that the format can hold.
abbrev pub IsPair : HeaderPair → Type 0
IsPair h = (h.key ≢ []) × Lacks 0 h.key × Lacks 0 h.value

-- The position behind a string and its NUL.
pub drop-nul :
    (content : Bytes) (off n : ℕ) (s rest : Bytes)
    → drop off content ≡ s ++ 0 ∷ rest
    → n ≡ length s + 1
    → drop (off + n) content ≡ rest
drop-nul content off n s rest at e =
    sym (drop-drop off n (off + n) content refl)
    ∙ ap (drop n) at
    ∙ ap (λ k. drop k (s ++ 0 ∷ rest)) e
    ∙ sym (drop-drop (length s) 1 (length s + 1) (s ++ 0 ∷ rest) refl)
    ∙ ap (drop 1) (drop-append s (0 ∷ rest))

length-encode_pairs :
    (h : HeaderPair) (hs : List HeaderPair)
    → length (encode_pairs (h ∷ hs))
      ≡ length h.key + 1 + (length h.value + 1) + length (encode_pairs hs)
unfolding encode_pairs
length-encode_pairs h hs = omega (
  arith,
  length-append h.key (0 ∷ (h.value ++ 0 ∷ encode_pairs hs)),
  length-append h.value (0 ∷ encode_pairs hs),
)

parse_pairs_lem :
    (hs acc : List HeaderPair) (fuel rounds : ℕ) (content : Bytes) (off : ℕ) (rest : Bytes)
    → All IsPair hs
    → length (encode_pairs hs) < fuel
    → length (encode_pairs hs) < rounds
    → drop off content ≡ encode_pairs hs ++ 0 ∷ rest
    → parse_pairs fuel rounds (bytes_reader content) off acc
      ≡ ok (acc ++ hs, off + length (encode_pairs hs) + 1)
unfolding parse_pairs encode_pairs is_empty
parse_pairs_lem hs acc fuel zero content off rest _ _ lt at = absurd (omega arith)
parse_pairs_lem [] acc fuel (suc rounds) content off rest _ hf hr at =
    let key = read_null_terminated_lem fuel content off [] rest tt hf at in
    rw (key, append-nil acc) (ap (λ n. ok (acc, n)) (omega arith))
parse_pairs_lem (h ∷ hs) acc fuel (suc rounds) content off rest ((named, key, value), more) hf hr
      at =
    let size = length-encode_pairs h hs in
    let n = length h.key + 1 in
    let m = length h.value + 1 in
    let at₁ = at ∙ append_assoc h.key (0 ∷ (h.value ++ 0 ∷ encode_pairs hs)) (0 ∷ rest) in
    let at₂ =
      drop-nul content off n h.key _ at₁ refl
      ∙ append_assoc h.value (0 ∷ encode_pairs hs) (0 ∷ rest) in
    let at₃ = drop-nul content (off + n) m h.value _ at₂ refl in
    let read₁ = read_null_terminated_lem fuel content off h.key _ key (omega arith) at₁ in
    let read₂ = read_null_terminated_lem fuel content (off + n) h.value _ value (omega arith) at₂ in
    let ih =
      parse_pairs_lem hs (acc ++ h ∷ []) fuel rounds content (off + n + m) rest more (omega arith)
        (omega arith) at₃ in
    rw (read₁, is_empty_of_ne h.key named, read₂, ih)
      (ap₂ (λ a b. ok (a, b)) (append_assoc acc (h ∷ []) hs) (omega arith))

-- The header section that the writer emits, before any rest, is read back: the pairs in their
-- order, and the position of the entry table. No key is empty, no key or value holds a NUL, and
-- the fuel exceeds the bytes of the pairs.
pub parse_header_section-encode :
    (fuel : ℕ) (hs : List HeaderPair) (rest : Bytes)
    → All IsPair hs
    → length (encode_pairs hs) < fuel
    → parse_header_section fuel (bytes_reader (encode_header_section hs ++ rest))
      ≡ ok (encode_header, hs, length (encode_header_section hs))
unfolding parse_header_section encode_header_section encode_header bytes_reader check_header_read
    get_u32
parse_header_section-encode fuel hs rest ok_pairs lt =
    let content = encode_header_section hs ++ rest in
    let at : drop header_size content ≡ encode_pairs hs ++ 0 ∷ rest =
      append_assoc (encode_pairs hs) (0 ∷ []) rest in
    let end : header_size + length (encode_pairs hs) + 1 ≡ length (encode_header_section hs) =
      omega (arith, length-append (encode_pairs hs) (0 ∷ [])) in
    let pairs = parse_pairs_lem hs [] fuel fuel content header_size rest ok_pairs lt lt at in
    rw pairs (rw end)
