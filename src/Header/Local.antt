-- ===== src/Header/Local.antt =====
-- The header section is parsed from the bytes before the position that the parse ends at.
use pbo.Common.{
  ℕ, zero, suc, ◌+◌, ◌≤◌, ◌≡◌, refl, sym, ap, ◌∙◌, subst, Bool, true, false, List, [], ◌∷◌, ◌++◌,
  Option, none, some, arith, length, take, drop, length-take, Bytes, inl, inr, ◌⊎◌, Bool-cases, ltb,
  ◌==◌, if◌then◌else◌,
}
use pbo.Model.{
  Error, Result, ok, guard, bind-eq-ok, ok-injective, HeaderPair, header_size, mime_header,
  invalid_header, eof,
}
use pbo.Wire.{bytes_reader, index_byte, get_u32, is_empty}
use pbo.Header.Window.{take-take, window, lacks, index_byte-lt, index_byte_local}
use pbo.Header.{
  after_chunk, on_index, read_null_from, read_null_terminated, parse_pairs, check_header_read,
  parse_header_section, reader_scan_chunk_size,
}

-- After a chunk without a NUL the loop goes on.
after_chunk-goes_on :
    (e : Option Error) (part : Bytes) {more : Result (Bytes × ℕ)} {r : Bytes × ℕ}
    → after_chunk e part more ≡ ok r
    → (e ≡ none) × (more ≡ ok r) × ((other : Result (Bytes × ℕ)) → after_chunk e part other ≡ other)
unfolding after_chunk
after_chunk-goes_on (some _) part h = cc
after_chunk-goes_on none [] h = cc
after_chunk-goes_on none (c ∷ part) h = (refl, h, λ other. refl)

is_full :
    (part : Bytes) (chunk : ℕ)
    → ◌≡◌ {A = Option Error} (if ltb (length part) chunk then some eof else none) none
    → chunk ≤ length part
is_full part chunk h = ground arith

on_index-cases :
    (o : Option ℕ) (part out : Bytes) (total : ℕ) (more : Result (Bytes × ℕ)) {s : Bytes} {n : ℕ}
    → on_index o part out total more ≡ ok (s, n)
    → ((i : ℕ) × (o ≡ some i) × (out ++ take i part ≡ s) × (total + i + 1 ≡ n))
      ⊎ ((o ≡ none) × (more ≡ ok (s, n)))
unfolding on_index
on_index-cases none part out total more h = inr (refl, h)
on_index-cases (some i) part out total more h = inl (
  i,
  refl,
  ap (λ (x : Bytes × ℕ). x.0) (ok-injective h),
  ap (λ (x : Bytes × ℕ). x.1) (ok-injective h),
)

on_index-found :
    (o : Option ℕ) (part out : Bytes) (total i : ℕ) (more : Result (Bytes × ℕ)) {s : Bytes} {n : ℕ}
    → o ≡ some i
    → out ++ take i part ≡ s
    → total + i + 1 ≡ n
    → on_index o part out total more ≡ ok (s, n)
unfolding on_index
on_index-found none part out total i more e es en = absurd (lacks e)
on_index-found (some j) part out total i more e es en =
    let same : j ≡ i = cc in
    let text : out ++ take j part ≡ out ++ take i part = ap (λ m. out ++ take m part) same in cc

on_index-next :
    (o : Option ℕ) (part out : Bytes) (total : ℕ) (more : Result (Bytes × ℕ)) {r : Bytes × ℕ}
    → o ≡ none
    → more ≡ ok r
    → on_index o part out total more ≡ ok r
unfolding on_index
on_index-next none part out total more e h = h
on_index-next (some i) part out total more e h = absurd (lacks (sym e))

clash : false ≡ true → ⊥
clash e = cc

then_of {ℓ} : {A : Type ℓ} (c : Bool) (x y r : A) → c ≡ true → (if c then x else y) ≡ r → x ≡ r
then_of true x y r e h = h
then_of false x y r e h = absurd (clash e)

else_of {ℓ} : {A : Type ℓ} (c : Bool) (x y r : A) → c ≡ false → (if c then x else y) ≡ r → y ≡ r
else_of true x y r e h = absurd (clash (sym e))
else_of false x y r e h = h

module _ (chunk offset : ℕ) where
  read_null_from_grows :
      (fuel : ℕ) (content : Bytes) (total : ℕ) (out : Bytes) {s : Bytes} {n : ℕ}
      → read_null_from fuel chunk (bytes_reader content) offset total out ≡ ok (s, n)
      → total ≤ n
  unfolding read_null_from bytes_reader
  read_null_from_grows zero content total out h = cc
  read_null_from_grows (suc fuel) content total out h =
      let part = take chunk (drop (offset + total) content) in
      elim (on_index-cases (index_byte part 0) part out total _ h) [
        | inl (i, _, _, e) ↦ omega (arith, e)
        | inr (_, next) ↦
            let (_, more, _) = after_chunk-goes_on _ part next in
            let ih = read_null_from_grows fuel content (total + length part) (out ++ part) more in
            omega (arith, ih)
      ]

  read_null_from_local :
      (fuel k : ℕ) (a b : Bytes) (total : ℕ) (out : Bytes) {s : Bytes} {n : ℕ}
      → take k a ≡ take k b
      → read_null_from fuel chunk (bytes_reader a) offset total out ≡ ok (s, n)
      → offset + n ≤ k
      → read_null_from fuel chunk (bytes_reader b) offset total out ≡ ok (s, n)
  unfolding read_null_from bytes_reader
  read_null_from_local zero k a b total out agree h le = cc
  read_null_from_local (suc fuel) k a b total out {s} {n} agree h le =
      let at = offset + total in
      let p = take chunk (drop at a) in
      let q = take chunk (drop at b) in
      let prefix : (m : ℕ) → m ≤ chunk → at + m ≤ k → take m p ≡ take m q = λ m short inside.
        take-take m chunk (drop at a) short
        ∙ (window a b k agree at m inside ∙ sym (take-take m chunk (drop at b) short)) in
      elim (on_index-cases (index_byte p 0) p out total _ h) [
        | inl (i, e, text, count) ↦
            let inside = index_byte-lt p 0 i e in
            let size = length-take chunk (drop at a) in
            let small : suc i ≤ chunk = omega (arith, inside, size) in
            let near : at + suc i ≤ k = omega (arith, count, le) in
            on_index-found (index_byte q 0) q out total i _
              (index_byte_local p q 0 i e (prefix (suc i) small near))
              (ap (λ t. out ++ t) (sym (prefix i (omega arith) (omega arith))) ∙ text) count
        | inr (e, next) ↦
            let (full, more, goes_on) = after_chunk-goes_on _ p next in
            let whole = is_full p chunk full in
            let grown = read_null_from_grows fuel a (total + length p) (out ++ p) more in
            let near : at + chunk ≤ k = omega (arith, whole, grown, le) in
            let same : p ≡ q = window a b k agree at chunk near in
            let ih = read_null_from_local fuel k a b (total + length p) (out ++ p) agree more le in
            subst
              (λ (w : Bytes).
                on_index (index_byte w 0) w out total (
                  after_chunk (if ltb (length w) chunk then some eof else none) w (
                    read_null_from fuel chunk (bytes_reader b) offset (total + length w)
                      (out ++ w)))
                ≡ ok (s, n))
              same (on_index-next (index_byte p 0) p out total _ e (goes_on _ ∙ ih))
      ]

module _ (fuel : ℕ) where
  parse_pairs_grows :
      (rounds : ℕ) (content : Bytes) (off : ℕ) (headers : List HeaderPair) {hs : List HeaderPair}
      {end : ℕ}
      → parse_pairs fuel rounds (bytes_reader content) off headers ≡ ok (hs, end)
      → off ≤ end
  unfolding parse_pairs read_null_terminated
  parse_pairs_grows zero content off headers h = cc
  parse_pairs_grows (suc rounds) content off headers {hs} {end} h =
      let ((key, n), _, h₁) =
        bind-eq-ok (read_null_terminated fuel (bytes_reader content) off) _ h in
      elim (Bool-cases (is_empty key)) [
        | inl last ↦
            let r : ok (headers, off + n) ≡ ok (hs, end) = then_of (is_empty key) _ _ _ last h₁ in
            let e : off + n ≡ end = ap (λ (x : List HeaderPair × ℕ). x.1) (ok-injective r) in
            omega (arith, e)
        | inr pair ↦
            let ((value, m), _, h₂) =
              bind-eq-ok (read_null_terminated fuel (bytes_reader content) (off + n)) _
                (else_of (is_empty key) _ _ _ pair h₁) in
            let ih = parse_pairs_grows rounds content (off + n + m) _ h₂ in omega (arith, ih)
      ]

  parse_pairs_local :
      (rounds k : ℕ) (a b : Bytes) (off : ℕ) (headers : List HeaderPair) {hs : List HeaderPair}
      {end : ℕ}
      → take k a ≡ take k b
      → parse_pairs fuel rounds (bytes_reader a) off headers ≡ ok (hs, end)
      → end ≤ k
      → parse_pairs fuel rounds (bytes_reader b) off headers ≡ ok (hs, end)
  unfolding parse_pairs read_null_terminated
  parse_pairs_local zero k a b off headers agree h le = cc
  parse_pairs_local (suc rounds) k a b off headers {hs} {end} agree h le =
      let ((key, n), e₁, h₁) = bind-eq-ok (read_null_terminated fuel (bytes_reader a) off) _ h in
      elim (Bool-cases (is_empty key)) [
        | inl last ↦
            let r : ok (headers, off + n) ≡ ok (hs, end) = then_of (is_empty key) _ _ _ last h₁ in
            let e : off + n ≡ end = ap (λ (x : List HeaderPair × ℕ). x.1) (ok-injective r) in
            let reads =
              read_null_from_local reader_scan_chunk_size off fuel k a b 0 [] agree e₁
                (omega (arith, e, le)) in
            rw (reads, last) r
        | inr pair ↦
            let ((value, m), e₂, h₂) =
              bind-eq-ok (read_null_terminated fuel (bytes_reader a) (off + n)) _
                (else_of (is_empty key) _ _ _ pair h₁) in
            let grown = parse_pairs_grows rounds a (off + n + m) _ h₂ in
            let reads =
              read_null_from_local reader_scan_chunk_size off fuel k a b 0 [] agree e₁
                (omega (arith, grown, le)) in
            let reads' =
              read_null_from_local reader_scan_chunk_size (off + n) fuel k a b 0 [] agree e₂
                (omega (arith, grown, le)) in
            rw (reads, pair, reads') (parse_pairs_local rounds k a b (off + n + m) _ agree h₂ le)
      ]

reader_local :
    (k n : ℕ) (a b : Bytes) → take k a ≡ take k b → n ≤ k → bytes_reader a 0 n ≡ bytes_reader b 0 n
unfolding bytes_reader
reader_local k n a b agree le =
    ap (λ (w : Bytes). (w, if ltb (length w) n then some eof else none))
      (window a b k agree 0 n (omega arith))

-- Two files that agree up to where the parse of one ends, have the same header section.
pub parse_header_section_local :
    (fuel k : ℕ) (a b header : Bytes) (hs : List HeaderPair) (end : ℕ)
    → take k a ≡ take k b
    → parse_header_section fuel (bytes_reader a) ≡ ok (header, hs, end)
    → end ≤ k
    → parse_header_section fuel (bytes_reader b) ≡ ok (header, hs, end)
unfolding parse_header_section
parse_header_section_local fuel k a b header hs end agree h le =
    let read : Bytes × Option Error = bytes_reader a 0 header_size in
    let (_, e₁, h₁) = bind-eq-ok (check_header_read read.1) _ h in
    let (_, e₂, h₂) =
      bind-eq-ok (guard (get_u32 (drop 1 read.0) == mime_header) invalid_header) _ h₁ in
    let ((hs', off), e₃, h₃) =
      bind-eq-ok (parse_pairs fuel fuel (bytes_reader a) header_size []) _ h₂ in
    let e : off ≡ end = ap (λ (x : Bytes × List HeaderPair × ℕ). x.2) (ok-injective h₃) in
    let grown = parse_pairs_grows fuel fuel a header_size [] e₃ in
    let pairs = parse_pairs_local fuel fuel k a b header_size [] agree e₃ (omega (arith, e, le)) in
    let same = reader_local k header_size a b agree (omega (arith, e, le, grown)) in
    rw (sym same, e₁, e₂, pairs) h₃
