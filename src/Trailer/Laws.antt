-- ===== src/Trailer/Laws.antt =====
-- The trailer that trailer.go writes, and the one that reader.go finds.
use pbo.Common.{
  ◌+◌, ◌-◌, ◌≡◌, ◌≢◌, refl, sym, ◌∙◌, ap, ◌⊎◌, inl, inr, true, ◌&&◌, some, [], ◌∷◌, ◌++◌,
  append-nil, arith, leb, length, take, drop, Bytes, Bool-cases, length-append, take-append,
  drop-append, take-of_le, drop-of_le, take-append-drop,
}
use pbo.Text.{equal}
use pbo.Text.Equal.{equal_sound, equal_same}
use pbo.Wire.{bytes_reader}
use pbo.Reader.{trailer_of, sha1_trailer}
use pbo.Trailer.{write_at, is_trailer, write_pos, write_sha1_trailer}

is_trailer_sound : (sum tail : Bytes) → is_trailer sum tail ≡ true → tail ≡ 0 ∷ sum
unfolding is_trailer
is_trailer_sound sum [] h = cc
is_trailer_sound sum (z ∷ hash) h =
    let zero_first : z ≡ 0 = ground arith in
    let same : equal sum hash ≡ true = ground arith in
    rw (zero_first, equal_sound sum hash same) refl

is_trailer_same : (sum : Bytes) → is_trailer sum (0 ∷ sum) ≡ true
unfolding is_trailer
is_trailer_same sum = rw (equal_same sum) refl

-- A write of everything behind a position, and one at the end.
write_at-end : (content block : Bytes) → write_at content (length content) block ≡ content ++ block
unfolding write_at
write_at-end content block =
    rw
      (
        take-of_le (length content) content (omega arith),
        drop-of_le (length content + length block) content (omega arith),
        append-nil block,
      )
      refl

write_at-tail :
    (body block tail : Bytes)
    → length block ≡ length tail
    → write_at (body ++ tail) (length body) block ≡ body ++ block
unfolding write_at
write_at-tail body block tail h =
    let all = length-append body tail in
    rw
      (
        take-append body tail,
        drop-of_le (length body + length block) (body ++ tail) (omega arith),
        append-nil block,
      )
      refl

module _ (sha1 : Bytes → Bytes) where
  -- A body with its trailer.
  abbrev pub trailed : Bytes → Bytes
  trailed body = body ++ 0 ∷ sha1 body

  module _ (size20 : (s : Bytes) → length (sha1 s) ≡ 20) where
    pub length-trailed : (body : Bytes) → length (trailed body) ≡ length body + 21
    length-trailed body =
        let all = length-append body (0 ∷ sha1 body) in let hash = size20 body in omega arith

    write_pos-trailed : (body : Bytes) → write_pos sha1 (trailed body) ≡ length body
    unfolding write_pos
    write_pos-trailed body =
        let size = length-trailed body in
        let candidate : length (trailed body) - 21 ≡ length body = omega arith in
        let long : leb 21 (length (trailed body)) ≡ true = ground arith in
        rw
          (
            candidate,
            long,
            take-append body (0 ∷ sha1 body),
            drop-append body (0 ∷ sha1 body),
            is_trailer_same (sha1 body),
          )
          refl

    write-trailed : (body : Bytes) → write_sha1_trailer sha1 (trailed body) ≡ trailed body
    unfolding write_sha1_trailer
    write-trailed body =
        rw (write_pos-trailed body, take-append body (0 ∷ sha1 body))
          (write_at-tail body (0 ∷ sha1 body) (0 ∷ sha1 body) refl)

    write-at_end :
        (content : Bytes)
        → write_pos sha1 content ≡ length content
        → write_sha1_trailer sha1 content ≡ trailed content
    unfolding write_sha1_trailer
    write-at_end content e =
        rw (e, take-of_le (length content) content (omega arith))
          (write_at-end content (0 ∷ sha1 content))

    untrailed : (content b : Bytes) → write_pos sha1 content ≡ length content → content ≢ trailed b
    untrailed content b at_end e =
        let inner = write_pos-trailed b in
        let whole : length (trailed b) ≡ length b =
          sym (ap length e) ∙ (sym at_end ∙ (ap (write_pos sha1) e ∙ inner)) in
        let size = length-trailed b in omega arith

    write_cases :
        (content : Bytes)
        → (body : Bytes) × (write_sha1_trailer sha1 content ≡ trailed body)
          × (((content ≡ body) × ((b : Bytes) → content ≢ trailed b)) ⊎ (content ≡ trailed body))
    unfolding write_pos
    write_cases content =
        let candidate = length content - 21 in
        elim (Bool-cases (
          leb 21 (length content)
          && is_trailer (sha1 (take candidate content)) (drop candidate content))) [
            | inl found ↦
                let body = take candidate content in
                let is : is_trailer (sha1 body) (drop candidate content) ≡ true = ground arith in
                let whole : content ≡ trailed body =
                  sym (take-append-drop candidate content)
                  ∙ ap (λ t. body ++ t)
                      (is_trailer_sound (sha1 body) (drop candidate content) is) in
                (body, ap (write_sha1_trailer sha1) whole ∙ write-trailed body, inr whole)
            | inr absent ↦
                let at_end : write_pos sha1 content ≡ length content = rw (absent) refl in
                (content, write-at_end content at_end, inl (refl, λ b. untrailed content b at_end))
          ]

    reader-trailed :
        (body : Bytes)
        → sha1_trailer (bytes_reader (trailed body)) (length (trailed body)) ≡ some (sha1 body)
    unfolding sha1_trailer trailer_of bytes_reader
    reader-trailed body =
        let size = length-trailed body in
        let hash = size20 body in
        let candidate : length (trailed body) - 21 ≡ length body = omega arith in
        let long : leb 21 (length (trailed body)) ≡ true = ground arith in
        rw
          (
            long,
            candidate,
            drop-append body (0 ∷ sha1 body),
            take-of_le 20 (sha1 body) (omega arith),
            hash,
          )
          refl

    -- For a hash of 20 bytes, the written file is a body with its trailer, a zero byte and the hash
    -- of the body. If the content was no body with its trailer, the body is the content; otherwise
    -- the body is the one that the content had, and the file is as it was. The reader finds the
    -- trailer.
    pub write_sha1_trailer_lem :
        (content : Bytes)
        → (body : Bytes) × (write_sha1_trailer sha1 content ≡ trailed body)
          × (((content ≡ body) × ((b : Bytes) → content ≢ trailed b)) ⊎ (content ≡ trailed body))
          × (sha1_trailer
                (bytes_reader (write_sha1_trailer sha1 content))
                (length (write_sha1_trailer sha1 content))
              ≡ some (sha1 body))
    write_sha1_trailer_lem content =
        let (body, e, was) = write_cases content in (body, e, was, rw (e) (reader-trailed body))

    -- For a hash of 20 bytes, a second trailer is not written behind the first.
    pub write_sha1_trailer_idem :
        (content : Bytes)
        → write_sha1_trailer sha1 (write_sha1_trailer sha1 content)
          ≡ write_sha1_trailer sha1 content
    write_sha1_trailer_idem content =
        let (body, e, was) = write_cases content in rw (e) (write-trailed body)
