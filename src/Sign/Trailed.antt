-- ===== src/Sign/Trailed.antt =====
-- hash1 of sign_hashset.go on a file that trailer.go gave its trailer.
use pbo.Common.{
  ℕ, ◌-◌, ◌<◌, ◌≡◌, ◌∙◌, ap, arith, true, some, is_some, ◌∷◌, length, leb, Bytes, take-append,
}
use pbo.Model.{ok}
use pbo.Wire.{bytes_reader}
use pbo.Reader.{sha1_trailer}
use pbo.Trailer.{write_sha1_trailer}
use pbo.Trailer.Laws.{trailed, length-trailed, write_sha1_trailer_lem}
use pbo.Sign.Packed.{compute_sign_hash1}
use pbo.Sign.Content.{body_of, hash1_lem}

module _ (sha1 : Bytes → Bytes) (size20 : (s : Bytes) → length (sha1 s) ≡ 20) where
  body_of-trailed : (body : Bytes) → body_of (trailed sha1 body) true ≡ body
  body_of-trailed body =
      let size = length-trailed sha1 size20 body in
      let long : leb 21 (length (trailed sha1 body)) ≡ true = ground arith in
      let short : length (trailed sha1 body) - 21 ≡ length body = omega arith in
      rw (long, short) (take-append body (0 ∷ sha1 body))

  -- For a hash of 20 bytes, on a file that was given its trailer, the reader finds a trailer, and the
  -- hash1 that leaves this trailer out is the hash that it holds. The fuel exceeds the file.
  pub compute_sign_hash1-write_sha1_trailer :
      (fuel : ℕ) (content : Bytes)
      → length (write_sha1_trailer sha1 content) < fuel
      → (hash : Bytes) × (sha1_trailer
            (bytes_reader (write_sha1_trailer sha1 content))
            (length (write_sha1_trailer sha1 content))
          ≡ some hash)
        × (compute_sign_hash1 sha1 fuel
              (bytes_reader (write_sha1_trailer sha1 content))
              (length (write_sha1_trailer sha1 content))
              (is_some (
                sha1_trailer
                  (bytes_reader (write_sha1_trailer sha1 content))
                  (length (write_sha1_trailer sha1 content))))
            ≡ ok hash)
  compute_sign_hash1-write_sha1_trailer fuel content h =
      let (body, e, was, found) = write_sha1_trailer_lem sha1 size20 content in
      let file = write_sha1_trailer sha1 content in
      let kept : body_of file true ≡ body = ap (λ c. body_of c true) e ∙ body_of-trailed body in
      (
        sha1 body,
        found,
        ap (λ o. compute_sign_hash1 sha1 fuel (bytes_reader file) (length file) (is_some o)) found
            ∙ (hash1_lem sha1 fuel file true h ∙ ap (λ b. ok (sha1 b)) kept),
      )
