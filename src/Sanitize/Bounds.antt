-- ===== src/Sanitize/Bounds.antt =====
-- What the names of sanitize.go are bounded by, and the bytes that they are free of.
use pbo.Common.{
  ℕ, zero, suc, ◌+◌, ◌-◌, ◌/◌, ◌%◌, ◌≤◌, ◌<◌, ◌≡◌, refl, arith, Bool, false, ◌&&◌, ◌||◌, [], ◌∷◌,
  leb, ltb, ◌==◌, if◌then◌else◌, length, take, Bytes, All, Bool-cases, inl, inr, length-take,
  length-append, if_elim, All-append, All-take,
}
use pbo.Model.{ok, err, invalid_extract_path}
use pbo.Text.{codes, trim_space}
use pbo.Wire.{is_empty}
use pbo.Extract.{contains_byte}
use pbo.Sanitize.Runes.{decode_rune, encode_rune, replace_runes}
use pbo.Sanitize.Names.{
  trim_right, is_reserved_device_name, before_dot, sanitize_windows_guid_suffix, fnv32a, hex_digit,
  hex8, at_least_one, shorten_segment_deterministic, is_unsafe_control_char_rune,
  is_unsafe_path_rune, or_underscore, trim_dots, sanitize_named, sanitize_path_segment,
}

-- A byte that no rune of a sanitised path has: a control character or one of the reserved signs.
abbrev pub is_forbidden : ℕ → Bool
is_forbidden c = ltb c 0x20 || c == 0x7F || contains_byte c (codes "<>:\"/\\|?*")

-- A byte of a name that file systems take.
abbrev pub IsPlain : ℕ → Type 0
unfolding contains_byte
IsPlain c = is_forbidden c ≡ false

high-IsPlain : (c : ℕ) → 128 ≤ c → IsPlain c
unfolding contains_byte
high-IsPlain c h = ground arith

hex_digit-IsPlain : (n : ℕ) → n < 16 → IsPlain (hex_digit n)
unfolding contains_byte hex_digit
hex_digit-IsPlain n h = ground arith

hex8-IsPlain : (h : ℕ) → All IsPlain (hex8 h)
unfolding hex8
hex8-IsPlain h = (
  hex_digit-IsPlain _ (omega arith),
  (
    hex_digit-IsPlain _ (omega arith),
    (
      hex_digit-IsPlain _ (omega arith),
      (
        hex_digit-IsPlain _ (omega arith),
        (
          hex_digit-IsPlain _ (omega arith),
          (
            hex_digit-IsPlain _ (omega arith),
            (hex_digit-IsPlain _ (omega arith), (hex_digit-IsPlain _ (omega arith), tt)),
          ),
        ),
      ),
    ),
  ),
)

underscore-IsPlain : IsPlain b'_'
unfolding contains_byte
underscore-IsPlain = refl

tilde-IsPlain : IsPlain b'~'
unfolding contains_byte
tilde-IsPlain = refl

length-hex8 : (h : ℕ) → length (hex8 h) ≡ 8
unfolding hex8
length-hex8 h = refl

trim_right-All {ℓ} :
    (P : ℕ → Type ℓ) (test : ℕ → Bool) (s : Bytes) → All P s → All P (trim_right test s)
unfolding trim_right
trim_right-All P test [] h = tt
trim_right-All P test (c ∷ s) (hc, h) = elim (Bool-cases (is_empty (trim_right test s) && test c)) [
  | inl dropped ↦ rw (dropped) tt
  | inr kept ↦ rw (kept) (hc, trim_right-All P test s h)
]

or_underscore-All : (s : Bytes) → All IsPlain s → All IsPlain (or_underscore s)
unfolding is_empty
or_underscore-All [] h = (underscore-IsPlain, tt)
or_underscore-All (c ∷ s) h = h

length-or_underscore : (s : Bytes) → 0 < length (or_underscore s)
unfolding is_empty
length-or_underscore [] = omega arith
length-or_underscore (c ∷ s) = omega arith

-- A shortened segment has the length that is allowed, if that is more than ten.
shorten_lem :
    (s : Bytes) (n : ℕ)
    → 10 < n
    → All IsPlain s
    → 0 < length s
    → All IsPlain (shorten_segment_deterministic s n)
      × (0 < length (shorten_segment_deterministic s n))
      × (length (shorten_segment_deterministic s n) ≤ n)
unfolding shorten_segment_deterministic
shorten_lem s n h plain pos = elim (Bool-cases (leb (length s) n)) [
  | inl fits ↦ rw (fits) (plain, pos, ground arith)
  | inr long ↦
      let big : leb n 10 ≡ false = ground arith in
      let kept = take (at_least_one (n - 9)) s in
      let hash = b'~' ∷ hex8 (fnv32a 2166136261 s) in
      let all = length-append kept hash in
      let cut = length-take (at_least_one (n - 9)) s in
      let eight = length-hex8 (fnv32a 2166136261 s) in
      rw (long, big)
        (
          All-append IsPlain kept hash (All-take IsPlain (at_least_one (n - 9)) s plain)
              (tilde-IsPlain, hex8-IsPlain (fnv32a 2166136261 s)),
          ground arith,
          ground arith,
        )
]

nonempty_ok :
    (s : Bytes) → 0 < length s → (if is_empty s then err invalid_extract_path else ok s) ≡ ok s
unfolding is_empty
nonempty_ok [] h = absurd (omega arith)
nonempty_ok (c ∷ s) h = refl

module _ (is_format : ℕ → Bool) where
  encode-IsPlain : (r : ℕ) → is_unsafe_path_rune is_format r ≡ false → All IsPlain (encode_rune r)
  unfolding is_unsafe_path_rune is_unsafe_control_char_rune encode_rune contains_byte
  encode-IsPlain r h = elim (Bool-cases (ltb r 0x80)) [
    | inl ascii ↦ rw (ascii) (ground arith, tt)
    | inr long ↦ elim (Bool-cases (ltb r 0x800)) [
      | inl two ↦
          rw (long, two)
            (
              high-IsPlain (192 + r / 64) (omega arith),
              (high-IsPlain (128 + r % 64) (omega arith), tt),
            )
      | inr more ↦ elim (Bool-cases (ltb r 0x10000)) [
        | inl three ↦
            rw (long, more, three)
              (
                high-IsPlain (224 + r / 4096) (omega arith),
                (
                  high-IsPlain (128 + r / 64 % 64) (omega arith),
                  (high-IsPlain (128 + r % 64) (omega arith), tt),
                ),
              )
        | inr four ↦
            rw (long, more, four)
              (
                high-IsPlain (240 + r / 262144) (omega arith),
                (
                  high-IsPlain (128 + r / 4096 % 64) (omega arith),
                  (
                    high-IsPlain (128 + r / 64 % 64) (omega arith),
                    (high-IsPlain (128 + r % 64) (omega arith), tt),
                  ),
                ),
              )
      ]
    ]
  ]

  replace_runes-IsPlain :
      (skip : ℕ) (s : Bytes) → All IsPlain (replace_runes (is_unsafe_path_rune is_format) skip s)
  unfolding replace_runes
  replace_runes-IsPlain skip [] = tt
  replace_runes-IsPlain (suc skip) (c ∷ s) = replace_runes-IsPlain skip s
  replace_runes-IsPlain zero (c ∷ s) =
      let (r, width) = decode_rune c s in
      let rest = replace_runes (is_unsafe_path_rune is_format) (width - 1) s in
      let later = replace_runes-IsPlain (width - 1) s in
      elim (Bool-cases (is_unsafe_path_rune is_format r)) [
        | inl replaced ↦ rw (replaced) (underscore-IsPlain, later)
        | inr kept ↦
            rw (kept) (All-append IsPlain (encode_rune r) rest (encode-IsPlain r kept) later)
      ]

  sanitize_named-ok :
      (lower : Bytes → Bytes) (segment : Bytes)
      → (out : Bytes) × (sanitize_named lower is_format segment ≡ ok out)
        × All IsPlain out
        × (0 < length out)
        × (length out ≤ 240)
  unfolding sanitize_named trim_dots is_empty
  sanitize_named-ok lower segment =
      let cleaned =
        or_underscore (trim_dots (replace_runes (is_unsafe_path_rune is_format) 0 segment)) in
      let reserved =
        is_reserved_device_name lower segment
        || is_reserved_device_name lower (before_dot cleaned) in
      let plain =
        or_underscore-All (trim_dots (replace_runes (is_unsafe_path_rune is_format) 0 segment)) (
          trim_right-All IsPlain (λ c. c == b'.' || c == b' ')
            (replace_runes (is_unsafe_path_rune is_format) 0 segment)
            (replace_runes-IsPlain 0 segment)) in
      let pos =
        length-or_underscore
          (trim_dots (replace_runes (is_unsafe_path_rune is_format) 0 segment)) in
      let prefixed = if reserved then b'_' ∷ cleaned else cleaned in
      let prefixed_plain : All IsPlain prefixed =
        if_elim (All IsPlain) reserved (b'_' ∷ cleaned) cleaned (underscore-IsPlain, plain) plain in
      let prefixed_pos : 0 < length prefixed =
        if_elim (λ s. 0 < length s) reserved (b'_' ∷ cleaned) cleaned (omega arith) pos in
      let (short_plain, short_pos, short_le) =
        shorten_lem prefixed 240 (omega arith) prefixed_plain prefixed_pos in
      (
        shorten_segment_deterministic prefixed 240,
        nonempty_ok (shorten_segment_deterministic prefixed 240) short_pos,
        short_plain,
        short_pos,
        short_le,
      )

  -- One segment is always given a name, of 1 to 240 bytes, with no control character of ASCII and none
  -- of the signs that file systems reserve, the separators among them.
  pub sanitize_path_segment_lem :
      (lower : Bytes → Bytes) (raw : Bytes)
      → (out : Bytes) × (sanitize_path_segment lower is_format raw ≡ ok out)
        × All IsPlain out
        × (0 < length out)
        × (length out ≤ 240)
  unfolding sanitize_path_segment
  sanitize_path_segment_lem lower raw = elim (Bool-cases (is_empty (trim_space raw))) [
    | inl blank ↦ (b'_' ∷ [], rw (blank) refl, (underscore-IsPlain, tt), omega arith, omega arith)
    | inr named ↦
        rw (named) (sanitize_named-ok lower (sanitize_windows_guid_suffix (trim_space raw)))
  ]
