-- ===== src/Sanitize/Runes.antt =====
-- Runes of a UTF-8 string, as `range` and WriteRune treat them.
use pbo.Common.{
  ℕ, zero, suc, ◌+◌, ◌-◌, ◌*◌, ◌/◌, ◌%◌, Bool, ◌&&◌, ◌||◌, [], ◌∷◌, ◌++◌, leb, ltb, ◌==◌,
  if◌then◌else◌, Bytes,
}

abbrev between : ℕ → ℕ → ℕ → Bool
between a b c = leb a c && leb c b

abbrev is_cont : ℕ → Bool
is_cont c = between 0x80 0xBF c

-- The rune of two, three and four bytes.
abbrev rune₂ : ℕ → ℕ → ℕ
rune₂ a b = (a - 0xC0) * 64 + (b - 0x80)

abbrev rune₃ : ℕ → ℕ → ℕ → ℕ
rune₃ a b c = (a - 0xE0) * 4096 + (b - 0x80) * 64 + (c - 0x80)

abbrev rune₄ : ℕ → ℕ → ℕ → ℕ → ℕ
rune₄ a b c d = (a - 0xF0) * 262144 + (b - 0x80) * 4096 + (c - 0x80) * 64 + (d - 0x80)

-- The second byte that may follow a first byte of three and of four.
abbrev second₃ : ℕ → ℕ → Bool
second₃ a b =
    a == 0xE0 && between 0xA0 0xBF b
    || a == 0xED && between 0x80 0x9F b
    || (between 0xE1 0xEC a || between 0xEE 0xEF a) && is_cont b

abbrev second₄ : ℕ → ℕ → Bool
second₄ a b =
    a == 0xF0 && between 0x90 0xBF b
    || a == 0xF4 && between 0x80 0x8F b
    || between 0xF1 0xF3 a && is_cont b

abbrev pub rune_error : ℕ
rune_error = 0xFFFD

-- The rune at the front and how many bytes it takes; a byte that starts none stands for U+FFFD.
unfoldable pub decode₂ : ℕ → ℕ → ℕ × ℕ
decode₂ a b = if between 0xC2 0xDF a && is_cont b then (rune₂ a b, 2) else (rune_error, 1)

unfoldable pub decode₃ : ℕ → ℕ → ℕ → ℕ × ℕ
decode₃ a b c = if second₃ a b && is_cont c then (rune₃ a b c, 3) else decode₂ a b

unfoldable pub decode₄ : ℕ → ℕ → ℕ → ℕ → ℕ × ℕ
decode₄ a b c d =
    if second₄ a b && (is_cont c && is_cont d) then (rune₄ a b c d, 4) else decode₃ a b c

unfoldable pub decode_long : Bytes → ℕ × ℕ
decode_long (a ∷ b ∷ c ∷ d ∷ _) = decode₄ a b c d
decode_long (a ∷ b ∷ c ∷ []) = decode₃ a b c
decode_long (a ∷ b ∷ []) = decode₂ a b
decode_long (a ∷ []) = (rune_error, 1)
decode_long [] = (rune_error, 1)

unfoldable pub decode_rune : ℕ → Bytes → ℕ × ℕ
decode_rune a s = if ltb a 0x80 then (a, 1) else decode_long (a ∷ s)

unfoldable pub encode_rune : ℕ → Bytes
encode_rune r =
    if ltb r 0x80
    then r ∷ []
    else if ltb r 0x800
    then (0xC0 + r / 64) ∷ (0x80 + r % 64) ∷ []
    else if ltb r 0x10000
    then (0xE0 + r / 4096) ∷ (0x80 + r / 64 % 64) ∷ (0x80 + r % 64) ∷ []
    else (0xF0 + r / 262144) ∷ (0x80 + r / 4096 % 64) ∷ (0x80 + r / 64 % 64) ∷ (0x80 + r % 64) ∷ []

-- A loop over the runes that writes "_" for those that `unsafe_rune` picks. The first `skip` bytes belong to
-- the rune before.
unfoldable pub replace_runes : (ℕ → Bool) → ℕ → Bytes → Bytes
replace_runes unsafe_rune skip [] = []
replace_runes unsafe_rune (suc skip) (c ∷ s) = replace_runes unsafe_rune skip s
replace_runes unsafe_rune zero (c ∷ s) =
    let (r, width) = decode_rune c s in
    (if unsafe_rune r then b'_' ∷ [] else encode_rune r) ++ replace_runes unsafe_rune (width - 1) s
