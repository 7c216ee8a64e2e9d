-- ===== src/Text.antt =====
-- The functions of Go's strings package that the code uses, over byte strings.
pub mod Split
pub mod Equal
use pbo.Common.{
  ℕ, zero, suc, ◌+◌, ◌-◌, Bool, true, false, ◌&&◌, ◌||◌, List, [], ◌∷◌, ◌++◌, map, leb, ◌==◌,
  if◌then◌else◌, length, Bytes,
}
use Prim.Native.Char.{code}
use Prim.Native.String.{String}

-- The bytes of a literal; every literal here is ASCII.
abbrev pub codes : String → Bytes
codes String.[] = []
codes (String.◌∷◌ c s) = code c ∷ codes s

-- Equality of strings.
unfoldable pub equal : Bytes → Bytes → Bool
equal [] [] = true
equal (x ∷ xs) (y ∷ ys) = x == y && equal xs ys
equal _ _ = false

-- `strings.HasPrefix s p`
unfoldable pub has_prefix : Bytes → Bytes → Bool
has_prefix s [] = true
has_prefix [] (y ∷ p) = false
has_prefix (x ∷ s) (y ∷ p) = x == y && has_prefix s p

-- `strings.TrimPrefix` with a prefix of one byte, and with "./"
unfoldable pub trim_prefix_byte : ℕ → Bytes → Bytes
trim_prefix_byte b [] = []
trim_prefix_byte b (c ∷ s) = if c == b then s else c ∷ s

unfoldable pub trim_dot_slash : Bytes → Bytes
trim_dot_slash (a ∷ b ∷ s) = if a == b'.' && b == b'/' then s else a ∷ b ∷ s
trim_dot_slash s = s

-- `strings.TrimSuffix` with a suffix of one byte
unfoldable pub trim_suffix_byte : ℕ → Bytes → Bytes
trim_suffix_byte b [] = []
trim_suffix_byte b (c ∷ []) = if c == b then [] else c ∷ []
trim_suffix_byte b (c ∷ d ∷ s) = c ∷ trim_suffix_byte b (d ∷ s)

-- `strings.ReplaceAll` with strings of one byte
unfoldable pub replace_byte : ℕ → ℕ → Bytes → Bytes
replace_byte a b [] = []
replace_byte a b (c ∷ s) = (if c == a then b else c) ∷ replace_byte a b s

-- `strings.Split` and `strings.Join` with a separator of one byte
unfoldable pub cons_head : ℕ → List Bytes → List Bytes
cons_head c [] = (c ∷ []) ∷ []
cons_head c (p ∷ ps) = (c ∷ p) ∷ ps

unfoldable pub split : Bytes → ℕ → List Bytes
unfolding cons_head
split [] sep = [] ∷ []
split (c ∷ s) sep = let rest = split s sep in if c == sep then [] ∷ rest else cons_head c rest

unfoldable pub join : List Bytes → ℕ → Bytes
join [] sep = []
join (p ∷ []) sep = p
join (p ∷ q ∷ ps) sep = p ++ sep ∷ join (q ∷ ps) sep

-- ASCII letters to lower case; on ASCII strings this is `strings.ToLower`.
unfoldable pub lower_byte : ℕ → ℕ
lower_byte c = if leb b'A' c && leb c b'Z' then c + 32 else c

unfoldable pub ascii_lower : Bytes → Bytes
unfolding lower_byte
ascii_lower [] = []
ascii_lower (c ∷ s) = lower_byte c ∷ ascii_lower s

-- White space of one byte, and the UTF-8 encodings of two and of three bytes of the runes that
-- `unicode.IsSpace` accepts.
abbrev space₁ : ℕ → Bool
space₁ a = leb 9 a && leb a 13 || a == 32

abbrev space₂ : ℕ → ℕ → Bool
space₂ a b = a == 0xC2 && (b == 0x85 || b == 0xA0)

abbrev space₃ : ℕ → ℕ → ℕ → Bool
space₃ a b c =
    a == 0xE1 && b == 0x9A && c == 0x80
    || a == 0xE2 && b == 0x80 && (leb 0x80 c && leb c 0x8A || c == 0xA8 || c == 0xA9 || c == 0xAF)
    || a == 0xE2 && b == 0x81 && c == 0x9F
    || a == 0xE3 && b == 0x80 && c == 0x80

-- How many bytes the white space at the front takes.
space_len : Bytes → ℕ
space_len [] = 0
space_len (a ∷ []) = if space₁ a then 1 else 0
space_len (a ∷ b ∷ []) = if space₁ a then 1 else if space₂ a b then 2 else 0
space_len (a ∷ b ∷ c ∷ _) =
    if space₁ a then 1 else if space₂ a b then 2 else if space₃ a b c then 3 else 0

-- The same at the end, on the reversed string.
space_len_back : Bytes → ℕ
space_len_back [] = 0
space_len_back (a ∷ []) = if space₁ a then 1 else 0
space_len_back (a ∷ b ∷ []) = if space₁ a then 1 else if space₂ b a then 2 else 0
space_len_back (a ∷ b ∷ c ∷ _) =
    if space₁ a then 1 else if space₂ b a then 2 else if space₃ c b a then 3 else 0

-- Drops `skip` bytes, then white space as long as `measure` finds some.
trim_by : (Bytes → ℕ) → ℕ → Bytes → Bytes
trim_by measure skip [] = []
trim_by measure (suc skip) (c ∷ s) = trim_by measure skip s
trim_by measure zero (c ∷ s) = elim (measure (c ∷ s)) [ zero ↦ c ∷ s | suc n ↦ trim_by measure n s ]

unfoldable pub reverse : Bytes → Bytes → Bytes
reverse out [] = out
reverse out (c ∷ s) = reverse (c ∷ out) s

-- `strings.TrimSpace`
unfoldable pub trim_space : Bytes → Bytes
unfolding space_len space_len_back trim_by reverse
trim_space s = reverse [] (trim_by space_len_back 0 (reverse [] (trim_by space_len 0 s)))

-- The position of the last byte that passes, plus one: zero stands for Go's -1.
unfoldable pub last_index : (ℕ → Bool) → Bytes → ℕ
last_index test [] = 0
last_index test (c ∷ s) = elim (last_index test s) [
  | zero ↦ if test c then 1 else 0
  | suc n ↦ suc (suc n)
]
