-- ===== src/Sanitize/Names.antt =====
-- One segment or file name: the functions of sanitize.go that look at no other path.
use Prim.Native.Nat.{bit_xor}
use pbo.Common.{
  ℕ, zero, suc, ◌+◌, ◌-◌, ◌*◌, ◌/◌, ◌%◌, ◌^◌, Bool, true, false, ◌&&◌, ◌||◌, Option, none, some,
  List, [], ◌∷◌, ◌++◌, leb, ltb, ◌==◌, if◌then◌else◌, length, take, drop, get_or, Bytes,
}
use pbo.Model.{Result, ok, err, invalid_extract_path}
use pbo.Text.{codes, equal, trim_space, has_prefix, last_index}
use pbo.Wire.{is_empty, index_byte}
use pbo.Extract.{contains_byte}
use pbo.Sanitize.Runes.{rune_error, replace_runes}

abbrev pub max_sanitized_segment_len : ℕ
max_sanitized_segment_len = 240

abbrev reserved_dos_names : List Bytes
reserved_dos_names =
    codes "$"
    ∷ codes "$addstor"
    ∷ codes "$idle$"
    ∷ codes "386max$$"
    ∷ codes "4dosstak"
    ∷ codes "82164a"
    ∷ codes "aux"
    ∷ codes "cloak$$$"
    ∷ codes "clock"
    ∷ codes "clock$"
    ∷ codes "com1"
    ∷ codes "com2"
    ∷ codes "com3"
    ∷ codes "com4"
    ∷ codes "com5"
    ∷ codes "com6"
    ∷ codes "com7"
    ∷ codes "com8"
    ∷ codes "com9"
    ∷ codes "con"
    ∷ codes "config$"
    ∷ codes "dblssys$"
    ∷ codes "dpmixxx0"
    ∷ codes "dpmsxxx0"
    ∷ codes "emm$$$$$"
    ∷ codes "emmqxxx0"
    ∷ codes "emmxxxq0"
    ∷ codes "emmxxxx0"
    ∷ codes "hmaldsys"
    ∷ codes "ifs$hlp$"
    ∷ codes "kbd$"
    ∷ codes "keybd$"
    ∷ codes "lpt1"
    ∷ codes "lpt2"
    ∷ codes "lpt3"
    ∷ codes "lpt4"
    ∷ codes "lpt5"
    ∷ codes "lpt6"
    ∷ codes "lpt7"
    ∷ codes "lpt8"
    ∷ codes "lpt9"
    ∷ codes "lst"
    ∷ codes "mouse$"
    ∷ codes "ndosstak"
    ∷ codes "nul"
    ∷ codes "pc$mouse"
    ∷ codes "plt"
    ∷ codes "pointer$"
    ∷ codes "prn"
    ∷ codes "protman$"
    ∷ codes "qdpmi$$$"
    ∷ codes "qemm386$"
    ∷ codes "qextxxx0"
    ∷ codes "qmmxxxx0"
    ∷ codes "screen$"
    ∷ codes "vcpixxx0"
    ∷ codes "xmsxxxx0"
    ∷ []

unfoldable pub is_member : List Bytes → Bytes → Bool
is_member [] s = false
is_member (t ∷ ts) s = equal t s || is_member ts s

-- `strings.TrimRight` with a set of bytes
unfoldable pub trim_right : (ℕ → Bool) → Bytes → Bytes
trim_right test [] = []
trim_right test (c ∷ s) =
    let rest = trim_right test s in if is_empty rest && test c then [] else c ∷ rest

-- What is before the first dot.
unfoldable pub before_dot : Bytes → Bytes
before_dot s = elim (index_byte s b'.') [ none ↦ s | some dot ↦ take dot s ]

unfoldable pub is_reserved_device_name : (Bytes → Bytes) → Bytes → Bool
is_reserved_device_name lower name =
    let dots = λ (c : ℕ). c == b'.' || (c == b' ' || c == b':') in
    let candidate = trim_right dots (before_dot (lower (trim_right dots (trim_space name)))) in
    if is_empty candidate then false else is_member reserved_dos_names candidate

unfoldable pub is_hex : ℕ → Bool
is_hex c = leb b'0' c && leb c b'9' || (leb b'a' c && leb c b'f' || leb b'A' c && leb c b'F')

-- The loop over the bytes between the braces, from the index `idx`.
unfoldable pub guid_loop : ℕ → Bytes → Bool
guid_loop idx [] = true
guid_loop idx (c ∷ s) =
    (if idx == 9 || (idx == 14 || (idx == 19 || idx == 24)) then c == b'-' else is_hex c)
    && guid_loop (idx + 1) s

unfoldable pub is_braced_guid : Bytes → Bool
is_braced_guid token =
    length token == 38
    && ((get_or token 0 0 == b'{' && get_or token 37 0 == b'}')
        && guid_loop 1 (take 36 (drop 1 token)))

-- `strings.LastIndex` of ".{"
unfoldable pub last_dot_brace : Bytes → Option ℕ
last_dot_brace [] = none
last_dot_brace (c ∷ s) = elim (last_dot_brace s) [
  | some n ↦ some (suc n)
  | none ↦ if has_prefix (c ∷ s) (codes ".{") then some 0 else none
]

unfoldable pub sanitize_windows_guid_suffix : Bytes → Bytes
sanitize_windows_guid_suffix segment = elim (last_dot_brace segment) [
  | none ↦ segment
  | some dot ↦
      let braced = drop (suc dot) segment in
      if is_braced_guid braced then take dot segment ++ b'_' ∷ braced else segment
]

-- FNV-1a of 32 bits, and "%08x".
unfoldable pub fnv32a : ℕ → Bytes → ℕ
fnv32a h [] = h
fnv32a h (c ∷ s) = fnv32a (bit_xor h c * 16777619 % 2 ^ 32) s

unfoldable pub hex_digit : ℕ → ℕ
hex_digit n = if ltb n 10 then b'0' + n else b'a' + (n - 10)

unfoldable pub hex8 : ℕ → Bytes
hex8 h =
    hex_digit (h / 16 ^ 7 % 16)
    ∷ hex_digit (h / 16 ^ 6 % 16)
    ∷ hex_digit (h / 16 ^ 5 % 16)
    ∷ hex_digit (h / 16 ^ 4 % 16)
    ∷ hex_digit (h / 16 ^ 3 % 16)
    ∷ hex_digit (h / 16 ^ 2 % 16)
    ∷ hex_digit (h / 16 % 16)
    ∷ hex_digit (h % 16)
    ∷ []

-- `max` with 1
abbrev pub at_least_one : ℕ → ℕ
at_least_one n = if n == 0 then 1 else n

unfoldable pub shorten_segment_deterministic : Bytes → ℕ → Bytes
shorten_segment_deterministic text max_len =
    if leb (length text) max_len
    then text
    else if leb max_len 10
    then take max_len text
    else take (at_least_one (max_len - 9)) text ++ b'~' ∷ hex8 (fnv32a 2166136261 text)

-- `unicode.IsControl`, or a format rune, or U+FFFD
unfoldable pub is_unsafe_control_char_rune : (ℕ → Bool) → ℕ → Bool
is_unsafe_control_char_rune is_format r =
    (ltb r 0x20 || leb 0x7F r && ltb r 0xA0) || (is_format r || r == rune_error)

unfoldable pub is_unsafe_path_rune : (ℕ → Bool) → ℕ → Bool
is_unsafe_path_rune is_format r =
    is_unsafe_control_char_rune is_format r || contains_byte r (codes "<>:\"/\\|?*")

abbrev pub or_underscore : Bytes → Bytes
or_underscore s = if is_empty s then b'_' ∷ [] else s

unfoldable pub trim_dots : Bytes → Bytes
trim_dots s = trim_right (λ c. c == b'.' || c == b' ') s

-- The rest of `sanitizePathSegment` behind the first guard.
unfoldable pub sanitize_named : (Bytes → Bytes) → (ℕ → Bool) → Bytes → Result Bytes
sanitize_named lower is_format segment =
    let raw_reserved = is_reserved_device_name lower segment in
    let cleaned =
      or_underscore (trim_dots (replace_runes (is_unsafe_path_rune is_format) 0 segment)) in
    let reserved = raw_reserved || is_reserved_device_name lower (before_dot cleaned) in
    let prefixed = if reserved then b'_' ∷ cleaned else cleaned in
    let short = shorten_segment_deterministic prefixed max_sanitized_segment_len in
    if is_empty short then err invalid_extract_path else ok short

unfoldable pub sanitize_path_segment : (Bytes → Bytes) → (ℕ → Bool) → Bytes → Result Bytes
sanitize_path_segment lower is_format raw =
    let segment = trim_space raw in
    if is_empty segment
    then ok (b'_' ∷ [])
    else sanitize_named lower is_format (sanitize_windows_guid_suffix segment)

unfoldable pub sanitize_control_char_path_segment : (ℕ → Bool) → Bytes → Result Bytes
sanitize_control_char_path_segment is_format segment =
    if equal segment (codes "..")
    then ok (b'_' ∷ [])
    else ok (or_underscore (replace_runes (is_unsafe_control_char_rune is_format) 0 segment))

-- `strconv.Itoa`; a number has no more digits than its value, or one.
unfoldable pub itoa_from : ℕ → ℕ → Bytes → Bytes
itoa_from zero n out = (b'0' + n % 10) ∷ out
itoa_from (suc fuel) n out = elim (n / 10) [
  | zero ↦ (b'0' + n % 10) ∷ out
  | suc q ↦ itoa_from fuel (suc q) ((b'0' + n % 10) ∷ out)
]

unfoldable pub itoa : ℕ → Bytes
itoa n = itoa_from n n []

-- `path.Ext` of a name without slashes, and what is before it.
unfoldable pub ext_start : Bytes → ℕ
ext_start name = elim (last_index (λ c. c == b'.') name) [ zero ↦ length name | suc dot ↦ dot ]

unfoldable pub with_numeric_suffix : Bytes → ℕ → Bytes
with_numeric_suffix name n =
    let ext = drop (ext_start name) name in
    let base = take (ext_start name) name in
    let suffix = b'~' ∷ itoa n in
    let allowed = at_least_one ((max_sanitized_segment_len - length ext) - length suffix) in
    let short =
      if ltb allowed (length base) then shorten_segment_deterministic base allowed else base in
    (short ++ suffix) ++ ext
