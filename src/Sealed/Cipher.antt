-- ===== src/Sealed/Cipher.antt =====
-- sealedRC4State and the seeds of sealed.go. A uint8 is a number below 256; float32 values are
-- counted in units of 2 ^ -31, and rounded to 24 binary digits, ties to even, as IEEE 754 says.
pub mod States
use Prim.Native.Nat.{bit_or, bit_xor}
use pbo.Common.{
  ℕ, zero, suc, ◌+◌, ◌-◌, ◌*◌, ◌/◌, ◌%◌, ◌^◌, List, [], ◌∷◌, ◌++◌, ltb, leb, ◌==◌, if◌then◌else◌,
  length, get_or, set, take, drop, Bytes, max_u32,
}
use pbo.Wire.{get_u32, put_u32}

pub record Rc4State : Type 0 where
  pub index1 : ℕ
  pub index2 : ℕ
  pub state : Bytes

abbrev at : Bytes → ℕ → ℕ
at s i = get_or s i 0

-- `s[i], s[j] = s[j], s[i]`
abbrev swap : Bytes → ℕ → ℕ → Bytes
swap s i j = set (set s i (at s j)) j (at s i)

-- One round of the generator, which `discard`, `apply` and the warmup share.
unfoldable pub step : Rc4State → Rc4State
step s =
    let i = (s.index1 + 1) % 256 in
    let j = (s.index2 + at s.state i) % 256 in
    record { index1 = i; index2 = j; state = swap s.state i j }

-- The byte that a state behind a round puts out.
unfoldable pub output : Rc4State → ℕ
output s = at s.state ((at s.state s.index1 + at s.state s.index2) % 256)

unfoldable pub iterate : ℕ → Rc4State → Rc4State
iterate zero s = s
iterate (suc n) s = iterate n (step s)

unfoldable pub discard : ℕ → Rc4State → Rc4State
unfolding iterate step
discard = iterate

unfoldable pub apply : Rc4State → Bytes → Bytes
unfolding step output
apply s [] = []
apply s (c ∷ d) = let s' = step s in bit_xor c (output s') ∷ apply s' d

unfoldable pub swap_indices : Rc4State → Rc4State
swap_indices s = record s { index1 = s.index2; index2 = s.index1 }

identity_from : ℕ → ℕ → Bytes
identity_from i zero = []
identity_from i (suc n) = i ∷ identity_from (i + 1) n

-- The key schedule: `n` rounds from round `i` on.
schedule : Bytes → ℕ → ℕ → ℕ → Bytes → Bytes
schedule key i zero j s = s
schedule key i (suc n) j s =
    let j' = (j + at key (i % length key) + at s i) % 256 in schedule key (i + 1) n j' (swap s i j')

unfoldable pub new_rc4_state : Bytes → ℕ → Rc4State
unfolding identity_from schedule iterate step
new_rc4_state key warmup =
    iterate warmup
      (record { index1 = 0; index2 = 0; state = schedule key 0 256 0 (identity_from 0 256) })

-- `sealedSeed`: the shifts are those of uint32.
unfoldable pub sealed_seed : ℕ → ℕ
sealed_seed size =
    let left = (8 - size % 8) % 8 in
    let right = size / 8 % 8 in bit_xor size (bit_or (size * 2 ^ left % 2 ^ 32) (size / 2 ^ right))

-- `n / d` to the nearest whole number, ties to even.
round_even : ℕ → ℕ → ℕ
round_even n d =
    let q = n / d in
    let r = n % d in if ltb (2 * r) d then q else if ltb d (2 * r) then q + 1 else q + q % 2

-- The float32 nearest to `n` units: 24 binary digits from the exponent `e` on.
float32_from : ℕ → ℕ → ℕ → ℕ
float32_from zero e n = n
float32_from (suc fuel) e n =
    let wider = float32_from fuel (e + 1) n in
    if ltb n (2 ^ 24 * 2 ^ e) then round_even n (2 ^ e) * 2 ^ e else wider

unfoldable pub float32 : ℕ → ℕ
unfolding float32_from round_even
float32 = float32_from 64 0

-- `sealedRand`: the next seed; the float that it returns has this many units of 2 ^ -31.
unfoldable pub next_seed : ℕ → ℕ
next_seed seed = (12345 + 2 ^ 32 - 1043968403 * seed % 2 ^ 32) % 2 ^ 32 % 2 ^ 31

unfoldable pub sealed_rand : ℕ → ℕ
unfolding next_seed float32
sealed_rand seed = float32 (next_seed seed)

-- `r + 12582912` for the float `r`, which is `units - 2 ^ 30` units and may be negative.
add_magic : ℕ → ℕ
add_magic units =
    let magic = 12582912 * 2 ^ 31 in
    if leb (2 ^ 30) units
    then float32 (magic + float32 (units - 2 ^ 30))
    else float32 (magic - float32 (2 ^ 30 - units))

-- `math.Float32bits(tmp) & 0x7FFFFF` for a float in [2 ^ 23, 2 ^ 24), then the uint32 sums, the
-- reading as int32, and the clamp.
unfoldable pub sealed_init_iterations : ℕ → ℕ → ℕ
unfolding add_magic sealed_rand
sealed_init_iterations cur_pos seed =
    let tmp = add_magic (sealed_rand (bit_xor cur_pos seed) * 256) in
    let mantissa = tmp / 2 ^ 31 % 2 ^ 23 in
    let bits = (mantissa + 0xFFC00000 + 256) % 2 ^ 32 in
    if leb 0x80000000 bits
    then 256
    else if ltb bits 256
    then 256
    else if ltb 511 bits
    then 511
    else bits

-- The four words of the key, each mixed with the mask.
mix_words : ℕ → ℕ → Bytes → Bytes
mix_words mask zero key = []
mix_words mask (suc n) key = put_u32 (bit_xor (get_u32 key) mask) ++ mix_words mask n (drop 4 key)

unfoldable pub state_for_stream_pos : Bytes → ℕ → ℕ → Rc4State
unfolding mix_words new_rc4_state sealed_init_iterations put_u32 get_u32
state_for_stream_pos key seed stream_pos =
    let mask = bit_xor stream_pos (max_u32 - seed) in
    new_rc4_state (mix_words mask 4 key) (sealed_init_iterations stream_pos seed)
