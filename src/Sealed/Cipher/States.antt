-- ===== src/Sealed/Cipher/States.antt =====
-- The bytes of a cipher state of sealed.go stay bytes.
use Prim.Native.Nat.{bit_xor}
use pbo.Common.{
  max_u32, ◌-◌, ℕ, zero, suc, ◌+◌, ◌%◌, ◌<◌, arith, [], ◌∷◌, Bytes, All, IsByte, set, length,
}
use pbo.Sealed.Cipher.{
  Rc4State, at, swap, step, output, iterate, swap_indices, identity_from, schedule, new_rc4_state,
  state_for_stream_pos, sealed_init_iterations, mix_words,
}

at-IsByte : (s : Bytes) (i : ℕ) → All IsByte s → IsByte (at s i)
at-IsByte [] i h = omega arith
at-IsByte (c ∷ s) zero (hc, h) = hc
at-IsByte (c ∷ s) (suc i) (hc, h) = at-IsByte s i h

set-AllByte : (s : Bytes) (i v : ℕ) → IsByte v → All IsByte s → All IsByte (set s i v)
set-AllByte [] i v hv h = tt
set-AllByte (c ∷ s) zero v hv (hc, h) = (hv, h)
set-AllByte (c ∷ s) (suc i) v hv (hc, h) = (hc, set-AllByte s i v hv h)

swap-AllByte : (s : Bytes) (i j : ℕ) → All IsByte s → All IsByte (swap s i j)
swap-AllByte s i j h =
    set-AllByte (set s i (at s j)) j (at s i) (at-IsByte s i h)
      (set-AllByte s i (at s j) (at-IsByte s j h) h)

identity-AllByte : (i n : ℕ) → i + n < 257 → All IsByte (identity_from i n)
unfolding identity_from
identity-AllByte i zero h = tt
identity-AllByte i (suc n) h = (omega arith, identity-AllByte (i + 1) n (omega arith))

schedule-AllByte :
    (key : Bytes) (i n j : ℕ) (s : Bytes) → All IsByte s → All IsByte (schedule key i n j s)
unfolding schedule
schedule-AllByte key i zero j s h = h
schedule-AllByte key i (suc n) j s h =
    let j' = (j + at key (i % length key) + at s i) % 256 in
    schedule-AllByte key (i + 1) n j' (swap s i j') (swap-AllByte s i j' h)

step-AllByte : (s : Rc4State) → All IsByte s.state → All IsByte (step s).state
unfolding step
step-AllByte s h =
    let i = (s.index1 + 1) % 256 in swap-AllByte s.state i ((s.index2 + at s.state i) % 256) h

pub iterate-AllByte : (n : ℕ) (s : Rc4State) → All IsByte s.state → All IsByte (iterate n s).state
unfolding iterate
iterate-AllByte zero s h = h
iterate-AllByte (suc n) s h = iterate-AllByte n (step s) (step-AllByte s h)

pub output-IsByte : (s : Rc4State) → All IsByte s.state → IsByte (output s)
unfolding output
output-IsByte s h = at-IsByte s.state ((at s.state s.index1 + at s.state s.index2) % 256) h

new_rc4_state-AllByte : (key : Bytes) (n : ℕ) → All IsByte (new_rc4_state key n).state
unfolding new_rc4_state
new_rc4_state-AllByte key n =
    iterate-AllByte n
      (record { index1 = 0; index2 = 0; state = schedule key 0 256 0 (identity_from 0 256) })
      (schedule-AllByte key 0 256 0 (identity_from 0 256) (identity-AllByte 0 256 (omega arith)))

pub stream_state-AllByte :
    (key : Bytes) (seed pos : ℕ)
    → All IsByte (swap_indices (state_for_stream_pos key seed pos)).state
unfolding swap_indices state_for_stream_pos
stream_state-AllByte key seed pos =
    new_rc4_state-AllByte (mix_words (bit_xor pos (max_u32 - seed)) 4 key)
      (sealed_init_iterations pos seed)
