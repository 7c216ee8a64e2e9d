-- ===== src/Model/Errors.antt =====
-- The sentinel errors of errors.go, those of the standard library that the code returns, and a
-- result type with its monad.
use mathlib.Core.Path.{◌≡◌, refl}
use mathlib.Core.Bool.{Bool, true, false}

pub data Error : Type 0 where
  invalid_header file_name_too_long nil_reader reader_at_required writer_at_required : Error
  nil_writer entry_not_found closed size_overflow empty_inputs : Error
  invalid_compress_pattern unsupported_sign_version unsupported_game_type_v3 : Error
  invalid_entry_path duplicate_entry_path invalid_extract_path invalid_entry_offset : Error
  -- io.EOF, io.ErrShortWrite, io.ErrNoProgress, and any other error of a stream or a file
  eof short_write no_progress io_failure : Error
  -- the unnamed error of `tryAssignStoredOffsets`, and those of a missing `Open` or input
  malformed_offsets missing_input : Error
  -- not an error of the code: the model's recursion bound was too small
  out_of_fuel : Error

pub data Result {ℓ} (A : Type ℓ) : Type ℓ where
  ok : A → Result A
  err : Error → Result A

-- `if !b { return e }`
abbrev pub guard : Bool → Error → Result (Unit {0})
guard false e = err e
guard true e = ok tt

pub guard-eq-ok : (b : Bool) (e : Error) {u : Unit {0}} → guard b e ≡ ok u → b ≡ true
guard-eq-ok true e h = refl
guard-eq-ok false e h = cc

pub ok-injective {ℓ} : {A : Type ℓ} {a b : A} → ok a ≡ ok b → a ≡ b
ok-injective h = cc

-- `if err != nil { return err }` behind a call, and what follows.
infixl 5 ◌>>=◌
abbrev pub ◌>>=◌ {ℓ κ} :
    {Value : Type ℓ} {Next : Type κ} (call : Result Value) (rest : Value → Result Next)
    → Result Next
err problem >>= next = err problem
ok value >>= next = next value

-- What two calls in a row returned, if both succeeded.
pub bind-eq-ok {ℓ κ} :
    {Value : Type ℓ} {Next : Type κ} (call : Result Value) (rest : Value → Result Next) {out : Next}
    → (call >>= rest) ≡ ok out
    → (value : Value) × (call ≡ ok value) × (rest value ≡ ok out)
bind-eq-ok (err problem) rest h = cc
bind-eq-ok (ok value) rest h = (value, refl, h)

infixl 5 ◌>>◌
abbrev pub ◌>>◌ {ℓ} : {Next : Type ℓ} (check : Result (Unit {0})) (rest : Result Next) → Result Next
check >> next = check >>= λ _. next
