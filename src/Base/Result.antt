-- ===== src/Base/Result.antt =====
-- Python exceptions as values.
use mathlib.Core.Bool.{Bool, true, false}
use mathlib.Core.Path.{◌≡◌, refl}
use mathlib.Core.Logic.{◌⊎◌, inl, inr}

pub data Error : Type 0 where
  value_error type_error os_error key_error overflow_error : Error
  retries_exceeded invalid_parameter chat_error parsing_error : Error
  kick_error kick_server_error request_error polling_cancelled : Error

-- What a call gives: an exception, or a value.
pub data Result {ℓ} (T : Type ℓ) : Type ℓ where
  raise : Error → Result T
  ok : T → Result T

-- `if test: raise error`
abbrev pub raise_if : Bool → Error → Result (Unit {0})
raise_if true e = raise e
raise_if false e = ok tt

infixl 5 ◌>>=◌ ◌>>◌
-- An exception ends the statements that follow.
abbrev pub ◌>>=◌ {κ ℓ} : {T : Type κ} {R : Type ℓ} → Result T → (T → Result R) → Result R
raise e >>= next = raise e
ok value >>= next = next value

abbrev pub ◌>>◌ {ℓ} : {R : Type ℓ} → Result (Unit {0}) → Result R → Result R
first >> second = first >>= λ _. second

pub Result-cases {ℓ} :
    {T : Type ℓ} (r : Result T) → ((e : Error) × (r ≡ raise e)) ⊎ ((value : T) × (r ≡ ok value))
Result-cases (raise e) = inl (e, refl)
Result-cases (ok value) = inr (value, refl)

pub ok_injective {ℓ} : {T : Type ℓ} {a b : T} → ok a ≡ ok b → a ≡ b
ok_injective e = cc
