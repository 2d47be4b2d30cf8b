-- ===== src/Base/Results.antt =====
-- How a C++ call ends: it returns, it throws one of the exceptions of exceptions.hpp, or it has no
-- defined behaviour.
use mathlib.Core.Bool.{Bool, true, false}
use mathlib.Core.Path.{◌≡◌, refl, ap}
use mathlib.Core.Logic.{◌⊎◌, inl, inr}

-- The messages that the library attaches to `DbnResponseError`, one for each place that throws it.
pub data Reason : Type 0 where
  small_buffer missing_prefix short_frame newer_version missing_null schema_definition : Reason
  symbol_end mappings_end mapping_end interval_count_mismatch : Reason
  legacy_dbz unknown_input zstd_not_dbn end_of_stream : Reason

pub data Error : Type 0 where
  dbn_response : Reason → Error
  invalid_argument : Error
  exception : Error

-- `overrun` is undefined behaviour: an access outside the memory that the callee was given.
pub data Result {ℓ} (A : Type ℓ) : Type ℓ where
  ok : A → Result A
  err : Error → Result A
  overrun : Result A

infixl 5 ◌>>=◌ ◌>>◌
abbrev pub ◌>>=◌ {ℓ κ} : {A : Type ℓ} {B : Type κ} → Result A → (A → Result B) → Result B
ok a >>= f = f a
err e >>= f = err e
overrun >>= f = overrun

abbrev pub ◌>>◌ {ℓ} : {B : Type ℓ} → Result (Unit {0}) → Result B → Result B
m >> k = m >>= λ _. k

-- `if (bad) throw e;`
abbrev pub throw_if : Bool → Error → Result (Unit {0})
throw_if true e = err e
throw_if false e = ok tt

pub Result-cases {ℓ} :
    {A : Type ℓ} (r : Result A)
    → ((a : A) × (r ≡ ok a)) ⊎ (((e : Error) × (r ≡ err e)) ⊎ (r ≡ overrun))
Result-cases (ok a) = inl (a, refl)
Result-cases (err e) = inr (inl (e, refl))
Result-cases overrun = inr (inr refl)

abbrev pub ok_or {ℓ} : {A : Type ℓ} → A → Result A → A
ok_or default (ok a) = a
ok_or default _ = default

pub ok-inj {ℓ} : {A : Type ℓ} {a b : A} → ok a ≡ ok b → a ≡ b
ok-inj {a} e = ap (ok_or a) e

pub err≢ok {ℓ} : {A : Type ℓ} {e : Error} {a : A} → err e ≡ ok a → ⊥
err≢ok p = cc

pub overrun≢ok {ℓ} : {A : Type ℓ} {a : A} → overrun ≡ ok a → ⊥
overrun≢ok p = cc
