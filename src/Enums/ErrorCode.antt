-- ===== src/Enums/ErrorCode.antt =====
-- include/databento/enums.hpp, src/enums.cpp: `ErrorCode`, why the gateway sent an error.
use databento_cpp.Base.{ℕ, ◌≡◌, refl, Bool, true, false, Option, some, [], ◌∷◌, ◌↔◌}
use Prim.Native.String.{String}
use databento_cpp.Enums.{Names, first_match, agrees, first_match-agrees}

-- The enumerators, and the values of the underlying type that have none.
pub data ErrorCode : Type 0 where
  auth_failed api_key_deactivated connection_limit_exceeded symbol_resolution_failed : ErrorCode
  invalid_subscription internal_error skipped_records_after_slow_reading : ErrorCode
  replay_data_aged_out unset : ErrorCode
  other : ℕ → ErrorCode

abbrev pub is_enumerator : ErrorCode → Bool
is_enumerator (other value) = false
is_enumerator _ = true

unfoldable pub to_string : ErrorCode → String
to_string auth_failed = "auth_failed"
to_string api_key_deactivated = "api_key_deactivated"
to_string connection_limit_exceeded = "connection_limit_exceeded"
to_string symbol_resolution_failed = "symbol_resolution_failed"
to_string invalid_subscription = "invalid_subscription"
to_string internal_error = "internal_error"
to_string skipped_records_after_slow_reading = "skipped_records_after_slow_reading"
to_string replay_data_aged_out = "replay_data_aged_out"
to_string unset = "unset"
to_string (other value) = "Unknown"

-- The texts that `FromString` compares with, in its order.
abbrev pub names : Names ErrorCode
names =
    ("auth_failed", auth_failed)
    ∷ ("api_key_deactivated", api_key_deactivated)
    ∷ ("connection_limit_exceeded", connection_limit_exceeded)
    ∷ ("symbol_resolution_failed", symbol_resolution_failed)
    ∷ ("invalid_subscription", invalid_subscription)
    ∷ ("internal_error", internal_error)
    ∷ ("skipped_records_after_slow_reading", skipped_records_after_slow_reading)
    ∷ ("replay_data_aged_out", replay_data_aged_out)
    ∷ ("unset", unset)
    ∷ []

-- `none` for the `InvalidArgumentError`.
unfoldable pub from_string : String → Option ErrorCode
from_string str = first_match str names

pub error_code_from_string-to_string :
    (v : ErrorCode) → is_enumerator v ≡ true → from_string (to_string v) ≡ some v
unfolding from_string to_string
error_code_from_string-to_string auth_failed h = refl
error_code_from_string-to_string api_key_deactivated h = refl
error_code_from_string-to_string connection_limit_exceeded h = refl
error_code_from_string-to_string symbol_resolution_failed h = refl
error_code_from_string-to_string invalid_subscription h = refl
error_code_from_string-to_string internal_error h = refl
error_code_from_string-to_string skipped_records_after_slow_reading h = refl
error_code_from_string-to_string replay_data_aged_out h = refl
error_code_from_string-to_string unset h = refl
error_code_from_string-to_string (other value) h = absurd (cc)

names-agrees : agrees to_string names ≡ true
unfolding to_string
names-agrees = refl

-- `FromString` of a text gives an enumerator exactly where `ToString` of it is that text.
pub error_code_from_string_iff :
    (str : String) (v : ErrorCode)
    → is_enumerator v ≡ true
    → (from_string str ≡ some v) ↔ (to_string v ≡ str)
unfolding from_string
error_code_from_string_iff str v h = (
  first_match-agrees to_string str names v names-agrees,
  λ e. rw (← e) (error_code_from_string-to_string v h),
)
