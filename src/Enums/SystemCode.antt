-- ===== src/Enums/SystemCode.antt =====
-- include/databento/enums.hpp, src/enums.cpp: `SystemCode`, what the gateway reports.
use databento_cpp.Base.{ℕ, ◌≡◌, refl, Bool, true, false, Option, some, [], ◌∷◌, ◌↔◌}
use Prim.Native.String.{String}
use databento_cpp.Enums.{Names, first_match, agrees, first_match-agrees}

-- The enumerators, and the values of the underlying type that have none.
pub data SystemCode : Type 0 where
  heartbeat subscription_ack slow_reader_warning replay_completed end_of_interval unset : SystemCode
  other : ℕ → SystemCode

abbrev pub is_enumerator : SystemCode → Bool
is_enumerator (other value) = false
is_enumerator _ = true

unfoldable pub to_string : SystemCode → String
to_string heartbeat = "heartbeat"
to_string subscription_ack = "subscription_ack"
to_string slow_reader_warning = "slow_reader_warning"
to_string replay_completed = "replay_completed"
to_string end_of_interval = "end_of_interval"
to_string unset = "unset"
to_string (other value) = "Unknown"

-- The texts that `FromString` compares with, in its order.
abbrev pub names : Names SystemCode
names =
    ("heartbeat", heartbeat)
    ∷ ("subscription_ack", subscription_ack)
    ∷ ("slow_reader_warning", slow_reader_warning)
    ∷ ("replay_completed", replay_completed)
    ∷ ("end_of_interval", end_of_interval)
    ∷ ("unset", unset)
    ∷ []

-- `none` for the `InvalidArgumentError`.
unfoldable pub from_string : String → Option SystemCode
from_string str = first_match str names

pub system_code_from_string-to_string :
    (v : SystemCode) → is_enumerator v ≡ true → from_string (to_string v) ≡ some v
unfolding from_string to_string
system_code_from_string-to_string heartbeat h = refl
system_code_from_string-to_string subscription_ack h = refl
system_code_from_string-to_string slow_reader_warning h = refl
system_code_from_string-to_string replay_completed h = refl
system_code_from_string-to_string end_of_interval h = refl
system_code_from_string-to_string unset h = refl
system_code_from_string-to_string (other value) h = absurd (cc)

names-agrees : agrees to_string names ≡ true
unfolding to_string
names-agrees = refl

-- `FromString` of a text gives an enumerator exactly where `ToString` of it is that text.
pub system_code_from_string_iff :
    (str : String) (v : SystemCode)
    → is_enumerator v ≡ true
    → (from_string str ≡ some v) ↔ (to_string v ≡ str)
unfolding from_string
system_code_from_string_iff str v h = (
  first_match-agrees to_string str names v names-agrees,
  λ e. rw (← e) (system_code_from_string-to_string v h),
)
