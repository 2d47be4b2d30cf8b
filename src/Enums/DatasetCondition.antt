-- ===== src/Enums/DatasetCondition.antt =====
-- include/databento/enums.hpp, src/enums.cpp: `DatasetCondition`, the condition of a dataset on a day.
use databento_cpp.Base.{ℕ, ◌≡◌, refl, Bool, true, false, Option, some, [], ◌∷◌, ◌↔◌}
use Prim.Native.String.{String}
use databento_cpp.Enums.{Names, first_match, agrees, first_match-agrees}

-- The enumerators, and the values of the underlying type that have none.
pub data DatasetCondition : Type 0 where
  available degraded pending missing : DatasetCondition
  other : ℕ → DatasetCondition

abbrev pub is_enumerator : DatasetCondition → Bool
is_enumerator (other value) = false
is_enumerator _ = true

unfoldable pub to_string : DatasetCondition → String
to_string available = "available"
to_string degraded = "degraded"
to_string pending = "pending"
to_string missing = "missing"
to_string (other value) = "unknown"

-- The texts that `FromString` compares with, in its order.
abbrev pub names : Names DatasetCondition
names =
    ("available", available)
    ∷ ("degraded", degraded)
    ∷ ("pending", pending)
    ∷ ("missing", missing)
    ∷ []

-- `none` for the `InvalidArgumentError`.
unfoldable pub from_string : String → Option DatasetCondition
from_string str = first_match str names

pub dataset_condition_from_string-to_string :
    (v : DatasetCondition) → is_enumerator v ≡ true → from_string (to_string v) ≡ some v
unfolding from_string to_string
dataset_condition_from_string-to_string available h = refl
dataset_condition_from_string-to_string degraded h = refl
dataset_condition_from_string-to_string pending h = refl
dataset_condition_from_string-to_string missing h = refl
dataset_condition_from_string-to_string (other value) h = absurd (cc)

names-agrees : agrees to_string names ≡ true
unfolding to_string
names-agrees = refl

-- `FromString` of a text gives an enumerator exactly where `ToString` of it is that text.
pub dataset_condition_from_string_iff :
    (str : String) (v : DatasetCondition)
    → is_enumerator v ≡ true
    → (from_string str ≡ some v) ↔ (to_string v ≡ str)
unfolding from_string
dataset_condition_from_string_iff str v h = (
  first_match-agrees to_string str names v names-agrees,
  λ e. rw (← e) (dataset_condition_from_string-to_string v h),
)
