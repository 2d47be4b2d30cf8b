-- ===== src/Enums/Schema.antt =====
-- include/databento/enums.hpp, src/enums.cpp: `Schema`, what kind of records a request or a stream is for.
use databento_cpp.Base.{ℕ, ◌≡◌, refl, Bool, true, false, Option, some, [], ◌∷◌, ◌↔◌}
use Prim.Native.String.{String}
use databento_cpp.Enums.{Names, first_match, agrees, first_match-agrees}

-- The enumerators, and the values of the underlying type that have none.
pub data Schema : Type 0 where
  mbo mbp1 mbp10 tbbo trades ohlcv1s ohlcv1m ohlcv1h ohlcv1d definition statistics : Schema
  status imbalance ohlcv_eod cmbp1 cbbo1s cbbo1m tcbbo bbo1s bbo1m : Schema
  other : ℕ → Schema

abbrev pub is_enumerator : Schema → Bool
is_enumerator (other value) = false
is_enumerator _ = true

unfoldable pub to_string : Schema → String
to_string mbo = "mbo"
to_string mbp1 = "mbp-1"
to_string mbp10 = "mbp-10"
to_string tbbo = "tbbo"
to_string trades = "trades"
to_string ohlcv1s = "ohlcv-1s"
to_string ohlcv1m = "ohlcv-1m"
to_string ohlcv1h = "ohlcv-1h"
to_string ohlcv1d = "ohlcv-1d"
to_string definition = "definition"
to_string statistics = "statistics"
to_string status = "status"
to_string imbalance = "imbalance"
to_string ohlcv_eod = "ohlcv-eod"
to_string cmbp1 = "cmbp-1"
to_string cbbo1s = "cbbo-1s"
to_string cbbo1m = "cbbo-1m"
to_string tcbbo = "tcbbo"
to_string bbo1s = "bbo-1s"
to_string bbo1m = "bbo-1m"
to_string (other value) = "Unknown"

-- The texts that `FromString` compares with, in its order.
abbrev pub names : Names Schema
names =
    ("mbo", mbo)
    ∷ ("mbp-1", mbp1)
    ∷ ("mbp-10", mbp10)
    ∷ ("tbbo", tbbo)
    ∷ ("trades", trades)
    ∷ ("ohlcv-1s", ohlcv1s)
    ∷ ("ohlcv-1m", ohlcv1m)
    ∷ ("ohlcv-1h", ohlcv1h)
    ∷ ("ohlcv-1d", ohlcv1d)
    ∷ ("definition", definition)
    ∷ ("statistics", statistics)
    ∷ ("status", status)
    ∷ ("imbalance", imbalance)
    ∷ ("ohlcv-eod", ohlcv_eod)
    ∷ ("cmbp-1", cmbp1)
    ∷ ("cbbo-1s", cbbo1s)
    ∷ ("cbbo-1m", cbbo1m)
    ∷ ("tcbbo", tcbbo)
    ∷ ("bbo-1s", bbo1s)
    ∷ ("bbo-1m", bbo1m)
    ∷ []

-- `none` for the `InvalidArgumentError`.
unfoldable pub from_string : String → Option Schema
from_string str = first_match str names

pub schema_from_string-to_string :
    (v : Schema) → is_enumerator v ≡ true → from_string (to_string v) ≡ some v
unfolding from_string to_string
schema_from_string-to_string mbo h = refl
schema_from_string-to_string mbp1 h = refl
schema_from_string-to_string mbp10 h = refl
schema_from_string-to_string tbbo h = refl
schema_from_string-to_string trades h = refl
schema_from_string-to_string ohlcv1s h = refl
schema_from_string-to_string ohlcv1m h = refl
schema_from_string-to_string ohlcv1h h = refl
schema_from_string-to_string ohlcv1d h = refl
schema_from_string-to_string definition h = refl
schema_from_string-to_string statistics h = refl
schema_from_string-to_string status h = refl
schema_from_string-to_string imbalance h = refl
schema_from_string-to_string ohlcv_eod h = refl
schema_from_string-to_string cmbp1 h = refl
schema_from_string-to_string cbbo1s h = refl
schema_from_string-to_string cbbo1m h = refl
schema_from_string-to_string tcbbo h = refl
schema_from_string-to_string bbo1s h = refl
schema_from_string-to_string bbo1m h = refl
schema_from_string-to_string (other value) h = absurd (cc)

names-agrees : agrees to_string names ≡ true
unfolding to_string
names-agrees = refl

-- `FromString` of a text gives an enumerator exactly where `ToString` of it is that text.
pub schema_from_string_iff :
    (str : String) (v : Schema)
    → is_enumerator v ≡ true
    → (from_string str ≡ some v) ↔ (to_string v ≡ str)
unfolding from_string
schema_from_string_iff str v h = (
  first_match-agrees to_string str names v names-agrees,
  λ e. rw (← e) (schema_from_string-to_string v h),
)
