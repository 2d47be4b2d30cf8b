-- ===== src/Enums/FeedMode.antt =====
-- include/databento/enums.hpp, src/enums.cpp: `FeedMode`, how data is delivered.
use databento_cpp.Base.{ℕ, ◌≡◌, refl, Bool, true, false, Option, some, [], ◌∷◌, ◌↔◌}
use Prim.Native.String.{String}
use databento_cpp.Enums.{Names, first_match, agrees, first_match-agrees}

-- The enumerators, and the values of the underlying type that have none.
pub data FeedMode : Type 0 where
  historical historical_streaming live : FeedMode
  other : ℕ → FeedMode

abbrev pub is_enumerator : FeedMode → Bool
is_enumerator (other value) = false
is_enumerator _ = true

unfoldable pub to_string : FeedMode → String
to_string historical = "historical"
to_string historical_streaming = "historical-streaming"
to_string live = "live"
to_string (other value) = "unknown"

-- The texts that `FromString` compares with, in its order.
abbrev pub names : Names FeedMode
names =
    ("historical", historical)
    ∷ ("historical-streaming", historical_streaming)
    ∷ ("live", live)
    ∷ []

-- `none` for the `InvalidArgumentError`.
unfoldable pub from_string : String → Option FeedMode
from_string str = first_match str names

pub feed_mode_from_string-to_string :
    (v : FeedMode) → is_enumerator v ≡ true → from_string (to_string v) ≡ some v
unfolding from_string to_string
feed_mode_from_string-to_string historical h = refl
feed_mode_from_string-to_string historical_streaming h = refl
feed_mode_from_string-to_string live h = refl
feed_mode_from_string-to_string (other value) h = absurd (cc)

names-agrees : agrees to_string names ≡ true
unfolding to_string
names-agrees = refl

-- `FromString` of a text gives an enumerator exactly where `ToString` of it is that text.
pub feed_mode_from_string_iff :
    (str : String) (v : FeedMode)
    → is_enumerator v ≡ true
    → (from_string str ≡ some v) ↔ (to_string v ≡ str)
unfolding from_string
feed_mode_from_string_iff str v h = (
  first_match-agrees to_string str names v names-agrees,
  λ e. rw (← e) (feed_mode_from_string-to_string v h),
)
