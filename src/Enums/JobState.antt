-- ===== src/Enums/JobState.antt =====
-- include/databento/enums.hpp, src/enums.cpp: `JobState`, the state of a batch job.
use databento_cpp.Base.{ℕ, ◌≡◌, refl, Bool, true, false, Option, some, [], ◌∷◌, ◌↔◌}
use Prim.Native.String.{String}
use databento_cpp.Enums.{Names, first_match, agrees, first_match-agrees}

-- The enumerators, and the values of the underlying type that have none.
pub data JobState : Type 0 where
  queued processing done expired : JobState
  other : ℕ → JobState

abbrev pub is_enumerator : JobState → Bool
is_enumerator (other value) = false
is_enumerator _ = true

unfoldable pub to_string : JobState → String
to_string queued = "queued"
to_string processing = "processing"
to_string done = "done"
to_string expired = "expired"
to_string (other value) = "unknown"

-- The texts that `FromString` compares with, in its order.
abbrev pub names : Names JobState
names = ("queued", queued) ∷ ("processing", processing) ∷ ("done", done) ∷ ("expired", expired) ∷ []

-- `none` for the `InvalidArgumentError`.
unfoldable pub from_string : String → Option JobState
from_string str = first_match str names

pub job_state_from_string-to_string :
    (v : JobState) → is_enumerator v ≡ true → from_string (to_string v) ≡ some v
unfolding from_string to_string
job_state_from_string-to_string queued h = refl
job_state_from_string-to_string processing h = refl
job_state_from_string-to_string done h = refl
job_state_from_string-to_string expired h = refl
job_state_from_string-to_string (other value) h = absurd (cc)

names-agrees : agrees to_string names ≡ true
unfolding to_string
names-agrees = refl

-- `FromString` of a text gives an enumerator exactly where `ToString` of it is that text.
pub job_state_from_string_iff :
    (str : String) (v : JobState)
    → is_enumerator v ≡ true
    → (from_string str ≡ some v) ↔ (to_string v ≡ str)
unfolding from_string
job_state_from_string_iff str v h = (
  first_match-agrees to_string str names v names-agrees,
  λ e. rw (← e) (job_state_from_string-to_string v h),
)
