-- ===== src/Enums.antt =====
-- src/enums.cpp: what the `FromString` functions share, an `if` for each text that is compared with.
pub mod Schema
pub mod SType
pub mod FeedMode
pub mod JobState
pub mod DatasetCondition
pub mod ErrorCode
pub mod SystemCode
pub mod Encoding
mod Runs
use databento_cpp.Base.{
  ◌≡◌, refl, sym, ◌∙◌, Bool, true, false, ◌&&◌, Option, none, some, List, [], ◌∷◌, if◌then◌else◌,
}
use Prim.Native.String.{String}
use text.Mathlib.Text.{◌==◌}
use text.Mathlib.TextEquality.{eq_iff}
use native.Mathlib.Omega.{arith}

abbrev pub Names : Type 0 → Type 0
Names A = List (String × A)

module _ {A : Type 0} where
  -- `if (str == name) return value;` for each name, the first that is equal.
  abbrev pub first_match : String → Names A → Option A
  first_match str [] = none
  first_match str ((name, value) ∷ names) =
      if str == name then some value else first_match str names

  -- Each value is printed as the name beside it.
  abbrev pub agrees : (A → String) → Names A → Bool
  agrees print [] = true
  agrees print ((name, value) ∷ names) = print value == name && agrees print names

  pub first_match-agrees :
      (print : A → String) (str : String) (names : Names A) (value : A)
      → agrees print names ≡ true
      → first_match str names ≡ some value
      → print value ≡ str
  first_match-agrees print str [] value a m = absurd (cc)
  first_match-agrees print str ((name, v) ∷ names) value a m =
      ground
        (arith, eq_iff str name, eq_iff (print v) name, first_match-agrees print str names value)
