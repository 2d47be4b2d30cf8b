-- ===== src/Enums/Encoding.antt =====
-- include/databento/enums.hpp, src/enums.cpp: `Encoding`, the encodings of data.
use databento_cpp.Base.{ℕ, ◌≡◌, refl, Bool, true, false, Option, some, [], ◌∷◌}
use Prim.Native.String.{String}
use databento_cpp.Enums.{Names, first_match}

-- The enumerators, and the values of the underlying type that have none.
pub data Encoding : Type 0 where
  dbn csv json : Encoding
  other : ℕ → Encoding

abbrev pub is_enumerator : Encoding → Bool
is_enumerator (other value) = false
is_enumerator _ = true

unfoldable pub to_string : Encoding → String
to_string dbn = "dbn"
to_string csv = "csv"
to_string json = "json"
to_string (other value) = "Unknown"

-- The texts that `FromString` compares with, in its order.
abbrev pub names : Names Encoding
names = ("dbn", dbn) ∷ ("dbz", dbn) ∷ ("csv", csv) ∷ ("json", json) ∷ []

-- `none` for the `InvalidArgumentError`.
unfoldable pub from_string : String → Option Encoding
from_string str = first_match str names

pub encoding_from_string-to_string :
    (v : Encoding) → is_enumerator v ≡ true → from_string (to_string v) ≡ some v
unfolding from_string to_string
encoding_from_string-to_string dbn h = refl
encoding_from_string-to_string csv h = refl
encoding_from_string-to_string json h = refl
encoding_from_string-to_string (other value) h = absurd (cc)
