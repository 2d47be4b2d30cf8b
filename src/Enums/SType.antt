-- ===== src/Enums/SType.antt =====
-- include/databento/enums.hpp, src/enums.cpp: `SType`, how a symbol is to be read.
use databento_cpp.Base.{ℕ, ◌≡◌, refl, Bool, true, false, Option, none, some, [], ◌∷◌, if◌then◌else◌}
use Prim.Native.String.{String}
use databento_cpp.Enums.{Names, first_match}

-- The enumerators, and the values of the underlying type that have none.
pub data SType : Type 0 where
  instrument_id raw_symbol smart continuous parent nasdaq_symbol cms_symbol isin us_code : SType
  bbg_comp_id bbg_comp_ticker figi figi_ticker listing_id issuer_id security_id : SType
  other : ℕ → SType

abbrev pub is_enumerator : SType → Bool
is_enumerator (other value) = false
is_enumerator _ = true

unfoldable pub to_string : SType → String
to_string instrument_id = "instrument_id"
to_string raw_symbol = "raw_symbol"
to_string continuous = "continuous"
to_string parent = "parent"
to_string nasdaq_symbol = "nasdaq_symbol"
to_string cms_symbol = "cms_symbol"
to_string isin = "isin"
to_string us_code = "us_code"
to_string bbg_comp_id = "bbg_comp_id"
to_string bbg_comp_ticker = "bbg_comp_ticker"
to_string figi = "figi"
to_string figi_ticker = "figi_ticker"
to_string listing_id = "listing_id"
to_string issuer_id = "issuer_id"
to_string security_id = "security_id"
to_string smart = "Unknown"
to_string (other value) = "Unknown"

-- The texts that `FromString` compares with, in its order.
abbrev pub names : Names SType
names =
    ("instrument_id", instrument_id)
    ∷ ("product_id", instrument_id)
    ∷ ("raw_symbol", raw_symbol)
    ∷ ("native", raw_symbol)
    ∷ ("smart", smart)
    ∷ ("continuous", continuous)
    ∷ ("parent", parent)
    ∷ ("nasdaq_symbol", nasdaq_symbol)
    ∷ ("nasdaq", nasdaq_symbol)
    ∷ ("cms_symbol", cms_symbol)
    ∷ ("cms", cms_symbol)
    ∷ ("isin", isin)
    ∷ ("us_code", us_code)
    ∷ ("bbg_comp_id", bbg_comp_id)
    ∷ ("bbg_comp_ticker", bbg_comp_ticker)
    ∷ ("figi", figi)
    ∷ ("figi_ticker", figi_ticker)
    ∷ ("listing_id", listing_id)
    ∷ ("issuer_id", issuer_id)
    ∷ ("security_id", security_id)
    ∷ []

-- `none` for the `InvalidArgumentError`.
unfoldable pub from_string : String → Option SType
from_string str = first_match str names

abbrev pub is_smart : SType → Bool
is_smart smart = true
is_smart _ = false

-- `FromString` reads back what `ToString` prints of each enumerator but `Smart`, which is printed as
-- no text that `FromString` knows.
pub s_type_from_string-to_string :
    (v : SType)
    → is_enumerator v ≡ true
    → from_string (to_string v) ≡ (if is_smart v then none else some v)
unfolding from_string to_string
s_type_from_string-to_string instrument_id h = refl
s_type_from_string-to_string raw_symbol h = refl
s_type_from_string-to_string smart h = refl
s_type_from_string-to_string continuous h = refl
s_type_from_string-to_string parent h = refl
s_type_from_string-to_string nasdaq_symbol h = refl
s_type_from_string-to_string cms_symbol h = refl
s_type_from_string-to_string isin h = refl
s_type_from_string-to_string us_code h = refl
s_type_from_string-to_string bbg_comp_id h = refl
s_type_from_string-to_string bbg_comp_ticker h = refl
s_type_from_string-to_string figi h = refl
s_type_from_string-to_string figi_ticker h = refl
s_type_from_string-to_string listing_id h = refl
s_type_from_string-to_string issuer_id h = refl
s_type_from_string-to_string security_id h = refl
s_type_from_string-to_string (other value) h = absurd (cc)
