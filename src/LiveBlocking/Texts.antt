-- ===== src/LiveBlocking/Texts.antt =====
-- What the text of a request says: fields that are separated by bars, symbols that are separated by
-- commas, and numbers in decimal.
use databento_cpp.Base.{
  ℕ, zero, suc, ◌+◌, ◌-◌, ◌*◌, ◌/◌, ◌%◌, ◌^◌, ◌<◌, ◌≡◌, refl, sym, ap, ◌∙◌, arith, Bool, true,
  false, List, [], ◌∷◌, ◌++◌, append_assoc, append-nil, codes, ◌==◌, Bool-cases, inl, inr,
}
use databento_cpp.Metadata.{Text}
use databento_cpp.Enums.Schema
use databento_cpp.Enums.Schema.{Schema}
use databento_cpp.Enums.SType
use databento_cpp.Enums.SType.{SType}
use databento_cpp.LiveBlocking.{accumulate, message, sub_msg, no_start, digits, to_decimal}

-- Texts behind another one, each behind a separator.
abbrev pub behind : ℕ → List Text → Text → Text
behind sep [] end = end
behind sep (t ∷ ts) end = sep ∷ (t ++ behind sep ts end)

abbrev pub separated : ℕ → List Text → Text → Text
separated sep [] end = end
separated sep (t ∷ ts) end = t ++ behind sep ts end

-- The symbols from the first one on that is not empty.
abbrev pub from_first : List Text → List Text
from_first [] = []
from_first ([] ∷ ts) = from_first ts
from_first ((c ∷ t) ∷ ts) = (c ∷ t) ∷ ts

abbrev pub digit : Bool → Text
digit true = codes "1"
digit false = codes "0"

abbrev pub last_fields : Bool → Bool → List Text → List Text
last_fields use_snapshot is_last symbols =
    (codes "symbols=" ++ separated b',' (from_first symbols) [])
    ∷ (codes "snapshot=" ++ digit use_snapshot)
    ∷ (codes "is_last=" ++ digit is_last)
    ∷ []

-- The request for some symbols, behind its first fields.
abbrev pub request : List Text → Bool → Bool → List Text → Text
request fields use_snapshot is_last symbols =
    separated b'|' (fields ++ last_fields use_snapshot is_last symbols) (b'\n' ∷ [])

accumulate-behind :
    (c : ℕ) (acc : Text) (ts : List Text) → accumulate (c ∷ acc) ts ≡ (c ∷ acc) ++ behind b',' ts []
unfolding accumulate
accumulate-behind c acc [] = sym (append-nil (c ∷ acc))
accumulate-behind c acc (t ∷ ts) =
    accumulate-behind c (acc ++ (b',' ∷ t)) ts
    ∙ append_assoc (c ∷ acc) (b',' ∷ t) (behind b',' ts [])

-- `JoinSymbolStrings` separates the symbols by commas, and loses the empty ones in front.
pub accumulate-separated : (ts : List Text) → accumulate [] ts ≡ separated b',' (from_first ts) []
unfolding accumulate
accumulate-separated [] = refl
accumulate-separated ([] ∷ ts) = accumulate-separated ts
accumulate-separated ((c ∷ t) ∷ ts) = accumulate-behind c t ts

pub message-request :
    (fields : Text) (use_snapshot is_last : Bool) (symbols : List Text)
    → message fields use_snapshot is_last (accumulate [] symbols)
      ≡ request (fields ∷ []) use_snapshot is_last symbols
message-request fields true true symbols = rw (accumulate-separated symbols) refl
message-request fields true false symbols = rw (accumulate-separated symbols) refl
message-request fields false true symbols = rw (accumulate-separated symbols) refl
message-request fields false false symbols = rw (accumulate-separated symbols) refl

abbrev pub decimal_value_from : ℕ → Text → ℕ
decimal_value_from n [] = n
decimal_value_from n (c ∷ t) = decimal_value_from (10 * n + (c - 48)) t

abbrev pub decimal_value : Text → ℕ
decimal_value t = decimal_value_from 0 t

-- Texts of so many digits have values below this.
abbrev tens : ℕ → ℕ
tens zero = 1
tens (suc fuel) = 10 * tens fuel

digits-value :
    (fuel n : ℕ) (t : Text)
    → n < tens fuel
    → decimal_value (digits fuel n t) ≡ decimal_value_from n t
unfolding digits
digits-value zero n t h = ap (λ k. decimal_value_from k t) (omega arith)
digits-value (suc fuel) n t h = elim (Bool-cases (n / 10 == 0)) [
  | inl one ↦ rw one (ap (λ k. decimal_value_from k t) (ground arith))
  | inr more ↦ rw more (
      digits-value fuel (n / 10) ((48 + n % 10) ∷ t) (omega arith)
      ∙ ap (λ k. decimal_value_from k t) (omega arith))
]

pub to_decimal-value : (n : ℕ) → n < 2 ^ 32 → decimal_value (to_decimal n) ≡ n
unfolding to_decimal
to_decimal-value n h = digits-value 20 n [] (omega arith)

-- The fields of a subscription without a start time.
abbrev pub subscription_fields : Schema → SType → Text → List Text
subscription_fields schema stype_in id =
    (codes "schema=" ++ codes (Schema.to_string schema))
    ∷ (codes "stype_in=" ++ codes (SType.to_string stype_in))
    ∷ (codes "id=" ++ id)
    ∷ []

pub sub_msg-request :
    (schema : Schema) (stype_in : SType) (id : ℕ) (use_snapshot is_last : Bool)
    (symbols : List Text)
    → request (sub_msg schema stype_in no_start id ∷ []) use_snapshot is_last symbols
      ≡ request (subscription_fields schema stype_in (to_decimal id)) use_snapshot is_last symbols
sub_msg-request schema stype_in id use_snapshot is_last symbols =
    let tail = behind b'|' (last_fields use_snapshot is_last symbols) (b'\n' ∷ []) in
    let s = codes (Schema.to_string schema) in
    let t = codes (SType.to_string stype_in) in
    let id_field = codes "|id=" ++ to_decimal id in
    let stype_field = codes "|stype_in=" ++ (t ++ id_field) in
    ap (λ x. codes "schema=" ++ x)
      (append_assoc s stype_field tail
        ∙ ap (λ x. s ++ (codes "|stype_in=" ++ x)) (append_assoc t id_field tail))
