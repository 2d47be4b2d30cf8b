-- ===== src/Upgrade/Structs/Layout.antt =====
-- How a record of one version becomes one of another by the names of its fields: an independent
-- description of the conversions of src/v1.cpp and src/v2.cpp.
use Prim.Native.String.{String, compare}
use Prim.Native.Nat
use Prim.Native.Nat.{Ordering}
use databento_cpp.Base.{
  Bool, ◌&&◌, if◌then◌else◌, drop, codes, text_eq, starts_with, ℕ, ◌+◌, ◌-◌, List, [], ◌∷◌, ◌++◌,
  length, replicate,
}
use databento_cpp.Upgrade.{Bytes, field}

-- The fields of a struct behind its header, each with its name and its size.
abbrev pub Struct : Type 0
Struct = List (String × ℕ)

abbrev pub header_size : ℕ
header_size = 16

abbrev pub end_of : ℕ → Struct → ℕ
end_of offset [] = offset
end_of offset ((name, size) ∷ fields) = end_of (offset + size) fields

abbrev pub size_of : Struct → ℕ
size_of fields = end_of header_size fields

-- Given bytes for some fields.
abbrev pub Values : Type 0
Values = List (String × Bytes)

-- Where the bytes of a field come from: given ones, zeros, or the field of the old struct at an offset,
-- with zeros behind it where the new field is wider.
pub data Origin : Type 0 where
  given : Bytes → Origin
  blank : ℕ → Origin
  kept : ℕ → ℕ → Origin
  widened : ℕ → ℕ → ℕ → Origin

abbrev pub origin_bytes : Origin → Bytes → Bytes
origin_bytes (given bytes) rec = bytes
origin_bytes (blank size) rec = replicate size 0
origin_bytes (kept offset size) rec = field offset size rec
origin_bytes (widened size offset size') rec =
    let old = field offset size' rec in old ++ replicate (size - length old) 0

abbrev in_width : ℕ → ℕ → ℕ → Origin
in_width size offset size' = elim (Nat.compare size size') [
  | Ordering.eq ↦ kept offset size
  | _ ↦ widened size offset size'
]

-- A field of the old struct by this name, if it has one.
unfoldable pub from_old : String → ℕ → ℕ → Struct → Origin
from_old name size offset [] = blank size
from_old name size offset ((name', size') ∷ fields) = elim (compare name name') [
  | Ordering.eq ↦ in_width size offset size'
  | _ ↦ from_old name size (offset + size') fields
]

-- Reserved bytes are not kept.
unfoldable pub unless_reserved : String → ℕ → Struct → Origin
unfolding from_old
unless_reserved name size old = elim (compare name "_reserved") [
  | Ordering.eq ↦ blank size
  | _ ↦ from_old name size header_size old
]

-- Given bytes go before those of the old struct; a field of neither is zeros.
unfoldable pub origin_of : String → ℕ → Values → Struct → Origin
unfolding unless_reserved
origin_of name size [] old = unless_reserved name size old
origin_of name size ((name', bytes) ∷ values) old = elim (compare name name') [
  | Ordering.eq ↦ given bytes
  | _ ↦ origin_of name size values old
]

unfoldable pub origins : Values → Struct → Struct → List Origin
unfolding origin_of
origins values old [] = []
origins values old ((name, size) ∷ fields) =
    origin_of name size values old ∷ origins values old fields

abbrev pub bytes_of : List Origin → Bytes → Bytes
bytes_of [] rec = []
bytes_of (o ∷ os) rec = origin_bytes o rec ++ bytes_of os rec

-- The fields of the new struct.
abbrev pub by_name : Values → Struct → Struct → Bytes → Bytes
by_name values old new rec = bytes_of (origins values old new) rec

-- Texts that are one text, that begin with one, or that begin with one and end with another.
pub data Pattern : Type 0 where
  whole beginning : String → Pattern
  around : String → String → Pattern

abbrev pub matches : Pattern → Bytes → Bool
matches (whole name) text = text_eq text (codes name)
matches (beginning name) text = starts_with (codes name) text
matches (around name end) text =
    starts_with (codes name) text
    && starts_with (codes end) (drop (length text - length (codes end)) text)

-- The code of the first pattern that matches, 255 where none does.
unfoldable pub first_code : List (Pattern × ℕ) → Bytes → ℕ
first_code [] text = 255
first_code ((pattern, code) ∷ later) text =
    let other = first_code later text in if matches pattern text then code else other
