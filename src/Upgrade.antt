-- ===== src/Upgrade.antt =====
-- src/dbn_decoder.cpp, src/v1.cpp, src/v2.cpp: how a record of an older version of DBN becomes one
-- of a newer version. A `Record` is a pointer; here it is the memory from that pointer on. A struct
-- that is read through it is the bytes at the offsets of its fields, which the static assertions on
-- the sizes fix: none of the structs has padding between its fields.
pub mod Messages
pub mod Definition
pub mod DefinitionV2
pub mod Dispatch
pub mod Returns
pub mod Structs
pub mod Compat
pub mod Quantity
mod Runs
use databento_cpp.Base.{
  ℕ, ◌+◌, ◌-◌, ◌*◌, ◌/◌, ◌≡◌, Bool, true, false, List, [], ◌∷◌, ◌++◌, ltb, ◌==◌, if◌then◌else◌,
  length, drop, slice, replicate, le, Option, none, some,
}
use databento_cpp.Base.Results.{Result, ok, overrun}

abbrev pub Bytes : Type 0
Bytes = List ℕ

-- The field of `len` bytes at an offset.
abbrev pub field : ℕ → ℕ → Bytes → Bytes
field offset len rec = slice offset len rec

-- The first byte, 0 where there is none.
abbrev pub head_or_zero : Bytes → ℕ
head_or_zero [] = 0
head_or_zero (b ∷ bs) = b

abbrev pub length_multiplier : ℕ
length_multiplier = 4

-- `RecordHeader::Size`: the first byte counts words of 32 bits.
abbrev pub record_size : Bytes → ℕ
record_size rec = head_or_zero rec * length_multiplier

-- `Record::RType`
abbrev pub rtype : Bytes → ℕ
rtype rec = head_or_zero (drop 1 rec)

-- `RecordHeader{sizeof(U) / kLengthMultiplier, rtype, hd.publisher_id, hd.instrument_id,
-- hd.ts_event}`
abbrev pub header : ℕ → ℕ → Bytes → Bytes
header size kind rec = (size / length_multiplier) ∷ kind ∷ field 2 14 rec

-- How a field of the new struct comes about: the bytes at an offset of the old one, those bytes at
-- the front of a field that is wider and else zero, a field of zeros, or given bytes.
pub data Segment : Type 0 where
  copy : ℕ → ℕ → Segment
  widen : ℕ → ℕ → ℕ → Segment
  zeros : ℕ → Segment
  constant : Bytes → Segment

abbrev pub padded : ℕ → Bytes → Bytes
padded width bytes = bytes ++ replicate (width - length bytes) 0

unfoldable pub segment_bytes : Segment → Bytes → Bytes
segment_bytes (copy offset len) rec = field offset len rec
segment_bytes (widen width offset len) rec = padded width (field offset len rec)
segment_bytes (zeros n) rec = replicate n 0
segment_bytes (constant bytes) rec = bytes

unfoldable pub build : List Segment → Bytes → Bytes
unfolding segment_bytes
build [] rec = []
build (s ∷ ss) rec = segment_bytes s rec ++ build ss rec

-- `kUndefPrice`, the largest `int64_t`.
abbrev pub undef_price : Bytes
undef_price = le 8 0x7fff_ffff_ffff_ffff

-- The constructor of `WithTsOut` adjusts the length.
abbrev pub set_length : ℕ → Bytes → Bytes
set_length size [] = []
set_length size (b ∷ bs) = (size / length_multiplier) ∷ bs

-- `UpgradeRecord<T, U>`: it reads a `T`, or a `WithTsOut<T>`, through the record, whatever length
-- the record itself states. `from` is `sizeof(T)` and `to` is `sizeof(U)`.
unfoldable pub upgrade_record : ℕ → ℕ → (Bytes → Bytes) → Bool → Bytes → Result Bytes
upgrade_record from to convert ts_out rec =
    if ts_out
    then if ltb (length rec) (from + 8)
      then overrun
      else ok (set_length (to + 8) (convert rec) ++ field from 8 rec)
    else if ltb (length rec) from
    then overrun
    else ok (convert rec)
