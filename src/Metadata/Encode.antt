-- ===== src/Metadata/Encode.antt =====
-- src/dbn_encoder.cpp: how `DbnEncoder` writes the metadata. The output is what an `IWritable` has
-- been given: a call that throws leaves there what it wrote before.
pub mod Writes
pub mod Length
use databento_cpp.Base.{
  ℕ, zero, suc, ◌+◌, ◌-◌, ◌*◌, ◌%◌, ◌^◌, max, ◌≡◌, Bool, true, false, Option, none, some, List, [],
  ◌∷◌, ◌++◌, foldl, ltb, leb, ◌==◌, ◌||◌, if◌then◌else◌, length, replicate, le,
}
use databento_cpp.Base.Results.{Error, invalid_argument}
use databento_cpp.Metadata.{Metadata, SymbolMapping, MappingInterval, Date, Text, dbn_version}
use databento_cpp.Metadata.{fixed_metadata_len, dataset_cstr_len, null_schema, null_stype}
use databento_cpp.Metadata.{null_record_count, metadata_reserved_len, metadata_reserved_len_v1}
use databento_cpp.Metadata.Decode.{dbn_prefix, reserved_len}

pub data Written : Type 0 where
  done : List ℕ → Written
  threw : Error → List ℕ → Written

abbrev pub Writer : Type 0
Writer = List ℕ → Written

infixl 5 ◌>>◌
abbrev pub ◌>>◌ : Writer → Writer → Writer
◌>>◌ m k out = elim (m out) [ done out' ↦ k out' | threw e out' ↦ threw e out' ]

-- `output->WriteAll(bytes, length)`
unfoldable pub write_all : List ℕ → Writer
write_all bytes out = done (out ++ bytes)

abbrev pub nothing : Writer
nothing out = done out

unfoldable pub write_each {ℓ} : {A : Type ℓ} → (A → Writer) → List A → Writer
write_each w [] = nothing
write_each w (x ∷ xs) = do w x; write_each w xs

-- `EncodeFixedLenCStr`
unfoldable pub encode_fixed_len_cstr : ℕ → Text → Writer
encode_fixed_len_cstr cstr_len str out =
    if leb cstr_len (length str)
    then threw invalid_argument out
    else (write_all str >> write_all (replicate (cstr_len - length str) 0)) out

-- `EncodeAsBytes` of an unsigned integer of `width` bytes; a conversion to that width drops the rest.
unfoldable pub encode_as_bytes : ℕ → ℕ → Writer
encode_as_bytes width n = write_all (le width n)

-- `EncodeDate`, in 32 bits.
unfoldable pub encode_date : Date → Writer
encode_date date = encode_as_bytes 4 ((date.year * 10000 + date.month * 100 + date.day) % 2 ^ 32)

-- `EncodeRepeatedSymbolCStr`
unfoldable pub encode_repeated_symbol_cstr : ℕ → List Text → Writer
encode_repeated_symbol_cstr cstr_len symbols = do
  encode_as_bytes 4 (length symbols)
  write_each (encode_fixed_len_cstr cstr_len) symbols

unfoldable pub encode_interval : ℕ → MappingInterval → Writer
encode_interval cstr_len interval = do
  encode_date interval.start_date
  encode_date interval.end_date
  encode_fixed_len_cstr cstr_len interval.symbol

unfoldable pub encode_symbol_mapping : ℕ → SymbolMapping → Writer
encode_symbol_mapping cstr_len m = do
  encode_fixed_len_cstr cstr_len m.raw_symbol
  encode_as_bytes 4 (length m.intervals)
  write_each (encode_interval cstr_len) m.intervals

-- `EncodeSymbolMappings`
unfoldable pub encode_symbol_mappings : ℕ → List SymbolMapping → Writer
encode_symbol_mappings cstr_len mappings = do
  encode_as_bytes 4 (length mappings)
  write_each (encode_symbol_mapping cstr_len) mappings

abbrev pub mappings_len : ℕ → List SymbolMapping → ℕ
mappings_len cstr_len =
    foldl (λ acc m. acc + cstr_len + 4 + length m.intervals * (4 * 2 + cstr_len)) 0

-- `DbnEncoder::CalcLength`: the length of the frame and the padding at its end. `size_t` is wider
-- than the result, so only the conversion to 32 bits shows.
unfoldable pub needed_len : Metadata → ℕ
needed_len m =
    (fixed_metadata_len
      + 4 * 5
      + (length m.symbols + length m.partial + length m.not_found) * m.symbol_cstr_len
      + mappings_len m.symbol_cstr_len m.mappings)
    % 2 ^ 32

unfoldable pub calc_length : Metadata → ℕ × ℕ
calc_length m =
    let rem = needed_len m % 8 in
    if ltb m.version 3 || rem == 0
    then (needed_len m, 0)
    else ((needed_len m + (8 - rem)) % 2 ^ 32, 8 - rem)

abbrev pub raw_or_null : ℕ → Option ℕ → ℕ
raw_or_null null (some raw) = raw
raw_or_null null none = null

abbrev pub bool_byte : Bool → ℕ
bool_byte true = 1
bool_byte false = 0

-- The fields of `DbnEncoder::EncodeMetadata` between the length of the frame and its padding, for
-- the version that is written.
unfoldable pub encode_fields : ℕ → Metadata → Writer
encode_fields version m = do
  encode_fixed_len_cstr dataset_cstr_len m.dataset
  encode_as_bytes 2 (raw_or_null null_schema m.schema)
  encode_as_bytes 8 m.start
  encode_as_bytes 8 m.end
  encode_as_bytes 8 m.limit
  if version == 1 then encode_as_bytes 8 null_record_count else nothing
  encode_as_bytes 1 (raw_or_null null_stype m.stype_in)
  encode_as_bytes 1 m.stype_out
  encode_as_bytes 1 (bool_byte m.ts_out)
  if ltb 1 version then encode_as_bytes 2 m.symbol_cstr_len else nothing
  write_all (replicate (reserved_len version + 4) 0)
  encode_repeated_symbol_cstr m.symbol_cstr_len m.symbols
  encode_repeated_symbol_cstr m.symbol_cstr_len m.partial
  encode_repeated_symbol_cstr m.symbol_cstr_len m.not_found
  encode_symbol_mappings m.symbol_cstr_len m.mappings

-- `DbnEncoder::EncodeMetadata`
unfoldable pub encode_metadata : Metadata → Writer
encode_metadata m out =
    let version = max 1 m.version in
    let (frame_len, end_padding) = calc_length m in
    if ltb dbn_version m.version
    then threw invalid_argument out
    else (do
      write_all dbn_prefix
      encode_as_bytes 1 version
      encode_as_bytes 4 frame_len
      encode_fields version m
      write_all (replicate end_padding 0))
        out
