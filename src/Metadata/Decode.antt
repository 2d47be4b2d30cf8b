-- ===== src/Metadata/Decode.antt =====
-- src/dbn_decoder.cpp: how `DbnDecoder` reads the metadata frame.
pub mod Reads
pub mod Prelude
pub mod Safety
use databento_cpp.Base.{
  ℕ, ◌+◌, ◌*◌, ◌/◌, ◌%◌, ◌≡◌, Bool, true, false, not, ◌&&◌, Option, none, some, List, [], ◌∷◌, ltb,
  ◌==◌, if◌then◌else◌, length, take, drop, un_le, until_null, slice,
}
use databento_cpp.Base.Results
use databento_cpp.Base.Results.{Result, ok, err, overrun, Error, dbn_response, Reason}
use databento_cpp.Base.Results.{small_buffer, missing_prefix, short_frame, newer_version}
use databento_cpp.Base.Results.{missing_null, schema_definition, symbol_end, mappings_end}
use databento_cpp.Base.Results.{mapping_end, interval_count_mismatch}
use databento_cpp.Base.Parser.{
  Parser, ret, ◌>>=◌, ◌>>◌, consume, consume_int, skip, require, throw_if, times,
}
use databento_cpp.Metadata.{Metadata, SymbolMapping, MappingInterval, Date, Text, dbn_version}
use databento_cpp.Metadata.{fixed_metadata_len, dataset_cstr_len, null_schema, null_stype}
use databento_cpp.Metadata.{symbol_cstr_len_v1, metadata_reserved_len, metadata_reserved_len_v1}

-- `Consume(buf, num_bytes, context)`: a field of `num_bytes` holding a null-terminated string. The
-- exception's text names the context, which the model does not keep.
finish_cstr : Option Text → Parser Text
finish_cstr none s = err (dbn_response missing_null)
finish_cstr (some str) s = ok (str, s)

unfoldable pub consume_cstr : ℕ → Parser Text
unfolding finish_cstr
consume_cstr num_bytes = do cstr ← consume num_bytes; finish_cstr (until_null cstr)

-- `DecodeIso8601Date`
unfoldable pub decode_iso8601_date : ℕ → Date
decode_iso8601_date yyyymmdd_int =
    let remaining = yyyymmdd_int % 10000 in
    record { year = yyyymmdd_int / 10000; month = remaining / 100; day = remaining % 100 }

-- `DbnDecoder::DecodeSymbol`
unfoldable pub decode_symbol : ℕ → Parser Text
decode_symbol symbol_cstr_len = consume_cstr symbol_cstr_len

-- `DbnDecoder::DecodeRepeatedSymbol`
unfoldable pub decode_repeated_symbol : ℕ → Parser (List Text)
decode_repeated_symbol symbol_cstr_len = do
  require 4 symbol_end
  count ← consume_int 4
  require (count * symbol_cstr_len) symbol_end
  times count (decode_symbol symbol_cstr_len)

-- The body of the loop of `DbnDecoder::DecodeSymbolMapping`.
unfoldable pub decode_interval : ℕ → Parser MappingInterval
decode_interval symbol_cstr_len = do
  raw_start_date ← consume_int 4
  raw_end_date ← consume_int 4
  symbol ← decode_symbol symbol_cstr_len
  ret (record {
    start_date = decode_iso8601_date raw_start_date;
    end_date = decode_iso8601_date raw_end_date;
    symbol = symbol;
  })

-- `DbnDecoder::DecodeSymbolMapping`
unfoldable pub decode_symbol_mapping : ℕ → Parser SymbolMapping
decode_symbol_mapping symbol_cstr_len = do
  require (symbol_cstr_len + 4) mapping_end
  raw_symbol ← decode_symbol symbol_cstr_len
  interval_count ← consume_int 4
  require (interval_count * (4 * 2 + symbol_cstr_len)) interval_count_mismatch
  intervals ← times interval_count (decode_interval symbol_cstr_len)
  ret (record { raw_symbol = raw_symbol; intervals = intervals })

-- `DbnDecoder::DecodeSymbolMappings`
unfoldable pub decode_symbol_mappings : ℕ → Parser (List SymbolMapping)
decode_symbol_mappings symbol_cstr_len = do
  require 4 mappings_end
  count ← consume_int 4
  times count (decode_symbol_mapping symbol_cstr_len)

-- `std::nullopt` for the sentinel.
abbrev pub unless_null : ℕ → ℕ → Option ℕ
unless_null null raw = if raw == null then none else some raw

abbrev pub record_count_len : ℕ → ℕ
record_count_len version = if version == 1 then 8 else 0

abbrev pub reserved_len : ℕ → ℕ
reserved_len version = if version == 1 then metadata_reserved_len_v1 else metadata_reserved_len

-- `symbol_cstr_len` is stored from version 2 on.
unfoldable pub decode_symbol_cstr_len : ℕ → Parser ℕ
decode_symbol_cstr_len version = if ltb 1 version then consume_int 2 else ret symbol_cstr_len_v1

-- The body of `DbnDecoder::DecodeMetadataFields` behind the check of the version.
unfoldable pub decode_fields : ℕ → Parser Metadata
decode_fields version = do
  dataset ← consume_cstr dataset_cstr_len
  raw_schema ← consume_int 2
  start ← consume_int 8
  end ← consume_int 8
  limit ← consume_int 8
  skip (record_count_len version)
  raw_stype_in ← consume_int 1
  stype_out ← consume_int 1
  ts_out ← consume_int 1
  symbol_cstr_len ← decode_symbol_cstr_len version
  skip (reserved_len version)
  schema_definition_length ← consume_int 4
  throw_if (not (schema_definition_length == 0)) schema_definition
  symbols ← decode_repeated_symbol symbol_cstr_len
  partial ← decode_repeated_symbol symbol_cstr_len
  not_found ← decode_repeated_symbol symbol_cstr_len
  mappings ← decode_symbol_mappings symbol_cstr_len
  ret (record {
    version = version;
    dataset = dataset;
    schema = unless_null null_schema raw_schema;
    start = start;
    end = end;
    limit = limit;
    stype_in = unless_null null_stype raw_stype_in;
    stype_out = stype_out;
    ts_out = not (ts_out == 0);
    symbol_cstr_len = symbol_cstr_len;
    symbols = symbols;
    partial = partial;
    not_found = not_found;
    mappings = mappings;
  })

-- What the parser returned, without the bytes that it left.
abbrev pub result_of {ℓ} : {A : Type ℓ} → Result (A × List ℕ) → Result A
result_of (ok (a, s)) = ok a
result_of (err e) = err e
result_of overrun = overrun

-- `DbnDecoder::DecodeMetadataFields` on the bytes from `buffer` to `buffer_end`.
unfoldable pub decode_metadata_fields : ℕ → List ℕ → Result Metadata
decode_metadata_fields version bytes =
    if ltb dbn_version version
    then err (dbn_response newer_version)
    else result_of (decode_fields version bytes)

-- `kDbnPrefix`
abbrev pub dbn_prefix : Text
dbn_prefix = b'D' ∷ b'B' ∷ b'N' ∷ []

-- `strncmp(bytes, kDbnPrefix, 3) == 0`, on three bytes at least.
unfoldable pub has_prefix : List ℕ → Bool
has_prefix (d ∷ b ∷ n ∷ rest) = d == b'D' && b == b'B' && n == b'N'
has_prefix _ = false

-- `DbnDecoder::DecodeMetadataVersionAndSize`
unfoldable pub decode_metadata_version_and_size : List ℕ → Result (ℕ × ℕ)
decode_metadata_version_and_size bytes =
    let version = un_le (slice 3 1 bytes) in
    let frame_size = un_le (slice 4 4 bytes) in
    if ltb (length bytes) 8
    then err (dbn_response small_buffer)
    else if not (has_prefix bytes)
    then err (dbn_response missing_prefix)
    else if ltb frame_size fixed_metadata_len
    then err (dbn_response short_frame)
    else ok (version, frame_size)
