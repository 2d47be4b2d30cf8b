-- ===== src/Metadata/Format.antt =====
-- The DBN metadata format, independently of the code that writes and reads it: the bytes of a
-- value, field after field, and the values that the format can hold.
use databento_cpp.Base.{
  ℕ, ◌+◌, ◌-◌, ◌*◌, ◌^◌, ◌≤◌, ◌<◌, ◌≡◌, Option, none, some, List, [], ◌++◌, ltb, ◌==◌,
  if◌then◌else◌, length, replicate, concat_map, le, All, IsCstr,
}
use databento_cpp.Metadata.{Metadata, SymbolMapping, MappingInterval, Date, Text, dbn_version}
use databento_cpp.Metadata.{dataset_cstr_len, null_schema, null_stype, null_record_count}
use databento_cpp.Metadata.{symbol_cstr_len_v1}
use databento_cpp.Metadata.Decode.{reserved_len}
use databento_cpp.Metadata.Encode.{raw_or_null, bool_byte}

abbrev pub cstr_bytes : ℕ → Text → List ℕ
cstr_bytes width str = str ++ replicate (width - length str) 0

abbrev pub date_int : Date → ℕ
date_int d = d.year * 10000 + d.month * 100 + d.day

abbrev pub symbols_bytes : ℕ → List Text → List ℕ
symbols_bytes width symbols = le 4 (length symbols) ++ concat_map (cstr_bytes width) symbols

abbrev pub interval_bytes : ℕ → MappingInterval → List ℕ
interval_bytes width i =
    le 4 (date_int i.start_date) ++ (le 4 (date_int i.end_date) ++ cstr_bytes width i.symbol)

abbrev pub mapping_bytes : ℕ → SymbolMapping → List ℕ
mapping_bytes width m =
    cstr_bytes width m.raw_symbol
    ++ (le 4 (length m.intervals) ++ concat_map (interval_bytes width) m.intervals)

abbrev pub mappings_bytes : ℕ → List SymbolMapping → List ℕ
mappings_bytes width mappings = le 4 (length mappings) ++ concat_map (mapping_bytes width) mappings

abbrev pub record_count_bytes : ℕ → List ℕ
record_count_bytes version = if version == 1 then le 8 null_record_count else []

abbrev pub cstr_len_bytes : ℕ → ℕ → List ℕ
cstr_len_bytes version width = if ltb 1 version then le 2 width else []

abbrev pub variable_bytes : Metadata → List ℕ
variable_bytes m =
    symbols_bytes m.symbol_cstr_len m.symbols
    ++ (symbols_bytes m.symbol_cstr_len m.partial
        ++ (symbols_bytes m.symbol_cstr_len m.not_found
            ++ mappings_bytes m.symbol_cstr_len m.mappings))

-- The reserved bytes and the length of the schema definition, which is always 0.
abbrev pub reserved_bytes : ℕ → List ℕ
reserved_bytes version = replicate (reserved_len version) 0

unfoldable pub fields_bytes : ℕ → Metadata → List ℕ
fields_bytes version m =
    cstr_bytes dataset_cstr_len m.dataset
    ++ (le 2 (raw_or_null null_schema m.schema)
        ++ (le 8 m.start
            ++ (le 8 m.end
                ++ (le 8 m.limit
                    ++ (record_count_bytes version
                        ++ (le 1 (raw_or_null null_stype m.stype_in)
                            ++ (le 1 m.stype_out
                                ++ (le 1 (bool_byte m.ts_out)
                                    ++ (cstr_len_bytes version m.symbol_cstr_len
                                        ++ (reserved_bytes version
                                            ++ (le 4 0 ++ variable_bytes m)))))))))))

-- A date whose number has its digits in the places that the format gives them.
pub record IsDate (d : Date) : Type 0 where
  pub year_fits : d.year < 2 ^ 15
  pub month_fits : d.month < 100
  pub day_fits : d.day < 100

pub record IsInterval (width : ℕ) (i : MappingInterval) : Type 0 where
  pub start_fits : IsDate i.start_date
  pub end_fits : IsDate i.end_date
  pub symbol_fits : IsCstr width i.symbol

pub record IsMapping (width : ℕ) (m : SymbolMapping) : Type 0 where
  pub raw_symbol_fits : IsCstr width m.raw_symbol
  pub count_fits : length m.intervals < 256 ^ 4
  pub intervals_fit : All (IsInterval width) m.intervals

pub record AreSymbols (width : ℕ) (symbols : List Text) : Type 0 where
  pub count_fits : length symbols < 256 ^ 4
  pub symbols_fit : All (IsCstr width) symbols

-- An optional enum: its raw value is not the sentinel.
abbrev pub IsRaw : ℕ → Option ℕ → Type 0
IsRaw null none = Unit
IsRaw null (some raw) = raw < null

-- The metadata that the format can hold. In version 1 the width of symbols is not stored.
pub record IsEncodable (m : Metadata) : Type 0 where
  pub version_min : 1 ≤ m.version
  pub version_max : m.version ≤ dbn_version
  pub dataset_fits : IsCstr dataset_cstr_len m.dataset
  pub schema_fits : IsRaw null_schema m.schema
  pub start_fits : m.start < 256 ^ 8
  pub end_fits : m.end < 256 ^ 8
  pub limit_fits : m.limit < 256 ^ 8
  pub stype_in_fits : IsRaw null_stype m.stype_in
  pub stype_out_fits : m.stype_out < 256 ^ 1
  pub width_fits : m.symbol_cstr_len < 256 ^ 2
  pub width_v1 : m.version ≡ 1 → m.symbol_cstr_len ≡ symbol_cstr_len_v1
  pub symbols_fit : AreSymbols m.symbol_cstr_len m.symbols
  pub partial_fit : AreSymbols m.symbol_cstr_len m.partial
  pub not_found_fit : AreSymbols m.symbol_cstr_len m.not_found
  pub mappings_count_fits : length m.mappings < 256 ^ 4
  pub mappings_fit : All (IsMapping m.symbol_cstr_len) m.mappings
