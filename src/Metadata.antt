-- ===== src/Metadata.antt =====
-- include/databento/dbn.hpp, src/dbn_constants.hpp, src/dbn.cpp: the metadata of a DBN stream. Text
-- is a list of bytes. An enum that is read by `static_cast` from a raw integer holds any value of
-- that integer, so `Schema` and `SType` are numbers here.
pub mod Decode
pub mod Encode
pub mod Format
pub mod RoundTrip
pub mod Runs
use databento_cpp.Base.{ℕ, Bool, Option, List, ltb, if◌then◌else◌}

abbrev pub dbn_version : ℕ
dbn_version = 3

abbrev pub magic_size : ℕ
magic_size = 4

abbrev pub metadata_prelude_size : ℕ
metadata_prelude_size = 8

abbrev pub fixed_metadata_len : ℕ
fixed_metadata_len = 100

abbrev pub dataset_cstr_len : ℕ
dataset_cstr_len = 16

abbrev pub metadata_reserved_len : ℕ
metadata_reserved_len = 53

abbrev pub metadata_reserved_len_v1 : ℕ
metadata_reserved_len_v1 = 47

abbrev pub null_schema : ℕ
null_schema = 0xffff

abbrev pub null_stype : ℕ
null_stype = 0xff

abbrev pub null_record_count : ℕ
null_record_count = 0xffff_ffff_ffff_ffff

-- `kSymbolCstrLen` of constants.hpp and of v1.hpp.
abbrev pub symbol_cstr_len_v1 : ℕ
symbol_cstr_len_v1 = 22

abbrev pub symbol_cstr_len_now : ℕ
symbol_cstr_len_now = 71

abbrev pub Text : Type 0
Text = List ℕ

-- `date::year_month_day`, for years from 0 on.
pub record Date : Type 0 where
  pub year : ℕ
  pub month : ℕ
  pub day : ℕ

pub record MappingInterval : Type 0 where
  pub start_date : Date
  pub end_date : Date
  pub symbol : Text

pub record SymbolMapping : Type 0 where
  pub raw_symbol : Text
  pub intervals : List MappingInterval

pub record Metadata : Type 0 where
  pub version : ℕ
  pub dataset : Text
  pub schema : Option ℕ
  pub start : ℕ
  pub end : ℕ
  pub limit : ℕ
  pub stype_in : Option ℕ
  pub stype_out : ℕ
  pub ts_out : Bool
  pub symbol_cstr_len : ℕ
  pub symbols : List Text
  pub partial : List Text
  pub not_found : List Text
  pub mappings : List SymbolMapping

pub data VersionUpgradePolicy : Type 0 where
  as_is upgrade_to_v2 upgrade_to_v3 : VersionUpgradePolicy

-- `Metadata::Upgrade`
unfoldable pub upgrade : VersionUpgradePolicy → Metadata → Metadata
upgrade upgrade_to_v2 m =
    if ltb m.version 2 then record m { version = 2; symbol_cstr_len = symbol_cstr_len_now } else m
upgrade upgrade_to_v3 m =
    if ltb m.version 3
    then record m { version = dbn_version; symbol_cstr_len = symbol_cstr_len_now }
    else m
upgrade as_is m = m
