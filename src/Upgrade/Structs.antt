-- ===== src/Upgrade/Structs.antt =====
-- Which structs the versions of DBN have for the types of records, and what an upgraded record is by them.
pub mod Layout
pub mod DefinitionV1
pub mod DefinitionV2
pub mod DefinitionV3
pub mod Messages
pub mod Fields
pub mod Records
pub mod Dispatch
use databento_cpp.Base.{
  ℕ, ◌+◌, ◌/◌, max, Bool, Option, none, some, List, [], ◌∷◌, ◌++◌, ◌==◌, if◌then◌else◌, le, un_le,
  replicate, until_null,
}
use databento_cpp.Metadata.{VersionUpgradePolicy, as_is, upgrade_to_v2, upgrade_to_v3}
use databento_cpp.Upgrade.{Bytes, rtype, field, length_multiplier, undef_price}
use databento_cpp.Upgrade.Messages.{upgrade_quantity, code_of_text}
use databento_cpp.Upgrade.Structs.Layout.{
  Pattern, whole, beginning, around, first_code, Struct, Values, by_name, size_of,
}
use databento_cpp.Upgrade.Structs.DefinitionV1.{instrument_def_v1}
use databento_cpp.Upgrade.Structs.DefinitionV2.{instrument_def_v2}
use databento_cpp.Upgrade.Structs.DefinitionV3.{instrument_def_v3}
use databento_cpp.Upgrade.Structs.Messages.{
  stat_v1, stat_v3, symbol_mapping_v1, symbol_mapping_v2, error_v1, error_v2, system_v1, system_v2,
}
use databento_cpp.RType

-- The structs that differ between versions.
abbrev pub struct_among : Struct → Struct → Struct → Struct → Struct → ℕ → Option Struct
struct_among definition stat mapping error system kind =
    if kind == RType.instrument_def
    then some definition
    else if kind == RType.statistics
    then some stat
    else if kind == RType.symbol_mapping
    then some mapping
    else if kind == RType.error
    then some error
    else if kind == RType.system
    then some system
    else none

abbrev pub struct_of : ℕ → ℕ → Option Struct
struct_of version kind =
    if version == 1
    then struct_among instrument_def_v1 stat_v1 symbol_mapping_v1 error_v1 system_v1 kind
    else if version == 2
    then struct_among instrument_def_v2 stat_v1 symbol_mapping_v2 error_v2 system_v2 kind
    else if version == 3
    then struct_among instrument_def_v3 stat_v3 symbol_mapping_v2 error_v2 system_v2 kind
    else none

-- The codes of the texts that version 1 sent alone.
abbrev pub error_codes : List (Pattern × ℕ)
error_codes =
    (whole "User or API key deactivated", 2)
    ∷ (whole "User has reached their open connection limit", 3)
    ∷ (beginning "Failed to resolve symbol", 4)
    ∷ (whole "Internal error", 6)
    ∷ (beginning "Slow client detected for ", 7)
    ∷ []

abbrev pub system_codes : List (Pattern × ℕ)
system_codes =
    (beginning "Heartbeat", 0)
    ∷ (beginning "End of interval for ", 4)
    ∷ (around "Subscription request " " succeeded", 1)
    ∷ (beginning "Warning: slow reading", 2)
    ∷ (around "Finished " " replay", 3)
    ∷ []

-- The fields that do not keep their value, or are new and not zeros.
abbrev pub values_of : ℕ → Bytes → Values
values_of kind rec =
    if kind == RType.instrument_def
    then ("leg_price", undef_price) ∷ ("leg_delta", undef_price) ∷ ("leg_side", b'N' ∷ []) ∷ []
    else if kind == RType.statistics
    then ("quantity", le 8 (upgrade_quantity (un_le (field 40 4 rec)))) ∷ []
    else if kind == RType.symbol_mapping
    then ("stype_in", 0xff ∷ []) ∷ ("stype_out", 0xff ∷ []) ∷ []
    else if kind == RType.error
    then ("code", code_of_text (first_code error_codes) (until_null (field 16 64 rec)) ∷ [])
      ∷ ("is_last", 255 ∷ [])
      ∷ []
    else if kind == RType.system
    then ("code", code_of_text (first_code system_codes) (until_null (field 16 64 rec)) ∷ []) ∷ []
    else []

abbrev pub target : VersionUpgradePolicy → ℕ → ℕ
target as_is version = version
target upgrade_to_v2 version = max version 2
target upgrade_to_v3 version = max version 3

-- The timestamp behind a record.
abbrev pub ts_out_of : Bool → ℕ → Bytes → Bytes
ts_out_of ts_out offset rec = if ts_out then field offset 8 rec else []

-- A record becomes one of another struct: a header with the new length, the fields by name, and the
-- timestamp.
abbrev pub restructured : Struct → Struct → ℕ → Bool → Bytes → Bytes
restructured old new kind ts_out rec =
    ((size_of new + (if ts_out then 8 else 0)) / length_multiplier)
    ∷ kind
    ∷ (field 2 14 rec
        ++ (by_name (values_of kind rec) old new rec ++ ts_out_of ts_out (size_of old) rec))

-- A struct that keeps its size is the same.
abbrev pub between : Option Struct → Option Struct → ℕ → Bool → Bytes → Bytes
between (some old) (some new) kind ts_out rec =
    if size_of old == size_of new then rec else restructured old new kind ts_out rec
between _ _ kind ts_out rec = rec

abbrev pub upgraded_as : ℕ → ℕ → ℕ → Bool → Bytes → Bytes
upgraded_as kind version version' ts_out rec =
    between (struct_of version kind) (struct_of version' kind) kind ts_out rec

abbrev pub upgraded : ℕ → VersionUpgradePolicy → Bool → Bytes → Bytes
upgraded version policy ts_out rec =
    upgraded_as (rtype rec) version (target policy version) ts_out rec
