-- ===== src/Upgrade/Dispatch.antt =====
-- src/dbn_decoder.cpp: `DbnDecoder::DecodeRecordCompat` and `NeedsUpgrade`.
use databento_cpp.Base.{ℕ, Bool, false, ◌==◌, ltb, if◌then◌else◌}
use databento_cpp.Base.Results.{Result, ok}
use databento_cpp.Metadata.{VersionUpgradePolicy, as_is, upgrade_to_v2, upgrade_to_v3}
use databento_cpp.Upgrade.{Bytes, rtype, upgrade_record}
use databento_cpp.Upgrade.Messages.{stat_to_v3, symbol_mapping_to_v2, error_to_v2, system_to_v2}
use databento_cpp.Upgrade.Definition.{definition_v1_to_v2, definition_v1_to_v3}
use databento_cpp.Upgrade.DefinitionV2.{definition_v2_to_v3}
use databento_cpp.RType

unfoldable pub upgrade_v1_to_v2 : Bool → Bytes → Result Bytes
upgrade_v1_to_v2 ts_out rec =
    let kind = rtype rec in
    if kind == RType.instrument_def
    then upgrade_record 360 400 definition_v1_to_v2 ts_out rec
    else if kind == RType.symbol_mapping
    then upgrade_record 80 176 symbol_mapping_to_v2 ts_out rec
    else if kind == RType.error
    then upgrade_record 80 320 error_to_v2 ts_out rec
    else if kind == RType.system
    then upgrade_record 80 320 system_to_v2 ts_out rec
    else ok rec

unfoldable pub upgrade_v1_to_v3 : Bool → Bytes → Result Bytes
upgrade_v1_to_v3 ts_out rec =
    let kind = rtype rec in
    if kind == RType.instrument_def
    then upgrade_record 360 520 definition_v1_to_v3 ts_out rec
    else if kind == RType.statistics
    then upgrade_record 64 80 stat_to_v3 ts_out rec
    else if kind == RType.symbol_mapping
    then upgrade_record 80 176 symbol_mapping_to_v2 ts_out rec
    else if kind == RType.error
    then upgrade_record 80 320 error_to_v2 ts_out rec
    else if kind == RType.system
    then upgrade_record 80 320 system_to_v2 ts_out rec
    else ok rec

unfoldable pub upgrade_v2_to_v3 : Bool → Bytes → Result Bytes
upgrade_v2_to_v3 ts_out rec =
    let kind = rtype rec in
    if kind == RType.instrument_def
    then upgrade_record 400 520 definition_v2_to_v3 ts_out rec
    else if kind == RType.statistics
    then upgrade_record 64 80 stat_to_v3 ts_out rec
    else ok rec

-- `DbnDecoder::DecodeRecordCompat`. What it returns is the record in `compat_buffer`, or the one
-- that it was given.
unfoldable pub decode_record_compat : ℕ → VersionUpgradePolicy → Bool → Bytes → Result Bytes
decode_record_compat version as_is ts_out rec = ok rec
decode_record_compat version upgrade_to_v2 ts_out rec =
    if version == 1 then upgrade_v1_to_v2 ts_out rec else ok rec
decode_record_compat version upgrade_to_v3 ts_out rec =
    if version == 1
    then upgrade_v1_to_v3 ts_out rec
    else if version == 2
    then upgrade_v2_to_v3 ts_out rec
    else ok rec

-- `DbnDecoder::NeedsUpgrade`
unfoldable pub needs_upgrade : VersionUpgradePolicy → ℕ → Bool
needs_upgrade upgrade_to_v2 version = ltb version 2
needs_upgrade upgrade_to_v3 version = ltb version 3
needs_upgrade as_is version = false
