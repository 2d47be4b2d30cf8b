-- ===== src/Record.antt =====
-- src/record.cpp: `Record::SizeOfSchema` and `Record::RTypeFromSchema`, on the sizes that
-- include/databento/record.hpp asserts of the record types.
use databento_cpp.Base.{ℕ, Option, none, some}
use databento_cpp.Enums.Schema.{Schema}
use databento_cpp.RType

abbrev pub mbo_msg : ℕ
mbo_msg = 56

abbrev pub trade_msg : ℕ
trade_msg = 48

abbrev pub mbp1_msg : ℕ
mbp1_msg = 80

abbrev pub mbp10_msg : ℕ
mbp10_msg = 368

abbrev pub ohlcv_msg : ℕ
ohlcv_msg = 56

abbrev pub instrument_def_msg : ℕ
instrument_def_msg = 520

abbrev pub imbalance_msg : ℕ
imbalance_msg = 112

abbrev pub stat_msg : ℕ
stat_msg = 80

-- `none` for the `InvalidArgumentError`.
unfoldable pub size_of_schema : Schema → Option ℕ
size_of_schema Schema.mbo = some mbo_msg
size_of_schema Schema.mbp1 = some mbp1_msg
size_of_schema Schema.mbp10 = some mbp10_msg
size_of_schema Schema.tbbo = some mbp1_msg
size_of_schema Schema.trades = some trade_msg
size_of_schema Schema.ohlcv1s = some ohlcv_msg
size_of_schema Schema.ohlcv1m = some ohlcv_msg
size_of_schema Schema.ohlcv1h = some ohlcv_msg
size_of_schema Schema.ohlcv1d = some ohlcv_msg
size_of_schema Schema.definition = some instrument_def_msg
size_of_schema Schema.statistics = some stat_msg
size_of_schema Schema.status = none
size_of_schema Schema.imbalance = some imbalance_msg
size_of_schema Schema.ohlcv_eod = none
size_of_schema Schema.cmbp1 = none
size_of_schema Schema.cbbo1s = none
size_of_schema Schema.cbbo1m = none
size_of_schema Schema.tcbbo = none
size_of_schema Schema.bbo1s = none
size_of_schema Schema.bbo1m = none
size_of_schema (Schema.other value) = none

-- `none` for the `InvalidArgumentError`.
unfoldable pub rtype_from_schema : Schema → Option ℕ
rtype_from_schema Schema.mbo = some RType.mbo
rtype_from_schema Schema.mbp1 = some RType.mbp1
rtype_from_schema Schema.mbp10 = some RType.mbp10
rtype_from_schema Schema.tbbo = some RType.mbp1
rtype_from_schema Schema.trades = some RType.mbp0
rtype_from_schema Schema.ohlcv1s = some RType.ohlcv_1s
rtype_from_schema Schema.ohlcv1m = some RType.ohlcv_1m
rtype_from_schema Schema.ohlcv1h = some RType.ohlcv_1h
rtype_from_schema Schema.ohlcv1d = some RType.ohlcv_1d
rtype_from_schema Schema.definition = some RType.instrument_def
rtype_from_schema Schema.statistics = some RType.statistics
rtype_from_schema Schema.status = some RType.status
rtype_from_schema Schema.imbalance = some RType.imbalance
rtype_from_schema Schema.ohlcv_eod = some RType.ohlcv_eod
rtype_from_schema Schema.cmbp1 = some RType.cmbp1
rtype_from_schema Schema.cbbo1s = some RType.cbbo_1s
rtype_from_schema Schema.cbbo1m = some RType.cbbo_1m
rtype_from_schema Schema.tcbbo = none
rtype_from_schema Schema.bbo1s = some RType.bbo_1s
rtype_from_schema Schema.bbo1m = some RType.bbo_1m
rtype_from_schema (Schema.other value) = none
