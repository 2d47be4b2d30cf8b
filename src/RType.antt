-- ===== src/RType.antt =====
-- include/databento/enums.hpp: the values of `RType`, the type of a record.
use databento_cpp.Base.{ℕ}

abbrev pub mbp0 : ℕ
mbp0 = 0x00

abbrev pub mbp1 : ℕ
mbp1 = 0x01

abbrev pub mbp10 : ℕ
mbp10 = 0x0a

abbrev pub ohlcv_deprecated : ℕ
ohlcv_deprecated = 0x11

abbrev pub ohlcv_1s : ℕ
ohlcv_1s = 0x20

abbrev pub ohlcv_1m : ℕ
ohlcv_1m = 0x21

abbrev pub ohlcv_1h : ℕ
ohlcv_1h = 0x22

abbrev pub ohlcv_1d : ℕ
ohlcv_1d = 0x23

abbrev pub ohlcv_eod : ℕ
ohlcv_eod = 0x24

abbrev pub status : ℕ
status = 0x12

abbrev pub instrument_def : ℕ
instrument_def = 0x13

abbrev pub imbalance : ℕ
imbalance = 0x14

abbrev pub error : ℕ
error = 0x15

abbrev pub symbol_mapping : ℕ
symbol_mapping = 0x16

abbrev pub system : ℕ
system = 0x17

abbrev pub statistics : ℕ
statistics = 0x18

abbrev pub mbo : ℕ
mbo = 0xa0

abbrev pub cmbp1 : ℕ
cmbp1 = 0xb1

abbrev pub cbbo_1s : ℕ
cbbo_1s = 0xc0

abbrev pub cbbo_1m : ℕ
cbbo_1m = 0xc1

abbrev pub tcbbo : ℕ
tcbbo = 0xc2

abbrev pub bbo_1s : ℕ
bbo_1s = 0xc3

abbrev pub bbo_1m : ℕ
bbo_1m = 0xc4
