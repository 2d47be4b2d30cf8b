-- ===== src/SymbolMap.antt =====
-- src/symbol_map.cpp and include/databento/symbol_map.hpp: `TsSymbolMap`, the symbols of each day, and
-- `PitSymbolMap`, the symbols of one day or of a live session.
pub mod Tables
pub mod Days
pub mod TimeSeries
pub mod PointInTime
pub mod Agree
pub mod Live
pub mod Upgraded
mod Runs
use databento_cpp.Base.{
  ℕ, zero, suc, ◌+◌, ◌-◌, ◌*◌, ◌/◌, ◌%◌, ◌^◌, ◌≡◌, Bool, true, false, not, ◌&&◌, ◌||◌, Option, none,
  some, List, [], ◌∷◌, ltb, leb, ◌==◌, if◌then◌else◌, drop, slice, un_le,
}
use databento_cpp.Base.Maps.{find, emplace, assign}
use databento_cpp.Base.Stoul.{stoul}
use databento_cpp.Base.Results.{Result, ok, err, overrun, ◌>>=◌, invalid_argument, exception}
use databento_cpp.Metadata.{Metadata, MappingInterval, SymbolMapping, Date, Text}
use databento_cpp.Upgrade.{Bytes, record_size, rtype}
use databento_cpp.RType

-- The calendar of the date library. `sys_days` counts the days from its first one on, so that 1970-01-01
-- is the day `epoch`, and `before` is `operator<` on dates.
pub record Calendar : Type 0 where
  pub sys_days : Date → ℕ
  pub year_month_day : ℕ → Date
  pub before : Date → Date → Bool
  pub epoch : ℕ
  pub days-date : (n : ℕ) → sys_days (year_month_day n) ≡ n
  pub before-days :
      (d e : Date)
      → year_month_day (sys_days d) ≡ d
      → year_month_day (sys_days e) ≡ e
      → before d e ≡ ltb (sys_days d) (sys_days e)

-- `operator==` on dates.
abbrev pub same_date : Date → Date → Bool
same_date d e = d.year == e.year && d.month == e.month && d.day == e.day

-- `for (const auto& a : list)` with a body that may throw.
unfoldable pub for_each {ℓ κ} :
    {A : Type ℓ} {S : Type κ} → (A → S → Result S) → List A → S → Result S
for_each body [] s = ok s
for_each body (a ∷ list) s = body a s >>= for_each body list

-- `static_cast<std::uint32_t>(std::stoul(text))`
unfoldable pub instrument_id_of : Text → Result ℕ
instrument_id_of text = stoul text >>= λ value. ok (value % 2 ^ 32)

-- `SType::InstrumentId`
abbrev pub instrument_id_stype : ℕ
instrument_id_stype = 0

abbrev is_inverse_of : Option ℕ → ℕ → Result Bool
is_inverse_of none stype_out = err invalid_argument
is_inverse_of (some stype_in) stype_out =
    if stype_in == instrument_id_stype
    then ok true
    else if stype_out == instrument_id_stype
    then ok false
    else err invalid_argument

-- `IsInverse`
unfoldable pub is_inverse : Metadata → Result Bool
is_inverse m = is_inverse_of m.stype_in m.stype_out

abbrev pub is_empty : Text → Bool
is_empty [] = true
is_empty (c ∷ text) = false

-- `TsSymbolMap::Store`
abbrev pub TsSymbolMap : Type 0
TsSymbolMap = List ((Date × ℕ) × Text)

abbrev pub same_key : Date × ℕ → Date × ℕ → Bool
same_key (d, i) (e, j) = same_date d e && i == j

module _ (calendar : Calendar) where
  open calendar use {sys_days, year_month_day, before}

  -- `TsSymbolMap::Find(date, instrument_id)`
  abbrev pub ts_find : Date → ℕ → TsSymbolMap → Option Text
  ts_find date instrument_id map = find same_key (date, instrument_id) map

  -- The loop of `TsSymbolMap::Insert`, over `count` days from `day` on.
  unfoldable pub insert_days : ℕ → Text → ℕ → ℕ → TsSymbolMap → TsSymbolMap
  insert_days instrument_id symbol zero day map = map
  insert_days instrument_id symbol (suc count) day map =
      insert_days instrument_id symbol count (day + 1)
        (emplace same_key (year_month_day day, instrument_id) symbol map)

  -- `TsSymbolMap::Insert`
  unfoldable pub insert : ℕ → Date → Date → Text → TsSymbolMap → Result TsSymbolMap
  insert instrument_id start_date end_date symbol map =
      if before end_date start_date
      then err invalid_argument
      else if same_date start_date end_date
      then ok map
      else ok (
          insert_days instrument_id symbol (sys_days end_date - sys_days start_date)
            (sys_days start_date) map)

  -- The bodies of the loops of the constructor of `TsSymbolMap`, where the symbols that the metadata
  -- map are instrument IDs, and where they are mapped to instrument IDs.
  abbrev pub inverse_interval : ℕ → MappingInterval → TsSymbolMap → Result TsSymbolMap
  inverse_interval instrument_id interval map =
      if is_empty interval.symbol
      then ok map
      else insert instrument_id interval.start_date interval.end_date interval.symbol map

  abbrev pub inverse_mapping : SymbolMapping → TsSymbolMap → Result TsSymbolMap
  inverse_mapping mapping map = instrument_id_of mapping.raw_symbol >>= λ instrument_id.
      for_each (inverse_interval instrument_id) mapping.intervals map

  abbrev pub forward_interval : Text → MappingInterval → TsSymbolMap → Result TsSymbolMap
  forward_interval symbol interval map =
      if is_empty interval.symbol
      then ok map
      else (instrument_id_of interval.symbol >>= λ instrument_id.
          insert instrument_id interval.start_date interval.end_date symbol map)

  abbrev pub forward_mapping : SymbolMapping → TsSymbolMap → Result TsSymbolMap
  forward_mapping mapping map = for_each (forward_interval mapping.raw_symbol) mapping.intervals map

  -- `TsSymbolMap::TsSymbolMap(metadata)`
  unfoldable pub ts_symbol_map : Metadata → Result TsSymbolMap
  ts_symbol_map m = is_inverse m >>= λ inverse.
      for_each (if inverse then inverse_mapping else forward_mapping) m.mappings []

-- `PitSymbolMap::Store`
abbrev pub PitSymbolMap : Type 0
PitSymbolMap = List (ℕ × Text)

-- `PitSymbolMap::Find(instrument_id)`
abbrev pub pit_find : ℕ → PitSymbolMap → Option Text
pit_find instrument_id map = find ◌==◌ instrument_id map

abbrev pub nanos_per_day : ℕ
nanos_per_day = 86_400_000_000_000

abbrev pub pit_pair : Bool → Text → Text → Result (ℕ × Text)
pit_pair true raw_symbol symbol =
    instrument_id_of raw_symbol >>= λ instrument_id. ok (instrument_id, symbol)
pit_pair false raw_symbol symbol =
    instrument_id_of symbol >>= λ instrument_id. ok (instrument_id, raw_symbol)

abbrev pub pit_with : Bool → Text → Option MappingInterval → PitSymbolMap → Result PitSymbolMap
pit_with inverse raw_symbol none map = ok map
pit_with inverse raw_symbol (some interval) map =
    if is_empty interval.symbol
    then ok map
    else (pit_pair inverse raw_symbol interval.symbol >>= λ (instrument_id, symbol).
        ok (emplace ◌==◌ instrument_id symbol map))

module _ (calendar : Calendar) where
  open calendar use {sys_days, before, epoch}

  abbrev pub holds : Date → MappingInterval → Bool
  holds date interval = not (before date interval.start_date) && before date interval.end_date

  -- `std::find_if` over the intervals.
  unfoldable pub find_interval : Date → List MappingInterval → Option MappingInterval
  find_interval date [] = none
  find_interval date (interval ∷ intervals) =
      let later = find_interval date intervals in
      if holds date interval then some interval else later

  -- The body of the loop of the constructor of `PitSymbolMap`.
  abbrev pub pit_mapping : Date → Bool → SymbolMapping → PitSymbolMap → Result PitSymbolMap
  pit_mapping date inverse mapping map =
      pit_with inverse mapping.raw_symbol (find_interval date mapping.intervals) map

  -- Whether a date is outside of the range of the query. The nanoseconds of a date are 64 bits wide.
  unfoldable pub outside : Metadata → Date → Bool
  outside m date =
      ltb (sys_days date) (epoch + m.start / nanos_per_day)
      || leb m.end ((sys_days date - epoch) * nanos_per_day % 2 ^ 64)

  -- `PitSymbolMap::PitSymbolMap(metadata, date)`
  unfoldable pub pit_symbol_map : Metadata → Date → Result PitSymbolMap
  pit_symbol_map m date =
      if outside m date
      then err invalid_argument
      else (is_inverse m >>= λ inverse. for_each (pit_mapping date inverse) m.mappings [])

-- `PitSymbolMap::OnSymbolMapping`
abbrev pub set_or_emplace : Option Text → ℕ → Text → PitSymbolMap → PitSymbolMap
set_or_emplace none instrument_id symbol map = emplace ◌==◌ instrument_id symbol map
set_or_emplace (some old) instrument_id symbol map = assign ◌==◌ instrument_id symbol map

unfoldable pub on_symbol_mapping : ℕ → Text → PitSymbolMap → PitSymbolMap
on_symbol_mapping instrument_id symbol map =
    set_or_emplace (pit_find instrument_id map) instrument_id symbol map

-- A `const char*` as a `std::string`: the bytes before the first null of the memory.
unfoldable pub until_null : Bytes → Result Text
until_null [] = overrun
until_null (c ∷ memory) =
    let rest = until_null memory in if c == 0 then ok [] else (rest >>= λ text. ok (c ∷ text))

-- `Header().instrument_id`
abbrev pub instrument_id_in : Bytes → ℕ
instrument_id_in rec = un_le (slice 4 4 rec)

-- `STypeOutSymbol()` of a `SymbolMappingMsgV2` and of a `SymbolMappingMsgV1`.
unfoldable pub stype_out_symbol : Bytes → Result Text
stype_out_symbol rec = until_null (drop (if leb 176 (record_size rec) then 89 else 38) rec)

-- `PitSymbolMap::OnRecord`
unfoldable pub on_record : Bytes → PitSymbolMap → Result PitSymbolMap
on_record rec map =
    if rtype rec == RType.symbol_mapping
    then (stype_out_symbol rec >>= λ symbol.
        ok (on_symbol_mapping (instrument_id_in rec) symbol map))
    else ok map

-- `PitSymbolMap::operator[]`, which adds an empty symbol where the instrument has none.
abbrev text_or_empty : Option Text → Text
text_or_empty none = []
text_or_empty (some symbol) = symbol

unfoldable pub subscript : ℕ → PitSymbolMap → Text × PitSymbolMap
subscript instrument_id map =
    (text_or_empty (pit_find instrument_id map), emplace ◌==◌ instrument_id [] map)
