-- ===== src/SymbolMap/Runs.antt =====
-- Runs of the symbol maps.
use databento_cpp.Base.{
  ℕ, ◌+◌, ◌-◌, ◌*◌, ◌/◌, ◌%◌, ◌≡◌, refl, arith, false, some, [], ◌∷◌, ◌++◌, ltb, codes, All, length,
  ◌≤◌, replicate, le, un_le,
}
use databento_cpp.Base.Results.{ok}
use databento_cpp.Metadata.{Metadata, Date, Text, MappingInterval}
use databento_cpp.Upgrade.{Bytes, field}
use databento_cpp.Upgrade.Messages.{symbol_mapping_to_v2}
use databento_cpp.Base.Maps.{find, emplace}
use databento_cpp.Base.Stoul.{stoul, skip_spaces, read_digits, read_unsigned}
use databento_cpp.SymbolMap.{
  Calendar, TsSymbolMap, PitSymbolMap, is_inverse, ts_symbol_map, pit_symbol_map, pit_find, ts_find,
  outside, insert, insert_days, for_each, instrument_id_of, on_record, on_symbol_mapping,
  until_null, stype_out_symbol,
}
use databento_cpp.SymbolMap.Tables.{or_else}
use databento_cpp.SymbolMap.Days.{on_day}
use databento_cpp.SymbolMap.TimeSeries.{of_metadata, ts_symbol_map_lem, MappingHasDays}
use databento_cpp.SymbolMap.Agree.{pit_symbol_map-ts_symbol_map}
use databento_cpp.SymbolMap.Live.{last_said, on_records_lem, HasSymbol}
use databento_cpp.SymbolMap.Upgraded.{on_record-symbol_mapping_to_v2}

-- A calendar of twelve months of 31 days.
abbrev days_of : Date → ℕ
days_of d = d.year * 372 + (d.month - 1) * 31 + (d.day - 1)

days_of-date :
    (n : ℕ) → days_of (record { year = n / 372; month = n / 31 % 12 + 1; day = n % 31 + 1 }) ≡ n
days_of-date n = omega arith

abbrev long_months : Calendar
long_months = record {
  sys_days = days_of;
  year_month_day = λ n. record { year = n / 372; month = n / 31 % 12 + 1; day = n % 31 + 1 };
  before = λ d e. ltb (days_of d) (days_of e);
  epoch = 1970 * 372;
  days-date = days_of-date;
  before-days = λ d e h h'. refl;
}

abbrev december : ℕ → Date
december n = record { year = 2020; month = 12; day = n }

abbrev interval : ℕ → ℕ → Text → MappingInterval
interval first last symbol = record {
  start_date = december first;
  end_date = december last;
  symbol = symbol;
}

-- Two futures: the first has one ID for two days and another one afterwards, the second an interval
-- without a symbol.
abbrev two_futures : Metadata
two_futures = record {
  version = 3;
  dataset = codes "GLBX.MDP3";
  schema = some 0;
  start = 0;
  end = 0xffff_ffff_ffff_ffff;
  limit = 0;
  stype_in = some 1;
  stype_out = 0;
  ts_out = false;
  symbol_cstr_len = 71;
  symbols = [];
  partial = [];
  not_found = [];
  mappings =
      record {
        raw_symbol = codes "ESH1";
        intervals = interval 1 3 (codes "5482") ∷ interval 3 5 (codes "71") ∷ [];
      }
      ∷ record {
        raw_symbol = codes "NQH1";
        intervals = interval 1 2 [] ∷ interval 2 4 (codes "99") ∷ [];
      }
      ∷ [];
}

abbrev day_key : ℕ → ℕ → Date × ℕ
day_key n instrument_id = (december n, instrument_id)

abbrev two_futures_map : TsSymbolMap
two_futures_map =
    (day_key 3 99, codes "NQH1")
    ∷ (day_key 2 99, codes "NQH1")
    ∷ (day_key 4 71, codes "ESH1")
    ∷ (day_key 3 71, codes "ESH1")
    ∷ (day_key 2 5482, codes "ESH1")
    ∷ (day_key 1 5482, codes "ESH1")
    ∷ []

is_forward : is_inverse two_futures ≡ ok false
unfolding is_inverse
is_forward = refl

two_futures_made : ts_symbol_map long_months two_futures ≡ ok two_futures_map
unfolding ts_symbol_map is_inverse for_each insert insert_days find emplace stoul skip_spaces
    read_digits read_unsigned instrument_id_of
two_futures_made = refl

in_range : outside long_months two_futures (december 2) ≡ false
unfolding outside
in_range = refl

two_futures-HasDays : All (MappingHasDays long_months) two_futures.mappings
two_futures-HasDays = (
  (
    record { start_is_day = refl; end_is_day = refl },
    (record { start_is_day = refl; end_is_day = refl }, tt),
  ),
  (
    (
      record { start_is_day = refl; end_is_day = refl },
      (record { start_is_day = refl; end_is_day = refl }, tt),
    ),
    tt,
  ),
)

ts_symbol_map_lem_example :
    on_day long_months (days_of (december 2)) 99 two_futures_map
    ≡ of_metadata long_months false (days_of (december 2)) 99 two_futures
ts_symbol_map_lem_example =
    ts_symbol_map_lem long_months two_futures false two_futures_map (days_of (december 2)) 99
      two_futures-HasDays is_forward two_futures_made

pit_symbol_map-ts_symbol_map_example :
    (pit : PitSymbolMap) × (pit_symbol_map long_months two_futures (december 2) ≡ ok pit)
    × ((instrument_id : ℕ)
        → pit_find instrument_id pit
          ≡ ts_find long_months (december 2) instrument_id two_futures_map)
pit_symbol_map-ts_symbol_map_example =
    pit_symbol_map-ts_symbol_map long_months two_futures false two_futures_map (december 2) refl
      two_futures-HasDays
      (((λ e. (refl, tt)), ((λ e. tt), tt)), (((λ e. absurd (cc)), ((λ e. tt), tt)), tt)) is_forward
      two_futures_made in_range

-- A mapping record of version 1 for the instrument 5482.
abbrev mapping_v1 : Text → Bytes
mapping_v1 symbol =
    20
    ∷ 22
    ∷ 1
    ∷ 0
    ∷ (le 4 5482 ++ (replicate 30 0 ++ (symbol ++ replicate (42 - length symbol) 0)))

abbrev esh1 : Text
esh1 = codes "ESH1"

has_esh1 : until_null (field 38 22 (mapping_v1 esh1)) ≡ ok esh1
unfolding until_null le
has_esh1 = refl

mapping_v1-HasSymbol : HasSymbol (mapping_v1 esh1)
unfolding stype_out_symbol until_null le
mapping_v1-HasSymbol e = (esh1, refl)

abbrev other_record : Bytes
other_record = 4 ∷ 0 ∷ 1 ∷ 0 ∷ le 4 5482

other-HasSymbol : HasSymbol other_record
unfolding le
other-HasSymbol e = absurd (cc)

on_records_lem_example :
    (map : PitSymbolMap) × (for_each on_record (mapping_v1 esh1 ∷ other_record ∷ []) [] ≡ ok map)
    × ((instrument_id : ℕ)
        → pit_find instrument_id map
          ≡ or_else
              (last_said (mapping_v1 esh1 ∷ other_record ∷ []) instrument_id)
              (pit_find instrument_id []))
on_records_lem_example =
    on_records_lem (mapping_v1 esh1 ∷ other_record ∷ []) []
      (mapping_v1-HasSymbol, (other-HasSymbol, tt))

mapping_v1-size : 80 ≤ length (mapping_v1 esh1)
unfolding le
mapping_v1-size = omega arith

on_record-symbol_mapping_to_v2_example :
    (on_record (mapping_v1 esh1) [] ≡ ok (on_symbol_mapping 5482 esh1 []))
    × (on_record (symbol_mapping_to_v2 (mapping_v1 esh1)) [] ≡ on_record (mapping_v1 esh1) [])
unfolding le un_le
on_record-symbol_mapping_to_v2_example =
    on_record-symbol_mapping_to_v2 (mapping_v1 esh1) esh1 [] mapping_v1-size refl refl has_esh1
