-- ===== src/Metadata/Runs.antt =====
-- Runs of the metadata encoder and decoder.
use databento_cpp.Base.{
  ℕ, ◌+◌, ◌%◌, ◌^◌, ◌≤◌, ◌<◌, ◌≡◌, ◌≢◌, arith, true, none, some, List, [], ◌∷◌, ◌++◌, length, drop,
  replicate, le, codes, IsCstr,
}
use databento_cpp.Base.Results.{ok, overrun}
use databento_cpp.Metadata.{Metadata, SymbolMapping, Date, Text}
use databento_cpp.Metadata.Decode.{
  decode_metadata_version_and_size, decode_metadata_fields, dbn_prefix,
}
use databento_cpp.Metadata.Encode.{calc_length, encode_metadata, done}
use databento_cpp.Metadata.Format.{fields_bytes, IsDate, IsMapping, IsEncodable}
use databento_cpp.Metadata.RoundTrip.{metadata_bytes, decode-encode_metadata}
use databento_cpp.Metadata.Encode.Length.{calc_length_lem}
use databento_cpp.Metadata.Decode.Safety.{decode_metadata_fields-ne-overrun}
use databento_cpp.Metadata.Decode.Prelude.{decode_prelude}

abbrev esh1 : Text
esh1 = codes "ESH1"

abbrev new_year : Date
new_year = record { year = 2020; month = 12; day = 28 }

abbrev one_mapping : SymbolMapping
one_mapping = record {
  raw_symbol = esh1;
  intervals = record { start_date = new_year; end_date = new_year; symbol = codes "5482" } ∷ [];
}

abbrev pub small_metadata : Metadata
small_metadata = record {
  version = 3;
  dataset = codes "GLBX.MDP3";
  schema = some 0;
  start = 1_609_160_400_000_000_000;
  end = 0xffff_ffff_ffff_ffff;
  limit = 0;
  stype_in = none;
  stype_out = 0;
  ts_out = true;
  symbol_cstr_len = 7;
  symbols = esh1 ∷ [];
  partial = [];
  not_found = esh1 ∷ esh1 ∷ [];
  mappings = one_mapping ∷ [];
}

esh1-IsCstr : IsCstr 7 esh1
esh1-IsCstr = record {
  short = omega arith;
  no_null = (omega arith, (omega arith, (omega arith, (omega arith, tt))));
}

new_year-IsDate : IsDate new_year
new_year-IsDate = record {
  year_fits = omega arith;
  month_fits = omega arith;
  day_fits = omega arith;
}

one_mapping-IsMapping : IsMapping 7 one_mapping
one_mapping-IsMapping = record {
  raw_symbol_fits = esh1-IsCstr;
  count_fits = omega arith;
  intervals_fit = (
    record {
      start_fits = new_year-IsDate;
      end_fits = new_year-IsDate;
      symbol_fits = record {
        short = omega arith;
        no_null = (omega arith, (omega arith, (omega arith, (omega arith, tt))));
      };
    },
    tt,
  );
}

pub small_metadata-IsEncodable : IsEncodable small_metadata
small_metadata-IsEncodable = record {
  version_min = omega arith;
  version_max = omega arith;
  dataset_fits = record {
    short = omega arith;
    no_null = (
      omega arith,
      (
        omega arith,
        (
          omega arith,
          (
            omega arith,
            (omega arith, (omega arith, (omega arith, (omega arith, (omega arith, tt))))),
          ),
        ),
      ),
    );
  };
  schema_fits = omega arith;
  start_fits = omega arith;
  end_fits = omega arith;
  limit_fits = omega arith;
  stype_in_fits = tt;
  stype_out_fits = omega arith;
  width_fits = omega arith;
  width_v1 = λ e. absurd (omega arith);
  symbols_fit = record { count_fits = omega arith; symbols_fit = (esh1-IsCstr, tt) };
  partial_fit = record { count_fits = omega arith; symbols_fit = tt };
  not_found_fit = record {
    count_fits = omega arith;
    symbols_fit = (esh1-IsCstr, (esh1-IsCstr, tt));
  };
  mappings_count_fits = omega arith;
  mappings_fit = (one_mapping-IsMapping, tt);
}

pub small_metadata-Fits : length (fields_bytes small_metadata.version small_metadata) + 8 ≤ 2 ^ 32
unfolding fields_bytes le
small_metadata-Fits = omega arith

decode-encode_metadata_example :
    (encode_metadata small_metadata [] ≡ done (metadata_bytes small_metadata))
    × (decode_metadata_version_and_size (metadata_bytes small_metadata)
        ≡ ok (3, length (drop 8 (metadata_bytes small_metadata))))
    × (decode_metadata_fields 3 (drop 8 (metadata_bytes small_metadata)) ≡ ok small_metadata)
decode-encode_metadata_example =
    decode-encode_metadata small_metadata [] small_metadata-IsEncodable small_metadata-Fits

calc_length_lem_example :
    ((calc_length small_metadata).0
      ≡ length (fields_bytes small_metadata.version small_metadata)
        + (calc_length small_metadata).1)
    × ((calc_length small_metadata).1 < 8)
    × (small_metadata.version ≡ 3 → (calc_length small_metadata).0 % 8 ≡ 0)
    × (small_metadata.version < 3 → (calc_length small_metadata).1 ≡ 0)
calc_length_lem_example =
    calc_length_lem small_metadata small_metadata-IsEncodable small_metadata-Fits

-- A frame of 104 bytes that announces more symbols than it holds.
abbrev bad_frame : List ℕ
bad_frame = replicate 104 255

decode_metadata_fields-ne-overrun_example : decode_metadata_fields 2 bad_frame ≢ overrun
decode_metadata_fields-ne-overrun_example =
    decode_metadata_fields-ne-overrun 2 bad_frame (omega arith)

decode_prelude_example :
    decode_metadata_version_and_size (dbn_prefix ++ (le 1 3 ++ (le 4 128 ++ []))) ≡ ok (3, 128)
decode_prelude_example = decode_prelude 3 128 [] (omega arith) (omega arith)
