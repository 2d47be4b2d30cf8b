-- ===== src/Upgrade/Structs/Fields.antt =====
-- The tables of the conversions are the fields by name.
use databento_cpp.Base.{◌-◌, ◌≡◌, refl, ap, ◌∙◌, List, [], ◌∷◌, ◌++◌, map, length, replicate}
use databento_cpp.Upgrade.{
  Bytes, build, segment_bytes, field, Segment, copy, widen, zeros, constant,
}
use databento_cpp.Upgrade.Definition.{definition_v1_to_v2_fields, definition_v1_to_v3_fields}
use databento_cpp.Upgrade.DefinitionV2.{definition_v2_to_v3_fields}
use databento_cpp.Upgrade.Messages.{
  error_code, system_code, stat_to_v3_fields, symbol_mapping_to_v2_fields, error_to_v2_fields,
  system_to_v2_fields,
}
use databento_cpp.RType
use databento_cpp.Upgrade.Structs.{values_of}
use databento_cpp.Upgrade.Structs.Layout.{
  first_code, Origin, given, blank, kept, widened, origins, bytes_of, by_name,
}
use databento_cpp.Upgrade.Structs.DefinitionV1.{instrument_def_v1}
use databento_cpp.Upgrade.Structs.DefinitionV2.{instrument_def_v2}
use databento_cpp.Upgrade.Structs.DefinitionV3.{instrument_def_v3}
use databento_cpp.Upgrade.Structs.Messages.{
  stat_v1, stat_v3, symbol_mapping_v1, symbol_mapping_v2, error_v1, error_v2, system_v1, system_v2,
}

abbrev segment_of : Origin → Segment
segment_of (given bytes) = constant bytes
segment_of (blank size) = zeros size
segment_of (kept offset size) = copy offset size
segment_of (widened size offset size') = widen size offset size'

build-bytes_of : (os : List Origin) (rec : Bytes) → build (map segment_of os) rec ≡ bytes_of os rec
unfolding build segment_bytes
build-bytes_of [] rec = refl
build-bytes_of (given bytes ∷ os) rec = ap (λ x. bytes ++ x) (build-bytes_of os rec)
build-bytes_of (blank size ∷ os) rec = ap (λ x. replicate size 0 ++ x) (build-bytes_of os rec)
build-bytes_of (kept offset size ∷ os) rec =
    ap (λ x. field offset size rec ++ x) (build-bytes_of os rec)
build-bytes_of (widened size offset size' ∷ os) rec =
    let old = field offset size' rec in
    ap (λ x. (old ++ replicate (size - length old) 0) ++ x) (build-bytes_of os rec)

table-definition_v1_to_v2 :
    (rec : Bytes)
    → definition_v1_to_v2_fields
      ≡ map segment_of
          (origins (values_of RType.instrument_def rec) instrument_def_v1 instrument_def_v2)
unfolding origins definition_v1_to_v2_fields instrument_def_v1 instrument_def_v2
table-definition_v1_to_v2 rec = refl

pub build-definition_v1_to_v2 :
    (rec : Bytes)
    → build definition_v1_to_v2_fields rec
      ≡ by_name (values_of RType.instrument_def rec) instrument_def_v1 instrument_def_v2 rec
build-definition_v1_to_v2 rec =
    ap (λ t. build t rec) (table-definition_v1_to_v2 rec)
    ∙ build-bytes_of
        (origins (values_of RType.instrument_def rec) instrument_def_v1 instrument_def_v2) rec

table-definition_v1_to_v3 :
    (rec : Bytes)
    → definition_v1_to_v3_fields
      ≡ map segment_of
          (origins (values_of RType.instrument_def rec) instrument_def_v1 instrument_def_v3)
unfolding origins definition_v1_to_v3_fields instrument_def_v1 instrument_def_v3
table-definition_v1_to_v3 rec = refl

pub build-definition_v1_to_v3 :
    (rec : Bytes)
    → build definition_v1_to_v3_fields rec
      ≡ by_name (values_of RType.instrument_def rec) instrument_def_v1 instrument_def_v3 rec
build-definition_v1_to_v3 rec =
    ap (λ t. build t rec) (table-definition_v1_to_v3 rec)
    ∙ build-bytes_of
        (origins (values_of RType.instrument_def rec) instrument_def_v1 instrument_def_v3) rec

table-definition_v2_to_v3 :
    (rec : Bytes)
    → definition_v2_to_v3_fields
      ≡ map segment_of
          (origins (values_of RType.instrument_def rec) instrument_def_v2 instrument_def_v3)
unfolding origins definition_v2_to_v3_fields instrument_def_v2 instrument_def_v3
table-definition_v2_to_v3 rec = refl

pub build-definition_v2_to_v3 :
    (rec : Bytes)
    → build definition_v2_to_v3_fields rec
      ≡ by_name (values_of RType.instrument_def rec) instrument_def_v2 instrument_def_v3 rec
build-definition_v2_to_v3 rec =
    ap (λ t. build t rec) (table-definition_v2_to_v3 rec)
    ∙ build-bytes_of
        (origins (values_of RType.instrument_def rec) instrument_def_v2 instrument_def_v3) rec

table-stat_to_v3 :
    (rec : Bytes)
    → stat_to_v3_fields rec
      ≡ map segment_of (origins (values_of RType.statistics rec) stat_v1 stat_v3)
unfolding origins stat_to_v3_fields stat_v1 stat_v3
table-stat_to_v3 rec = refl

pub build-stat_to_v3 :
    (rec : Bytes)
    → build (stat_to_v3_fields rec) rec
      ≡ by_name (values_of RType.statistics rec) stat_v1 stat_v3 rec
build-stat_to_v3 rec =
    ap (λ t. build t rec) (table-stat_to_v3 rec)
    ∙ build-bytes_of (origins (values_of RType.statistics rec) stat_v1 stat_v3) rec

table-symbol_mapping_to_v2 :
    (rec : Bytes)
    → symbol_mapping_to_v2_fields
      ≡ map segment_of
          (origins (values_of RType.symbol_mapping rec) symbol_mapping_v1 symbol_mapping_v2)
unfolding origins symbol_mapping_to_v2_fields symbol_mapping_v1 symbol_mapping_v2
table-symbol_mapping_to_v2 rec = refl

pub build-symbol_mapping_to_v2 :
    (rec : Bytes)
    → build symbol_mapping_to_v2_fields rec
      ≡ by_name (values_of RType.symbol_mapping rec) symbol_mapping_v1 symbol_mapping_v2 rec
build-symbol_mapping_to_v2 rec =
    ap (λ t. build t rec) (table-symbol_mapping_to_v2 rec)
    ∙ build-bytes_of
        (origins (values_of RType.symbol_mapping rec) symbol_mapping_v1 symbol_mapping_v2) rec

table-error_to_v2 :
    (rec : Bytes)
    → error_to_v2_fields rec
      ≡ map segment_of (origins (values_of RType.error rec) error_v1 error_v2)
unfolding origins error_code first_code error_to_v2_fields error_v1 error_v2
table-error_to_v2 rec = refl

pub build-error_to_v2 :
    (rec : Bytes)
    → build (error_to_v2_fields rec) rec ≡ by_name (values_of RType.error rec) error_v1 error_v2 rec
build-error_to_v2 rec =
    ap (λ t. build t rec) (table-error_to_v2 rec)
    ∙ build-bytes_of (origins (values_of RType.error rec) error_v1 error_v2) rec

table-system_to_v2 :
    (rec : Bytes)
    → system_to_v2_fields rec
      ≡ map segment_of (origins (values_of RType.system rec) system_v1 system_v2)
unfolding origins system_code first_code system_to_v2_fields system_v1 system_v2
table-system_to_v2 rec = refl

pub build-system_to_v2 :
    (rec : Bytes)
    → build (system_to_v2_fields rec) rec
      ≡ by_name (values_of RType.system rec) system_v1 system_v2 rec
build-system_to_v2 rec =
    ap (λ t. build t rec) (table-system_to_v2 rec)
    ∙ build-bytes_of (origins (values_of RType.system rec) system_v1 system_v2) rec
