-- ===== src/Enums/Runs.antt =====
-- Runs of the conversions of enumerations.
use databento_cpp.Base.{◌≡◌, refl, none, some, ◌↔◌}
use databento_cpp.Enums.Schema
use databento_cpp.Enums.Schema.{Schema, schema_from_string_iff}
use databento_cpp.Enums.SType
use databento_cpp.Enums.SType.{SType, s_type_from_string-to_string}

schema_from_string_iff_example :
    (Schema.from_string "mbp-1" ≡ some Schema.mbp1) ↔ (Schema.to_string Schema.mbp1 ≡ "mbp-1")
schema_from_string_iff_example = schema_from_string_iff "mbp-1" Schema.mbp1 refl

s_type_from_string-to_string_example : SType.from_string (SType.to_string SType.smart) ≡ none
s_type_from_string-to_string_example = s_type_from_string-to_string SType.smart refl
