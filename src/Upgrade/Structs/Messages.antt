-- ===== src/Upgrade/Structs/Messages.antt =====
-- include/databento/v1.hpp and include/databento/record.hpp: the fields of the other messages that
-- differ between versions, behind their headers.
use databento_cpp.Base.{[], ◌∷◌}
use databento_cpp.Upgrade.Structs.Layout.{Struct}

unfoldable pub stat_v1 : Struct
stat_v1 =
    ("ts_recv", 8)
    ∷ ("ts_ref", 8)
    ∷ ("price", 8)
    ∷ ("quantity", 4)
    ∷ ("sequence", 4)
    ∷ ("ts_in_delta", 4)
    ∷ ("stat_type", 2)
    ∷ ("channel_id", 2)
    ∷ ("update_action", 1)
    ∷ ("stat_flags", 1)
    ∷ ("_reserved", 6)
    ∷ []

unfoldable pub stat_v3 : Struct
stat_v3 =
    ("ts_recv", 8)
    ∷ ("ts_ref", 8)
    ∷ ("price", 8)
    ∷ ("quantity", 8)
    ∷ ("sequence", 4)
    ∷ ("ts_in_delta", 4)
    ∷ ("stat_type", 2)
    ∷ ("channel_id", 2)
    ∷ ("update_action", 1)
    ∷ ("stat_flags", 1)
    ∷ ("_reserved", 18)
    ∷ []

unfoldable pub symbol_mapping_v1 : Struct
symbol_mapping_v1 =
    ("stype_in_symbol", 22)
    ∷ ("stype_out_symbol", 22)
    ∷ ("_dummy", 4)
    ∷ ("start_ts", 8)
    ∷ ("end_ts", 8)
    ∷ []

unfoldable pub symbol_mapping_v2 : Struct
symbol_mapping_v2 =
    ("stype_in", 1)
    ∷ ("stype_in_symbol", 71)
    ∷ ("stype_out", 1)
    ∷ ("stype_out_symbol", 71)
    ∷ ("start_ts", 8)
    ∷ ("end_ts", 8)
    ∷ []

unfoldable pub error_v1 : Struct
error_v1 = ("err", 64) ∷ []

unfoldable pub error_v2 : Struct
error_v2 = ("err", 302) ∷ ("code", 1) ∷ ("is_last", 1) ∷ []

unfoldable pub system_v1 : Struct
system_v1 = ("msg", 64) ∷ []

unfoldable pub system_v2 : Struct
system_v2 = ("msg", 303) ∷ ("code", 1) ∷ []
