-- ===== src/Upgrade/Structs/DefinitionV1.antt =====
-- include/databento/v1.hpp: the fields of `InstrumentDefMsg` behind its header.
use databento_cpp.Base.{[], ◌∷◌}
use databento_cpp.Upgrade.Structs.Layout.{Struct}

unfoldable pub instrument_def_v1 : Struct
instrument_def_v1 =
    ("ts_recv", 8)
    ∷ ("min_price_increment", 8)
    ∷ ("display_factor", 8)
    ∷ ("expiration", 8)
    ∷ ("activation", 8)
    ∷ ("high_limit_price", 8)
    ∷ ("low_limit_price", 8)
    ∷ ("max_price_variation", 8)
    ∷ ("trading_reference_price", 8)
    ∷ ("unit_of_measure_qty", 8)
    ∷ ("min_price_increment_amount", 8)
    ∷ ("price_ratio", 8)
    ∷ ("inst_attrib_value", 4)
    ∷ ("underlying_id", 4)
    ∷ ("raw_instrument_id", 4)
    ∷ ("market_depth_implied", 4)
    ∷ ("market_depth", 4)
    ∷ ("market_segment_id", 4)
    ∷ ("max_trade_vol", 4)
    ∷ ("min_lot_size", 4)
    ∷ ("min_lot_size_block", 4)
    ∷ ("min_lot_size_round_lot", 4)
    ∷ ("min_trade_vol", 4)
    ∷ ("_reserved2", 4)
    ∷ ("contract_multiplier", 4)
    ∷ ("decay_quantity", 4)
    ∷ ("original_contract_size", 4)
    ∷ ("_reserved3", 4)
    ∷ ("trading_reference_date", 2)
    ∷ ("appl_id", 2)
    ∷ ("maturity_year", 2)
    ∷ ("decay_start_date", 2)
    ∷ ("channel_id", 2)
    ∷ ("currency", 4)
    ∷ ("settl_currency", 4)
    ∷ ("secsubtype", 6)
    ∷ ("raw_symbol", 22)
    ∷ ("group", 21)
    ∷ ("exchange", 5)
    ∷ ("asset", 7)
    ∷ ("cfi", 7)
    ∷ ("security_type", 7)
    ∷ ("unit_of_measure", 31)
    ∷ ("underlying", 21)
    ∷ ("strike_price_currency", 4)
    ∷ ("instrument_class", 1)
    ∷ ("_reserved4", 2)
    ∷ ("strike_price", 8)
    ∷ ("_reserved5", 6)
    ∷ ("match_algorithm", 1)
    ∷ ("md_security_trading_status", 1)
    ∷ ("main_fraction", 1)
    ∷ ("price_display_format", 1)
    ∷ ("settl_price_type", 1)
    ∷ ("sub_fraction", 1)
    ∷ ("underlying_product", 1)
    ∷ ("security_update_action", 1)
    ∷ ("maturity_month", 1)
    ∷ ("maturity_day", 1)
    ∷ ("maturity_week", 1)
    ∷ ("user_defined_instrument", 1)
    ∷ ("contract_multiplier_unit", 1)
    ∷ ("flow_schedule_type", 1)
    ∷ ("tick_rule", 1)
    ∷ ("_dummy", 3)
    ∷ []
