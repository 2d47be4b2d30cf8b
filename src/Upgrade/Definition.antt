-- ===== src/Upgrade/Definition.antt =====
-- src/v1.cpp: `InstrumentDefMsg::ToV2` and `ToV3`. A segment is a field of the new struct: they stand in
-- the order of its declaration, which the comment repeats, with the places in the old struct.
use databento_cpp.Base.{List, [], ◌∷◌, ◌++◌}
use databento_cpp.Upgrade.{Bytes, Segment, copy, widen, zeros, constant, build, header, undef_price}
use databento_cpp.RType

-- `v1::InstrumentDefMsg::ToV2`, from 360 bytes to 400.
-- Fields behind hd: ts_recv, min_price_increment, display_factor, expiration, activation,
-- high_limit_price, low_limit_price, max_price_variation, trading_reference_price,
-- unit_of_measure_qty, min_price_increment_amount, price_ratio, strike_price, inst_attrib_value,
-- underlying_id, raw_instrument_id, market_depth_implied, market_depth, market_segment_id,
-- max_trade_vol, min_lot_size, min_lot_size_block, min_lot_size_round_lot, min_trade_vol,
-- contract_multiplier, decay_quantity, original_contract_size, trading_reference_date, appl_id,
-- maturity_year, decay_start_date, channel_id, currency, settl_currency, secsubtype, raw_symbol,
-- group, exchange, asset, cfi, security_type, unit_of_measure, underlying, strike_price_currency,
-- instrument_class, match_algorithm, md_security_trading_status, main_fraction,
-- price_display_format, settl_price_type, sub_fraction, underlying_product,
-- security_update_action, maturity_month, maturity_day, maturity_week, user_defined_instrument,
-- contract_multiplier_unit, flow_schedule_type, tick_rule, _reserved.
unfoldable pub definition_v1_to_v2_fields : List Segment
definition_v1_to_v2_fields =
    copy 16 8
    ∷ copy 24 8
    ∷ copy 32 8
    ∷ copy 40 8
    ∷ copy 48 8
    ∷ copy 56 8
    ∷ copy 64 8
    ∷ copy 72 8
    ∷ copy 80 8
    ∷ copy 88 8
    ∷ copy 96 8
    ∷ copy 104 8
    ∷ copy 328 8
    ∷ copy 112 4
    ∷ copy 116 4
    ∷ copy 120 4
    ∷ copy 124 4
    ∷ copy 128 4
    ∷ copy 132 4
    ∷ copy 136 4
    ∷ copy 140 4
    ∷ copy 144 4
    ∷ copy 148 4
    ∷ copy 152 4
    ∷ copy 160 4
    ∷ copy 164 4
    ∷ copy 168 4
    ∷ copy 176 2
    ∷ copy 178 2
    ∷ copy 180 2
    ∷ copy 182 2
    ∷ copy 184 2
    ∷ copy 186 4
    ∷ copy 190 4
    ∷ copy 194 6
    ∷ widen 71 200 22
    ∷ copy 222 21
    ∷ copy 243 5
    ∷ copy 248 7
    ∷ copy 255 7
    ∷ copy 262 7
    ∷ copy 269 31
    ∷ copy 300 21
    ∷ copy 321 4
    ∷ copy 325 1
    ∷ copy 342 1
    ∷ copy 343 1
    ∷ copy 344 1
    ∷ copy 345 1
    ∷ copy 346 1
    ∷ copy 347 1
    ∷ copy 348 1
    ∷ copy 349 1
    ∷ copy 350 1
    ∷ copy 351 1
    ∷ copy 352 1
    ∷ copy 353 1
    ∷ copy 354 1
    ∷ copy 355 1
    ∷ copy 356 1
    ∷ zeros 10
    ∷ []

unfoldable pub definition_v1_to_v2 : Bytes → Bytes
definition_v1_to_v2 rec =
    header 400 RType.instrument_def rec ++ build definition_v1_to_v2_fields rec

-- `v1::InstrumentDefMsg::ToV3`, from 360 bytes to 520.
-- Fields behind hd: ts_recv, min_price_increment, display_factor, expiration, activation,
-- high_limit_price, low_limit_price, max_price_variation, unit_of_measure_qty,
-- min_price_increment_amount, price_ratio, strike_price, raw_instrument_id, leg_price, leg_delta,
-- inst_attrib_value, underlying_id, market_depth_implied, market_depth, market_segment_id,
-- max_trade_vol, min_lot_size, min_lot_size_block, min_lot_size_round_lot, min_trade_vol,
-- contract_multiplier, decay_quantity, original_contract_size, leg_instrument_id,
-- leg_ratio_price_numerator, leg_ratio_price_denominator, leg_ratio_qty_numerator,
-- leg_ratio_qty_denominator, leg_underlying_id, appl_id, maturity_year, decay_start_date,
-- channel_id, leg_count, leg_index, currency, settl_currency, secsubtype, raw_symbol, group,
-- exchange, asset, cfi, security_type, unit_of_measure, underlying, strike_price_currency,
-- leg_raw_symbol, instrument_class, match_algorithm, main_fraction, price_display_format,
-- sub_fraction, underlying_product, security_update_action, maturity_month, maturity_day,
-- maturity_week, user_defined_instrument, contract_multiplier_unit, flow_schedule_type, tick_rule,
-- leg_instrument_class, leg_side, _reserved.
unfoldable pub definition_v1_to_v3_fields : List Segment
definition_v1_to_v3_fields =
    copy 16 8
    ∷ copy 24 8
    ∷ copy 32 8
    ∷ copy 40 8
    ∷ copy 48 8
    ∷ copy 56 8
    ∷ copy 64 8
    ∷ copy 72 8
    ∷ copy 88 8
    ∷ copy 96 8
    ∷ copy 104 8
    ∷ copy 328 8
    ∷ widen 8 120 4
    ∷ constant undef_price
    ∷ constant undef_price
    ∷ copy 112 4
    ∷ copy 116 4
    ∷ copy 124 4
    ∷ copy 128 4
    ∷ copy 132 4
    ∷ copy 136 4
    ∷ copy 140 4
    ∷ copy 144 4
    ∷ copy 148 4
    ∷ copy 152 4
    ∷ copy 160 4
    ∷ copy 164 4
    ∷ copy 168 4
    ∷ zeros 4
    ∷ zeros 4
    ∷ zeros 4
    ∷ zeros 4
    ∷ zeros 4
    ∷ zeros 4
    ∷ copy 178 2
    ∷ copy 180 2
    ∷ copy 182 2
    ∷ copy 184 2
    ∷ zeros 2
    ∷ zeros 2
    ∷ copy 186 4
    ∷ copy 190 4
    ∷ copy 194 6
    ∷ widen 71 200 22
    ∷ copy 222 21
    ∷ copy 243 5
    ∷ widen 11 248 7
    ∷ copy 255 7
    ∷ copy 262 7
    ∷ copy 269 31
    ∷ copy 300 21
    ∷ copy 321 4
    ∷ zeros 71
    ∷ copy 325 1
    ∷ copy 342 1
    ∷ copy 344 1
    ∷ copy 345 1
    ∷ copy 347 1
    ∷ copy 348 1
    ∷ copy 349 1
    ∷ copy 350 1
    ∷ copy 351 1
    ∷ copy 352 1
    ∷ copy 353 1
    ∷ copy 354 1
    ∷ copy 355 1
    ∷ copy 356 1
    ∷ zeros 1
    ∷ constant (b'N' ∷ [])
    ∷ zeros 17
    ∷ []

unfoldable pub definition_v1_to_v3 : Bytes → Bytes
definition_v1_to_v3 rec =
    header 520 RType.instrument_def rec ++ build definition_v1_to_v3_fields rec
