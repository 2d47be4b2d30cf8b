-- ===== src/Upgrade/DefinitionV2.antt =====
-- src/v2.cpp: `InstrumentDefMsg::ToV3`. A segment is a field of the new struct: they stand in
-- the order of its declaration, which the comment repeats, with the places in the old struct.
use databento_cpp.Base.{List, [], ◌∷◌, ◌++◌}
use databento_cpp.Upgrade.{Bytes, Segment, copy, widen, zeros, constant, build, header, undef_price}
use databento_cpp.RType

-- `v2::InstrumentDefMsg::ToV3`, from 400 bytes to 520.
-- Fields behind hd: ts_recv, min_price_increment, display_factor, expiration, activation,
-- high_limit_price, low_limit_price, max_price_variation, unit_of_measure_qty,
-- min_price_increment_amount, price_ratio, strike_price, raw_instrument_id, leg_price, leg_delta,
-- inst_attrib_value, underlying_id, market_depth_implied, market_depth, market_segment_id,
-- max_trade_vol, min_lot_size, min_lot_size_block, min_lot_size_round_lot, min_trade_vol,
-- contract_multiplier, decay_quantity, original_contract_size, leg_instrument_id,
-- leg_ratio_price_numerator, leg_ratio_price_denominator, leg_ratio_qty_numerator,
-- leg_ratio_qty_denominator, leg_underlying_id, appl_id, maturity_year, decay_start_date,
-- channel_id, leg_count, leg_index, currency, settl_currency, secsubtype, raw_symbol, group,
-- exchange, asset, cfi, security_type, unit_of_measure, underlying, strike_price_currency,
-- leg_raw_symbol, instrument_class, match_algorithm, main_fraction, price_display_format,
-- sub_fraction, underlying_product, security_update_action, maturity_month, maturity_day,
-- maturity_week, user_defined_instrument, contract_multiplier_unit, flow_schedule_type, tick_rule,
-- leg_instrument_class, leg_side, _reserved.
unfoldable pub definition_v2_to_v3_fields : List Segment
definition_v2_to_v3_fields =
    copy 16 8
    ∷ copy 24 8
    ∷ copy 32 8
    ∷ copy 40 8
    ∷ copy 48 8
    ∷ copy 56 8
    ∷ copy 64 8
    ∷ copy 72 8
    ∷ copy 88 8
    ∷ copy 96 8
    ∷ copy 104 8
    ∷ copy 112 8
    ∷ widen 8 128 4
    ∷ constant undef_price
    ∷ constant undef_price
    ∷ copy 120 4
    ∷ copy 124 4
    ∷ copy 132 4
    ∷ copy 136 4
    ∷ copy 140 4
    ∷ copy 144 4
    ∷ copy 148 4
    ∷ copy 152 4
    ∷ copy 156 4
    ∷ copy 160 4
    ∷ copy 164 4
    ∷ copy 168 4
    ∷ copy 172 4
    ∷ zeros 4
    ∷ zeros 4
    ∷ zeros 4
    ∷ zeros 4
    ∷ zeros 4
    ∷ zeros 4
    ∷ copy 178 2
    ∷ copy 180 2
    ∷ copy 182 2
    ∷ copy 184 2
    ∷ zeros 2
    ∷ zeros 2
    ∷ copy 186 4
    ∷ copy 190 4
    ∷ copy 194 6
    ∷ copy 200 71
    ∷ copy 271 21
    ∷ copy 292 5
    ∷ widen 11 297 7
    ∷ copy 304 7
    ∷ copy 311 7
    ∷ copy 318 31
    ∷ copy 349 21
    ∷ copy 370 4
    ∷ zeros 71
    ∷ copy 374 1
    ∷ copy 375 1
    ∷ copy 377 1
    ∷ copy 378 1
    ∷ copy 380 1
    ∷ copy 381 1
    ∷ copy 382 1
    ∷ copy 383 1
    ∷ copy 384 1
    ∷ copy 385 1
    ∷ copy 386 1
    ∷ copy 387 1
    ∷ copy 388 1
    ∷ copy 389 1
    ∷ zeros 1
    ∷ constant (b'N' ∷ [])
    ∷ zeros 17
    ∷ []

unfoldable pub definition_v2_to_v3 : Bytes → Bytes
definition_v2_to_v3 rec =
    header 520 RType.instrument_def rec ++ build definition_v2_to_v3_fields rec
