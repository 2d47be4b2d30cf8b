-- ===== src/Upgrade/Messages.antt =====
-- src/v1.cpp: `StatMsg::ToV3`, `ErrorMsg::ToV2`, `SymbolMappingMsg::ToV2` and `SystemMsg::ToV2`.
use databento_cpp.Base.{
  ℕ, ◌+◌, ◌-◌, ◌^◌, Bool, ◌&&◌, Option, none, some, List, [], ◌∷◌, ◌++◌, ltb, ◌==◌, if◌then◌else◌,
  length, drop, le, un_le, until_null, codes, text_eq, starts_with,
}
use databento_cpp.Upgrade.{Bytes, field, header, Segment, copy, widen, zeros, constant, build}
use databento_cpp.RType

-- `v1::kUndefStatQuantity` and `v3::kUndefStatQuantity`, as bit patterns.
abbrev pub undef_stat_quantity_v1 : ℕ
undef_stat_quantity_v1 = 0x7fff_ffff

abbrev pub undef_stat_quantity_v3 : ℕ
undef_stat_quantity_v3 = 0x7fff_ffff_ffff_ffff

-- An `int32_t` converted to `int64_t`, both as bit patterns.
abbrev pub sign_extend : ℕ → ℕ
sign_extend n = if ltb n (2 ^ 31) then n else n + (2 ^ 64 - 2 ^ 32)

unfoldable pub upgrade_quantity : ℕ → ℕ
upgrade_quantity quantity =
    if quantity == undef_stat_quantity_v1 then undef_stat_quantity_v3 else sign_extend quantity

-- Fields: hd, ts_recv, ts_ref, price, quantity, sequence, ts_in_delta, stat_type, channel_id,
-- update_action, stat_flags, _reserved. From 64 bytes to 80.
unfoldable pub stat_to_v3_fields : Bytes → List Segment
stat_to_v3_fields rec =
    copy 16 8
    ∷ copy 24 8
    ∷ copy 32 8
    ∷ constant (le 8 (upgrade_quantity (un_le (field 40 4 rec))))
    ∷ copy 44 4
    ∷ copy 48 4
    ∷ copy 52 2
    ∷ copy 54 2
    ∷ copy 56 1
    ∷ copy 57 1
    ∷ zeros 18
    ∷ []

unfoldable pub stat_to_v3 : Bytes → Bytes
stat_to_v3 rec = header 80 RType.statistics rec ++ build (stat_to_v3_fields rec) rec

-- Fields: hd, stype_in, stype_in_symbol, stype_out, stype_out_symbol, start_ts, end_ts. From 80
-- bytes to 176; the two types of symbols are intentionally invalid.
unfoldable pub symbol_mapping_to_v2_fields : List Segment
symbol_mapping_to_v2_fields =
    constant (0xff ∷ [])
    ∷ widen 71 16 22
    ∷ constant (0xff ∷ [])
    ∷ widen 71 38 22
    ∷ copy 64 8
    ∷ copy 72 8
    ∷ []

unfoldable pub symbol_mapping_to_v2 : Bytes → Bytes
symbol_mapping_to_v2 rec =
    header 176 RType.symbol_mapping rec ++ build symbol_mapping_to_v2_fields rec

-- `ErrorCode` and `SystemCode`
abbrev pub unset_code : ℕ
unset_code = 255

-- The code that the text of an error stands for.
unfoldable pub error_code : Bytes → ℕ
error_code err =
    if text_eq err (codes "User or API key deactivated")
    then 2
    else if text_eq err (codes "User has reached their open connection limit")
    then 3
    else if starts_with (codes "Failed to resolve symbol") err
    then 4
    else if text_eq err (codes "Internal error")
    then 6
    else if starts_with (codes "Slow client detected for ") err
    then 7
    else unset_code

-- The last bytes of a text, from `length end` before its end on: `&Msg()[msg_len - strlen(end)]`.
abbrev pub ends_with : Bytes → Bytes → Bool
ends_with end msg = starts_with end (drop (length msg - length end) msg)

unfoldable pub system_code : Bytes → ℕ
system_code msg =
    if starts_with (codes "Heartbeat") msg
    then 0
    else if starts_with (codes "End of interval for ") msg
    then 4
    else if starts_with (codes "Subscription request ") msg && ends_with (codes " succeeded") msg
    then 1
    else if starts_with (codes "Warning: slow reading") msg
    then 2
    else if starts_with (codes "Finished ") msg && ends_with (codes " replay") msg
    then 3
    else unset_code

-- A text with no terminator stands for no code.
abbrev pub code_of_text : (Bytes → ℕ) → Option Bytes → ℕ
code_of_text code none = unset_code
code_of_text code (some text) = code text

-- Fields: hd, err, code, is_last. From 80 bytes to 320.
unfoldable pub error_to_v2_fields : Bytes → List Segment
error_to_v2_fields rec =
    let code = code_of_text error_code (until_null (field 16 64 rec)) in
    widen 302 16 64 ∷ constant (code ∷ []) ∷ constant (255 ∷ []) ∷ []

unfoldable pub error_to_v2 : Bytes → Bytes
error_to_v2 rec = header 320 RType.error rec ++ build (error_to_v2_fields rec) rec

-- Fields: hd, msg, code. From 80 bytes to 320.
unfoldable pub system_to_v2_fields : Bytes → List Segment
system_to_v2_fields rec =
    let code = code_of_text system_code (until_null (field 16 64 rec)) in
    widen 303 16 64 ∷ constant (code ∷ []) ∷ []

unfoldable pub system_to_v2 : Bytes → Bytes
system_to_v2 rec = header 320 RType.system rec ++ build (system_to_v2_fields rec) rec
