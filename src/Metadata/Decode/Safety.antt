-- ===== src/Metadata/Decode/Safety.antt =====
-- Which frames `DecodeMetadataFields` reads without leaving them.
use databento_cpp.Base.{
  ℕ, ◌+◌, ◌*◌, ◌≤◌, ◌≡◌, ◌≢◌, arith, not, Option, none, some, List, inl, inr, length, ltb,
  Bool-cases, ◌==◌, if◌then◌else◌, until_null,
}
use databento_cpp.Base.Results.{
  overrun, schema_definition, symbol_end, mapping_end, mappings_end, interval_count_mismatch,
}
use databento_cpp.Base.Parser.{consume, consume_int, skip, throw_if, times}
use databento_cpp.Base.Parser.Bounds.{
  Safe, Takes, consume-Takes, consume_int-Takes, skip-Takes, throw_if-Safe, require-Safe,
  times-Safe, times-Safe_checked, ret-Takes, Takes-eq, Safe-le, >>=-Safe, >>=-Safe_checked,
  >>=-Takes,
}
use databento_cpp.Metadata.{Text}
use databento_cpp.Metadata.Decode.{
  finish_cstr, consume_cstr, decode_symbol, decode_repeated_symbol, decode_interval,
  decode_symbol_mapping, decode_symbol_mappings, decode_symbol_cstr_len, decode_fields,
  decode_metadata_fields, record_count_len, reserved_len,
}

finish_cstr-Takes : (o : Option Text) → Takes (finish_cstr o) 0
unfolding finish_cstr
finish_cstr-Takes none = record {
  safe = record { stays = λ s h e. cc };
  moves = λ s a s' e. absurd (cc);
}
finish_cstr-Takes (some str) = ret-Takes str

consume_cstr-Takes : (width : ℕ) → Takes (consume_cstr width) width
unfolding consume_cstr
consume_cstr-Takes width = Takes-eq (consume_cstr width) (omega arith) (
    >>=-Takes (consume width) _ width 0 (consume-Takes width)
      (λ cstr. finish_cstr-Takes (until_null cstr)))

decode_symbol-Takes : (width : ℕ) → Takes (decode_symbol width) width
unfolding decode_symbol
decode_symbol-Takes = consume_cstr-Takes

decode_repeated_symbol-Safe : (width : ℕ) → Safe (decode_repeated_symbol width) 0
unfolding decode_repeated_symbol
decode_repeated_symbol-Safe width = require-Safe 4 symbol_end _ (
    >>=-Safe_checked (consume_int 4) _ 4 (consume_int-Takes 4).safe (λ count.
      require-Safe (count * width) symbol_end _
        (times-Safe (decode_symbol width) width (decode_symbol-Takes width) count)))

decode_interval-Takes : (width : ℕ) → Takes (decode_interval width) (4 * 2 + width)
unfolding decode_interval
decode_interval-Takes width = Takes-eq (decode_interval width) (omega arith) (
    >>=-Takes (consume_int 4) _ 4 (4 + (width + 0)) (consume_int-Takes 4) (λ start.
      >>=-Takes (consume_int 4) _ 4 (width + 0) (consume_int-Takes 4) (λ end.
        >>=-Takes (decode_symbol width) _ width 0 (decode_symbol-Takes width)
          (λ symbol. ret-Takes _))))

decode_symbol_mapping-Safe : (width : ℕ) → Safe (decode_symbol_mapping width) 0
unfolding decode_symbol_mapping
decode_symbol_mapping-Safe width = require-Safe (width + 4) mapping_end _ (
    >>=-Safe (decode_symbol width) _ width 4 (decode_symbol-Takes width) (λ symbol.
      >>=-Safe_checked (consume_int 4) _ 4 (consume_int-Takes 4).safe (λ count.
        require-Safe (count * (4 * 2 + width)) interval_count_mismatch _ (
          >>=-Safe_checked (times count (decode_interval width)) _ (count * (4 * 2 + width))
            (times-Safe (decode_interval width) (4 * 2 + width) (decode_interval-Takes width) count)
            (λ intervals. (ret-Takes _).safe)))))

decode_symbol_mappings-Safe : (width : ℕ) → Safe (decode_symbol_mappings width) 0
unfolding decode_symbol_mappings
decode_symbol_mappings-Safe width = require-Safe 4 mappings_end _ (
    >>=-Safe_checked (consume_int 4) _ 4 (consume_int-Takes 4).safe (λ count.
      times-Safe_checked (decode_symbol_mapping width) (decode_symbol_mapping-Safe width) count))

-- The bytes that the width of symbols takes.
abbrev width_len : ℕ → ℕ
width_len version = if ltb 1 version then 2 else 0

width-Takes : (version : ℕ) → Takes (decode_symbol_cstr_len version) (width_len version)
unfolding decode_symbol_cstr_len
width-Takes version = elim (Bool-cases (ltb 1 version)) [
  | inl stored ↦ rw stored (consume_int-Takes 2)
  | inr implied ↦ rw implied (ret-Takes 22)
]

-- The fields of fixed width come to 100 bytes, and the length of the schema definition to 4 more.
fixed_len :
    (version : ℕ)
    → 1 ≤ version
    → record_count_len version + width_len version + reserved_len version ≡ 55
fixed_len version h = ground arith

fixed_len_max :
    (version : ℕ) → record_count_len version + width_len version + reserved_len version ≤ 55
fixed_len_max version = ground arith

decode_fields-Safe : (version : ℕ) → Safe (decode_fields version) 104
unfolding decode_fields
decode_fields-Safe version =
    let rc = record_count_len version in
    let wl = width_len version in
    let rl = reserved_len version in
    Safe-le (decode_fields version) (omega (arith, fixed_len_max version)) (
      >>=-Safe (consume_cstr 16) _ 16
        (2 + (8 + (8 + (8 + (rc + (1 + (1 + (1 + (wl + (rl + 4)))))))))) (consume_cstr-Takes 16)
        λ _.
          >>=-Safe (consume_int 2) _ 2 (8 + (8 + (8 + (rc + (1 + (1 + (1 + (wl + (rl + 4)))))))))
            (consume_int-Takes 2)
            λ _.
              >>=-Safe (consume_int 8) _ 8 (8 + (8 + (rc + (1 + (1 + (1 + (wl + (rl + 4))))))))
                (consume_int-Takes 8)
                λ _.
                  >>=-Safe (consume_int 8) _ 8 (8 + (rc + (1 + (1 + (1 + (wl + (rl + 4)))))))
                    (consume_int-Takes 8)
                    λ _.
                      >>=-Safe (consume_int 8) _ 8 (rc + (1 + (1 + (1 + (wl + (rl + 4))))))
                        (consume_int-Takes 8)
                        λ _.
                          >>=-Safe (skip rc) _ rc (1 + (1 + (1 + (wl + (rl + 4))))) (skip-Takes rc)
                            λ _.
                              >>=-Safe (consume_int 1) _ 1 (1 + (1 + (wl + (rl + 4))))
                                (consume_int-Takes 1)
                                λ _.
                                  >>=-Safe (consume_int 1) _ 1 (1 + (wl + (rl + 4)))
                                    (consume_int-Takes 1)
                                    λ _.
                                      >>=-Safe (consume_int 1) _ 1 (wl + (rl + 4))
                                        (consume_int-Takes 1)
                                        λ _.
                                          >>=-Safe (decode_symbol_cstr_len version) _ wl (rl + 4)
                                            (width-Takes version)
                                            λ width. >>=-Safe (skip rl) _ rl 4 (skip-Takes rl) λ _.
                                              >>=-Safe_checked (consume_int 4) _ 4
                                                (consume_int-Takes 4).safe
                                                λ len.
                                                  >>=-Safe_checked
                                                    (throw_if (not (len == 0)) schema_definition) _
                                                    0
                                                    (throw_if-Safe (not (len == 0))
                                                      schema_definition)
                                                    λ _.
                                                      >>=-Safe_checked
                                                        (decode_repeated_symbol width) _ 0
                                                        (decode_repeated_symbol-Safe width)
                                                        λ _.
                                                          >>=-Safe_checked
                                                            (decode_repeated_symbol width) _ 0
                                                            (decode_repeated_symbol-Safe width)
                                                            λ _.
                                                            >>=-Safe_checked
                                                            (decode_repeated_symbol width) _ 0
                                                            (decode_repeated_symbol-Safe width)
                                                            λ _.
                                                            >>=-Safe_checked
                                                            (decode_symbol_mappings width) _ 0
                                                            (decode_symbol_mappings-Safe width)
                                                            λ _. (ret-Takes _).safe)

-- On a frame of 104 bytes or more, whatever they are and whatever the version, the decoder returns
-- or throws without having read a byte outside the frame.
pub decode_metadata_fields-ne-overrun :
    (version : ℕ) (bytes : List ℕ)
    → 104 ≤ length bytes
    → decode_metadata_fields version bytes ≢ overrun
unfolding decode_metadata_fields
decode_metadata_fields-ne-overrun version bytes h bad =
    (decode_fields-Safe version).stays bytes h (ground arith)
