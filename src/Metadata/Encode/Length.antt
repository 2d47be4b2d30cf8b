-- ===== src/Metadata/Encode/Length.antt =====
-- `DbnEncoder::CalcLength` against the bytes that are written.
use databento_cpp.Base.{
  ℕ, ◌+◌, ◌*◌, ◌%◌, ◌^◌, ◌≤◌, ◌<◌, ◌≡◌, arith, true, false, List, [], ◌∷◌, ◌++◌, foldl, ltb, ◌==◌,
  length, concat_map, le, All, IsCstr, length-append, length-replicate, length-le, Bool-cases, inl,
  inr,
}
use databento_cpp.Metadata.{Metadata, SymbolMapping, Text, dataset_cstr_len, fixed_metadata_len}
use databento_cpp.Metadata.Encode.{mappings_len, needed_len, calc_length}
use databento_cpp.Metadata.Format.{
  cstr_bytes, symbols_bytes, interval_bytes, mapping_bytes, mappings_bytes, IsInterval, IsMapping,
  AreSymbols, IsEncodable, fields_bytes, variable_bytes, record_count_bytes, cstr_len_bytes,
  reserved_bytes,
}
use databento_cpp.Metadata.Decode.Reads.{
  length-cstr_bytes, length-concat_map, length-interval_bytes,
}

length-mapping_bytes :
    (width : ℕ) (m : SymbolMapping)
    → IsMapping width m
    → length (mapping_bytes width m) ≡ width + 4 + length m.intervals * (4 * 2 + width)
length-mapping_bytes width m h =
    let items = concat_map (interval_bytes width) m.intervals in
    omega (
      arith,
      length-append (cstr_bytes width m.raw_symbol) (le 4 (length m.intervals) ++ items),
      length-append (le 4 (length m.intervals)) items,
      length-cstr_bytes width m.raw_symbol h.raw_symbol_fits,
      length-le 4 (length m.intervals),
      length-concat_map (interval_bytes width) (4 * 2 + width) (IsInterval width)
          (length-interval_bytes width) m.intervals h.intervals_fit,
    )

-- The accumulator loop of `CalcLength`, from any start.
length-mappings :
    (width acc : ℕ) (ms : List SymbolMapping)
    → All (IsMapping width) ms
    → foldl (λ acc m. acc + width + 4 + length m.intervals * (4 * 2 + width)) acc ms
      ≡ acc + length (concat_map (mapping_bytes width) ms)
length-mappings width acc [] hs = omega arith
length-mappings width acc (m ∷ ms) (h, hs) = omega (
  arith,
  length-mappings width (acc + width + 4 + length m.intervals * (4 * 2 + width)) ms hs,
  length-append (mapping_bytes width m) (concat_map (mapping_bytes width) ms),
  length-mapping_bytes width m h,
)

length-symbols_bytes :
    (width : ℕ) (symbols : List Text)
    → AreSymbols width symbols
    → length (symbols_bytes width symbols) ≡ 4 + length symbols * width
length-symbols_bytes width symbols h = omega (
  arith,
  length-append (le 4 (length symbols)) (concat_map (cstr_bytes width) symbols),
  length-le 4 (length symbols),
  length-concat_map (cstr_bytes width) width (IsCstr width) (length-cstr_bytes width) symbols
      h.symbols_fit,
)

-- What the versions store differently takes up the same room.
version_bytes :
    (version width : ℕ)
    → 1 ≤ version
    → length (record_count_bytes version)
        + length (cstr_len_bytes version width)
        + length (reserved_bytes version)
      ≡ 55
version_bytes version width h = elim (Bool-cases (version == 1)) [
  | inl one ↦
      let low : ltb 1 version ≡ false = ground arith in
      rw (one, low)
        (omega (arith, length-le 8 0xffff_ffff_ffff_ffff, length-replicate 47 (let z : ℕ = 0 in z)))
  | inr other ↦
      let high : ltb 1 version ≡ true = ground arith in
      rw (other, high) (omega (arith, length-le 2 width, length-replicate 53 (let z : ℕ = 0 in z)))
]

length-variable_bytes :
    (m : Metadata)
    → IsEncodable m
    → length (variable_bytes m)
      ≡ 16
        + (length m.symbols + length m.partial + length m.not_found) * m.symbol_cstr_len
        + mappings_len m.symbol_cstr_len m.mappings
length-variable_bytes m h =
    let w = m.symbol_cstr_len in
    omega (
      arith,
      length-append (symbols_bytes w m.symbols) (
          symbols_bytes w m.partial
          ++ (symbols_bytes w m.not_found ++ mappings_bytes w m.mappings)),
      length-append (symbols_bytes w m.partial)
          (symbols_bytes w m.not_found ++ mappings_bytes w m.mappings),
      length-append (symbols_bytes w m.not_found) (mappings_bytes w m.mappings),
      length-append (le 4 (length m.mappings)) (concat_map (mapping_bytes w) m.mappings),
      length-le 4 (length m.mappings),
      length-symbols_bytes w m.symbols h.symbols_fit,
      length-symbols_bytes w m.partial h.partial_fit,
      length-symbols_bytes w m.not_found h.not_found_fit,
      length-mappings w 0 m.mappings h.mappings_fit,
    )

-- The exact length of a frame, before it is reduced to 32 bits.
pub length-fields_bytes :
    (m : Metadata)
    → IsEncodable m
    → length (fields_bytes m.version m)
      ≡ fixed_metadata_len
        + 4 * 5
        + (length m.symbols + length m.partial + length m.not_found) * m.symbol_cstr_len
        + mappings_len m.symbol_cstr_len m.mappings
unfolding fields_bytes
length-fields_bytes m h = omega (
  arith,
  length-append {0},
  length-le,
  length-cstr_bytes dataset_cstr_len m.dataset h.dataset_fits,
  version_bytes m.version m.symbol_cstr_len h.version_min,
  length-variable_bytes m h,
)

-- For metadata that the format can hold and whose frame a `uint32_t` can count, the frame that
-- `CalcLength` announces is the bytes of the fields and the padding, which is less than 8 bytes; the
-- frame is a multiple of 8 in version 3, and there is no padding before.
pub calc_length_lem :
    (m : Metadata)
    → IsEncodable m
    → length (fields_bytes m.version m) + 8 ≤ 2 ^ 32
    → ((calc_length m).0 ≡ length (fields_bytes m.version m) + (calc_length m).1)
      × ((calc_length m).1 < 8)
      × (m.version ≡ 3 → (calc_length m).0 % 8 ≡ 0)
      × (m.version < 3 → (calc_length m).1 ≡ 0)
unfolding calc_length needed_len
calc_length_lem m h small = ground (arith, length-fields_bytes m h)
