-- ===== src/Metadata/RoundTrip.antt =====
-- What the encoder writes, the decoder reads back.
use databento_cpp.Base.{
  ℕ, ◌+◌, ◌^◌, ◌≤◌, ◌<◌, ◌≡◌, refl, sym, ap, ◌∙◌, arith, Bool, true, false, not, Option, none, some,
  List, ◌++◌, ltb, ◌==◌, length, replicate, le, length-append, length-replicate, length-le, drop,
  Bool-cases, inl, inr, max,
}
use mathlib.Core.Path.{subst}
use databento_cpp.Base.Results.{ok, schema_definition}
use databento_cpp.Base.Parser.{consume_int, skip, throw_if}
use databento_cpp.Base.Parser.{
  Reads, consume_int-Reads, skip-Reads, throw_if-Reads, >>=-Reads, ret-Reads,
}
use databento_cpp.Metadata.{
  Metadata, dbn_version, fixed_metadata_len, dataset_cstr_len, null_schema, null_stype,
  symbol_cstr_len_v1,
}
use databento_cpp.Metadata.Decode.{
  consume_cstr, decode_repeated_symbol, decode_symbol_mappings, decode_symbol_cstr_len,
  decode_fields, unless_null, record_count_len, reserved_len, decode_metadata_fields, result_of,
}
use databento_cpp.Metadata.Decode.Reads.{
  consume_cstr-Reads, decode_repeated_symbol-Reads, decode_symbol_mappings-Reads,
}
use databento_cpp.Metadata.Decode.{dbn_prefix, decode_metadata_version_and_size}
use databento_cpp.Metadata.Decode.Prelude.{decode_prelude}
use databento_cpp.Metadata.Encode.{
  raw_or_null, bool_byte, done, write_all, encode_as_bytes, encode_fields, encode_metadata,
  calc_length,
}
use databento_cpp.Metadata.Encode.Writes.{
  Writes, >>-Writes, write_all-Writes, encode_as_bytes-Writes, encode_fields-Writes,
}
use databento_cpp.Metadata.Encode.Length.{length-fields_bytes, calc_length_lem}
use databento_cpp.Metadata.Format.{
  IsEncodable, IsRaw, fields_bytes, record_count_bytes, cstr_len_bytes, reserved_bytes,
}

unless_null-raw :
    (null : ℕ) (o : Option ℕ) → IsRaw null o → unless_null null (raw_or_null null o) ≡ o
unless_null-raw null none h = ground arith
unless_null-raw null (some raw) h = ground arith

raw_fits : (null : ℕ) (o : Option ℕ) → IsRaw null o → raw_or_null null o ≤ null
raw_fits null none h = omega arith
raw_fits null (some raw) h = omega arith

bool_byte_back : (b : Bool) → not (bool_byte b == 0) ≡ b
bool_byte_back true = refl
bool_byte_back false = refl

bool_byte_fits : (b : Bool) → bool_byte b < 256 ^ 1
bool_byte_fits true = omega arith
bool_byte_fits false = omega arith

length-record_count : (version : ℕ) → length (record_count_bytes version) ≡ record_count_len version
length-record_count version = elim (Bool-cases (version == 1)) [
  | inl one ↦ rw one (length-le 8 _)
  | inr other ↦ rw other
]

cstr_len-Reads :
    (version width : ℕ)
    → 1 ≤ version
    → width < 256 ^ 2
    → (version ≡ 1 → width ≡ symbol_cstr_len_v1)
    → Reads (decode_symbol_cstr_len version) (cstr_len_bytes version width) width
unfolding decode_symbol_cstr_len
cstr_len-Reads version width h fits v1 = elim (Bool-cases (ltb 1 version)) [
  | inl stored ↦ rw stored (consume_int-Reads 2 width fits)
  | inr implied ↦
      rw implied (record { before = λ rest. ap (λ w. ok (w, rest)) (sym (v1 (ground arith))) })
]

metadata_back :
    (m : Metadata)
    → IsEncodable m
    → record m {
      schema = unless_null null_schema (raw_or_null null_schema m.schema);
      stype_in = unless_null null_stype (raw_or_null null_stype m.stype_in);
      ts_out = not (bool_byte m.ts_out == 0);
    }
      ≡ m
metadata_back m h = λ j. record m {
  schema = unless_null-raw null_schema m.schema h.schema_fits j;
  stype_in = unless_null-raw null_stype m.stype_in h.stype_in_fits j;
  ts_out = bool_byte_back m.ts_out j;
}

-- The decoder, told the version, reads back what the format holds, and leaves what follows.
pub decode_fields-Reads :
    (m : Metadata) → IsEncodable m → Reads (decode_fields m.version) (fields_bytes m.version m) m
unfolding decode_fields fields_bytes
decode_fields-Reads m h =
    let w = m.symbol_cstr_len in
    subst (Reads (decode_fields m.version) (fields_bytes m.version m)) (metadata_back m h) (
      >>=-Reads (consume_cstr dataset_cstr_len) _
        (consume_cstr-Reads dataset_cstr_len m.dataset h.dataset_fits)
        (>>=-Reads (consume_int 2) _
          (consume_int-Reads 2 (raw_or_null null_schema m.schema)
            (omega (arith, raw_fits null_schema m.schema h.schema_fits)))
          (>>=-Reads (consume_int 8) _ (consume_int-Reads 8 m.start h.start_fits) (
            >>=-Reads (consume_int 8) _ (consume_int-Reads 8 m.end h.end_fits) (
              >>=-Reads (consume_int 8) _ (consume_int-Reads 8 m.limit h.limit_fits) (
                >>=-Reads (skip (record_count_len m.version)) _
                  (skip-Reads (record_count_len m.version) (record_count_bytes m.version)
                    (length-record_count m.version))
                  (>>=-Reads (consume_int 1) _
                    (consume_int-Reads 1 (raw_or_null null_stype m.stype_in)
                      (omega (arith, raw_fits null_stype m.stype_in h.stype_in_fits)))
                    (>>=-Reads (consume_int 1) _ (consume_int-Reads 1 m.stype_out h.stype_out_fits)
                      (>>=-Reads (consume_int 1) _
                        (consume_int-Reads 1 (bool_byte m.ts_out) (bool_byte_fits m.ts_out))
                        (>>=-Reads (decode_symbol_cstr_len m.version) _
                          (cstr_len-Reads m.version w h.version_min h.width_fits h.width_v1)
                          (>>=-Reads (skip (reserved_len m.version)) _
                            (skip-Reads (reserved_len m.version) (reserved_bytes m.version)
                              (length-replicate (reserved_len m.version) _))
                            (>>=-Reads (consume_int 4) _ (consume_int-Reads 4 0 (omega arith)) (
                              >>=-Reads (throw_if false schema_definition) _
                                (throw_if-Reads schema_definition)
                                (>>=-Reads (decode_repeated_symbol w) _
                                  (decode_repeated_symbol-Reads w m.symbols h.symbols_fit)
                                  (>>=-Reads (decode_repeated_symbol w) _
                                    (decode_repeated_symbol-Reads w m.partial h.partial_fit)
                                    (>>=-Reads (decode_repeated_symbol w) _
                                      (decode_repeated_symbol-Reads w m.not_found h.not_found_fit)
                                      (ret-Reads (decode_symbol_mappings w) _ (
                                        decode_symbol_mappings-Reads w m.mappings
                                          h.mappings_count_fits h.mappings_fit))))))))))))))))))

-- What `EncodeMetadata` writes.
abbrev pub metadata_bytes : Metadata → List ℕ
metadata_bytes m =
    dbn_prefix
    ++ (le 1 m.version
        ++ (le 4 (calc_length m).0 ++ (fields_bytes m.version m ++ replicate (calc_length m).1 0)))

pub encode_metadata-Writes :
    (m : Metadata) → IsEncodable m → Writes (encode_metadata m) (metadata_bytes m)
unfolding encode_metadata
encode_metadata-Writes m h =
    let old : ltb dbn_version m.version ≡ false = ground arith in
    let same : max 1 m.version ≡ m.version = omega arith in
    let padding = replicate (calc_length m).1 0 in
    let all = >>-Writes (write_all dbn_prefix) _ (write_all-Writes dbn_prefix) (
      >>-Writes (encode_as_bytes 1 m.version) _ (encode_as_bytes-Writes 1 m.version) (
        >>-Writes (encode_as_bytes 4 (calc_length m).0) _
          (encode_as_bytes-Writes 4 (calc_length m).0)
          (>>-Writes (encode_fields m.version m) (write_all padding)
            (encode_fields-Writes m.version m h) (write_all-Writes padding)))) in
    record { behind = λ out. rw (old, same) (all.behind out) }

pub decode_metadata_fields_lem :
    (m : Metadata) (rest : List ℕ)
    → IsEncodable m
    → decode_metadata_fields m.version (fields_bytes m.version m ++ rest) ≡ ok m
unfolding decode_metadata_fields
decode_metadata_fields_lem m rest h =
    let old : ltb dbn_version m.version ≡ false = ground arith in
    rw old (ap result_of ((decode_fields-Reads m h).before rest))

-- For metadata that the format can hold, in a frame whose length 32 bits can count: `EncodeMetadata`
-- returns and appends its bytes to the output; `DecodeMetadataVersionAndSize` reads from them the
-- version and the number of the bytes that follow the first eight; and `DecodeMetadataFields` reads
-- from those the same metadata.
pub decode-encode_metadata :
    (m : Metadata) (out : List ℕ)
    → IsEncodable m
    → length (fields_bytes m.version m) + 8 ≤ 2 ^ 32
    → let bytes = metadata_bytes m in
      (encode_metadata m out ≡ done (out ++ bytes))
      × (decode_metadata_version_and_size bytes ≡ ok (m.version, length (drop 8 bytes)))
      × (decode_metadata_fields m.version (drop 8 bytes) ≡ ok m)
unfolding le
decode-encode_metadata m out h small =
    let (size, pad, _, _) = calc_length_lem m h small in
    let padding : List ℕ = replicate (calc_length m).1 0 in
    let frame : length (fields_bytes m.version m ++ padding) ≡ (calc_length m).0 = omega (
      arith,
      length-append (fields_bytes m.version m) padding,
      length-replicate (calc_length m).1 (let z : ℕ = 0 in z),
    ) in
    let full : ltb (calc_length m).0 fixed_metadata_len ≡ false =
      ground (arith, length-fields_bytes m h) in
    (
      (encode_metadata-Writes m h).behind out,
      decode_prelude m.version (calc_length m).0 (fields_bytes m.version m ++ padding) (omega arith)
            (omega arith)
          ∙ rw (full, frame),
      decode_metadata_fields_lem m padding h,
    )
