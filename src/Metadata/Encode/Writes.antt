-- ===== src/Metadata/Encode/Writes.antt =====
-- The encoder writes the bytes of the format.
use databento_cpp.Base.{
  ℕ, zero, suc, ◌+◌, ◌-◌, ◌%◌, ◌^◌, ◌≡◌, refl, ap, ◌∙◌, arith, Bool, true, false, List, [], ◌∷◌,
  ◌++◌, ltb, leb, ◌==◌, if◌then◌else◌, length, replicate, concat_map, le, All, IsCstr, append-nil,
  append_assoc,
}
use mathlib.Core.Path.{subst}
use databento_cpp.Metadata.{
  Metadata, SymbolMapping, MappingInterval, Date, Text, dataset_cstr_len, null_schema, null_stype,
  null_record_count,
}
use databento_cpp.Metadata.Decode.{reserved_len}
use databento_cpp.Metadata.Encode.{
  Writer, done, ◌>>◌, write_all, nothing, write_each, encode_fixed_len_cstr, encode_as_bytes,
  encode_date, encode_repeated_symbol_cstr, encode_interval, encode_symbol_mapping,
  encode_symbol_mappings, encode_fields, raw_or_null, bool_byte,
}
use databento_cpp.Metadata.Format.{
  cstr_bytes, date_int, symbols_bytes, interval_bytes, mapping_bytes, mappings_bytes, IsDate,
  IsInterval, IsMapping, AreSymbols, IsEncodable, fields_bytes,
}

-- `w` writes exactly `bytes`, behind whatever was written before, and returns.
pub record Writes (w : Writer) (bytes : List ℕ) : Type 0 where
  pub behind : (out : List ℕ) → w out ≡ done (out ++ bytes)

pub >>-Writes :
    (w k : Writer) {xs ys : List ℕ} → Writes w xs → Writes k ys → Writes (w >> k) (xs ++ ys)
>>-Writes w k {xs} {ys} hw hk = record {
  behind =
      λ out. rw (hw.behind out, ◌>>◌) (hk.behind (out ++ xs) ∙ ap done (append_assoc out xs ys));
}

pub write_all-Writes : (bytes : List ℕ) → Writes (write_all bytes) bytes
unfolding write_all
write_all-Writes bytes = record { behind = λ out. refl }

pub nothing-Writes : Writes nothing []
nothing-Writes = record { behind = λ out. rw append-nil }

pub encode_as_bytes-Writes : (width n : ℕ) → Writes (encode_as_bytes width n) (le width n)
unfolding encode_as_bytes
encode_as_bytes-Writes width n = write_all-Writes (le width n)

pub write_each-Writes {ℓ} :
    {A : Type ℓ} (w : A → Writer) (encode : A → List ℕ) (P : A → Type 0)
    → ((a : A) → P a → Writes (w a) (encode a))
    → (xs : List A) → All P xs
    → Writes (write_each w xs) (concat_map encode xs)
unfolding write_each
write_each-Writes w encode P h [] hs = nothing-Writes
write_each-Writes w encode P h (x ∷ xs) (hx, hs) =
    >>-Writes (w x) (write_each w xs) (h x hx) (write_each-Writes w encode P h xs hs)

encode_cstr-Writes :
    (width : ℕ) (s : Text)
    → IsCstr width s
    → Writes (encode_fixed_len_cstr width s) (cstr_bytes width s)
unfolding encode_fixed_len_cstr
encode_cstr-Writes width s h =
    let fits : leb width (length s) ≡ false = ground (arith, h.short) in
    let padding = replicate (width - length s) 0 in
    let both =
      >>-Writes (write_all s) (write_all padding) (write_all-Writes s) (write_all-Writes padding) in
    record { behind = λ out. rw fits (both.behind out) }

encode_date-Writes : (d : Date) → IsDate d → Writes (encode_date d) (le 4 (date_int d))
unfolding encode_date
encode_date-Writes d h =
    let fits : date_int d % 2 ^ 32 ≡ date_int d = omega arith in
    rw fits (encode_as_bytes-Writes 4 (date_int d))

encode_symbols-Writes :
    (width : ℕ) (symbols : List Text)
    → AreSymbols width symbols
    → Writes (encode_repeated_symbol_cstr width symbols) (symbols_bytes width symbols)
unfolding encode_repeated_symbol_cstr
encode_symbols-Writes width symbols h =
    >>-Writes (encode_as_bytes 4 (length symbols)) _ (encode_as_bytes-Writes 4 (length symbols)) (
      write_each-Writes (encode_fixed_len_cstr width) (cstr_bytes width) (IsCstr width)
        (encode_cstr-Writes width) symbols h.symbols_fit)

encode_interval-Writes :
    (width : ℕ) (i : MappingInterval)
    → IsInterval width i
    → Writes (encode_interval width i) (interval_bytes width i)
unfolding encode_interval
encode_interval-Writes width i h =
    >>-Writes (encode_date i.start_date) _ (encode_date-Writes i.start_date h.start_fits) (
      >>-Writes (encode_date i.end_date) _ (encode_date-Writes i.end_date h.end_fits)
        (encode_cstr-Writes width i.symbol h.symbol_fits))

encode_mapping-Writes :
    (width : ℕ) (m : SymbolMapping)
    → IsMapping width m
    → Writes (encode_symbol_mapping width m) (mapping_bytes width m)
unfolding encode_symbol_mapping
encode_mapping-Writes width m h =
    >>-Writes (encode_fixed_len_cstr width m.raw_symbol) _
      (encode_cstr-Writes width m.raw_symbol h.raw_symbol_fits)
      (>>-Writes (encode_as_bytes 4 (length m.intervals)) _
        (encode_as_bytes-Writes 4 (length m.intervals))
        (write_each-Writes (encode_interval width) (interval_bytes width) (IsInterval width)
          (encode_interval-Writes width) m.intervals h.intervals_fit))

encode_mappings-Writes :
    (width : ℕ) (mappings : List SymbolMapping)
    → All (IsMapping width) mappings
    → Writes (encode_symbol_mappings width mappings) (mappings_bytes width mappings)
unfolding encode_symbol_mappings
encode_mappings-Writes width mappings h =
    >>-Writes (encode_as_bytes 4 (length mappings)) _ (encode_as_bytes-Writes 4 (length mappings)) (
      write_each-Writes (encode_symbol_mapping width) (mapping_bytes width) (IsMapping width)
        (encode_mapping-Writes width) mappings h)

-- A field that only some versions have.
when-Writes :
    (b : Bool) (w : Writer) (bytes : List ℕ)
    → Writes w bytes
    → Writes (if b then w else nothing) (if b then bytes else [])
when-Writes true w bytes h = h
when-Writes false w bytes h = nothing-Writes

replicate-add : (n : ℕ) → replicate (n + 4) 0 ≡ replicate n 0 ++ le 4 0
unfolding le
replicate-add zero = refl
replicate-add (suc n) =
    let shift : suc n + 4 ≡ suc (n + 4) = omega arith in
    rw shift (ap (λ t. 0 ∷ t) (replicate-add n))

padding-Writes :
    (n : ℕ) (k : Writer) {rest : List ℕ}
    → Writes k rest
    → Writes (write_all (replicate (n + 4) 0) >> k) (replicate n 0 ++ (le 4 0 ++ rest))
padding-Writes n k {rest} h =
    let split =
      ap (λ t. t ++ rest) (replicate-add n) ∙ append_assoc (replicate n 0) (le 4 0) rest in
    subst (Writes (write_all (replicate (n + 4) 0) >> k)) split
      (>>-Writes (write_all (replicate (n + 4) 0)) k (write_all-Writes (replicate (n + 4) 0)) h)

pub encode_fields-Writes :
    (version : ℕ) (m : Metadata)
    → IsEncodable m
    → Writes (encode_fields version m) (fields_bytes version m)
unfolding encode_fields fields_bytes
encode_fields-Writes version m h =
    let w = m.symbol_cstr_len in
    let int = encode_as_bytes-Writes in
    >>-Writes (encode_fixed_len_cstr dataset_cstr_len m.dataset) _
      (encode_cstr-Writes dataset_cstr_len m.dataset h.dataset_fits)
      (>>-Writes _ _ (int 2 (raw_or_null null_schema m.schema)) (
        >>-Writes _ _ (int 8 m.start) (
          >>-Writes _ _ (int 8 m.end) (
            >>-Writes _ _ (int 8 m.limit) (
              >>-Writes _ _
                (when-Writes (version == 1) (encode_as_bytes 8 null_record_count)
                  (le 8 null_record_count) (int 8 null_record_count))
                (>>-Writes _ _ (int 1 (raw_or_null null_stype m.stype_in)) (
                  >>-Writes _ _ (int 1 m.stype_out) (
                    >>-Writes _ _ (int 1 (bool_byte m.ts_out)) (
                      >>-Writes _ _
                        (when-Writes (ltb 1 version) (encode_as_bytes 2 w) (le 2 w) (int 2 w))
                        (padding-Writes (reserved_len version) _ (
                          >>-Writes (encode_repeated_symbol_cstr w m.symbols) _
                            (encode_symbols-Writes w m.symbols h.symbols_fit)
                            (>>-Writes (encode_repeated_symbol_cstr w m.partial) _
                              (encode_symbols-Writes w m.partial h.partial_fit)
                              (>>-Writes (encode_repeated_symbol_cstr w m.not_found) _
                                (encode_symbols-Writes w m.not_found h.not_found_fit)
                                (encode_mappings-Writes w m.mappings h.mappings_fit))))))))))))))
