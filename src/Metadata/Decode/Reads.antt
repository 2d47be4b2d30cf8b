-- ===== src/Metadata/Decode/Reads.antt =====
-- The decoder reads the bytes of the format.
use databento_cpp.Base.{
  ℕ, ◌+◌, ◌-◌, ◌*◌, ◌^◌, ◌<◌, ◌≡◌, arith, Option, some, List, [], ◌∷◌, ◌++◌, length, replicate,
  concat_map, le, All, IsCstr, until_null, until_null-padded, length-append, length-replicate,
  length-le, append-nil,
}
use mathlib.Core.Path.{subst}
use databento_cpp.Base.Results.{symbol_end, mappings_end, mapping_end, interval_count_mismatch}
use databento_cpp.Base.Parser.{◌>>◌, consume, consume_int, require, times}
use databento_cpp.Base.Parser.{
  Reads, consume-Reads, consume_int-Reads, require-Reads, times-Reads, >>=-Reads, ret-Reads,
}
use databento_cpp.Metadata.{SymbolMapping, MappingInterval, Date, Text}
use databento_cpp.Metadata.Decode.{
  finish_cstr, consume_cstr, decode_iso8601_date, decode_symbol, decode_repeated_symbol,
  decode_interval, decode_symbol_mapping, decode_symbol_mappings,
}
use databento_cpp.Metadata.Format.{
  cstr_bytes, date_int, symbols_bytes, interval_bytes, mapping_bytes, mappings_bytes, IsDate,
  IsInterval, IsMapping, AreSymbols,
}

pub length-cstr_bytes :
    (width : ℕ) (s : Text) → IsCstr width s → length (cstr_bytes width s) ≡ width
length-cstr_bytes width s h = omega (
  arith,
  length-append s (replicate (width - length s) 0),
  length-replicate (width - length s) (let z : ℕ = 0 in z),
  h.short,
)

finish_cstr-Reads : (o : Option Text) (s : Text) → o ≡ some s → Reads (finish_cstr o) [] s
unfolding finish_cstr
finish_cstr-Reads o s e = record { before = λ rest. rw e }

pub consume_cstr-Reads :
    (width : ℕ) (s : Text) → IsCstr width s → Reads (consume_cstr width) (cstr_bytes width s) s
unfolding consume_cstr
consume_cstr-Reads width s h =
    let field = consume-Reads width (cstr_bytes width s) (length-cstr_bytes width s h) in
    let stop =
      finish_cstr-Reads (until_null (cstr_bytes width s)) s (until_null-padded width s h) in
    rw (append-nil (cstr_bytes width s)) at
      (>>=-Reads (consume width) (λ cstr. finish_cstr (until_null cstr)) field stop)

decode_symbol-Reads :
    (width : ℕ) (s : Text) → IsCstr width s → Reads (decode_symbol width) (cstr_bytes width s) s
unfolding decode_symbol
decode_symbol-Reads = consume_cstr-Reads

pub length-concat_map {ℓ} :
    {A : Type ℓ} (encode : A → List ℕ) (width : ℕ) (P : A → Type 0)
    → ((a : A) → P a → length (encode a) ≡ width)
    → (xs : List A) → All P xs
    → length (concat_map encode xs) ≡ length xs * width
length-concat_map encode width P h [] hs = omega arith
length-concat_map encode width P h (x ∷ xs) (hx, hs) = omega (
  arith,
  length-append (encode x) (concat_map encode xs),
  h x hx,
  length-concat_map encode width P h xs hs,
)

decode_iso8601_date_int : (d : Date) → IsDate d → decode_iso8601_date (date_int d) ≡ d
unfolding decode_iso8601_date
decode_iso8601_date_int d h = ground arith

pub decode_repeated_symbol-Reads :
    (width : ℕ) (symbols : List Text)
    → AreSymbols width symbols
    → Reads (decode_repeated_symbol width) (symbols_bytes width symbols) symbols
unfolding decode_repeated_symbol
decode_repeated_symbol-Reads width symbols h =
    let items = concat_map (cstr_bytes width) symbols in
    let n = length symbols in
    let size =
      length-concat_map (cstr_bytes width) width (IsCstr width) (length-cstr_bytes width) symbols
        h.symbols_fit in
    let loop =
      times-Reads (decode_symbol width) (cstr_bytes width) (IsCstr width)
        (decode_symbol-Reads width) symbols h.symbols_fit in
    require-Reads 4 symbol_end _ (omega (arith, length-append (le 4 n) items, length-le 4 n)) (
      >>=-Reads (consume_int 4)
        (λ count. require (count * width) symbol_end >> times count (decode_symbol width))
        (consume_int-Reads 4 n h.count_fits)
        (require-Reads (n * width) symbol_end (times n (decode_symbol width)) (omega arith) loop))

pub length-interval_bytes :
    (width : ℕ) (i : MappingInterval)
    → IsInterval width i
    → length (interval_bytes width i) ≡ 4 * 2 + width
length-interval_bytes width i h = omega (
  arith,
  length-append (le 4 (date_int i.start_date))
      (le 4 (date_int i.end_date) ++ cstr_bytes width i.symbol),
  length-append (le 4 (date_int i.end_date)) (cstr_bytes width i.symbol),
  length-le 4 (date_int i.start_date),
  length-le 4 (date_int i.end_date),
  length-cstr_bytes width i.symbol h.symbol_fits,
)

date_int_fits : (d : Date) → IsDate d → date_int d < 256 ^ 4
date_int_fits d h = omega arith

interval_back :
    {width : ℕ} (i : MappingInterval)
    → IsInterval width i
    → record i {
      start_date = decode_iso8601_date (date_int i.start_date);
      end_date = decode_iso8601_date (date_int i.end_date);
    }
      ≡ i
interval_back i h = λ j. record {
  start_date = decode_iso8601_date_int i.start_date h.start_fits j;
  end_date = decode_iso8601_date_int i.end_date h.end_fits j;
  symbol = i.symbol;
}

decode_interval-Reads :
    (width : ℕ) (i : MappingInterval)
    → IsInterval width i
    → Reads (decode_interval width) (interval_bytes width i) i
unfolding decode_interval
decode_interval-Reads width i h =
    subst (Reads (decode_interval width) (interval_bytes width i)) (interval_back i h) (
      >>=-Reads (consume_int 4) _
        (consume_int-Reads 4 (date_int i.start_date) (date_int_fits i.start_date h.start_fits))
        (>>=-Reads (consume_int 4) _
          (consume_int-Reads 4 (date_int i.end_date) (date_int_fits i.end_date h.end_fits))
          (ret-Reads (decode_symbol width) _ (decode_symbol-Reads width i.symbol h.symbol_fits))))

decode_symbol_mapping-Reads :
    (width : ℕ) (m : SymbolMapping)
    → IsMapping width m
    → Reads (decode_symbol_mapping width) (mapping_bytes width m) m
unfolding decode_symbol_mapping
decode_symbol_mapping-Reads width m h =
    let items = concat_map (interval_bytes width) m.intervals in
    let n = length m.intervals in
    let size =
      length-concat_map (interval_bytes width) (4 * 2 + width) (IsInterval width)
        (length-interval_bytes width) m.intervals h.intervals_fit in
    let loop =
      times-Reads (decode_interval width) (interval_bytes width) (IsInterval width)
        (decode_interval-Reads width) m.intervals h.intervals_fit in
    require-Reads (width + 4) mapping_end _
      (omega (
        arith,
        length-append (cstr_bytes width m.raw_symbol) (le 4 n ++ items),
        length-append (le 4 n) items,
        length-cstr_bytes width m.raw_symbol h.raw_symbol_fits,
        length-le 4 n,
      ))
      (>>=-Reads (decode_symbol width) _ (decode_symbol-Reads width m.raw_symbol h.raw_symbol_fits)
        (>>=-Reads (consume_int 4) _ (consume_int-Reads 4 n h.count_fits) (
          require-Reads (n * (4 * 2 + width)) interval_count_mismatch _ (omega arith) (
            ret-Reads (times n (decode_interval width))
              (λ intervals. record { raw_symbol = m.raw_symbol; intervals = intervals }) loop))))

pub decode_symbol_mappings-Reads :
    (width : ℕ) (mappings : List SymbolMapping)
    → length mappings < 256 ^ 4
    → All (IsMapping width) mappings
    → Reads (decode_symbol_mappings width) (mappings_bytes width mappings) mappings
unfolding decode_symbol_mappings
decode_symbol_mappings-Reads width mappings h hs =
    let items = concat_map (mapping_bytes width) mappings in
    let n = length mappings in
    let loop =
      times-Reads (decode_symbol_mapping width) (mapping_bytes width) (IsMapping width)
        (decode_symbol_mapping-Reads width) mappings hs in
    require-Reads 4 mappings_end _ (omega (arith, length-append (le 4 n) items, length-le 4 n)) (
      >>=-Reads (consume_int 4) (λ count. times count (decode_symbol_mapping width))
        (consume_int-Reads 4 n h) loop)
