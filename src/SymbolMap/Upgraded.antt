-- ===== src/SymbolMap/Upgraded.antt =====
-- `PitSymbolMap::OnRecord` on a mapping record of version 1 and on its upgrade.
use databento_cpp.Base.{
  ℕ, ◌+◌, ◌-◌, ◌≤◌, ◌≡◌, refl, sym, ap, ◌∙◌, arith, true, false, [], ◌∷◌, ◌++◌, inl, inr, leb, ◌==◌,
  Bool-cases, length, drop, replicate, take-append-drop, drop-append, append_assoc, length-append,
  length-slice, length-replicate,
}
use databento_cpp.Base.Results.{ok, overrun≢ok}
use databento_cpp.Metadata.{Text}
use databento_cpp.Upgrade.{Bytes, field, rtype, record_size, header, padded, segment_bytes, build}
use databento_cpp.Upgrade.Messages.{symbol_mapping_to_v2, symbol_mapping_to_v2_fields}
use databento_cpp.RType
use databento_cpp.SymbolMap.{
  PitSymbolMap, until_null, on_record, on_symbol_mapping, stype_out_symbol, instrument_id_in,
}
use databento_cpp.SymbolMap.TimeSeries.{>>=-ok}

-- What follows the null does not matter.
until_null-append :
    (xs ys : Bytes) (text : Text) → until_null xs ≡ ok text → until_null (xs ++ ys) ≡ ok text
unfolding until_null
until_null-append [] ys text e = absurd (overrun≢ok e)
until_null-append (c ∷ xs) ys text e = elim (Bool-cases (c == 0)) [
  | inl null ↦ rw null (rw null at e)
  | inr more ↦
      let (rest, e1, e2) = >>=-ok (until_null xs) (λ t. ok (c ∷ t)) text (rw more at e) in
      rw (more, until_null-append xs ys rest e1) e2
]

length-padded :
    (width n offset : ℕ) (rec : Bytes)
    → offset + n ≤ length rec
    → n ≤ width
    → length (padded width (field offset n rec)) ≡ width
length-padded width n offset rec h fits = omega (
  arith,
  length-slice offset n rec,
  length-append (field offset n rec) (replicate (width - length (field offset n rec)) 0),
  length-replicate (width - length (field offset n rec)) (let z : ℕ = 0 in z),
)

-- What stands in front of `stype_out_symbol` in the struct of version 2.
abbrev front : Bytes → Bytes
front rec =
    header 176 RType.symbol_mapping rec
    ++ ((0xff ∷ []) ++ (padded 71 (field 16 22 rec) ++ (0xff ∷ [])))

length-front : (rec : Bytes) → 80 ≤ length rec → length (front rec) ≡ 89
length-front rec h = omega (
  arith,
  length-slice 2 14 rec,
  length-append (header 176 RType.symbol_mapping rec)
      ((0xff ∷ []) ++ (padded 71 (field 16 22 rec) ++ (0xff ∷ []))),
  length-append (padded 71 (field 16 22 rec)) (0xff ∷ []),
  length-padded 71 22 16 rec,
)

-- What follows the symbol.
abbrev behind : Bytes → Bytes
behind rec =
    replicate (71 - length (field 38 22 rec)) 0 ++ (field 64 8 rec ++ (field 72 8 rec ++ []))

symbol_mapping_to_v2-parts :
    (rec : Bytes) → symbol_mapping_to_v2 rec ≡ front rec ++ (field 38 22 rec ++ behind rec)
unfolding symbol_mapping_to_v2 symbol_mapping_to_v2_fields build segment_bytes
symbol_mapping_to_v2-parts rec =
    let h = field 2 14 rec in
    let p = padded 71 (field 16 22 rec) in
    let f = field 38 22 rec in
    let zeros = replicate (71 - length f) 0 in
    let rest = field 64 8 rec ++ (field 72 8 rec ++ []) in
    let next : Bytes = f ++ (zeros ++ rest) in
    ap (λ u. 44 ∷ RType.symbol_mapping ∷ (h ++ (0xff ∷ (p ++ (0xff ∷ u)))))
      (append_assoc f zeros rest)
    ∙ sym (
        ap (λ u. 44 ∷ RType.symbol_mapping ∷ u)
          (append_assoc h (0xff ∷ (p ++ (0xff ∷ []))) next
            ∙ ap (λ u. h ++ (0xff ∷ u)) (append_assoc p (0xff ∷ []) next)))

instrument_id-upgraded :
    (rec : Bytes)
    → 80 ≤ length rec
    → instrument_id_in (symbol_mapping_to_v2 rec) ≡ instrument_id_in rec
unfolding symbol_mapping_to_v2
instrument_id-upgraded (_ ∷ _ ∷ a ∷ b ∷ c ∷ d ∷ e ∷ f ∷ g ∷ h ∷ i ∷ j ∷ k ∷ l ∷ m ∷ n ∷ rec) long =
    refl
instrument_id-upgraded _ long = absurd (omega arith)

-- The symbol of a record of version 1.
symbol_v1 :
    (rec : Bytes) (text : Text)
    → record_size rec ≡ 80
    → until_null (field 38 22 rec) ≡ ok text
    → stype_out_symbol rec ≡ ok text
unfolding stype_out_symbol
symbol_v1 rec text size e =
    let old : leb 176 (record_size rec) ≡ false = ground arith in
    rw (old, sym (take-append-drop 22 (drop 38 rec)))
      (until_null-append (field 38 22 rec) (drop 22 (drop 38 rec)) text e)

size_v2 : (rec : Bytes) → record_size (symbol_mapping_to_v2 rec) ≡ 176
unfolding symbol_mapping_to_v2
size_v2 rec = refl

-- The symbol of its upgrade.
symbol_v2 :
    (rec : Bytes) (text : Text)
    → 80 ≤ length rec
    → until_null (field 38 22 rec) ≡ ok text
    → stype_out_symbol (symbol_mapping_to_v2 rec) ≡ ok text
unfolding stype_out_symbol
symbol_v2 rec text long e =
    let next : Bytes = field 38 22 rec ++ behind rec in
    let size : record_size (symbol_mapping_to_v2 rec) ≡ 176 = size_v2 rec in
    let new : leb 176 (record_size (symbol_mapping_to_v2 rec)) ≡ true = ground arith in
    rw new (
      ap (λ r. until_null (drop 89 r)) (symbol_mapping_to_v2-parts rec)
      ∙ ap until_null (drop-append 89 (front rec) next (length-front rec long))
      ∙ until_null-append (field 38 22 rec) (behind rec) text e)

kind_v2 : (rec : Bytes) → rtype (symbol_mapping_to_v2 rec) ≡ RType.symbol_mapping
unfolding symbol_mapping_to_v2
kind_v2 rec = refl

-- A mapping record of version 1, whose memory holds the struct and which has a null within its symbol,
-- and its upgrade to version 2 do the same to a `PitSymbolMap`: the instrument gets the symbol.
pub on_record-symbol_mapping_to_v2 :
    (rec : Bytes) (text : Text) (map : PitSymbolMap)
    → 80 ≤ length rec
    → record_size rec ≡ 80
    → rtype rec ≡ RType.symbol_mapping
    → until_null (field 38 22 rec) ≡ ok text
    → (on_record rec map ≡ ok (on_symbol_mapping (instrument_id_in rec) text map))
      × (on_record (symbol_mapping_to_v2 rec) map ≡ on_record rec map)
unfolding on_record
on_record-symbol_mapping_to_v2 rec text map long size kind e =
    let is_mapping : (rtype rec == RType.symbol_mapping) ≡ true = ground arith in
    let is_mapping' : (rtype (symbol_mapping_to_v2 rec) == RType.symbol_mapping) ≡ true =
      ap (λ k. k == RType.symbol_mapping) (kind_v2 rec) in
    let v1 = symbol_v1 rec text size e in
    let v2 = symbol_v2 rec text long e in
    (
      rw (is_mapping, v1) refl,
      rw (is_mapping, is_mapping', v1, v2, instrument_id-upgraded rec long) refl,
    )
