-- ===== src/SymbolMap/Live.antt =====
-- `PitSymbolMap::OnRecord` over the records of a live session.
use databento_cpp.Base.{
  ℕ, ◌≡◌, refl, sym, ap, ◌∙◌, arith, Bool, true, false, Option, none, some, List, [], ◌∷◌, inl, inr,
  ◌==◌, if◌then◌else◌, Bool-cases, All,
}
use databento_cpp.Base.Results.{Result, ok}
use databento_cpp.Metadata.{Text}
use databento_cpp.Upgrade.{Bytes, rtype}
use databento_cpp.RType
use databento_cpp.Base.Maps.{assign}
use databento_cpp.SymbolMap.{
  PitSymbolMap, pit_find, set_or_emplace, for_each, on_symbol_mapping, on_record, stype_out_symbol,
  instrument_id_in,
}
use databento_cpp.SymbolMap.Tables.{
  or_else, or_else-none, or_else_assoc, when, find-emplace, find-assign_same, find-assign_other,
}
use databento_cpp.SymbolMap.Days.{==-IsEquality}

set_or_emplace_lem :
    (o : Option Text) (iid instrument_id : ℕ) (symbol : Text) (map : PitSymbolMap)
    → pit_find iid map ≡ o
    → pit_find instrument_id (set_or_emplace o iid symbol map)
      ≡ or_else (when (iid == instrument_id) symbol) (pit_find instrument_id map)
set_or_emplace_lem none iid instrument_id symbol map e = elim (Bool-cases (iid == instrument_id)) [
  | inl this ↦
      let same : iid ≡ instrument_id = ground arith in
      find-emplace ◌==◌ ==-IsEquality instrument_id iid symbol map
      ∙ rw (this, ap (λ i. pit_find i map) (sym same) ∙ e) refl
  | inr other ↦
      find-emplace ◌==◌ ==-IsEquality instrument_id iid symbol map ∙ rw other (or_else-none _)
]
set_or_emplace_lem (some old) iid instrument_id symbol map e =
    elim (Bool-cases (iid == instrument_id)) [
      | inl this ↦
          let same : iid ≡ instrument_id = ground arith in
          ap (λ i. pit_find i (assign ◌==◌ iid symbol map)) (sym same)
          ∙ find-assign_same ◌==◌ ==-IsEquality iid symbol old map e
          ∙ rw this refl
      | inr other ↦
          find-assign_other ◌==◌ ==-IsEquality instrument_id iid symbol map other ∙ rw other refl
    ]

-- What the mapping record of an instrument says.
abbrev text_or_none : Result Text → Option Text
text_or_none (ok text) = some text
text_or_none _ = none

abbrev pub said : Bytes → ℕ → Option Text
said rec instrument_id =
    if rtype rec == RType.symbol_mapping
    then if instrument_id_in rec == instrument_id then text_or_none (stype_out_symbol rec) else none
    else none

-- The last mapping of an instrument.
abbrev pub last_said : List Bytes → ℕ → Option Text
last_said [] instrument_id = none
last_said (rec ∷ recs) instrument_id =
    or_else (last_said recs instrument_id) (said rec instrument_id)

-- A mapping record has a null behind its symbol.
abbrev pub HasSymbol : Bytes → Type 0
HasSymbol rec =
    (rtype rec == RType.symbol_mapping) ≡ true → (text : Text) × (stype_out_symbol rec ≡ ok text)

on_record_lem :
    (rec : Bytes) (map : PitSymbolMap)
    → HasSymbol rec
    → (map' : PitSymbolMap) × (on_record rec map ≡ ok map')
      × ((instrument_id : ℕ)
          → pit_find instrument_id map'
            ≡ or_else (said rec instrument_id) (pit_find instrument_id map))
unfolding on_record on_symbol_mapping
on_record_lem rec map h = elim (Bool-cases (rtype rec == RType.symbol_mapping)) [
  | inl e ↦
      let (text, symbol) = h e in
      let iid = instrument_id_in rec in
      (
        set_or_emplace (pit_find iid map) iid text map,
        rw (e, symbol) refl,
        λ instrument_id.
            set_or_emplace_lem (pit_find iid map) iid instrument_id text map refl
            ∙ ap (λ o. or_else o (pit_find instrument_id map))
                (rw (e, symbol) (when-if (iid == instrument_id) text)),
      )
  | inr e ↦ (map, rw e refl, λ instrument_id. rw e refl)
]
  where
    when-if : (b : Bool) (v : Text) → when b v ≡ (if b then some v else none)
    when-if true v = refl
    when-if false v = refl

-- `OnRecord` on one record after the other, where each mapping record has a null behind its symbol: it
-- returns, and the map holds for each instrument the symbol of its last mapping record, or where there
-- is none what it held before.
pub on_records_lem :
    (recs : List Bytes) (map : PitSymbolMap)
    → All HasSymbol recs
    → (map' : PitSymbolMap) × (for_each on_record recs map ≡ ok map')
      × ((instrument_id : ℕ)
          → pit_find instrument_id map'
            ≡ or_else (last_said recs instrument_id) (pit_find instrument_id map))
unfolding for_each
on_records_lem [] map h = (map, refl, λ instrument_id. refl)
on_records_lem (rec ∷ recs) map (h, hs) =
    let (map1, e1, f1) = on_record_lem rec map h in
    let (map2, e2, f2) = on_records_lem recs map1 hs in
    (
      map2,
      rw e1 e2,
      λ instrument_id.
          f2 instrument_id
          ∙ ap (or_else (last_said recs instrument_id)) (f1 instrument_id)
          ∙ sym (
              or_else_assoc (last_said recs instrument_id) (said rec instrument_id)
                (pit_find instrument_id map)),
    )
