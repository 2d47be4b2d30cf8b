-- ===== src/SymbolMap/Agree.antt =====
-- `PitSymbolMap` and `TsSymbolMap` of the same metadata agree.
use databento_cpp.Base.{
  ℕ, ◌≡◌, refl, sym, ap, ◌∙◌, Bool, true, false, Option, none, some, List, [], ◌∷◌, inl, inr, ◌==◌,
  if◌then◌else◌, Bool-cases, All,
}
use databento_cpp.Base.Results.{Result, ok, ok-inj}
use databento_cpp.Metadata.{Metadata, Date, Text, MappingInterval, SymbolMapping}
use databento_cpp.Base.Maps.{find, emplace}
use databento_cpp.SymbolMap.{
  Calendar, TsSymbolMap, PitSymbolMap, for_each, instrument_id_of, is_inverse, is_empty,
  inverse_mapping, forward_mapping, ts_symbol_map, ts_find, pit_find, holds, find_interval,
  pit_with, pit_mapping, outside, pit_symbol_map,
}
use databento_cpp.SymbolMap.Tables.{or_else, or_else-none, find-emplace}
use databento_cpp.SymbolMap.Days.{IsDay, ==-IsEquality}
use databento_cpp.SymbolMap.TimeSeries.{first_of, of_mapping, MappingHasDays, ts_symbol_map_lem}
use databento_cpp.SymbolMap.PointInTime.{
  for_each-All, for_each_returns, IntervalHasId, HasId, mapping-HasId, of_found, MappingAtMostOne,
  first_of-find_interval,
}

-- The instrument ID of what was found.
abbrev FoundHasId : Bool → Text → Option MappingInterval → Type 0
FoundHasId inverse raw_symbol none = Unit
FoundHasId true raw_symbol (some interval) = (iid : ℕ) × (instrument_id_of raw_symbol ≡ ok iid)
FoundHasId false raw_symbol (some interval) = IntervalHasId interval

module _ (calendar : Calendar) where
  open calendar use {sys_days}

  find_interval-All :
      (date : Date) (raw_symbol : Text) (intervals : List MappingInterval)
      → All IntervalHasId intervals
      → FoundHasId false raw_symbol (find_interval calendar date intervals)
  unfolding find_interval
  find_interval-All date raw_symbol [] h = tt
  find_interval-All date raw_symbol (i ∷ intervals) (h, hs) =
      elim (Bool-cases (holds calendar date i)) [
        | inl e ↦ rw e h
        | inr e ↦ rw e (find_interval-All date raw_symbol intervals hs)
      ]

  of_known :
      (raw_symbol : Text) (o : Option MappingInterval)
      → (iid : ℕ) × (instrument_id_of raw_symbol ≡ ok iid)
      → FoundHasId true raw_symbol o
  of_known raw_symbol none h = tt
  of_known raw_symbol (some i) h = h

  HasId-found :
      (inverse : Bool) (date : Date) (mapping : SymbolMapping)
      → HasId inverse mapping
      → FoundHasId inverse mapping.raw_symbol (find_interval calendar date mapping.intervals)
  HasId-found true date mapping h =
      of_known mapping.raw_symbol (find_interval calendar date mapping.intervals) h
  HasId-found false date mapping h = find_interval-All date mapping.raw_symbol mapping.intervals h

  -- The body of the loop adds what was found.
  Adds : ℕ → Result PitSymbolMap → Option Text → PitSymbolMap → Type 0
  Adds instrument_id result found map =
      (map' : PitSymbolMap) × (result ≡ ok map')
      × (pit_find instrument_id map' ≡ or_else (pit_find instrument_id map) found)

  pit_with-Adds :
      (inverse : Bool) (instrument_id : ℕ) (raw_symbol : Text) (o : Option MappingInterval)
      (map : PitSymbolMap)
      → FoundHasId inverse raw_symbol o
      → Adds instrument_id
          (pit_with inverse raw_symbol o map)
          (of_found inverse instrument_id raw_symbol o)
          map
  unfolding Adds
  pit_with-Adds inverse instrument_id raw_symbol none map h =
      (map, refl, sym (or_else-none (pit_find instrument_id map)))
  pit_with-Adds true instrument_id raw_symbol (some i) map (iid, id) =
      elim (Bool-cases (is_empty i.symbol)) [
        | inl e ↦ (map, rw e refl, rw e (sym (or_else-none (pit_find instrument_id map))))
        | inr e ↦ (
          emplace ◌==◌ iid i.symbol map,
          rw (e, id) refl,
          find-emplace ◌==◌ ==-IsEquality instrument_id iid i.symbol map ∙ rw (e, id) refl,
        )
      ]
  pit_with-Adds false instrument_id raw_symbol (some i) map (inl e) =
      (map, rw e refl, rw e (sym (or_else-none (pit_find instrument_id map))))
  pit_with-Adds false instrument_id raw_symbol (some i) map (inr (iid, id)) =
      elim (Bool-cases (is_empty i.symbol)) [
        | inl e ↦ (map, rw e refl, rw e (sym (or_else-none (pit_find instrument_id map))))
        | inr e ↦ (
          emplace ◌==◌ iid raw_symbol map,
          rw (e, id) refl,
          find-emplace ◌==◌ ==-IsEquality instrument_id iid raw_symbol map ∙ rw (e, id) refl,
        )
      ]

  -- What the constructor of `PitSymbolMap` finds in a mapping.
  abbrev found_in : Date → Bool → ℕ → SymbolMapping → Option Text
  found_in date inverse instrument_id mapping =
      of_found inverse instrument_id mapping.raw_symbol
        (find_interval calendar date mapping.intervals)

  found_in-of_mapping :
      (date : Date) (inverse : Bool) (instrument_id : ℕ) (mappings : List SymbolMapping)
      → IsDay calendar date
      → All (MappingHasDays calendar) mappings
      → All (MappingAtMostOne calendar date) mappings
      → first_of (found_in date inverse instrument_id) mappings
        ≡ first_of (of_mapping calendar inverse (sys_days date) instrument_id) mappings
  found_in-of_mapping date inverse instrument_id [] is_day h once = refl
  found_in-of_mapping date inverse instrument_id (mapping ∷ mappings) is_day (h, hs) (one, once) =
      let first =
        first_of-find_interval calendar date inverse instrument_id mapping.raw_symbol
          mapping.intervals is_day h one in
      let later = found_in-of_mapping date inverse instrument_id mappings is_day hs once in
      ap (λ o. or_else o (first_of (found_in date inverse instrument_id) mappings)) (sym first)
      ∙ ap (or_else (of_mapping calendar inverse (sys_days date) instrument_id mapping)) later

  pit_loop :
      (date : Date) (inverse : Bool) (instrument_id : ℕ) (mappings : List SymbolMapping)
      → All (HasId inverse) mappings
      → Adds instrument_id
          (for_each (pit_mapping calendar date inverse) mappings [])
          (first_of (found_in date inverse instrument_id) mappings)
          []
  unfolding Adds
  pit_loop date inverse instrument_id mappings ids =
      for_each_returns (pit_mapping calendar date inverse) (pit_find instrument_id)
        (found_in date inverse instrument_id) (HasId inverse)
        (λ mapping map h.
          pit_with-Adds inverse instrument_id mapping.raw_symbol
            (find_interval calendar date mapping.intervals) map
            (HasId-found inverse date mapping h))
        mappings [] ids

  -- Metadata from which a `TsSymbolMap` can be made, where the dates are days of the calendar and at most
  -- one interval of each mapping covers the date: a `PitSymbolMap` can be made for each date in the range
  -- of the query, and it holds for each instrument the symbol that the `TsSymbolMap` holds on this date.
  pub pit_symbol_map-ts_symbol_map :
      (m : Metadata) (inverse : Bool) (ts : TsSymbolMap) (date : Date)
      → IsDay calendar date
      → All (MappingHasDays calendar) m.mappings
      → All (MappingAtMostOne calendar date) m.mappings
      → is_inverse m ≡ ok inverse
      → ts_symbol_map calendar m ≡ ok ts
      → outside calendar m date ≡ false
      → (pit : PitSymbolMap) × (pit_symbol_map calendar m date ≡ ok pit)
        × ((instrument_id : ℕ)
            → pit_find instrument_id pit ≡ ts_find calendar date instrument_id ts)
  unfolding pit_symbol_map ts_symbol_map Adds find
  pit_symbol_map-ts_symbol_map m inverse ts date is_day days once known made inside =
      let ids =
        for_each-All (HasId inverse)
          (if inverse then inverse_mapping calendar else forward_mapping calendar)
          (mapping-HasId calendar inverse) m.mappings [] ts (rw known at made) in
      let (pit, returns, _) = pit_loop date inverse 0 m.mappings ids in
      (
        pit,
        rw (inside, known) returns,
        λ instrument_id.
            let (pit', returns', finds) = pit_loop date inverse instrument_id m.mappings ids in
            ap (pit_find instrument_id) (ok-inj (sym returns ∙ returns'))
            ∙ finds
            ∙ found_in-of_mapping date inverse instrument_id m.mappings is_day days once
            ∙ sym (
                ts_symbol_map_lem calendar m inverse ts (sys_days date) instrument_id days known
                  made)
            ∙ ap (λ d. ts_find calendar d instrument_id ts) is_day,
      )
