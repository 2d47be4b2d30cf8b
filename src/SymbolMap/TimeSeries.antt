-- ===== src/SymbolMap/TimeSeries.antt =====
-- `TsSymbolMap::TsSymbolMap(metadata)` against the first interval that covers a day.
use databento_cpp.Base.{
  ℕ, ◌≡◌, refl, sym, ap, ◌∙◌, Bool, true, false, not, ◌&&◌, Option, none, List, [], ◌∷◌, inl, inr,
  ltb, leb, ◌==◌, if◌then◌else◌, Bool-cases, All,
}
use databento_cpp.Base.Results.{Result, ok, err, overrun, ◌>>=◌, ok-inj, err≢ok, overrun≢ok}
use databento_cpp.Metadata.{Metadata, Text, MappingInterval, SymbolMapping}
use databento_cpp.Base.Maps.{find}
use databento_cpp.SymbolMap.{
  Calendar, TsSymbolMap, insert, for_each, instrument_id_of, is_inverse, is_empty, inverse_interval,
  inverse_mapping, forward_interval, forward_mapping, ts_symbol_map,
}
use databento_cpp.SymbolMap.Tables.{or_else, or_else-none, or_else_assoc, when}
use databento_cpp.SymbolMap.Days.{on_day, IsDay, insert_lem}

-- The first of the list that gives something.
abbrev pub first_of : {A V : Type 0} → (A → Option V) → List A → Option V
first_of found [] = none
first_of found (a ∷ list) = or_else (found a) (first_of found list)

-- What a bind that returned has returned.
pub >>=-ok :
    {A B : Type 0} (r : Result A) (f : A → Result B) (b : B)
    → (r >>= f) ≡ ok b
    → (a : A) × (r ≡ ok a) × (f a ≡ ok b)
>>=-ok (ok a) f b e = (a, refl, e)
>>=-ok (err x) f b e = absurd (err≢ok e)
>>=-ok overrun f b e = absurd (overrun≢ok e)

module _ {A S V : Type 0} (body : A → S → Result S) (look : S → Option V) (found : A → Option V)
    (P : A → Type 0)
    (step : (a : A) (s s' : S)
      → P a
      → body a s ≡ ok s'
      → look s' ≡ or_else (look s) (found a)) where
  -- A loop whose body adds what it finds, where nothing was found before.
  pub for_each_lem :
      (list : List A) (s s' : S)
      → All P list
      → for_each body list s ≡ ok s'
      → look s' ≡ or_else (look s) (first_of found list)
  unfolding for_each
  for_each_lem [] s s' h e = ap look (sym (ok-inj e)) ∙ sym (or_else-none (look s))
  for_each_lem (a ∷ list) s s' (h, hs) e =
      let (s1, e1, e2) = >>=-ok (body a s) (for_each body list) s' e in
      for_each_lem list s1 s' hs e2
      ∙ ap (λ o. or_else o (first_of found list)) (step a s s1 h e1)
      ∙ or_else_assoc (look s) (found a) (first_of found list)

-- Whether a text is read as an instrument ID.
abbrev is_id : Result ℕ → ℕ → Bool
is_id (ok iid) instrument_id = iid == instrument_id
is_id _ instrument_id = false

abbrev pub names_id : Text → ℕ → Bool
names_id text instrument_id = is_id (instrument_id_of text) instrument_id

module _ (calendar : Calendar) where
  open calendar use {sys_days}

  abbrev pub in_interval : ℕ → MappingInterval → Bool
  in_interval day interval =
      leb (sys_days interval.start_date) day && ltb day (sys_days interval.end_date)

  -- The symbol that an interval gives to an instrument on a day.
  abbrev pub of_interval : Bool → ℕ → ℕ → Text → MappingInterval → Option Text
  of_interval true day instrument_id raw_symbol interval =
      when
        (not (is_empty interval.symbol)
          && (names_id raw_symbol instrument_id && in_interval day interval))
        interval.symbol
  of_interval false day instrument_id raw_symbol interval =
      when
        (not (is_empty interval.symbol)
          && (names_id interval.symbol instrument_id && in_interval day interval))
        raw_symbol

  abbrev pub of_mapping : Bool → ℕ → ℕ → SymbolMapping → Option Text
  of_mapping inverse day instrument_id mapping =
      first_of (of_interval inverse day instrument_id mapping.raw_symbol) mapping.intervals

  -- The dates of an interval are days of the calendar.
  pub record HasDays (interval : MappingInterval) : Type 0 where
    pub start_is_day : IsDay calendar interval.start_date
    pub end_is_day : IsDay calendar interval.end_date

  abbrev pub MappingHasDays : SymbolMapping → Type 0
  MappingHasDays mapping = All HasDays mapping.intervals

  inverse_interval_lem :
      (day instrument_id iid : ℕ) (raw_symbol : Text) (interval : MappingInterval)
      (map map' : TsSymbolMap)
      → instrument_id_of raw_symbol ≡ ok iid
      → HasDays interval
      → inverse_interval calendar iid interval map ≡ ok map'
      → on_day calendar day instrument_id map'
        ≡ or_else
            (on_day calendar day instrument_id map)
            (of_interval true day instrument_id raw_symbol interval)
  inverse_interval_lem day instrument_id iid raw_symbol interval map map' id h e =
      let old = on_day calendar day instrument_id map in
      elim (Bool-cases (is_empty interval.symbol)) [
        | inl empty ↦
            ap (on_day calendar day instrument_id) (sym (ok-inj (rw empty at e)))
            ∙ sym (or_else-none old)
            ∙ rw empty refl
        | inr some_symbol ↦
            insert_lem calendar iid interval.start_date interval.end_date interval.symbol map map'
              day instrument_id h.start_is_day h.end_is_day (rw some_symbol at e)
            ∙ rw (some_symbol, id) refl
      ]

  forward_interval_lem :
      (day instrument_id : ℕ) (raw_symbol : Text) (interval : MappingInterval)
      (map map' : TsSymbolMap)
      → HasDays interval
      → forward_interval calendar raw_symbol interval map ≡ ok map'
      → on_day calendar day instrument_id map'
        ≡ or_else
            (on_day calendar day instrument_id map)
            (of_interval false day instrument_id raw_symbol interval)
  forward_interval_lem day instrument_id raw_symbol interval map map' h e =
      let old = on_day calendar day instrument_id map in
      elim (Bool-cases (is_empty interval.symbol)) [
        | inl empty ↦
            ap (on_day calendar day instrument_id) (sym (ok-inj (rw empty at e)))
            ∙ sym (or_else-none old)
            ∙ rw empty refl
        | inr some_symbol ↦
            let (iid, id, e') =
              >>=-ok (instrument_id_of interval.symbol)
                (λ iid. insert calendar iid interval.start_date interval.end_date raw_symbol map)
                map' (rw some_symbol at e) in
            insert_lem calendar iid interval.start_date interval.end_date raw_symbol map map' day
              instrument_id h.start_is_day h.end_is_day e'
            ∙ rw (some_symbol, id) refl
      ]

  mapping_lem :
      (inverse : Bool) (day instrument_id : ℕ) (mapping : SymbolMapping) (map map' : TsSymbolMap)
      → MappingHasDays mapping
      → (if inverse then inverse_mapping calendar else forward_mapping calendar) mapping map
        ≡ ok map'
      → on_day calendar day instrument_id map'
        ≡ or_else
            (on_day calendar day instrument_id map)
            (of_mapping inverse day instrument_id mapping)
  mapping_lem true day instrument_id mapping map map' h e =
      let raw = mapping.raw_symbol in
      let (iid, id, e') =
        >>=-ok (instrument_id_of raw)
          (λ iid. for_each (inverse_interval calendar iid) mapping.intervals map) map' e in
      for_each_lem (inverse_interval calendar iid) (on_day calendar day instrument_id)
        (of_interval true day instrument_id raw) HasDays
        (λ i s s' p q. inverse_interval_lem day instrument_id iid raw i s s' id p q)
        mapping.intervals map map' h e'
  mapping_lem false day instrument_id mapping map map' h e =
      let raw = mapping.raw_symbol in
      for_each_lem (forward_interval calendar raw) (on_day calendar day instrument_id)
        (of_interval false day instrument_id raw) HasDays
        (λ i s s' p q. forward_interval_lem day instrument_id raw i s s' p q) mapping.intervals map
        map' h e

  -- The symbol that metadata give to an instrument on a day.
  abbrev pub of_metadata : Bool → ℕ → ℕ → Metadata → Option Text
  of_metadata inverse day instrument_id m =
      first_of (of_mapping inverse day instrument_id) m.mappings

  -- The constructor of `TsSymbolMap`, where it does not throw and the dates of the intervals are days of
  -- the calendar: the map holds for a day and an instrument the symbol of the first interval, in the
  -- order of the mappings, that is for this instrument, has a symbol and covers the day, and none where
  -- there is no such interval.
  pub ts_symbol_map_lem :
      (m : Metadata) (inverse : Bool) (map : TsSymbolMap) (day instrument_id : ℕ)
      → All MappingHasDays m.mappings
      → is_inverse m ≡ ok inverse
      → ts_symbol_map calendar m ≡ ok map
      → on_day calendar day instrument_id map ≡ of_metadata inverse day instrument_id m
  unfolding ts_symbol_map find
  ts_symbol_map_lem m inverse map day instrument_id h known e =
      for_each_lem (if inverse then inverse_mapping calendar else forward_mapping calendar)
        (on_day calendar day instrument_id) (of_mapping inverse day instrument_id) MappingHasDays
        (λ a s s' p q. mapping_lem inverse day instrument_id a s s' p q) m.mappings [] map h
        (rw known at e)
