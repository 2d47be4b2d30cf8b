-- ===== src/SymbolMap/PointInTime.antt =====
-- `PitSymbolMap::PitSymbolMap(metadata, date)` against `TsSymbolMap` on the same day.
use databento_cpp.Base.{
  ℕ, ◌≡◌, refl, sym, ap, ◌∙◌, arith, Bool, true, false, not, ◌&&◌, Option, none, some, List, [],
  ◌∷◌, ◌⊎◌, inl, inr, if◌then◌else◌, Bool-cases, All,
}
use databento_cpp.Base.Results.{Result, ok}
use databento_cpp.Metadata.{Date, Text, MappingInterval, SymbolMapping}
use databento_cpp.SymbolMap.{
  Calendar, TsSymbolMap, for_each, instrument_id_of, is_empty, inverse_mapping, inverse_interval,
  forward_mapping, forward_interval, insert, holds, find_interval,
}
use databento_cpp.SymbolMap.Tables.{or_else, or_else-none, or_else_assoc, when}
use databento_cpp.SymbolMap.Days.{IsDay}
use databento_cpp.SymbolMap.TimeSeries.{
  first_of, >>=-ok, names_id, in_interval, of_interval, HasDays,
}

-- What holds of each element for which the body of a loop returned.
pub for_each-All :
    {A S : Type 0} (Q : A → Type 0) (body : A → S → Result S)
    → ((a : A) (s s' : S) → body a s ≡ ok s' → Q a)
    → (list : List A) (s s' : S) → for_each body list s ≡ ok s'
    → All Q list
unfolding for_each
for_each-All Q body f [] s s' e = tt
for_each-All Q body f (a ∷ list) s s' e =
    let (s1, e1, e2) = >>=-ok (body a s) (for_each body list) s' e in
    (f a s s1 e1, for_each-All Q body f list s1 s' e2)

-- A loop whose body returns and adds what it finds, where nothing was found before.
pub for_each_returns :
    {A S V : Type 0} (body : A → S → Result S) (look : S → Option V) (found : A → Option V)
    (P : A → Type 0)
    → ((a : A) (s : S)
        → P a
        → (s' : S) × (body a s ≡ ok s') × (look s' ≡ or_else (look s) (found a)))
    → (list : List A) (s : S) → All P list
    → (s' : S) × (for_each body list s ≡ ok s') × (look s' ≡ or_else (look s) (first_of found list))
unfolding for_each
for_each_returns body look found P step [] s h = (s, refl, sym (or_else-none (look s)))
for_each_returns body look found P step (a ∷ list) s (h, hs) =
    let (s1, e1, l1) = step a s h in
    let (s2, e2, l2) = for_each_returns body look found P step list s1 hs in
    (
      s2,
      rw e1 e2,
      l2
          ∙ ap (λ o. or_else o (first_of found list)) l1
          ∙ or_else_assoc (look s) (found a) (first_of found list),
    )

-- The instrument IDs that the constructors read are numbers.
abbrev pub IntervalHasId : MappingInterval → Type 0
IntervalHasId interval =
    (is_empty interval.symbol ≡ true) ⊎ ((iid : ℕ) × (instrument_id_of interval.symbol ≡ ok iid))

abbrev pub HasId : Bool → SymbolMapping → Type 0
HasId true mapping = (iid : ℕ) × (instrument_id_of mapping.raw_symbol ≡ ok iid)
HasId false mapping = All IntervalHasId mapping.intervals

when-false : (a b : Bool) (v : Text) → when (a && (b && false)) v ≡ none
when-false a b v = ground arith

when-true : (a b : Bool) (v : Text) → when (a && (b && true)) v ≡ when (a && b) v
when-true a b v = ground arith

-- What the constructor of `PitSymbolMap` makes of the interval that it found.
abbrev pub of_found : Bool → ℕ → Text → Option MappingInterval → Option Text
of_found inverse instrument_id raw_symbol none = none
of_found true instrument_id raw_symbol (some interval) =
    when (not (is_empty interval.symbol) && names_id raw_symbol instrument_id) interval.symbol
of_found false instrument_id raw_symbol (some interval) =
    when (not (is_empty interval.symbol) && names_id interval.symbol instrument_id) raw_symbol

module _ (calendar : Calendar) where
  open calendar use {sys_days, before}

  interval-HasId :
      (raw_symbol : Text) (interval : MappingInterval) (map map' : TsSymbolMap)
      → forward_interval calendar raw_symbol interval map ≡ ok map'
      → IntervalHasId interval
  interval-HasId raw_symbol interval map map' e = elim (Bool-cases (is_empty interval.symbol)) [
    | inl empty ↦ inl empty
    | inr some_symbol ↦
        let (iid, id, _) =
          >>=-ok (instrument_id_of interval.symbol)
            (λ iid. insert calendar iid interval.start_date interval.end_date raw_symbol map) map'
            (rw some_symbol at e) in
        inr (iid, id)
  ]

  pub mapping-HasId :
      (inverse : Bool) (mapping : SymbolMapping) (map map' : TsSymbolMap)
      → (if inverse then inverse_mapping calendar else forward_mapping calendar) mapping map
        ≡ ok map'
      → HasId inverse mapping
  mapping-HasId true mapping map map' e =
      let (iid, id, _) =
        >>=-ok (instrument_id_of mapping.raw_symbol)
          (λ iid. for_each (inverse_interval calendar iid) mapping.intervals map) map' e in
      (iid, id)
  mapping-HasId false mapping map map' e =
      for_each-All IntervalHasId (forward_interval calendar mapping.raw_symbol)
        (interval-HasId mapping.raw_symbol) mapping.intervals map map' e

  -- At most one of the intervals covers the date.
  abbrev pub AtMostOne : Date → List MappingInterval → Type 0
  AtMostOne date [] = Unit
  AtMostOne date (interval ∷ intervals) =
      (holds calendar date interval ≡ true → All (λ i. holds calendar date i ≡ false) intervals)
      × AtMostOne date intervals

  abbrev pub MappingAtMostOne : Date → SymbolMapping → Type 0
  MappingAtMostOne date mapping = AtMostOne date mapping.intervals

  -- A date is in an interval where its day is.
  holds-in_interval :
      (date : Date) (interval : MappingInterval)
      → IsDay calendar date
      → HasDays calendar interval
      → holds calendar date interval ≡ in_interval calendar (sys_days date) interval
  holds-in_interval date interval is_day h =
      let lower = calendar.before-days date interval.start_date is_day h.start_is_day in
      let upper = calendar.before-days date interval.end_date is_day h.end_is_day in
      rw (lower, upper) (ground arith)

  not_covered :
      (inverse : Bool) (day instrument_id : ℕ) (raw_symbol : Text) (interval : MappingInterval)
      → in_interval calendar day interval ≡ false
      → of_interval calendar inverse day instrument_id raw_symbol interval ≡ none
  not_covered true day instrument_id raw_symbol interval e = rw e (when-false _ _ _)
  not_covered false day instrument_id raw_symbol interval e = rw e (when-false _ _ _)

  covered :
      (inverse : Bool) (day instrument_id : ℕ) (raw_symbol : Text) (interval : MappingInterval)
      → in_interval calendar day interval ≡ true
      → of_interval calendar inverse day instrument_id raw_symbol interval
        ≡ of_found inverse instrument_id raw_symbol (some interval)
  covered true day instrument_id raw_symbol interval e = rw e (when-true _ _ _)
  covered false day instrument_id raw_symbol interval e = rw e (when-true _ _ _)

  none_covers :
      (date : Date) (inverse : Bool) (instrument_id : ℕ) (raw_symbol : Text)
      (intervals : List MappingInterval)
      → IsDay calendar date
      → All (HasDays calendar) intervals
      → All (λ i. holds calendar date i ≡ false) intervals
      → first_of (of_interval calendar inverse (sys_days date) instrument_id raw_symbol) intervals
        ≡ none
  none_covers date inverse instrument_id raw_symbol [] is_day h outside_all = refl
  none_covers date inverse instrument_id raw_symbol (i ∷ intervals) is_day (h, hs) (o, os) =
      let out = sym (holds-in_interval date i is_day h) ∙ o in
      rw (not_covered inverse (sys_days date) instrument_id raw_symbol i out)
        (none_covers date inverse instrument_id raw_symbol intervals is_day hs os)

  pub first_of-find_interval :
      (date : Date) (inverse : Bool) (instrument_id : ℕ) (raw_symbol : Text)
      (intervals : List MappingInterval)
      → IsDay calendar date
      → All (HasDays calendar) intervals
      → AtMostOne date intervals
      → first_of (of_interval calendar inverse (sys_days date) instrument_id raw_symbol) intervals
        ≡ of_found inverse instrument_id raw_symbol (find_interval calendar date intervals)
  unfolding find_interval
  first_of-find_interval date inverse instrument_id raw_symbol [] is_day h once = refl
  first_of-find_interval date inverse instrument_id raw_symbol (i ∷ intervals) is_day (h, hs)
        (one, once) =
      let same = holds-in_interval date i is_day h in
      let day = sys_days date in
      elim (Bool-cases (holds calendar date i)) [
        | inl e ↦
            rw
              (
                e,
                covered inverse day instrument_id raw_symbol i (sym same ∙ e),
                none_covers date inverse instrument_id raw_symbol intervals is_day hs (one e),
              )
              (or_else-none (of_found inverse instrument_id raw_symbol (some i)))
        | inr e ↦
            rw (e, not_covered inverse day instrument_id raw_symbol i (sym same ∙ e))
              (first_of-find_interval date inverse instrument_id raw_symbol intervals is_day hs
                once)
      ]
