-- ===== src/SymbolMap/Days.antt =====
-- `TsSymbolMap::Insert`: which symbol a map holds for a day and an instrument afterwards.
use databento_cpp.Base.{
  ℕ, zero, suc, ◌+◌, ◌-◌, ◌≤◌, ◌≡◌, refl, sym, ap, ◌∙◌, arith, Bool, true, false, ◌&&◌, Option, inl,
  inr, ltb, leb, ◌==◌, Bool-cases,
}
use databento_cpp.Base.Results.{ok, ok-inj, err≢ok}
use databento_cpp.Metadata.{Date, Text}
use databento_cpp.Base.Maps.{emplace}
use databento_cpp.SymbolMap.{
  Calendar, same_date, same_key, TsSymbolMap, ts_find, insert_days, insert,
}
use databento_cpp.SymbolMap.Tables.{
  IsEquality, or_else, or_else-none, or_else_assoc, when, find-emplace,
}

-- The fields of equal dates.
same_date-eq : (d e : Date) → same_date d e ≡ true → d ≡ e
same_date-eq d e h =
    let year : d.year ≡ e.year = ground arith in
    let month : d.month ≡ e.month = ground arith in let day : d.day ≡ e.day = ground arith in cc

pub same_date_refl : (d : Date) → same_date d d ≡ true
same_date_refl d = ground arith

both : (a b : Bool) → (a && b) ≡ true → (a ≡ true) × (b ≡ true)
both true true e = (refl, refl)
both true false e = absurd (cc)
both false b e = absurd (cc)

==-eq : (a b : ℕ) → (a == b) ≡ true → a ≡ b
==-eq a b e = ground arith

==-refl : (a : ℕ) → (a == a) ≡ true
==-refl a = ground arith

pub ==-IsEquality : IsEquality ◌==◌
==-IsEquality = record { same-refl = ==-refl; same-eq = ==-eq }

pub same_key-IsEquality : IsEquality same_key
same_key-IsEquality = record {
  same-refl = λ (d, i). rw (same_date_refl d) (==-refl i);
  same-eq = λ (d, i) (e, j) h.
      let (h1, h2) = both (same_date d e) (i == j) h in
      ap (λ x. (x, i)) (same_date-eq d e h1) ∙ ap (λ x. (e, x)) (==-eq i j h2);
}

module _ (calendar : Calendar) where
  open calendar use {sys_days, year_month_day, before}

  -- The symbol of an instrument on a day.
  abbrev pub on_day : ℕ → ℕ → TsSymbolMap → Option Text
  on_day day instrument_id map = ts_find calendar (year_month_day day) instrument_id map

  -- Days are equal where their dates are.
  same_date-days : (m n : ℕ) → same_date (year_month_day m) (year_month_day n) ≡ (m == n)
  same_date-days m n = elim (Bool-cases (same_date (year_month_day m) (year_month_day n))) [
    | inl e ↦
        let days : m ≡ n =
          sym (calendar.days-date m)
          ∙ ap sys_days (same_date-eq (year_month_day m) (year_month_day n) e)
          ∙ calendar.days-date n in
        e ∙ ground arith
    | inr e ↦ elim (Bool-cases (m == n)) [
      | inl same ↦
          let dates = ap year_month_day (==-eq m n same) in
          ap (same_date (year_month_day m)) (sym dates)
          ∙ same_date_refl (year_month_day m)
          ∙ sym same
      | inr other ↦ e ∙ sym other
    ]
  ]

  -- An instrument and a span of days.
  abbrev pub covers : ℕ → ℕ → ℕ → ℕ → ℕ → Bool
  covers iid first last day instrument_id = iid == instrument_id && (leb first day && ltb day last)

  pub insert_days_lem :
      (iid : ℕ) (symbol : Text) (count first day instrument_id : ℕ) (map : TsSymbolMap)
      → on_day day instrument_id (insert_days calendar iid symbol count first map)
        ≡ or_else
            (on_day day instrument_id map)
            (when (covers iid first (first + count) day instrument_id) symbol)
  unfolding insert_days
  insert_days_lem iid symbol zero first day instrument_id map =
      let nothing : covers iid first (first + zero) day instrument_id ≡ false = ground arith in
      rw nothing (sym (or_else-none (on_day day instrument_id map)))
  insert_days_lem iid symbol (suc count) first day instrument_id map =
      let old = on_day day instrument_id map in
      let map' = emplace same_key (year_month_day first, iid) symbol map in
      let key : same_key (year_month_day first, iid) (year_month_day day, instrument_id)
          ≡ ((first == day) && (iid == instrument_id)) =
        ap (λ b. b && (iid == instrument_id)) (same_date-days first day) in
      let now : on_day day instrument_id map'
          ≡ or_else old (when ((first == day) && (iid == instrument_id)) symbol) =
        find-emplace same_key same_key-IsEquality (year_month_day day, instrument_id)
          (year_month_day first, iid) symbol map
        ∙ ap (λ b. or_else old (when b symbol)) key in
      insert_days_lem iid symbol count (first + 1) day instrument_id map'
      ∙ ap
          (λ o.
            or_else o (when (covers iid (first + 1) (first + 1 + count) day instrument_id) symbol))
          now
      ∙ or_else_assoc old _ _
      ∙ ap (or_else old) (one_more iid symbol count first day instrument_id)
    where
      one_more :
          (iid : ℕ) (symbol : Text) (count first day instrument_id : ℕ)
          → or_else
              (when ((first == day) && (iid == instrument_id)) symbol)
              (when (covers iid (first + 1) (first + 1 + count) day instrument_id) symbol)
            ≡ when (covers iid first (first + suc count) day instrument_id) symbol
      one_more iid symbol count first day instrument_id = ground arith

  -- The days of the calendar are its dates that are `ok()`.
  abbrev pub IsDay : Date → Type 0
  IsDay date = year_month_day (sys_days date) ≡ date

  -- `Insert`, where the dates are days of the calendar and it does not throw: the map holds the symbol
  -- for each day from the first date on and before the second one, unless it held another there, and
  -- is otherwise the same.
  pub insert_lem :
      (iid : ℕ) (start_date end_date : Date) (symbol : Text) (map map' : TsSymbolMap)
      (day instrument_id : ℕ)
      → IsDay start_date
      → IsDay end_date
      → insert calendar iid start_date end_date symbol map ≡ ok map'
      → on_day day instrument_id map'
        ≡ or_else
            (on_day day instrument_id map)
            (when (covers iid (sys_days start_date) (sys_days end_date) day instrument_id) symbol)
  unfolding insert
  insert_lem iid start_date end_date symbol map map' day instrument_id is_day is_day' e =
      let first = sys_days start_date in
      let last = sys_days end_date in
      let order = calendar.before-days end_date start_date is_day' is_day in
      elim (Bool-cases (before end_date start_date)) [
        | inl back ↦ absurd (err≢ok (rw back at e))
        | inr forth ↦
            let in_order : first ≤ last = ground (arith, sym order ∙ forth) in
            elim (Bool-cases (same_date start_date end_date)) [
              | inl same ↦
                  let days = ap sys_days (same_date-eq start_date end_date same) in
                  let nothing : covers iid first last day instrument_id ≡ false = ground arith in
                  ap (on_day day instrument_id) (sym (ok-inj (rw (forth, same) at e)))
                  ∙ sym (or_else-none (on_day day instrument_id map))
                  ∙ ap (λ b. or_else (on_day day instrument_id map) (when b symbol)) (sym nothing)
              | inr other ↦
                  let to_last : first + (last - first) ≡ last = omega arith in
                  ap (on_day day instrument_id) (sym (ok-inj (rw (forth, other) at e)))
                  ∙ insert_days_lem iid symbol (last - first) first day instrument_id map
                  ∙ ap
                      (λ n.
                        or_else (on_day day instrument_id map)
                          (when (covers iid first n day instrument_id) symbol))
                      to_last
            ]
      ]
