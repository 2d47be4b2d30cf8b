-- ===== src/SymbolMap/Tables.antt =====
-- What `find` gives after `emplace` and after an assignment.
use databento_cpp.Base.{
  ◌≡◌, refl, sym, ap, ◌∙◌, Bool, true, false, Option, none, some, List, [], ◌∷◌, inl, inr,
  Bool-cases,
}
use databento_cpp.Base.Maps.{find, emplace, assign, unless_found}

-- A test of keys that is equality.
pub record IsEquality {K : Type 0} (same : K → K → Bool) : Type 0 where
  pub same-refl : (k : K) → same k k ≡ true
  pub same-eq : (j k : K) → same j k ≡ true → j ≡ k

abbrev pub or_else : {V : Type 0} → Option V → Option V → Option V
or_else none later = later
or_else (some v) later = some v

pub or_else-none : {V : Type 0} (o : Option V) → or_else o none ≡ o
or_else-none none = refl
or_else-none (some v) = refl

pub or_else_assoc :
    {V : Type 0} (a b c : Option V) → or_else (or_else a b) c ≡ or_else a (or_else b c)
or_else_assoc none b c = refl
or_else_assoc (some v) b c = refl

-- `some v` where a test holds.
abbrev pub when : {V : Type 0} → Bool → V → Option V
when true v = some v
when false v = none

module _ {K V : Type 0} (same : K → K → Bool) (h : IsEquality same) where
  same_find : (j k : K) (map : List (K × V)) → same k j ≡ true → find same j map ≡ find same k map
  same_find j k map e = ap (λ x. find same x map) (sym (h.same-eq k j e))

  found_or_not :
      (j k : K) (v : V) (map : List (K × V)) (o : Option V)
      → find same k map ≡ o
      → find same j (unless_found o ((k, v) ∷ map) map)
        ≡ or_else (find same j map) (when (same k j) v)
  unfolding find
  found_or_not j k v map none e = elim (Bool-cases (same k j)) [
    | inl this ↦ rw (this, same_find j k map this ∙ e) refl
    | inr other ↦ rw other (sym (or_else-none (find same j map)))
  ]
  found_or_not j k v map (some w) e = elim (Bool-cases (same k j)) [
    | inl this ↦ rw (this, same_find j k map this ∙ e) refl
    | inr other ↦ rw other (sym (or_else-none (find same j map)))
  ]

  -- `emplace` adds a pair where no other has its key.
  pub find-emplace :
      (j k : K) (v : V) (map : List (K × V))
      → find same j (emplace same k v map) ≡ or_else (find same j map) (when (same k j) v)
  unfolding emplace
  find-emplace j k v map = found_or_not j k v map (find same k map) refl

  pub find-assign_other :
      (j k : K) (v : V) (map : List (K × V))
      → same k j ≡ false
      → find same j (assign same k v map) ≡ find same j map
  unfolding find assign
  find-assign_other j k v [] other = refl
  find-assign_other j k v ((i, w) ∷ map) other = elim (Bool-cases (same i k)) [
    | inl this ↦
        let differs : same i j ≡ false = ap (λ x. same x j) (h.same-eq i k this) ∙ other in
        rw (this, differs) refl
    | inr next ↦ rw (next, find-assign_other j k v map other) refl
  ]

  pub find-assign_same :
      (k : K) (v w : V) (map : List (K × V))
      → find same k map ≡ some w
      → find same k (assign same k v map) ≡ some v
  unfolding find assign
  find-assign_same k v w [] e = absurd (none≢some e)
    where
      none≢some : none ≡ some w → ⊥
      none≢some e = cc
  find-assign_same k v w ((i, u) ∷ map) e = elim (Bool-cases (same i k)) [
    | inl this ↦ rw (this, this) refl
    | inr next ↦ rw (next, next) (find-assign_same k v w map (sym (rw next refl) ∙ e))
  ]
