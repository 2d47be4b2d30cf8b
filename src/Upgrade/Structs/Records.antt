-- ===== src/Upgrade/Structs/Records.antt =====
-- What the upgrades from one version to another return is the record by the names of its fields.
use databento_cpp.Base.{
  ℕ, ◌+◌, ◌/◌, ◌≡◌, refl, sym, ap, ◌∙◌, arith, Bool, true, false, ltb, ◌==◌, if◌then◌else◌, inl,
  inr, Bool-cases, ◌∷◌, ◌++◌, length, append_assoc, append-nil,
}
use mathlib.Core.Path.{subst}
use databento_cpp.Base.Results.{Result, ok, ok-inj, overrun≢ok}
use databento_cpp.Upgrade.{
  Bytes, rtype, header, field, set_length, upgrade_record, length_multiplier,
}
use databento_cpp.Upgrade.Messages.{stat_to_v3, symbol_mapping_to_v2, error_to_v2, system_to_v2}
use databento_cpp.Upgrade.Definition.{definition_v1_to_v2, definition_v1_to_v3}
use databento_cpp.Upgrade.DefinitionV2.{definition_v2_to_v3}
use databento_cpp.Upgrade.Dispatch.{upgrade_v1_to_v2, upgrade_v1_to_v3, upgrade_v2_to_v3}
use databento_cpp.RType
use databento_cpp.Upgrade.Structs.{values_of, restructured, upgraded_as}
use databento_cpp.Upgrade.Structs.Layout.{Struct, by_name, size_of}
use databento_cpp.Upgrade.Structs.DefinitionV1.{instrument_def_v1}
use databento_cpp.Upgrade.Structs.DefinitionV2.{instrument_def_v2}
use databento_cpp.Upgrade.Structs.DefinitionV3.{instrument_def_v3}
use databento_cpp.Upgrade.Structs.Messages.{
  stat_v1, stat_v3, symbol_mapping_v1, symbol_mapping_v2, error_v1, error_v2, system_v1, system_v2,
}
use databento_cpp.Upgrade.Structs.Fields.{
  build-definition_v1_to_v2, build-definition_v1_to_v3, build-definition_v2_to_v3, build-stat_to_v3,
  build-symbol_mapping_to_v2, build-error_to_v2, build-system_to_v2,
}

-- A conversion gives a header and the fields by name.
abbrev ByName : (Bytes → Bytes) → Struct → Struct → ℕ → ℕ → Type 0
ByName convert old new to kind =
    (rec : Bytes) → convert rec ≡ header to kind rec ++ by_name (values_of kind rec) old new rec

definition_v1_to_v2-ByName :
    ByName definition_v1_to_v2 instrument_def_v1 instrument_def_v2 400 RType.instrument_def
unfolding definition_v1_to_v2
definition_v1_to_v2-ByName rec =
    ap (λ x. header 400 RType.instrument_def rec ++ x) (build-definition_v1_to_v2 rec)

definition_v1_to_v3-ByName :
    ByName definition_v1_to_v3 instrument_def_v1 instrument_def_v3 520 RType.instrument_def
unfolding definition_v1_to_v3
definition_v1_to_v3-ByName rec =
    ap (λ x. header 520 RType.instrument_def rec ++ x) (build-definition_v1_to_v3 rec)

definition_v2_to_v3-ByName :
    ByName definition_v2_to_v3 instrument_def_v2 instrument_def_v3 520 RType.instrument_def
unfolding definition_v2_to_v3
definition_v2_to_v3-ByName rec =
    ap (λ x. header 520 RType.instrument_def rec ++ x) (build-definition_v2_to_v3 rec)

stat_to_v3-ByName : ByName stat_to_v3 stat_v1 stat_v3 80 RType.statistics
unfolding stat_to_v3
stat_to_v3-ByName rec = ap (λ x. header 80 RType.statistics rec ++ x) (build-stat_to_v3 rec)

symbol_mapping_to_v2-ByName :
    ByName symbol_mapping_to_v2 symbol_mapping_v1 symbol_mapping_v2 176 RType.symbol_mapping
unfolding symbol_mapping_to_v2
symbol_mapping_to_v2-ByName rec =
    ap (λ x. header 176 RType.symbol_mapping rec ++ x) (build-symbol_mapping_to_v2 rec)

error_to_v2-ByName : ByName error_to_v2 error_v1 error_v2 320 RType.error
unfolding error_to_v2
error_to_v2-ByName rec = ap (λ x. header 320 RType.error rec ++ x) (build-error_to_v2 rec)

system_to_v2-ByName : ByName system_to_v2 system_v1 system_v2 320 RType.system
unfolding system_to_v2
system_to_v2-ByName rec = ap (λ x. header 320 RType.system rec ++ x) (build-system_to_v2 rec)

upgrade_record-restructured :
    (from to : ℕ) (convert : Bytes → Bytes) (old new : Struct) (kind : ℕ) (rec rec' : Bytes)
    (ts_out : Bool)
    → size_of old ≡ from
    → size_of new ≡ to
    → ByName convert old new to kind
    → upgrade_record from to convert ts_out rec ≡ ok rec'
    → rec' ≡ restructured old new kind ts_out rec
unfolding upgrade_record
upgrade_record-restructured from to convert old new kind rec rec' true from_old to_new named e =
    elim (Bool-cases (ltb (length rec) (from + 8))) [
      | inl short ↦ absurd (overrun≢ok (rw short at e))
      | inr long ↦
          let fields = by_name (values_of kind rec) old new rec in
          sym (ok-inj (rw long at e))
          ∙ ap (λ x. set_length (to + 8) x ++ field from 8 rec) (named rec)
          ∙ rw (from_old, to_new)
              (ap (λ x. (to + 8) / length_multiplier ∷ kind ∷ x)
                (append_assoc (field 2 14 rec) fields (field from 8 rec)))
    ]
upgrade_record-restructured from to convert old new kind rec rec' false from_old to_new named e =
    elim (Bool-cases (ltb (length rec) from)) [
      | inl short ↦ absurd (overrun≢ok (rw short at e))
      | inr long ↦
          let fields = by_name (values_of kind rec) old new rec in
          let words : to / length_multiplier ≡ (size_of new + 0) / length_multiplier =
            ap (λ n. n / length_multiplier) (omega (arith, to_new)) in
          sym (ok-inj (rw long at e))
          ∙ named rec
          ∙ ap (λ n. n ∷ kind ∷ (field 2 14 rec ++ fields)) words
          ∙ ap (λ x. (size_of new + 0) / length_multiplier ∷ kind ∷ (field 2 14 rec ++ x))
              (sym (append-nil fields))
    ]

module _ (rec rec' : Bytes) where
  -- One test of the dispatch on the type of the record.
  on_kind :
      {G : Type 0} (kind : ℕ) {yes_case no_case : Result Bytes}
      → (rtype rec ≡ kind → yes_case ≡ ok rec' → G)
      → (rtype rec == kind ≡ false → no_case ≡ ok rec' → G)
      → (if rtype rec == kind then yes_case else no_case) ≡ ok rec'
      → G
  on_kind kind hit miss e = elim (Bool-cases (rtype rec == kind)) [
    | inl same ↦ hit (ground arith) (rw same at e)
    | inr other ↦ miss other (rw other at e)
  ]

  -- What is known for the type of the record.
  as_kind :
      (version version' kind : ℕ) (ts_out : Bool)
      → rtype rec ≡ kind
      → rec' ≡ upgraded_as kind version version' ts_out rec
      → rec' ≡ upgraded_as (rtype rec) version version' ts_out rec
  as_kind version version' kind ts_out same h =
      subst (λ k. rec' ≡ upgraded_as k version version' ts_out rec) (sym same) h

  pub upgrade_v1_to_v2-upgraded :
      (ts_out : Bool)
      → upgrade_v1_to_v2 ts_out rec ≡ ok rec'
      → rec' ≡ upgraded_as (rtype rec) 1 2 ts_out rec
  unfolding upgrade_v1_to_v2 instrument_def_v1 instrument_def_v2 instrument_def_v3 stat_v1 stat_v3
      symbol_mapping_v1 symbol_mapping_v2 error_v1 error_v2 system_v1 system_v2
  upgrade_v1_to_v2-upgraded ts_out =
      (on_kind RType.instrument_def
        (λ same e. as_kind 1 2 RType.instrument_def ts_out same (
          upgrade_record-restructured 360 400 definition_v1_to_v2 instrument_def_v1
            instrument_def_v2 RType.instrument_def rec rec' ts_out refl refl
            definition_v1_to_v2-ByName e))
        λ no_instrument_def.
          (on_kind RType.symbol_mapping
            (λ same e. as_kind 1 2 RType.symbol_mapping ts_out same (
              upgrade_record-restructured 80 176 symbol_mapping_to_v2 symbol_mapping_v1
                symbol_mapping_v2 RType.symbol_mapping rec rec' ts_out refl refl
                symbol_mapping_to_v2-ByName e))
            λ no_symbol_mapping.
              (on_kind RType.error
                (λ same e. as_kind 1 2 RType.error ts_out same (
                  upgrade_record-restructured 80 320 error_to_v2 error_v1 error_v2 RType.error rec
                    rec' ts_out refl refl error_to_v2-ByName e))
                λ no_error.
                  (on_kind RType.system
                    (λ same e. as_kind 1 2 RType.system ts_out same (
                      upgrade_record-restructured 80 320 system_to_v2 system_v1 system_v2
                        RType.system rec rec' ts_out refl refl system_to_v2-ByName e))
                    λ no_system e. elim (Bool-cases (rtype rec == RType.statistics)) [
                      | inl is_statistics ↦
                          as_kind 1 2 RType.statistics ts_out (ground (arith, is_statistics))
                            (sym (ok-inj e))
                      | inr no_statistics ↦
                          (rw
                            (
                              no_instrument_def, no_symbol_mapping, no_error, no_system,
                              no_statistics,
                            )
                            (sym (ok-inj e)))
                    ]))))

  pub upgrade_v1_to_v3-upgraded :
      (ts_out : Bool)
      → upgrade_v1_to_v3 ts_out rec ≡ ok rec'
      → rec' ≡ upgraded_as (rtype rec) 1 3 ts_out rec
  unfolding upgrade_v1_to_v3 instrument_def_v1 instrument_def_v2 instrument_def_v3 stat_v1 stat_v3
      symbol_mapping_v1 symbol_mapping_v2 error_v1 error_v2 system_v1 system_v2
  upgrade_v1_to_v3-upgraded ts_out =
      (on_kind RType.instrument_def
        (λ same e. as_kind 1 3 RType.instrument_def ts_out same (
          upgrade_record-restructured 360 520 definition_v1_to_v3 instrument_def_v1
            instrument_def_v3 RType.instrument_def rec rec' ts_out refl refl
            definition_v1_to_v3-ByName e))
        λ no_instrument_def.
          (on_kind RType.statistics
            (λ same e. as_kind 1 3 RType.statistics ts_out same (
              upgrade_record-restructured 64 80 stat_to_v3 stat_v1 stat_v3 RType.statistics rec rec'
                ts_out refl refl stat_to_v3-ByName e))
            λ no_statistics.
              (on_kind RType.symbol_mapping
                (λ same e. as_kind 1 3 RType.symbol_mapping ts_out same (
                  upgrade_record-restructured 80 176 symbol_mapping_to_v2 symbol_mapping_v1
                    symbol_mapping_v2 RType.symbol_mapping rec rec' ts_out refl refl
                    symbol_mapping_to_v2-ByName e))
                λ no_symbol_mapping.
                  (on_kind RType.error
                    (λ same e. as_kind 1 3 RType.error ts_out same (
                      upgrade_record-restructured 80 320 error_to_v2 error_v1 error_v2 RType.error
                        rec rec' ts_out refl refl error_to_v2-ByName e))
                    λ no_error.
                      (on_kind RType.system
                        (λ same e. as_kind 1 3 RType.system ts_out same (
                          upgrade_record-restructured 80 320 system_to_v2 system_v1 system_v2
                            RType.system rec rec' ts_out refl refl system_to_v2-ByName e))
                        λ no_system e.
                          (rw
                            (
                              no_instrument_def, no_statistics, no_symbol_mapping, no_error,
                              no_system,
                            )
                            (sym (ok-inj e))))))))

  pub upgrade_v2_to_v3-upgraded :
      (ts_out : Bool)
      → upgrade_v2_to_v3 ts_out rec ≡ ok rec'
      → rec' ≡ upgraded_as (rtype rec) 2 3 ts_out rec
  unfolding upgrade_v2_to_v3 instrument_def_v1 instrument_def_v2 instrument_def_v3 stat_v1 stat_v3
      symbol_mapping_v1 symbol_mapping_v2 error_v1 error_v2 system_v1 system_v2
  upgrade_v2_to_v3-upgraded ts_out =
      (on_kind RType.instrument_def
        (λ same e. as_kind 2 3 RType.instrument_def ts_out same (
          upgrade_record-restructured 400 520 definition_v2_to_v3 instrument_def_v2
            instrument_def_v3 RType.instrument_def rec rec' ts_out refl refl
            definition_v2_to_v3-ByName e))
        λ no_instrument_def.
          (on_kind RType.statistics
            (λ same e. as_kind 2 3 RType.statistics ts_out same (
              upgrade_record-restructured 64 80 stat_to_v3 stat_v1 stat_v3 RType.statistics rec rec'
                ts_out refl refl stat_to_v3-ByName e))
            λ no_statistics e. elim (Bool-cases (rtype rec == RType.symbol_mapping)) [
              | inl is_symbol_mapping ↦
                  as_kind 2 3 RType.symbol_mapping ts_out (ground (arith, is_symbol_mapping))
                    (sym (ok-inj e))
              | inr no_symbol_mapping ↦ elim (Bool-cases (rtype rec == RType.error)) [
                | inl is_error ↦
                    as_kind 2 3 RType.error ts_out (ground (arith, is_error)) (sym (ok-inj e))
                | inr no_error ↦ elim (Bool-cases (rtype rec == RType.system)) [
                  | inl is_system ↦
                      as_kind 2 3 RType.system ts_out (ground (arith, is_system)) (sym (ok-inj e))
                  | inr no_system ↦
                      (rw (no_instrument_def, no_statistics, no_symbol_mapping, no_error, no_system)
                        (sym (ok-inj e)))
                ]
              ]
            ]))
