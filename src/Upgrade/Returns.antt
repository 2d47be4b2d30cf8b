-- ===== src/Upgrade/Returns.antt =====
-- `DecodeRecordCompat` returns where the record's memory holds the struct that it reads.
use databento_cpp.Base.{
  ◌++◌, ℕ, ◌+◌, length, le→ltb, ◌≡◌, ◌≤◌, refl, arith, Bool, true, false, ◌==◌, if◌then◌else◌, inl,
  inr, Bool-cases,
}
use databento_cpp.Base.Results.{Result, ok}
use databento_cpp.Metadata.{VersionUpgradePolicy, as_is, upgrade_to_v2, upgrade_to_v3}
use databento_cpp.Upgrade.{set_length, field, Bytes, rtype, upgrade_record}
use databento_cpp.Upgrade.Messages.{stat_to_v3, symbol_mapping_to_v2, error_to_v2, system_to_v2}
use databento_cpp.Upgrade.Definition.{definition_v1_to_v2, definition_v1_to_v3}
use databento_cpp.Upgrade.DefinitionV2.{definition_v2_to_v3}
use databento_cpp.Upgrade.Dispatch.{
  upgrade_v1_to_v2, upgrade_v1_to_v3, upgrade_v2_to_v3, decode_record_compat,
}
use databento_cpp.RType

-- How many bytes of a record an upgrade reads: the size of the older version's struct for its type.
abbrev pub old_size : ℕ → ℕ → ℕ
old_size version kind =
    if kind == RType.instrument_def
    then (if version == 1 then 360 else 400)
    else if kind == RType.statistics
    then 64
    else 80

abbrev pub ts_out_size : Bool → ℕ
ts_out_size ts_out = if ts_out then 8 else 0

abbrev pub Returns : Result Bytes → Type 0
Returns result = (rec : Bytes) × (result ≡ ok rec)

upgrade_record-Returns :
    (from to : ℕ) (convert : Bytes → Bytes) (ts_out : Bool) (rec : Bytes)
    → from + ts_out_size ts_out ≤ length rec
    → Returns (upgrade_record from to convert ts_out rec)
unfolding upgrade_record
upgrade_record-Returns from to convert true rec h = (
  set_length (to + 8) (convert rec) ++ field from 8 rec,
  rw (le→ltb (length rec) (from + 8) h) refl,
)
upgrade_record-Returns from to convert false rec h =
    (convert rec, rw (le→ltb (length rec) from (omega arith)) refl)

on_kind-Returns :
    (kind this : ℕ) {yes_case no_case : Result Bytes}
    → (kind ≡ this → Returns yes_case)
    → Returns no_case
    → Returns (if kind == this then yes_case else no_case)
on_kind-Returns kind this {yes_case} {no_case} hit miss = elim (Bool-cases (kind == this)) [
  | inl same ↦ rw same (hit (ground arith))
  | inr other ↦ rw other miss
]

upgrade_v1_to_v2-Returns :
    (ts_out : Bool) (rec : Bytes)
    → old_size 1 (rtype rec) + ts_out_size ts_out ≤ length rec
    → Returns (upgrade_v1_to_v2 ts_out rec)
unfolding upgrade_v1_to_v2
upgrade_v1_to_v2-Returns ts_out rec h =
    on_kind-Returns (rtype rec) RType.instrument_def
      (λ k. upgrade_record-Returns 360 400 definition_v1_to_v2 ts_out rec (rw k at h))
      (on_kind-Returns (rtype rec) RType.symbol_mapping
        (λ k. upgrade_record-Returns 80 176 symbol_mapping_to_v2 ts_out rec (rw k at h))
        (on_kind-Returns (rtype rec) RType.error
          (λ k. upgrade_record-Returns 80 320 error_to_v2 ts_out rec (rw k at h))
          (on_kind-Returns (rtype rec) RType.system
            (λ k. upgrade_record-Returns 80 320 system_to_v2 ts_out rec (rw k at h)) (rec, refl))))

upgrade_v1_to_v3-Returns :
    (ts_out : Bool) (rec : Bytes)
    → old_size 1 (rtype rec) + ts_out_size ts_out ≤ length rec
    → Returns (upgrade_v1_to_v3 ts_out rec)
unfolding upgrade_v1_to_v3
upgrade_v1_to_v3-Returns ts_out rec h =
    on_kind-Returns (rtype rec) RType.instrument_def
      (λ k. upgrade_record-Returns 360 520 definition_v1_to_v3 ts_out rec (rw k at h))
      (on_kind-Returns (rtype rec) RType.statistics
        (λ k. upgrade_record-Returns 64 80 stat_to_v3 ts_out rec (rw k at h))
        (on_kind-Returns (rtype rec) RType.symbol_mapping
          (λ k. upgrade_record-Returns 80 176 symbol_mapping_to_v2 ts_out rec (rw k at h))
          (on_kind-Returns (rtype rec) RType.error
            (λ k. upgrade_record-Returns 80 320 error_to_v2 ts_out rec (rw k at h))
            (on_kind-Returns (rtype rec) RType.system
              (λ k. upgrade_record-Returns 80 320 system_to_v2 ts_out rec (rw k at h))
              (rec, refl)))))

upgrade_v2_to_v3-Returns :
    (ts_out : Bool) (rec : Bytes)
    → old_size 2 (rtype rec) + ts_out_size ts_out ≤ length rec
    → Returns (upgrade_v2_to_v3 ts_out rec)
unfolding upgrade_v2_to_v3
upgrade_v2_to_v3-Returns ts_out rec h =
    on_kind-Returns (rtype rec) RType.instrument_def
      (λ k. upgrade_record-Returns 400 520 definition_v2_to_v3 ts_out rec (rw k at h))
      (on_kind-Returns (rtype rec) RType.statistics
        (λ k. upgrade_record-Returns 64 80 stat_to_v3 ts_out rec (rw k at h)) (rec, refl))

pub decode_record_compat-Returns :
    (version : ℕ) (policy : VersionUpgradePolicy) (ts_out : Bool) (rec : Bytes)
    → old_size version (rtype rec) + ts_out_size ts_out ≤ length rec
    → Returns (decode_record_compat version policy ts_out rec)
unfolding decode_record_compat
decode_record_compat-Returns version as_is ts_out rec h = (rec, refl)
decode_record_compat-Returns version upgrade_to_v2 ts_out rec h =
    on_kind-Returns version 1 (λ k. upgrade_v1_to_v2-Returns ts_out rec (rw k at h)) (rec, refl)
decode_record_compat-Returns version upgrade_to_v3 ts_out rec h =
    on_kind-Returns version 1 (λ k. upgrade_v1_to_v3-Returns ts_out rec (rw k at h))
      (on_kind-Returns version 2 (λ k. upgrade_v2_to_v3-Returns ts_out rec (rw k at h)) (rec, refl))
