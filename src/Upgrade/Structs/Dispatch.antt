-- ===== src/Upgrade/Structs/Dispatch.antt =====
-- What `DecodeRecordCompat` returns, over all versions and policies, is the record by the names of its
-- fields.
use databento_cpp.Base.{
  ℕ, ◌≡◌, refl, sym, ◌∙◌, arith, ◌⊎◌, zero, suc, Option, none, some, Bool, true, false, ◌==◌, inl,
  inr, Bool-cases, max,
}
use mathlib.Core.Path.{subst}
use databento_cpp.Base.Results.{ok, ok-inj}
use databento_cpp.Metadata.{VersionUpgradePolicy, as_is, upgrade_to_v2, upgrade_to_v3}
use databento_cpp.Upgrade.{Bytes, rtype}
use databento_cpp.Upgrade.Dispatch.{decode_record_compat}
use databento_cpp.Upgrade.Structs.{between, struct_of, upgraded_as, upgraded}
use databento_cpp.Upgrade.Structs.Layout.{Struct, size_of}
use databento_cpp.Upgrade.Structs.Records.{
  upgrade_v1_to_v2-upgraded, upgrade_v1_to_v3-upgraded, upgrade_v2_to_v3-upgraded,
}

module _ (rec rec' : Bytes) where
  same_size : (n : ℕ) → (n == n) ≡ true
  same_size n = ground arith

  -- A struct stays the same from a version to itself.
  between_same :
      (struct : Option Struct) (kind : ℕ) (ts_out : Bool)
      → rec ≡ between struct struct kind ts_out rec
  between_same none kind ts_out = refl
  between_same (some struct) kind ts_out = rw (same_size (size_of struct)) refl

  unversioned-upgraded :
      (version version' : ℕ) (ts_out : Bool)
      → (version ≡ version') ⊎ (version ≡ 0)
      → rec ≡ upgraded_as (rtype rec) version version' ts_out rec
  unversioned-upgraded version version' ts_out (inl same) =
      subst (λ v. rec ≡ upgraded_as (rtype rec) version v ts_out rec) same
        (between_same (struct_of version (rtype rec)) (rtype rec) ts_out)
  unversioned-upgraded version version' ts_out (inr none_yet) =
      subst (λ v. rec ≡ upgraded_as (rtype rec) v version' ts_out rec) (sym none_yet) refl

  is_version : (n version : ℕ) → (version == n) ≡ true → n ≡ version
  is_version n version h = ground arith

  -- A version that is not below the one of the policy, or is none.
  not_below :
      (version version' : ℕ)
      → (version == 1 ≡ false)
      → (version' ≡ 2) ⊎ ((version' ≡ 3) × (version == 2 ≡ false))
      → (version ≡ max version version') ⊎ (version ≡ 0)
  not_below zero version' one h = inr refl
  not_below (suc n) version' one (inl two) = inl (ground arith)
  not_below (suc n) version' one (inr (three, two)) = inl (ground arith)

  pub decode_record_compat-upgraded :
      (version : ℕ) (policy : VersionUpgradePolicy) (ts_out : Bool)
      → decode_record_compat version policy ts_out rec ≡ ok rec'
      → rec' ≡ upgraded version policy ts_out rec
  unfolding decode_record_compat
  decode_record_compat-upgraded version as_is ts_out e =
      sym (ok-inj e) ∙ unversioned-upgraded version version ts_out (inl refl)
  decode_record_compat-upgraded version upgrade_to_v2 ts_out e = elim (Bool-cases (version == 1)) [
    | inl one ↦
        subst (λ v. rec' ≡ upgraded v upgrade_to_v2 ts_out rec) (is_version 1 version one)
          (upgrade_v1_to_v2-upgraded rec rec' ts_out (rw one at e))
    | inr other ↦
        sym (ok-inj (rw other at e))
        ∙ unversioned-upgraded version (max version 2) ts_out (not_below version 2 other (inl refl))
  ]
  decode_record_compat-upgraded version upgrade_to_v3 ts_out e = elim (Bool-cases (version == 1)) [
    | inl one ↦
        subst (λ v. rec' ≡ upgraded v upgrade_to_v3 ts_out rec) (is_version 1 version one)
          (upgrade_v1_to_v3-upgraded rec rec' ts_out (rw one at e))
    | inr other ↦ elim (Bool-cases (version == 2)) [
      | inl two ↦
          subst (λ v. rec' ≡ upgraded v upgrade_to_v3 ts_out rec) (is_version 2 version two)
            (upgrade_v2_to_v3-upgraded rec rec' ts_out (rw (other, two) at e))
      | inr more ↦
          sym (ok-inj (rw (other, more) at e))
          ∙ unversioned-upgraded version (max version 3) ts_out
              (not_below version 3 other (inr (refl, more)))
    ]
  ]
