-- ===== src/Upgrade/Runs.antt =====
-- Runs of the upgrades of records.
use databento_cpp.Base.{
  ◌+◌, ◌^◌, ◌≤◌, ◌<◌, ◌≡◌, ◌↔◌, refl, arith, true, false, ◌∷◌, ◌++◌, replicate,
}
use databento_cpp.Base.Results.{ok}
use databento_cpp.Metadata.{upgrade_to_v2, upgrade_to_v3}
use databento_cpp.Upgrade.{Bytes}
use databento_cpp.Upgrade.Messages.{
  upgrade_quantity, undef_stat_quantity_v1, undef_stat_quantity_v3,
}
use databento_cpp.Upgrade.Dispatch.{decode_record_compat, needs_upgrade}
use databento_cpp.Upgrade.Structs.{upgraded}
use databento_cpp.Upgrade.Compat.{decode_record_compat_lem, needs_upgrade_sound}
use databento_cpp.Upgrade.Quantity.{upgrade_quantity_lem}

-- A statistic of version 1, with the timestamp behind it.
abbrev old_statistic : Bytes
old_statistic = 18 ∷ 0x18 ∷ (replicate 62 1 ++ replicate 8 2)

decode_record_compat_lem_example :
    decode_record_compat 1 upgrade_to_v3 true old_statistic
    ≡ ok (upgraded 1 upgrade_to_v3 true old_statistic)
decode_record_compat_lem_example =
    decode_record_compat_lem 1 upgrade_to_v3 true old_statistic (omega arith)

needs_upgrade-v2 : needs_upgrade upgrade_to_v2 2 ≡ false
unfolding needs_upgrade
needs_upgrade-v2 = refl

needs_upgrade_sound_example :
    decode_record_compat 2 upgrade_to_v2 true old_statistic ≡ ok old_statistic
needs_upgrade_sound_example =
    needs_upgrade_sound upgrade_to_v2 2 true old_statistic needs_upgrade-v2

-- The quantity -1.
upgrade_quantity_lem_example :
    ((upgrade_quantity 0xffff_ffff ≡ undef_stat_quantity_v3)
      ↔ (0xffff_ffff ≡ undef_stat_quantity_v1))
    × (0xffff_ffff < undef_stat_quantity_v1 → upgrade_quantity 0xffff_ffff ≡ 0xffff_ffff)
    × (2 ^ 31 ≤ 0xffff_ffff → upgrade_quantity 0xffff_ffff + 2 ^ 32 ≡ 0xffff_ffff + 2 ^ 64)
upgrade_quantity_lem_example = upgrade_quantity_lem 0xffff_ffff (omega arith)
