-- ===== src/Upgrade/Compat.antt =====
-- What `DecodeRecordCompat` gives, over all versions, policies and types of records.
use databento_cpp.Base.{ℕ, ◌+◌, length, ◌≡◌, ◌≤◌, refl, ap, ◌∙◌, arith, Bool, false}
use databento_cpp.Base.Results.{ok}
use databento_cpp.Metadata.{VersionUpgradePolicy, as_is, upgrade_to_v2, upgrade_to_v3}
use databento_cpp.Upgrade.{Bytes, rtype}
use databento_cpp.Upgrade.Dispatch.{decode_record_compat, needs_upgrade}
use databento_cpp.Upgrade.Structs.{upgraded}
use databento_cpp.Upgrade.Structs.Dispatch.{decode_record_compat-upgraded}
use databento_cpp.Upgrade.Returns.{old_size, ts_out_size, decode_record_compat-Returns}

-- Where `NeedsUpgrade` says that a stream of a version needs no upgrade, `DecodeRecordCompat` would
-- give back every record as it is: to skip the call loses nothing.
pub needs_upgrade_sound :
    (policy : VersionUpgradePolicy) (version : ℕ) (ts_out : Bool) (rec : Bytes)
    → needs_upgrade policy version ≡ false
    → decode_record_compat version policy ts_out rec ≡ ok rec
unfolding needs_upgrade decode_record_compat
needs_upgrade_sound as_is version ts_out rec h = refl
needs_upgrade_sound upgrade_to_v2 version ts_out rec h = ground arith
needs_upgrade_sound upgrade_to_v3 version ts_out rec h = ground arith

-- Whatever the version and the policy, on a record whose memory holds the older version's struct for
-- its type (and the timestamp behind it, where the stream has one), `DecodeRecordCompat` returns. Where
-- the struct for the type differs between the record's version and the policy's, it gives back a record
-- of the newer struct: a header with the new length and the old type, publisher, instrument and time;
-- each field with the bytes of the old struct's field of that name and zeros behind them where it is
-- wider, or its given value (the undefined leg price and delta, the leg side, the widened quantity, the
-- unknown symbol types, the code that stands for the text, the last of several), or zeros; and the
-- timestamp behind it. Else it gives back the record that it was given.
pub decode_record_compat_lem :
    (version : ℕ) (policy : VersionUpgradePolicy) (ts_out : Bool) (rec : Bytes)
    → old_size version (rtype rec) + ts_out_size ts_out ≤ length rec
    → decode_record_compat version policy ts_out rec ≡ ok (upgraded version policy ts_out rec)
decode_record_compat_lem version policy ts_out rec h =
    let (rec', e) = decode_record_compat-Returns version policy ts_out rec h in
    e ∙ ap ok (decode_record_compat-upgraded rec rec' version policy ts_out e)
