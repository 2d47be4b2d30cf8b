-- ===== src/Flags/Independent.antt =====
-- The flags of a `FlagSet` do not touch each other.
use databento_cpp.Base.{ℕ, ◌<◌, ◌≡◌, arith, true, ◌==◌, if◌then◌else◌}
use databento_cpp.Flags.{
  FlagSet, Flag, is_set, set, any, publisher_specific, maybe_bad_book, bad_ts_recv, mbp, snapshot,
  tob, last,
}

-- The place of a flag among the bit fields of the union, which keep the lowest bit for `reserved`.
abbrev pub place : Flag → ℕ
place publisher_specific = 1
place maybe_bad_book = 2
place bad_ts_recv = 3
place mbp = 4
place snapshot = 5
place tob = 6
place last = 7

-- On every byte: setting a flag sets it and leaves each other flag as it was, the result is a byte, and
-- is not empty.
pub is_set-set :
    (f g : Flag) (flags : FlagSet)
    → flags < 256
    → (is_set g (set f flags) ≡ (if place f == place g then true else is_set g flags))
      × (set f flags < 256)
      × (any (set f flags) ≡ true)
unfolding is_set set any
is_set-set publisher_specific publisher_specific flags h =
    (ground arith, ground arith, ground arith)
is_set-set publisher_specific maybe_bad_book flags h = (ground arith, ground arith, ground arith)
is_set-set publisher_specific bad_ts_recv flags h = (ground arith, ground arith, ground arith)
is_set-set publisher_specific mbp flags h = (ground arith, ground arith, ground arith)
is_set-set publisher_specific snapshot flags h = (ground arith, ground arith, ground arith)
is_set-set publisher_specific tob flags h = (ground arith, ground arith, ground arith)
is_set-set publisher_specific last flags h = (ground arith, ground arith, ground arith)
is_set-set maybe_bad_book publisher_specific flags h = (ground arith, ground arith, ground arith)
is_set-set maybe_bad_book maybe_bad_book flags h = (ground arith, ground arith, ground arith)
is_set-set maybe_bad_book bad_ts_recv flags h = (ground arith, ground arith, ground arith)
is_set-set maybe_bad_book mbp flags h = (ground arith, ground arith, ground arith)
is_set-set maybe_bad_book snapshot flags h = (ground arith, ground arith, ground arith)
is_set-set maybe_bad_book tob flags h = (ground arith, ground arith, ground arith)
is_set-set maybe_bad_book last flags h = (ground arith, ground arith, ground arith)
is_set-set bad_ts_recv publisher_specific flags h = (ground arith, ground arith, ground arith)
is_set-set bad_ts_recv maybe_bad_book flags h = (ground arith, ground arith, ground arith)
is_set-set bad_ts_recv bad_ts_recv flags h = (ground arith, ground arith, ground arith)
is_set-set bad_ts_recv mbp flags h = (ground arith, ground arith, ground arith)
is_set-set bad_ts_recv snapshot flags h = (ground arith, ground arith, ground arith)
is_set-set bad_ts_recv tob flags h = (ground arith, ground arith, ground arith)
is_set-set bad_ts_recv last flags h = (ground arith, ground arith, ground arith)
is_set-set mbp publisher_specific flags h = (ground arith, ground arith, ground arith)
is_set-set mbp maybe_bad_book flags h = (ground arith, ground arith, ground arith)
is_set-set mbp bad_ts_recv flags h = (ground arith, ground arith, ground arith)
is_set-set mbp mbp flags h = (ground arith, ground arith, ground arith)
is_set-set mbp snapshot flags h = (ground arith, ground arith, ground arith)
is_set-set mbp tob flags h = (ground arith, ground arith, ground arith)
is_set-set mbp last flags h = (ground arith, ground arith, ground arith)
is_set-set snapshot publisher_specific flags h = (ground arith, ground arith, ground arith)
is_set-set snapshot maybe_bad_book flags h = (ground arith, ground arith, ground arith)
is_set-set snapshot bad_ts_recv flags h = (ground arith, ground arith, ground arith)
is_set-set snapshot mbp flags h = (ground arith, ground arith, ground arith)
is_set-set snapshot snapshot flags h = (ground arith, ground arith, ground arith)
is_set-set snapshot tob flags h = (ground arith, ground arith, ground arith)
is_set-set snapshot last flags h = (ground arith, ground arith, ground arith)
is_set-set tob publisher_specific flags h = (ground arith, ground arith, ground arith)
is_set-set tob maybe_bad_book flags h = (ground arith, ground arith, ground arith)
is_set-set tob bad_ts_recv flags h = (ground arith, ground arith, ground arith)
is_set-set tob mbp flags h = (ground arith, ground arith, ground arith)
is_set-set tob snapshot flags h = (ground arith, ground arith, ground arith)
is_set-set tob tob flags h = (ground arith, ground arith, ground arith)
is_set-set tob last flags h = (ground arith, ground arith, ground arith)
is_set-set last publisher_specific flags h = (ground arith, ground arith, ground arith)
is_set-set last maybe_bad_book flags h = (ground arith, ground arith, ground arith)
is_set-set last bad_ts_recv flags h = (ground arith, ground arith, ground arith)
is_set-set last mbp flags h = (ground arith, ground arith, ground arith)
is_set-set last snapshot flags h = (ground arith, ground arith, ground arith)
is_set-set last tob flags h = (ground arith, ground arith, ground arith)
is_set-set last last flags h = (ground arith, ground arith, ground arith)
