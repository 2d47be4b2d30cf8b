-- ===== src/Flags/Runs.antt =====
-- A run of `FlagSet`.
use databento_cpp.Base.{◌<◌, ◌≡◌, arith, true}
use databento_cpp.Flags.{is_set, set, any, tob, last}
use databento_cpp.Flags.Independent.{is_set-set}

is_set-set_example :
    (is_set tob (set last 2) ≡ is_set tob 2) × (set last 2 < 256) × (any (set last 2) ≡ true)
is_set-set_example = is_set-set last tob 2 (omega arith)
