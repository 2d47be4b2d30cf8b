-- ===== src/Flags.antt =====
-- include/databento/flag_set.hpp: `FlagSet`, the flags of a record in the bits of a byte. The union of
-- the byte with a struct of bit fields is laid out lowest bit first.
pub mod Independent
mod Runs
use databento_cpp.Base.{ℕ, ◌+◌, ◌/◌, ◌%◌, Bool, not, ◌==◌, if◌then◌else◌}

pub data Flag : Type 0 where
  publisher_specific maybe_bad_book bad_ts_recv mbp snapshot tob last : Flag

-- `kLast`, `kTob` and so on: the flag's bit alone.
abbrev pub mask : Flag → ℕ
mask publisher_specific = 2
mask maybe_bad_book = 4
mask bad_ts_recv = 8
mask mbp = 16
mask snapshot = 32
mask tob = 64
mask last = 128

-- The byte of a `FlagSet`.
abbrev pub FlagSet : Type 0
FlagSet = ℕ

-- `IsLast`, `IsTob` and so on: the flag's bit field.
unfoldable pub is_set : Flag → FlagSet → Bool
is_set f flags = flags / mask f % 2 == 1

-- `SetLast`, `SetTob` and so on.
unfoldable pub set : Flag → FlagSet → FlagSet
unfolding is_set
set f flags = if is_set f flags then flags else flags + mask f

unfoldable pub clear : FlagSet → FlagSet
clear flags = 0

-- `Any` and `IsEmpty`
unfoldable pub any : FlagSet → Bool
any flags = not (flags == 0)

unfoldable pub is_empty : FlagSet → Bool
is_empty flags = flags == 0
