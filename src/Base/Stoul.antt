-- ===== src/Base/Stoul.antt =====
-- `std::stoul`.
use Prim.Native.Nat.{ℕ, ◌+◌, ◌-◌, ◌*◌, ◌%◌, ◌^◌}
use mathlib.Core.Bool.{Bool, true, false, not, ◌&&◌, ◌||◌}
use mathlib.Core.List.{List, [], ◌∷◌}
use databento_cpp.Base.Tests.{leb, ◌==◌, if◌then◌else◌}
use databento_cpp.Base.Results.{Result, ok, err, exception}

abbrev is_space : ℕ → Bool
is_space c = c == 32 || (leb 9 c && leb c 13)

abbrev is_digit : ℕ → Bool
is_digit c = leb 48 c && leb c 57

unfoldable pub skip_spaces : List ℕ → List ℕ
skip_spaces [] = []
skip_spaces (c ∷ text) = let rest = skip_spaces text in if is_space c then rest else c ∷ text

unfoldable pub read_digits : ℕ → List ℕ → ℕ
read_digits value [] = value
read_digits value (c ∷ text) =
    let longer = read_digits (value * 10 + (c - 48)) text in if is_digit c then longer else value

-- The digits behind the sign.
unfoldable pub read_unsigned : Bool → List ℕ → Result ℕ
read_unsigned negative [] = err exception
read_unsigned negative (c ∷ text) =
    let value = read_digits 0 (c ∷ text) in
    if not (is_digit c)
    then err exception
    else if leb (2 ^ 64) value
    then err exception
    else if negative
    then ok ((2 ^ 64 - value) % 2 ^ 64)
    else ok value

abbrev read_signed : List ℕ → Result ℕ
read_signed [] = err exception
read_signed (c ∷ text) =
    if c == b'-'
    then read_unsigned true text
    else if c == b'+'
    then read_unsigned false text
    else read_unsigned false (c ∷ text)

-- `std::stoul`, which throws where there is no digit or the value is too large.
unfoldable pub stoul : List ℕ → Result ℕ
stoul text = read_signed (skip_spaces text)
