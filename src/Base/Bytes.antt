-- ===== src/Base/Bytes.antt =====
-- Integers as little-endian bytes, the layout of every field that is copied in or out by
-- `reinterpret_cast`, and C strings in fields of a fixed width.
use Prim.Native.Nat.{ℕ, zero, suc, ◌+◌, ◌-◌, ◌*◌, ◌/◌, ◌%◌, ◌^◌, ◌<◌}
use Prim.Native.Char.{code}
use Prim.Native.String.{String}
use mathlib.Core.Path.{◌≡◌, refl, ap}
use mathlib.Core.Logic.{◌≢◌}
use mathlib.Core.Bool.{Bool, true, false, ◌&&◌}
use mathlib.Core.Option
use mathlib.Core.Option.{Option, none, some}
use mathlib.Core.List.{List, [], ◌∷◌, ◌++◌}
use native.Mathlib.Omega.{arith}
use databento_cpp.Base.Tests.{◌==◌, if◌then◌else◌}
use databento_cpp.Base.Lists.{length, replicate, All}

-- The `width` bytes of an unsigned integer, lowest first.
unfoldable pub le : ℕ → ℕ → List ℕ
le zero n = []
le (suc width) n = (n % 256) ∷ le width (n / 256)

unfoldable pub un_le : List ℕ → ℕ
un_le [] = 0
un_le (b ∷ bs) = b + 256 * un_le bs

pub length-le : (width n : ℕ) → length (le width n) ≡ width
unfolding le
length-le zero n = refl
length-le (suc width) n = ap suc (length-le width (n / 256))

pub un_le-le : (width n : ℕ) → n < 256 ^ width → un_le (le width n) ≡ n
unfolding le un_le
un_le-le zero n h = omega arith
un_le-le (suc width) n h = omega (arith, un_le-le width (n / 256) (omega arith))

-- `std::find(cstr, cstr + num_bytes, '\0')`: the bytes before the first null, if there is one.
unfoldable pub until_null : List ℕ → Option (List ℕ)
until_null [] = none
until_null (c ∷ cs) =
    let rest = Option.map (λ s. c ∷ s) (until_null cs) in if c == 0 then some [] else rest

-- A string that a field of `width` bytes can hold with its terminator.
pub record IsCstr (width : ℕ) (s : List ℕ) : Type 0 where
  pub short : length s < width
  pub no_null : All (λ c. c ≢ 0) s

until_null-append : (s rest : List ℕ) → All (λ c. c ≢ 0) s → until_null (s ++ (0 ∷ rest)) ≡ some s
unfolding until_null
until_null-append [] rest h = refl
until_null-append (c ∷ s) rest (h, hs) = ground (arith, until_null-append s rest hs)

pub until_null-padded :
    (width : ℕ) (s : List ℕ)
    → IsCstr width s
    → until_null (s ++ replicate (width - length s) 0) ≡ some s
until_null-padded width s h = go (width - length s) (omega arith)
  where
    go : (k : ℕ) → 0 < k → until_null (s ++ replicate k 0) ≡ some s
    go zero pos = absurd (omega arith)
    go (suc k) pos = until_null-append s (replicate k 0) h.no_null

-- The bytes of an ASCII text.
abbrev pub codes : String → List ℕ
codes String.[] = []
codes (String.◌∷◌ c s) = code c ∷ codes s

-- `std::strcmp(a, b) == 0`, and `std::strncmp(text, prefix, std::strlen(prefix)) == 0`.
unfoldable pub text_eq : List ℕ → List ℕ → Bool
text_eq [] [] = true
text_eq (a ∷ s) (b ∷ t) = a == b && text_eq s t
text_eq _ _ = false

unfoldable pub starts_with : List ℕ → List ℕ → Bool
starts_with [] text = true
starts_with (p ∷ ps) [] = false
starts_with (p ∷ ps) (c ∷ cs) = p == c && starts_with ps cs
