-- ===== src/Base/Arrays.antt =====
-- Slices of an array, before and after a copy into it.
use Prim.Native.Nat.{ℕ, zero, suc, ◌+◌, ◌-◌, ◌≤◌, min}
use mathlib.Core.Path.{◌≡◌, refl, ap}
use mathlib.Core.List.{List, [], ◌∷◌, ◌++◌}
use native.Mathlib.Omega.{arith}
use databento_cpp.Base.Lists.{length, take, drop, slice, overwrite, length-take, length-drop}

module _ {ℓ} {A : Type ℓ} where
  pub length-overwrite :
      (xs : List A) (i : ℕ) (ds : List A) → length (overwrite xs i ds) ≡ length xs
  unfolding overwrite
  length-overwrite [] i ds = refl
  length-overwrite (x ∷ xs) (suc i) ds = ap suc (length-overwrite xs i ds)
  length-overwrite (x ∷ xs) zero [] = refl
  length-overwrite (x ∷ xs) zero (d ∷ ds) = ap suc (length-overwrite xs zero ds)

  pub length-slice : (lo n : ℕ) (xs : List A) → length (slice lo n xs) ≡ min n (length xs - lo)
  length-slice lo n xs = omega (arith, length-take n (drop lo xs), length-drop lo xs)

  -- What a copy wrote at the front.
  take-overwrite :
      (xs ds : List A) → length ds ≤ length xs → take (length ds) (overwrite xs zero ds) ≡ ds
  unfolding overwrite
  take-overwrite [] [] h = refl
  take-overwrite [] (d ∷ ds) h = absurd (omega arith)
  take-overwrite (x ∷ xs) [] h = refl
  take-overwrite (x ∷ xs) (d ∷ ds) h = ap (λ t. d ∷ t) (take-overwrite xs ds (omega arith))

  -- A copy just behind the first `n` elements extends them by what it wrote.
  take-overwrite_behind :
      (n : ℕ) (xs ds : List A)
      → n + length ds ≤ length xs
      → take (n + length ds) (overwrite xs n ds) ≡ take n xs ++ ds
  unfolding overwrite
  take-overwrite_behind zero xs ds h = rw (plain) (take-overwrite xs ds (omega arith))
    where
      plain : zero + length ds ≡ length ds
      plain = omega arith
  take-overwrite_behind (suc n) [] ds h = absurd (omega arith)
  take-overwrite_behind (suc n) (x ∷ xs) ds h =
      rw (shift) (ap (λ t. x ∷ t) (take-overwrite_behind n xs ds (omega arith)))
    where
      shift : suc n + length ds ≡ suc (n + length ds)
      shift = omega arith

  pub slice-overwrite_behind :
      (lo n : ℕ) (xs ds : List A)
      → lo + n + length ds ≤ length xs
      → slice lo (n + length ds) (overwrite xs (lo + n) ds) ≡ slice lo n xs ++ ds
  unfolding overwrite
  slice-overwrite_behind zero n xs ds h = rw (plain) (take-overwrite_behind n xs ds (omega arith))
    where
      plain : zero + n ≡ n
      plain = omega arith
  slice-overwrite_behind (suc lo) n [] ds h = absurd (omega arith)
  slice-overwrite_behind (suc lo) n (x ∷ xs) ds h =
      rw (shift) (slice-overwrite_behind lo n xs ds (omega arith))
    where
      shift : suc lo + n ≡ suc (lo + n)
      shift = omega arith

  pub slice-overwrite_front :
      (n : ℕ) (xs ds : List A)
      → length ds ≡ n
      → n ≤ length xs
      → slice zero n (overwrite xs zero ds) ≡ ds
  slice-overwrite_front n xs ds e h = rw (← e) (take-overwrite xs ds (omega arith))

  -- Consuming from the front of a slice.
  pub slice-drop :
      (lo n k : ℕ) (xs : List A) → k ≤ n → slice (lo + k) (n - k) xs ≡ drop k (slice lo n xs)
  slice-drop zero n zero xs h = rw (plain, whole)
    where
      plain : zero + zero ≡ zero
      plain = omega arith

      whole : n - zero ≡ n
      whole = omega arith
  slice-drop zero zero (suc k) xs h = absurd (omega arith)
  slice-drop zero (suc n) (suc k) [] h = rw (plain) (nil (suc n - suc k))
    where
      plain : zero + suc k ≡ suc k
      plain = omega arith

      nil : (m : ℕ) → take {A = A} m [] ≡ []
      nil zero = refl
      nil (suc m) = refl
  slice-drop zero (suc n) (suc k) (x ∷ xs) h =
      rw (plain, less) (rw (up) at (slice-drop zero n k xs (omega arith)))
    where
      plain : zero + suc k ≡ suc k
      plain = omega arith

      less : suc n - suc k ≡ n - k
      less = omega arith

      up : zero + k ≡ k
      up = omega arith
  slice-drop (suc lo) n k [] h = rw (shift) (empty n k (n - k))
    where
      shift : suc lo + k ≡ suc (lo + k)
      shift = omega arith

      empty : (m j i : ℕ) → take {A = A} i [] ≡ drop j (take m [])
      empty zero zero zero = refl
      empty zero zero (suc i) = refl
      empty zero (suc j) zero = refl
      empty zero (suc j) (suc i) = refl
      empty (suc m) zero zero = refl
      empty (suc m) zero (suc i) = refl
      empty (suc m) (suc j) zero = refl
      empty (suc m) (suc j) (suc i) = refl
  slice-drop (suc lo) n k (x ∷ xs) h = rw (shift) (slice-drop lo n k xs h)
    where
      shift : suc lo + k ≡ suc (lo + k)
      shift = omega arith

  pub slice-overwrite_at :
      (lo n i : ℕ) (xs ds : List A)
      → i ≡ lo + n
      → i + length ds ≤ length xs
      → slice lo (n + length ds) (overwrite xs i ds) ≡ slice lo n xs ++ ds
  slice-overwrite_at lo n i xs ds e h = rw (e) (slice-overwrite_behind lo n xs ds (omega arith))

  pub take-take : (k n : ℕ) (xs : List A) → k ≤ n → take k (take n xs) ≡ take k xs
  take-take zero n xs h = refl
  take-take (suc k) zero xs h = absurd (omega arith)
  take-take (suc k) (suc n) [] h = refl
  take-take (suc k) (suc n) (x ∷ xs) h = ap (λ t. x ∷ t) (take-take k n xs (omega arith))
