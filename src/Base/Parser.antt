-- ===== src/Base/Parser.antt =====
-- Reading through a moving pointer, as `Consume(buf)` and its callers in src/dbn_decoder.cpp do. The
-- state is the bytes from the pointer to the end of what the caller passed: taking more of them
-- than are there is `overrun`.
pub mod Bounds
use databento_cpp.Base.{
  ℕ, zero, suc, ◌≤◌, ◌≡◌, refl, sym, ◌∙◌, ap, arith, Bool, true, false, List, [], ◌∷◌, ◌++◌,
  append-nil, append_assoc, length, take, drop, ltb, if◌then◌else◌, take-append, drop-append,
  length-append, le, un_le, length-le, un_le-le, le→ltb, All, concat_map, ◌+◌, ◌^◌, ◌<◌, Bool-cases,
  inl, inr,
}
use databento_cpp.Base.Results
use databento_cpp.Base.Results.{Result, ok, err, overrun, Error, dbn_response, Reason}

abbrev pub Parser {ℓ} : Type ℓ → Type ℓ
Parser A = List ℕ → Result (A × List ℕ)

abbrev pub ret {ℓ} : {A : Type ℓ} → A → Parser A
ret a s = ok (a, s)

infixl 5 ◌>>=◌ ◌>>◌
abbrev pub ◌>>=◌ {ℓ κ} : {A : Type ℓ} {B : Type κ} → Parser A → (A → Parser B) → Parser B
◌>>=◌ m f s = elim (m s) [ ok (a, s') ↦ f a s' | err e ↦ err e | overrun ↦ overrun ]

abbrev pub ◌>>◌ {ℓ} : {B : Type ℓ} → Parser (Unit {0}) → Parser B → Parser B
m >> k = m >>= λ _. k

-- `Consume(buf, num_bytes)`
unfoldable pub consume : ℕ → Parser (List ℕ)
consume n s = if ltb (length s) n then overrun else ok (take n s, drop n s)

-- `Consume<T>(buf)` of an unsigned integer of `width` bytes.
unfoldable pub consume_int : ℕ → Parser ℕ
consume_int width = do bytes ← consume width; ret (un_le bytes)

-- `buf += n`
unfoldable pub skip : ℕ → Parser (Unit {0})
skip n = do bytes ← consume n; ret tt

-- `if (buf + n > buf_end) throw`
unfoldable pub require : ℕ → Reason → Parser (Unit {0})
require n why s = if ltb (length s) n then err (dbn_response why) else ok (tt, s)

unfoldable pub throw_if : Bool → Reason → Parser (Unit {0})
throw_if bad why s = if bad then err (dbn_response why) else ok (tt, s)

-- `for (i = 0; i < count; ++i) res.emplace_back(p())`
unfoldable pub times {ℓ} : {A : Type ℓ} → ℕ → Parser A → Parser (List A)
times zero p = ret []
times (suc n) p = do x ← p; xs ← times n p; ret (x ∷ xs)

-- `p` reads exactly `bytes`, whatever follows them, and returns `a`.
pub record Reads {ℓ} {A : Type ℓ} (p : Parser A) (bytes : List ℕ) (a : A) : Type ℓ where
  pub before : (rest : List ℕ) → p (bytes ++ rest) ≡ ok (a, rest)

pub >>=-ok {ℓ κ} :
    {A : Type ℓ} {B : Type κ} (p : Parser A) (f : A → Parser B) (s : List ℕ) {a : A} {s' : List ℕ}
    → p s ≡ ok (a, s')
    → (p >>= f) s ≡ f a s'
>>=-ok p f s h = rw (h, ◌>>=◌)

pub consume-Reads : (n : ℕ) (bytes : List ℕ) → length bytes ≡ n → Reads (consume n) bytes bytes
unfolding consume
consume-Reads n bytes h = record {
  before = λ rest.
      ground
        (arith, length-append bytes rest, take-append n bytes rest h, drop-append n bytes rest h);
}

module _ {ℓ κ} {A : Type ℓ} {B : Type κ} where
  pub >>=-Reads :
      (p : Parser A) (f : A → Parser B) {xs ys : List ℕ} {a : A} {b : B}
      → Reads p xs a
      → Reads (f a) ys b
      → Reads (p >>= f) (xs ++ ys) b
  >>=-Reads p f {xs} {ys} {a} {b} hp hf = record {
    before = λ rest.
        rw (append_assoc xs ys rest) (>>=-ok p f _ (hp.before (ys ++ rest)) ∙ hf.before rest);
  }

  -- The last step of a `do` block.
  pub ret-Reads :
      (p : Parser A) (f : A → B) {xs : List ℕ} {a : A}
      → Reads p xs a
      → Reads (p >>= λ x. ret (f x)) xs (f a)
  ret-Reads p f hp = record { before = λ rest. >>=-ok p (λ x. ret (f x)) _ (hp.before rest) }

pub consume_int-Reads : (width n : ℕ) → n < 256 ^ width → Reads (consume_int width) (le width n) n
unfolding consume_int
consume_int-Reads width n h = record {
  before = λ rest.
      (ret-Reads (consume width) un_le
          (consume-Reads width (le width n) (length-le width n))).before
        rest
      ∙ ap (λ k. ok (k, rest)) (un_le-le width n h);
}

pub skip-Reads : (n : ℕ) (bytes : List ℕ) → length bytes ≡ n → Reads (skip n) bytes tt
unfolding skip
skip-Reads n bytes h = ret-Reads (consume n) (λ _. tt) (consume-Reads n bytes h)

pub throw_if-Reads : (why : Reason) → Reads (throw_if false why) [] tt
unfolding throw_if
throw_if-Reads why = record { before = λ rest. refl }

-- A check of the length that remains is passed where the bytes to read are long enough.
pub require-Reads {ℓ} :
    {A : Type ℓ} (n : ℕ) (why : Reason) (p : Parser A) {bytes : List ℕ} {a : A}
    → n ≤ length bytes
    → Reads p bytes a
    → Reads (require n why >> p) bytes a
unfolding require
require-Reads n why p {bytes} {a} h hp = record {
  before = λ rest.
      >>=-ok (require n why) (λ _. p) (bytes ++ rest)
        (rw (le→ltb (length (bytes ++ rest)) n (omega (arith, length-append bytes rest))))
      ∙ hp.before rest;
}

-- A counted loop reads the concatenation of what its rounds read.
pub times-Reads {ℓ} :
    {A : Type ℓ} (p : Parser A) (encode : A → List ℕ) (P : A → Type 0)
    → ((a : A) → P a → Reads p (encode a) a)
    → (xs : List A) → All P xs
    → Reads (times (length xs) p) (concat_map encode xs) xs
unfolding times
times-Reads p encode P h [] hs = record { before = λ rest. refl }
times-Reads p encode P h (x ∷ xs) (hx, hs) =
    >>=-Reads p (λ y. times (length xs) p >>= λ ys. ret (y ∷ ys)) (h x hx)
      (ret-Reads (times (length xs) p) (λ ys. x ∷ ys) (times-Reads p encode P h xs hs))
