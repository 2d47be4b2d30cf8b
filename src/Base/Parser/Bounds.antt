-- ===== src/Base/Parser/Bounds.antt =====
-- How far a parser reads: `Safe p n` if `n` bytes are enough for `p` to stay inside what it was
-- given, and `Takes p n` if it then also moves its pointer by `n`, whenever it returns.
use databento_cpp.Base.{
  ℕ, zero, suc, ◌+◌, ◌*◌, ◌≤◌, ◌≡◌, ◌≢◌, refl, sym, ◌∙◌, arith, Bool, List, ◌∷◌, ◌⊎◌, inl, inr,
  length, length-drop, ltb, Bool-cases, un_le,
}
use mathlib.Core.Path.{subst}
use databento_cpp.Base.Results.{Result, ok, err, overrun, Error, Reason, dbn_response}
use databento_cpp.Base.Parser.{
  Parser, ret, ◌>>=◌, ◌>>◌, consume, consume_int, skip, require, throw_if, times, >>=-ok,
}

pub record Safe {ℓ} {A : Type ℓ} (p : Parser A) (n : ℕ) : Type ℓ where
  pub stays : (s : List ℕ) → n ≤ length s → p s ≢ overrun

pub record Takes {ℓ} {A : Type ℓ} (p : Parser A) (n : ℕ) : Type ℓ where
  pub safe : Safe p n
  pub moves : (s : List ℕ) (a : A) (s' : List ℕ) → p s ≡ ok (a, s') → length s' + n ≡ length s

pub Result-cases {ℓ} :
    {A : Type ℓ} (r : Result A)
    → ((a : A) × (r ≡ ok a)) ⊎ (((e : Error) × (r ≡ err e)) ⊎ (r ≡ overrun))
Result-cases (ok a) = inl (a, refl)
Result-cases (err e) = inr (inl (e, refl))
Result-cases overrun = inr (inr refl)

pub consume-Takes : (n : ℕ) → Takes (consume n) n
unfolding consume
consume-Takes n = record {
  safe = record { stays = λ s h e. ground arith };
  moves = λ s a s' e. ground (arith, length-drop n s);
}

module _ {ℓ κ} {A : Type ℓ} {B : Type κ} (p : Parser A) (f : A → Parser B) where
  pub >>=-err : (s : List ℕ) (e : Error) → p s ≡ err e → (p >>= f) s ≡ err e
  >>=-err s e h = rw (h, ◌>>=◌)

  pub >>=-overrun : (s : List ℕ) → p s ≡ overrun → (p >>= f) s ≡ overrun
  >>=-overrun s h = rw (h, ◌>>=◌)

  pub >>=-Safe : (n m : ℕ) → Takes p n → ((a : A) → Safe (f a) m) → Safe (p >>= f) (n + m)
  >>=-Safe n m hp hf = record {
    stays = λ s h bad. elim (Result-cases (p s)) [
      | inl ((a, s'), e) ↦
          (hf a).stays s' (omega (arith, hp.moves s a s' e)) (sym (>>=-ok p f s e) ∙ bad)
      | inr (inl (x, e)) ↦ cc (>>=-err s x e)
      | inr (inr e) ↦ hp.safe.stays s (omega arith) e
    ];
  }

  -- Where what follows checks its own bounds, only the first part counts.
  pub >>=-Safe_checked : (n : ℕ) → Safe p n → ((a : A) → Safe (f a) 0) → Safe (p >>= f) n
  >>=-Safe_checked n hp hf = record {
    stays = λ s h bad. elim (Result-cases (p s)) [
      | inl ((a, s'), e) ↦ (hf a).stays s' (omega arith) (sym (>>=-ok p f s e) ∙ bad)
      | inr (inl (x, e)) ↦ cc (>>=-err s x e)
      | inr (inr e) ↦ hp.stays s h e
    ];
  }

  pub >>=-Takes : (n m : ℕ) → Takes p n → ((a : A) → Takes (f a) m) → Takes (p >>= f) (n + m)
  >>=-Takes n m hp hf = record {
    safe = >>=-Safe n m hp (λ a. (hf a).safe);
    moves = λ s b s'' good. elim (Result-cases (p s)) [
      | inl ((a, s'), e) ↦
          omega (arith, hp.moves s a s' e, (hf a).moves s' b s'' (sym (>>=-ok p f s e) ∙ good))
      | inr (inl (x, e)) ↦ absurd (cc (>>=-err s x e))
      | inr (inr e) ↦ absurd (cc (>>=-overrun s e))
    ];
  }

pub ret-Takes {ℓ} : {A : Type ℓ} (a : A) → Takes (ret a) 0
ret-Takes a = record { safe = record { stays = λ s h e. cc }; moves = λ s b s' e. ground arith }

pub Takes-eq {ℓ} : {A : Type ℓ} (p : Parser A) {n m : ℕ} → n ≡ m → Takes p n → Takes p m
Takes-eq p e h = subst (Takes p) e h

pub Safe-le {ℓ} : {A : Type ℓ} (p : Parser A) {n m : ℕ} → n ≤ m → Safe p n → Safe p m
Safe-le p l h = record { stays = λ s k. h.stays s (omega arith) }

pub consume_int-Takes : (width : ℕ) → Takes (consume_int width) width
unfolding consume_int
consume_int-Takes width =
    Takes-eq (consume_int width) (omega arith)
      (>>=-Takes (consume width) _ width 0 (consume-Takes width) (λ bytes. ret-Takes (un_le bytes)))

pub skip-Takes : (n : ℕ) → Takes (skip n) n
unfolding skip
skip-Takes n =
    Takes-eq (skip n) (omega arith)
      (>>=-Takes (consume n) _ n 0 (consume-Takes n) (λ bytes. ret-Takes tt))

pub throw_if-Safe : (bad : Bool) (why : Reason) → Safe (throw_if bad why) 0
unfolding throw_if
throw_if-Safe bad why = record { stays = λ s h e. ground arith }

-- A check of `n` makes up for what is not known of the length.
pub require-Safe {ℓ} :
    {A : Type ℓ} (n : ℕ) (why : Reason) (p : Parser A) → Safe p n → Safe (require n why >> p) 0
unfolding require
require-Safe n why p h = record {
  stays = λ s _ bad. elim (Bool-cases (ltb (length s) n)) [
    | inl short ↦ cc (>>=-err (require n why) (λ _. p) s (dbn_response why) (rw short))
    | inr enough ↦
        h.stays s (ground arith) (sym (>>=-ok (require n why) (λ _. p) s (rw enough)) ∙ bad)
  ];
}

pub times-Safe {ℓ} :
    {A : Type ℓ} (p : Parser A) (n : ℕ) → Takes p n → (k : ℕ) → Safe (times k p) (k * n)
unfolding times
times-Safe p n h zero = record { stays = λ s _ e. cc }
times-Safe p n h (suc k) = Safe-le (times (suc k) p) (omega arith) (
    >>=-Safe p _ n (k * n) h (λ x.
      >>=-Safe_checked (times k p) _ (k * n) (times-Safe p n h k)
        (λ xs. (ret-Takes (x ∷ xs)).safe)))

pub times-Safe_checked {ℓ} : {A : Type ℓ} (p : Parser A) → Safe p 0 → (k : ℕ) → Safe (times k p) 0
unfolding times
times-Safe_checked p h zero = record { stays = λ s _ e. cc }
times-Safe_checked p h (suc k) = >>=-Safe_checked p _ 0 h (λ x.
    >>=-Safe_checked (times k p) _ 0 (times-Safe_checked p h k) (λ xs. (ret-Takes (x ∷ xs)).safe))
