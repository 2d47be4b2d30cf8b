-- ===== src/LiveBlocking/Reader/Opening/Exact.antt =====
-- `ReadExact` takes the first bytes that arrive, where there are enough.
use databento_cpp.Base.{
  ℕ, zero, suc, ◌-◌, ◌≤◌, ◌≡◌, refl, sym, ◌∙◌, arith, some, List, [], ◌∷◌, length, take, drop, All,
  ltb, inl, inr, Bool-cases, length-append, take-append_le, drop-append_le, take-append_ge,
  drop-append_ge, ltb→lt,
}
use databento_cpp.Base.Results.{ok}
use databento_cpp.LiveBlocking.Reader.{Arrival, bytes, timeout, closed, left_over}
use databento_cpp.LiveBlocking.Reader.Fill.{
  arriving, HasBytes, arriving-left_over, HasBytes-left_over,
}
use databento_cpp.LiveBlocking.Reader.Opening.{read_exact}

-- What a read of `n` bytes took, and what is left.
pub record Taken (n : ℕ) (connection later : List Arrival) : Type 0 where
  pub left : arriving later ≡ drop n (arriving connection)
  pub some_bytes : All HasBytes later

-- `ReadExact` returns the next `n` bytes, where as many will arrive before the session closes.
pub read_exact-Taken :
    (n : ℕ) (connection : List Arrival)
    → All HasBytes connection
    → n ≤ length (arriving connection)
    → (later : List Arrival) × (read_exact n connection
        ≡ some (ok (take n (arriving connection), later)))
      × Taken n connection later
unfolding read_exact
read_exact-Taken zero connection h enough =
    (connection, refl, record { left = refl; some_bytes = h })
read_exact-Taken (suc n) [] h enough = absurd (omega arith)
read_exact-Taken (suc n) (closed ∷ later) h enough = absurd (omega arith)
read_exact-Taken (suc n) (timeout time ∷ later) (_, h) enough =
    let (l, e, t) = read_exact-Taken (suc n) later h enough in
    (l, e, record { left = t.left; some_bytes = t.some_bytes })
read_exact-Taken (suc n) (bytes sent time ∷ later) (_, h) enough =
    elim (Bool-cases (ltb (length sent) (suc n))) [
      | inl small ↦
          let (l, e, t) = read_exact-Taken (suc n - length sent) later h (
            omega
              (arith, length-append sent (arriving later), ltb→lt (length sent) (suc n) small)) in
          let le : length sent ≤ suc n = omega (arith, ltb→lt (length sent) (suc n) small) in
          (
            l,
            rw (small, e, take-append_ge (suc n) sent (arriving later) le) refl,
            record {
              left = t.left ∙ sym (drop-append_ge (suc n) sent (arriving later) le);
              some_bytes = t.some_bytes;
            },
          )
      | inr large ↦
          let le : suc n ≤ length sent = ground (arith, large) in
          let rest = drop (suc n) sent in
          (
            left_over rest time later,
            rw (large, take-append_le (suc n) sent (arriving later) le) refl,
            record {
              left =
                  arriving-left_over rest time later
                  ∙ sym (drop-append_le (suc n) sent (arriving later) le);
              some_bytes = HasBytes-left_over rest time later h;
            },
          )
    ]
