-- ===== src/Readable.antt =====
-- include/databento/ireadable.hpp: what a reader may expect of the stream that it reads from, and
-- src/file_stream.cpp: `InFileStream`, which keeps to it.
use databento_cpp.Base.{
  ℕ, zero, suc, ◌∷◌, ◌≤◌, ◌<◌, ◌≡◌, refl, arith, List, [], ◌++◌, length, take, drop, ◌==◌,
  if◌then◌else◌, take-append-drop, length-take, not,
}
use databento_cpp.Base.Results.{Result, ok, err, dbn_response, end_of_stream}

-- `rest` is what the stream has still to deliver. `ReadSome` delivers some of it in order, and
-- nothing only at its end; `ReadExact` delivers what it was asked for, where there is as much.
pub record Readable : Type 1 where
  pub Stream : Type 0
  pub rest : Stream → List ℕ
  pub read_some : ℕ → Stream → List ℕ × Stream
  pub read_exact : ℕ → Stream → Result (List ℕ × Stream)
  pub read_some_in_order :
      (n : ℕ) (s : Stream) → (read_some n s).0 ++ rest (read_some n s).1 ≡ rest s
  pub read_some_bounded : (n : ℕ) (s : Stream) → length (read_some n s).0 ≤ n
  pub read_some_progress : (n : ℕ) (s : Stream) → 0 < n → (read_some n s).0 ≡ [] → rest s ≡ []
  pub read_exact_enough :
      (n : ℕ) (s : Stream)
      → n ≤ length (rest s)
      → (s' : Stream) × (read_exact n s ≡ ok (take n (rest s), s')) × (rest s' ≡ drop n (rest s))

-- `InFileStream`: the bytes from the file's position on.
abbrev pub InFileStream : Type 0
InFileStream = List ℕ

unfoldable pub file_read_some : ℕ → InFileStream → List ℕ × InFileStream
file_read_some max_length s = (take max_length s, drop max_length s)

unfoldable pub file_read_exact : ℕ → InFileStream → Result (List ℕ × InFileStream)
file_read_exact n s =
    let (bytes, s') = file_read_some n s in
    if not (length bytes == n) then err (dbn_response end_of_stream) else ok (bytes, s')

pub file_progress : (n : ℕ) (s : InFileStream) → 0 < n → (file_read_some n s).0 ≡ [] → s ≡ []
unfolding file_read_some
file_progress zero s pos e = absurd (omega arith)
file_progress (suc n) [] pos e = refl
file_progress (suc n) (x ∷ s) pos e = absurd (cc)

pub file_exact :
    (n : ℕ) (s : InFileStream)
    → n ≤ length s
    → (s' : InFileStream) × (file_read_exact n s ≡ ok (take n s, s')) × (s' ≡ drop n s)
unfolding file_read_exact file_read_some
file_exact n s h = (drop n s, ground (arith, length-take n s), refl)

pub file_in_order :
    (n : ℕ) (s : InFileStream) → (file_read_some n s).0 ++ (file_read_some n s).1 ≡ s
unfolding file_read_some
file_in_order = take-append-drop

pub file_bounded : (n : ℕ) (s : InFileStream) → length (file_read_some n s).0 ≤ n
unfolding file_read_some
file_bounded n s = omega (arith, length-take n s)

-- `InFileStream` implements the interface.
abbrev pub file_readable : Readable
file_readable = record {
  Stream = InFileStream;
  rest = λ s. s;
  read_some = file_read_some;
  read_exact = file_read_exact;
  read_some_in_order = file_in_order;
  read_some_bounded = file_bounded;
  read_some_progress = file_progress;
  read_exact_enough = file_exact;
}
