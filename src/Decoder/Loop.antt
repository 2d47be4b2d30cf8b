-- ===== src/Decoder/Loop.antt =====
-- The loop of `DecodeRecord`, which fills the buffer until a record is whole.
use databento_cpp.Base.{
  ℕ, zero, suc, ◌+◌, ◌≤◌, ◌<◌, ◌≡◌, refl, sym, ap, ◌∙◌, arith, Bool, true, false, some, ◌∷◌, ◌++◌,
  length, ltb, ◌==◌, if◌then◌else◌, Bool-cases, inl, inr, append-nil, lt→ltb, ltb→lt,
}
use mathlib.Core.Path.{subst}
use databento_cpp.Readable.{Readable}
use databento_cpp.Buffer.{read_capacity, unread}
use databento_cpp.Buffer.Contents.{length-unread}
use databento_cpp.Upgrade.{record_size, head_or_zero}
use databento_cpp.Decoder.{Decoder, at_read_pos, fill_buffer, warn_partial, fill_record}
use databento_cpp.Decoder.Fill.{
  stream, IsReady, Filled, Settled, fill_buffer-Filled, record_size-stream,
}

module _ (r : Readable) where
  open r use {Stream, rest}

  -- The three ways through the loop's body.
  fill_record-held :
      (fuel : ℕ) (d : Decoder Stream)
      → ltb (read_capacity d.buffer) (record_size (at_read_pos d.buffer)) ≡ false
      → fill_record r (suc fuel) d ≡ some (true, d)
  unfolding fill_record
  fill_record-held fuel d e = rw (e) refl

  fill_record-ended :
      (fuel : ℕ) (d : Decoder Stream)
      → ltb (read_capacity d.buffer) (record_size (at_read_pos d.buffer)) ≡ true
      → (fill_buffer r d).0 ≡ 0
      → fill_record r (suc fuel) d ≡ some (false, warn_partial r (fill_buffer r d).1)
  unfolding fill_record
  fill_record-ended fuel d e n = rw (e, n) refl

  fill_record-more :
      (fuel : ℕ) (d : Decoder Stream)
      → ltb (read_capacity d.buffer) (record_size (at_read_pos d.buffer)) ≡ true
      → ((fill_buffer r d).0 == 0) ≡ false
      → fill_record r (suc fuel) d ≡ fill_record r fuel (fill_buffer r d).1
  unfolding fill_record
  fill_record-more fuel d e n = rw (e, n) refl

  warn_partial_lem :
      (d : Decoder Stream)
      → 0 < read_capacity d.buffer
      → warn_partial r d ≡ record d { warnings = read_capacity d.buffer ∷ d.warnings }
  unfolding warn_partial
  warn_partial_lem d pos = rw (lt→ltb 0 (read_capacity d.buffer) pos) refl

  -- A loop that settles from the buffer filled once more settles.
  Settled-after :
      {d : Decoder Stream} {n : ℕ} {d' : Decoder Stream} {whole : Bool} {d'' : Decoder Stream}
      → Filled r d n d'
      → Settled r d' whole d''
      → Settled r d whole d''
  Settled-after {d} {n} {d'} {whole} {d''} f s = record {
    ready = s.ready;
    same_stream = s.same_stream ∙ f.same_stream;
    some_unread = s.some_unread;
    held =
        subst (λ u. whole ≡ true → record_size u ≤ read_capacity d''.buffer) f.same_stream s.held;
    short = subst (λ u. whole ≡ false → length u < record_size u) f.same_stream s.short;
    warned =
        subst (λ w. d''.warnings ≡ (if whole then w else length (stream r d) ∷ w)) f.same_warnings
          (subst (λ u. d''.warnings ≡ (if whole then d'.warnings else length u ∷ d'.warnings))
            f.same_stream s.warned);
    same_settings = s.same_settings ∙ f.same_settings;
  }

  -- The input ends within a record.
  Settled-ended :
      {d : Decoder Stream} {d' : Decoder Stream}
      → IsReady r d
      → 0 < read_capacity d.buffer
      → read_capacity d.buffer < record_size (at_read_pos d.buffer)
      → Filled r d 0 d'
      → Settled r d false (warn_partial r d')
  Settled-ended {d} {d'} h pos small f =
      let all_read : stream r d ≡ unread d'.buffer =
        sym f.same_stream
        ∙ ap (λ u. unread d'.buffer ++ u) (f.ended refl)
        ∙ append-nil (unread d'.buffer) in
      let len : length (stream r d) ≡ read_capacity d'.buffer =
        ap length all_read ∙ length-unread f.ready.valid in
      let pos' : 0 < read_capacity d'.buffer = omega (arith, f.more) in
      rw (warn_partial_lem d' pos') (record {
        ready = record { valid = f.ready.valid; large = f.ready.large };
        same_stream = f.same_stream;
        some_unread = pos';
        held = λ e. absurd (cc);
        short = λ e. omega (arith, f.more, len, record_size-stream r d h pos);
        warned = rw (len, f.same_warnings) refl;
        same_settings = f.same_settings;
      })

  -- The loop of `DecodeRecord`, from a valid buffer that is larger than any record and holds a
  -- byte, where the stream's first element is a byte, with some fuel and more than 1020 of it and
  -- of unread bytes together: it ends, either with the whole record in the buffer or at the end of
  -- an input that holds less, which is reported. It loses no byte and changes no setting.
  pub fill_record-Settled :
      (fuel : ℕ) (d : Decoder Stream)
      → IsReady r d
      → 0 < read_capacity d.buffer
      → head_or_zero (stream r d) < 256
      → 0 < fuel
      → 1020 < fuel + read_capacity d.buffer
      → (whole : Bool) × (d' : Decoder Stream) × (fill_record r fuel d ≡ some (whole, d'))
        × Settled r d whole d'
  fill_record-Settled zero d h pos byte some_fuel enough = absurd (omega arith)
  fill_record-Settled (suc fuel) d h pos byte some_fuel enough =
      let rc = read_capacity d.buffer in
      let size = record_size (at_read_pos d.buffer) in
      let d' = (fill_buffer r d).1 in
      let n = (fill_buffer r d).0 in
      let same = record_size-stream r d h pos in
      elim (Bool-cases (ltb rc size)) [
        | inr e ↦ (
          true,
          d,
          fill_record-held fuel d e,
          record {
            ready = h;
            same_stream = refl;
            some_unread = pos;
            held = λ t. ground (arith, same);
            short = λ t. absurd (cc);
            warned = refl;
            same_settings = refl;
          },
        )
        | inl e ↦
            let small : rc < size = ltb→lt rc size e in
            let f : Filled r d n d' = fill_buffer-Filled r d h (omega (arith, same)) in
            elim (Bool-cases (n == 0)) [
              | inl z ↦
                  let n0 : n ≡ 0 = ground arith in
                  (
                    false,
                    warn_partial r d',
                    fill_record-ended fuel d e n0,
                    Settled-ended h pos small (subst (λ k. Filled r d k d') n0 f),
                  )
              | inr z ↦
                  let n1 : 0 < n = ground arith in
                  let byte' : head_or_zero (stream r d') < 256 =
                    subst (λ u. head_or_zero u < 256) (sym f.same_stream) byte in
                  let (whole, d'', runs, s) =
                    fill_record-Settled fuel d' f.ready (omega (arith, f.more)) byte'
                      (omega (arith, same)) (omega (arith, f.more)) in
                  (whole, d'', fill_record-more fuel d e z ∙ runs, Settled-after f s)
            ]
      ]
