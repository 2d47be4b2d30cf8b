-- ===== src/Decoder/Next.antt =====
-- `DbnDecoder::DecodeRecord` gives the next record of the stream's bytes.
use databento_cpp.Base.{
  ℕ, ◌<◌, ◌≡◌, refl, sym, ap, ◌∙◌, arith, inl, inr, true, false, Option, none, some, length, ◌==◌,
  if◌then◌else◌, Bool-cases, length-append,
}
use mathlib.Core.Path.{subst}
use databento_cpp.Base.Results.{Result, ok}
use databento_cpp.Readable.{Readable}
use databento_cpp.Buffer.{read_capacity, unread}
use databento_cpp.Buffer.Contents.{length-unread}
use databento_cpp.Upgrade.{Bytes, head_or_zero}
use databento_cpp.Decoder.{
  Decoder, fill_buffer, fill_record, decode_record, decode_fuel, finish_record,
}
use databento_cpp.Decoder.Fill.{stream, IsReady, Filled, fill_buffer-Filled}
use databento_cpp.Decoder.Records.{
  next_record, warned, Ended, Outcome, settled_result, deliver-settings,
}

module _ (r : Readable) where
  open r use {Stream, rest}

  -- An outcome from the buffer filled once more is an outcome.
  Outcome-after :
      {d : Decoder Stream} {n : ℕ} {d' : Decoder Stream}
      (result : Option (Result (Option Bytes × Decoder Stream)))
      → Filled r d n d'
      → Outcome r d' result
      → Outcome r d result
  Outcome-after {d} {n} {d'} result f (inl e) = inl (record {
    after = e.after;
    returned = e.returned;
    no_record = ap next_record (sym f.same_stream) ∙ e.no_record;
    ready = e.ready;
    same_stream = e.same_stream ∙ f.same_stream;
    told =
        e.told
        ∙ ap (λ s. warned s d'.warnings) f.same_stream
        ∙ ap (warned (stream r d)) f.same_warnings;
    same_settings = e.same_settings ∙ f.same_settings;
  })
  Outcome-after {d} {n} {d'} result f (inr e) = inr (record {
    after = e.after;
    memory = e.memory;
    returned = e.returned ∙ ap some (deliver-settings r d d' e.memory e.after f.same_settings);
    is_next = ap next_record (sym f.same_stream) ∙ e.is_next;
    ready = e.ready;
    quiet = e.quiet ∙ f.same_warnings;
    same_settings = e.same_settings ∙ f.same_settings;
  })

  -- Nothing is unread, and the input has ended.
  Ended-empty :
      {d d' : Decoder Stream}
      → read_capacity d.buffer ≡ 0
      → Filled r d 0 d'
      → Ended r d (some (ok (none, d')))
  Ended-empty {d} {d'} empty f =
      let none_left : length (stream r d) ≡ 0 = omega (
        arith,
        ap length f.same_stream,
        length-append (unread d'.buffer) (rest d'.input),
        ap length (f.ended refl),
        length-unread f.ready.valid,
        f.more,
      ) in
      record {
        after = d';
        returned = refl;
        no_record = ground arith;
        ready = f.ready;
        same_stream = f.same_stream;
        told = f.same_warnings ∙ ground arith;
        same_settings = f.same_settings;
      }

  decode_record-held :
      (d : Decoder Stream)
      → (read_capacity d.buffer == 0) ≡ false
      → decode_record r d ≡ finish_record r (fill_record r decode_fuel d)
  unfolding decode_record
  decode_record-held d e = rw (e) refl

  decode_record-empty :
      (d : Decoder Stream)
      → (read_capacity d.buffer == 0) ≡ true
      → decode_record r d ≡ (
          if (fill_buffer r d).0 == 0
          then some (ok (none, (fill_buffer r d).1))
          else finish_record r (fill_record r decode_fuel (fill_buffer r d).1))
  unfolding decode_record
  decode_record-empty d e = rw (e) refl

  -- `DecodeRecord` on a decoder whose buffer is valid and larger than any record, where the
  -- stream's first element, if it has one, is a byte. Where the bytes in the buffer and those that
  -- the input has still to deliver begin with a whole record, that record is delivered (as it is,
  -- or through the upgrade), and exactly the bytes behind it are left; where they do not, no record
  -- is returned, no byte is lost, and a partial record is reported. The fuel is always enough, and
  -- how the input splits its bytes into reads does not matter.
  pub decode_record-Outcome :
      (d : Decoder Stream)
      → IsReady r d
      → head_or_zero (stream r d) < 256
      → Outcome r d (decode_record r d)
  decode_record-Outcome d h byte =
      let d' = (fill_buffer r d).1 in
      let n = (fill_buffer r d).0 in
      elim (Bool-cases (read_capacity d.buffer == 0)) [
        | inr e ↦
            subst (Outcome r d) (sym (decode_record-held d e))
              (settled_result r h (ground arith) byte)
        | inl e ↦
            let empty : read_capacity d.buffer ≡ 0 = ground arith in
            let f : Filled r d n d' = fill_buffer-Filled r d h (omega arith) in
            subst (Outcome r d) (sym (decode_record-empty d e)) (elim (Bool-cases (n == 0)) [
              | inl z ↦
                  let n0 : n ≡ 0 = ground arith in
                  rw (z) (inl (Ended-empty empty (subst (λ k. Filled r d k d') n0 f)))
              | inr z ↦
                  let byte' : head_or_zero (stream r d') < 256 =
                    subst (λ u. head_or_zero u < 256) (sym f.same_stream) byte in
                  let pos : 0 < read_capacity d'.buffer = ground (arith, f.more) in
                  rw (z) (
                    Outcome-after (finish_record r (fill_record r decode_fuel d')) f
                      (settled_result r f.ready pos byte'))
            ])
      ]
