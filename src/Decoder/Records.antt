-- ===== src/Decoder/Records.antt =====
-- The records that the stream's bytes hold, and the two ways in which `DbnDecoder::DecodeRecord` may end.
use databento_cpp.Base.{
  ℕ, ◌+◌, ◌-◌, ◌≤◌, ◌<◌, ◌≡◌, refl, sym, ap, ◌∙◌, arith, ◌⊎◌, inl, inr, Bool, true, false, Option,
  none, some, List, [], ◌∷◌, ◌++◌, length, take, drop, ltb, ◌==◌, if◌then◌else◌, length-append,
  take-append_le, drop-append_le, take-take, slice-drop,
}
use mathlib.Core.Path.{subst}
use databento_cpp.Base.Results.{Result, ok, ◌>>=◌}
use databento_cpp.Readable.{Readable}
use databento_cpp.Buffer
use databento_cpp.Buffer.{Buffer, capacity, read_capacity, unread}
use databento_cpp.Buffer.Bounds.{IsValid, consume-IsValid}
use databento_cpp.Buffer.Contents.{length-unread}
use databento_cpp.Upgrade.{Bytes, record_size, head_or_zero}
use databento_cpp.Upgrade.Dispatch.{decode_record_compat}
use databento_cpp.Decoder.{
  Decoder, at_read_pos, fill_record, take_record, decode_fuel, finish_record,
}
use databento_cpp.Decoder.Fill.{
  record_size-append, record_size-unread, stream, settings, IsReady, Settled, record_size-stream,
}
use databento_cpp.Decoder.Loop.{fill_record-Settled}

-- The first record of a stream and the bytes behind it, where the stream holds a whole record.
abbrev pub next_record : Bytes → Option (Bytes × Bytes)
next_record s =
    if length s == 0
    then none
    else if ltb (length s) (record_size s)
    then none
    else some (take (record_size s) s, drop (record_size s) s)

-- What the log receiver has been told once the stream has ended.
abbrev pub warned : Bytes → List ℕ → List ℕ
warned s before = if length s == 0 then before else length s ∷ before

pub unread-consume :
    (b : Buffer) (n : ℕ) → n ≤ read_capacity b → unread (Buffer.consume n b) ≡ drop n (unread b)
unfolding Buffer.consume
unread-consume b n h = rw (less) (slice-drop b.read_pos (b.write_pos - b.read_pos) n b.mem h)
  where
    less : b.write_pos - (b.read_pos + n) ≡ b.write_pos - b.read_pos - n
    less = omega arith

head_or_zero-zero : (xs : Bytes) → length xs ≡ 0 → record_size xs ≡ 0
head_or_zero-zero [] e = refl
head_or_zero-zero (x ∷ xs) e = absurd (omega arith)

pub next_record-none : (s : Bytes) → length s < record_size s → next_record s ≡ none
next_record-none s h = ground (arith, head_or_zero-zero s)

pub next_record-some :
    (s : Bytes)
    → 0 < length s
    → record_size s ≤ length s
    → next_record s ≡ some (take (record_size s) s, drop (record_size s) s)
next_record-some s pos h = ground arith

-- The record that a buffer holds as a whole is the first one of its bytes and any others.
pub next_record-whole :
    (b : Buffer) (future : Bytes)
    → IsValid b
    → 0 < read_capacity b
    → record_size (at_read_pos b) ≤ read_capacity b
    → next_record (unread b ++ future)
      ≡ some (
        take (record_size (at_read_pos b)) (at_read_pos b),
        unread (Buffer.consume (record_size (at_read_pos b)) b) ++ future,
      )
next_record-whole b future v pos fits =
    let memory = at_read_pos b in
    let size = record_size memory in
    let len = length-unread v in
    let whole : size ≤ length (unread b) = omega (arith, len) in
    let left : unread (Buffer.consume size b) ++ future ≡ drop size (unread b ++ future) =
      ap (λ u. u ++ future) (unread-consume b size fits)
      ∙ sym (drop-append_le size (unread b) future whole) in
    let front : take size (unread b ++ future) ≡ take size memory =
      take-append_le size (unread b) future whole ∙ take-take size (read_capacity b) memory fits in
    let size_here : record_size (unread b ++ future) ≡ size =
      record_size-append (unread b) future (omega (arith, len)) ∙ record_size-unread b pos in
    let total = length-append (unread b) future in
    next_record-some (unread b ++ future) (omega (arith, len)) (omega (arith, size_here, len))
    ∙ rw (size_here, front, left) refl

module _ (r : Readable) where
  open r use {Stream, rest}

  -- What `DecodeRecord` makes of the memory that begins with the record.
  abbrev pub deliver :
      Decoder Stream → Bytes → Decoder Stream → Result (Option Bytes × Decoder Stream)
  deliver d memory after =
      if d.needs_upgrade
      then (decode_record_compat d.version d.upgrade_policy d.ts_out memory >>= λ rec.
          ok (some rec, after))
      else ok (some memory, after)

  pub deliver-settings :
      (d d' : Decoder Stream) (memory : Bytes) (after : Decoder Stream)
      → settings r d' ≡ settings r d
      → deliver d' memory after ≡ deliver d memory after
  deliver-settings d d' memory after e =
      ap
        (λ (version, policy, ts_out, upgrade).
          if upgrade
          then (decode_record_compat version policy ts_out memory >>= λ rec. ok (some rec, after))
          else ok (some memory, after))
        e

  -- No record is left: none is returned, and a partial one is reported.
  pub record Ended (d : Decoder Stream) (result : Option (Result (Option Bytes × Decoder Stream)))
      : Type 0 where
    pub after : Decoder Stream
    pub returned : result ≡ some (ok (none, after))
    pub no_record : next_record (stream r d) ≡ none
    pub ready : IsReady r after
    pub same_stream : stream r after ≡ stream r d
    pub told : after.warnings ≡ warned (stream r d) d.warnings
    pub same_settings : settings r after ≡ settings r d

  -- The next record is returned, and the bytes behind it are left.
  pub record Delivered (d : Decoder Stream)
      (result : Option (Result (Option Bytes × Decoder Stream))) : Type 0 where
    pub after : Decoder Stream
    pub memory : Bytes
    pub returned : result ≡ some (deliver d memory after)
    pub is_next : next_record (stream r d) ≡ some (take (record_size memory) memory, stream r after)
    pub ready : IsReady r after
    pub quiet : after.warnings ≡ d.warnings
    pub same_settings : settings r after ≡ settings r d

  delivered :
      {d : Decoder Stream} {d' : Decoder Stream}
      → Settled r d true d'
      → Delivered d (some (take_record r d'))
  unfolding take_record Buffer.consume
  delivered {d} {d'} s =
      let b = d'.buffer in
      let memory = at_read_pos b in
      let size = record_size memory in
      let size_eq : record_size (stream r d) ≡ size =
        ap record_size (sym s.same_stream) ∙ record_size-stream r d' s.ready s.some_unread in
      let fits : size ≤ read_capacity b = omega (arith, s.held refl, size_eq) in
      let after = record d' { buffer = Buffer.consume size b } in
      let next = next_record-whole b (rest d'.input) s.ready.valid s.some_unread fits in
      record {
        after = after;
        memory = memory;
        returned = ap some (deliver-settings d d' memory after s.same_settings);
        is_next = ap next_record (sym s.same_stream) ∙ next;
        ready = record { valid = consume-IsValid size s.ready.valid fits; large = s.ready.large };
        quiet = s.warned;
        same_settings = s.same_settings;
      }

  ended :
      {d : Decoder Stream} {d' : Decoder Stream}
      → Settled r d false d'
      → Ended d (some (ok (none, d')))
  ended {d} {d'} s =
      let len = length-unread s.ready.valid in
      let some_left : 0 < length (stream r d) = omega (
        arith,
        s.some_unread,
        ap length s.same_stream,
        length-append (unread d'.buffer) (rest d'.input),
      ) in
      record {
        after = d';
        returned = refl;
        no_record = next_record-none (stream r d) (s.short refl);
        ready = s.ready;
        same_stream = s.same_stream;
        told = s.warned ∙ ground arith;
        same_settings = s.same_settings;
      }

  abbrev pub Outcome : Decoder Stream → Option (Result (Option Bytes × Decoder Stream)) → Type 0
  Outcome d result = Ended d result ⊎ Delivered d result

  Settled-Outcome :
      {d : Decoder Stream} (whole : Bool) (d' : Decoder Stream)
      → Settled r d whole d'
      → Outcome d (finish_record r (some (whole, d')))
  unfolding finish_record
  Settled-Outcome true d' s = inr (delivered s)
  Settled-Outcome false d' s = inl (ended s)

  pub settled_result :
      {d : Decoder Stream}
      → IsReady r d
      → 0 < read_capacity d.buffer
      → head_or_zero (stream r d) < 256
      → Outcome d (finish_record r (fill_record r decode_fuel d))
  settled_result {d} h pos byte =
      let (whole, d', runs, s) =
        fill_record-Settled r decode_fuel d h pos byte (omega arith) (omega arith) in
      subst (λ o. Outcome d (finish_record r o)) (sym runs) (Settled-Outcome whole d' s)
