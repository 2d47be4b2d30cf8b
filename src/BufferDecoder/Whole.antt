-- ===== src/BufferDecoder/Whole.antt =====
-- Whether the buffer of `DbnBufferDecoder` holds a whole record, and what the loop does with it.
use databento_cpp.Base.{
  ℕ, suc, ◌≤◌, ◌<◌, ◌≡◌, refl, sym, ap, ◌∙◌, arith, ◌⊎◌, inl, inr, false, none, some, [], ◌∷◌, ◌++◌,
  length, take, drop, ltb, ◌==◌, Bool-cases, length-append, take-append, drop-append,
  take-append_le, drop-append_le, take-take,
}
use databento_cpp.Base.Results.{ok}
use databento_cpp.Buffer
use databento_cpp.Buffer.{Buffer, capacity, read_capacity, unread}
use databento_cpp.Buffer.Bounds.{IsValid}
use databento_cpp.Buffer.Contents.{length-unread}
use databento_cpp.Upgrade.{Bytes, record_size, head_or_zero}
use databento_cpp.Decoder.{at_read_pos}
use databento_cpp.Decoder.Fill.{record_size-append, record_size-unread}
use databento_cpp.Decoder.Records.{next_record, next_record-none, next_record-some, unread-consume}
use databento_cpp.Store.{stop, RecordCallback}
use databento_cpp.Store.Replay.{IsRecord, none≢some}
use databento_cpp.BufferDecoder.{BufferDecoder, records_loop, unless_stop}

-- Where the buffer holds less than a record, no record is next.
pub next_record-short :
    (u : Bytes) → (length u ≡ 0) ⊎ (length u < record_size u) → next_record u ≡ none
next_record-short u (inl e) = ground arith
next_record-short u (inr h) = next_record-none u h

pub head_or_zero-unread :
    (u future : Bytes)
    → head_or_zero (u ++ future) < 256
    → length u < record_size u
    → length u ≤ 1020
head_or_zero-unread [] future h short = omega arith
head_or_zero-unread (x ∷ u) future h short = omega arith

-- A stream with no whole record in it is shorter than what its first byte says.
pub short_tail :
    (tail : Bytes) → 0 < length tail → next_record tail ≡ none → length tail < record_size tail
short_tail tail pos e = elim (Bool-cases (ltb (length tail) (record_size tail))) [
  | inl short ↦ ground arith
  | inr long ↦ absurd (none≢some (sym e ∙ next_record-some tail pos (ground arith)))
]

-- The first of the records, where it is in the buffer as a whole.
pub record FirstIn (b : Buffer) (future rec rest : Bytes) : Type 0 where
  pub size : record_size (at_read_pos b) ≡ length rec
  pub front : take (record_size (at_read_pos b)) (at_read_pos b) ≡ rec
  pub behind : unread (Buffer.consume (record_size (at_read_pos b)) b) ++ future ≡ rest

pub first_in :
    (b : Buffer) (future rec rest : Bytes)
    → IsValid b
    → IsRecord rec
    → unread b ++ future ≡ rec ++ rest
    → 0 < read_capacity b
    → record_size (at_read_pos b) ≤ read_capacity b
    → FirstIn b future rec rest
first_in b future rec rest v h same pos fits =
    let memory = at_read_pos b in
    let len = length-unread v in
    let size : record_size memory ≡ length rec =
      sym (record_size-unread b pos)
      ∙ sym (record_size-append (unread b) future (omega arith))
      ∙ ap record_size same
      ∙ record_size-append rec rest (omega (arith, h.some_words, h.sized))
      ∙ sym h.sized in
    record {
      size = size;
      front =
          sym (take-take (record_size memory) (read_capacity b) memory fits)
          ∙ sym (take-append_le (record_size memory) (unread b) future (omega arith))
          ∙ ap (take (record_size memory)) same
          ∙ take-append (record_size memory) rec rest (sym size);
      behind =
          ap (λ u. u ++ future) (unread-consume b (record_size memory) fits)
          ∙ sym (drop-append_le (record_size memory) (unread b) future (omega arith))
          ∙ ap (drop (record_size memory)) same
          ∙ drop-append (record_size memory) rec rest (sym size);
    }

-- What is in the buffer: less than a record, or a whole one.
abbrev pub IsShort : Buffer → Type 0
IsShort b = (read_capacity b ≡ 0) ⊎ (read_capacity b < record_size (at_read_pos b))

pub IsShort-cases :
    (b : Buffer)
    → IsShort b ⊎ ((0 < read_capacity b) × (record_size (at_read_pos b) ≤ read_capacity b))
IsShort-cases b = elim (Bool-cases (read_capacity b == 0)) [
  | inl empty ↦ inl (inl (ground arith))
  | inr full ↦ elim (Bool-cases (ltb (read_capacity b) (record_size (at_read_pos b)))) [
    | inl short ↦ inl (inr (ground arith))
    | inr whole ↦ inr (ground arith, ground arith)
  ]
]

-- No whole record is in the buffer where none is to come.
pub tail_not_whole :
    (b : Buffer) (future tail : Bytes)
    → IsValid b
    → unread b ++ future ≡ tail
    → next_record tail ≡ none
    → 0 < read_capacity b
    → record_size (at_read_pos b) ≤ read_capacity b
    → ⊥
tail_not_whole b future tail v same last pos fits =
    let len = length-unread v in
    let total = length-append (unread b) future in
    let some_left : 0 < length tail = omega (arith, ap length same) in
    let short = short_tail tail some_left last in
    let size =
      sym (ap record_size same)
      ∙ record_size-append (unread b) future (omega arith)
      ∙ record_size-unread b pos in
    omega (arith, ap length same)

module _ {Stream : Type 0} where
  -- What the loop does with a whole record.
  abbrev pub taken : BufferDecoder Stream → Bytes → BufferDecoder Stream
  taken d rec = record d {
    bytes_needed = record_size (at_read_pos d.dbn_buffer);
    seen = rec ∷ d.seen;
  }

  abbrev pub behind_it : BufferDecoder Stream → Bytes → BufferDecoder Stream
  behind_it d rec =
      let size = record_size (at_read_pos d.dbn_buffer) in
      record (taken d rec) { dbn_buffer = Buffer.consume size d.dbn_buffer }

  -- The loop where the buffer holds a whole record.
  pub records_loop-whole :
      (fuel : ℕ) (callback : RecordCallback) (d : BufferDecoder Stream) (rec : Bytes)
      → d.needs_upgrade ≡ false
      → 0 < read_capacity d.dbn_buffer
      → record_size (at_read_pos d.dbn_buffer) ≤ read_capacity d.dbn_buffer
      → take (record_size (at_read_pos d.dbn_buffer)) (at_read_pos d.dbn_buffer) ≡ rec
      → records_loop (suc fuel) callback d
        ≡ unless_stop
            (callback (rec ∷ d.seen))
            (some (ok (stop, taken d rec)))
            (records_loop fuel callback (behind_it d rec))
  unfolding records_loop
  records_loop-whole fuel callback d rec plain pos fits front =
      let some_left : (read_capacity d.dbn_buffer == 0) ≡ false = ground arith in
      let whole : ltb (read_capacity d.dbn_buffer) (record_size (at_read_pos d.dbn_buffer))
          ≡ false =
        ground arith in
      rw (plain, some_left, whole, front) refl
