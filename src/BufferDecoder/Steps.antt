-- ===== src/BufferDecoder/Steps.antt =====
-- The `while` loop of `DbnBufferDecoder::Process` in the state `Records`.
use databento_cpp.Base.{
  ℕ, zero, suc, ◌≤◌, ◌<◌, ◌≡◌, refl, sym, arith, ◌⊎◌, inl, inr, true, false, some, List, [], ◌∷◌,
  ◌++◌, length, ltb, ◌==◌, Bool-cases,
}
use mathlib.Core.Path.{subst}
use databento_cpp.Base.Results.{ok}
use databento_cpp.Buffer
use databento_cpp.Buffer.{Buffer, capacity, read_capacity, unread}
use databento_cpp.Buffer.Bounds.{IsValid, consume-IsValid}
use databento_cpp.Buffer.Contents.{length-unread}
use databento_cpp.Upgrade.{Bytes, record_size, head_or_zero}
use databento_cpp.Decoder.{at_read_pos}
use databento_cpp.Decoder.Fill.{record_size-unread}
use databento_cpp.Store.{KeepGoing, continue, stop, RecordCallback}
use databento_cpp.Store.Replay.{IsRecord, concat_records, head_or_zero-concat}
use databento_cpp.BufferDecoder.{BufferDecoder, records, Processed, records_loop, unless_stop}
use databento_cpp.BufferDecoder.Session.{Session, AreRecords, Owes, Lacks, told, Continued, Handled}
use databento_cpp.BufferDecoder.Whole.{
  next_record-short, head_or_zero-unread, FirstIn, first_in, IsShort, IsShort-cases, tail_not_whole,
  taken, behind_it, records_loop-whole,
}

module _ {Stream : Type 0} (session : Session) where
  -- The state `Records`, where the records `recs` and the tail are still to come.
  pub record AtRecords (d : BufferDecoder Stream) (future : Bytes) (recs : List Bytes)
      (tail : Bytes) : Type 0 where
    pub valid : IsValid d.dbn_buffer
    pub large : 1020 < capacity d.dbn_buffer
    pub policy : d.upgrade_policy ≡ session.policy
    pub callback : d.has_metadata_callback ≡ session.has_callback
    pub at : d.state ≡ records
    pub same : unread d.dbn_buffer ++ future ≡ concat_records recs tail
    pub calls : d.metadata_calls ≡ told session
    pub plain : d.needs_upgrade ≡ false

  waits :
      (callback : RecordCallback) (d : BufferDecoder Stream) (future : Bytes) (recs : List Bytes)
      (tail : Bytes)
      → AreRecords recs tail
      → AtRecords d future recs tail
      → (read_capacity d.dbn_buffer ≡ 0)
        ⊎ (read_capacity d.dbn_buffer < record_size (unread d.dbn_buffer))
      → Continued session callback d.seen recs tail future d.zstd_stream (some (ok (continue, d)))
  waits callback d future recs tail are a short =
      let u = unread d.dbn_buffer in
      let len = length-unread a.valid in
      let bounded =
        subst (λ s. head_or_zero s < 256) (sym a.same)
          (head_or_zero-concat recs tail are.whole are.byte) in
      let short' : (length u ≡ 0) ⊎ (length u < record_size u) = ground arith in
      record {
        after = d;
        left = recs;
        returned = refl;
        are_records = are;
        waiting = record {
          good = record {
            valid = a.valid;
            large = a.large;
            policy = a.policy;
            callback = a.callback;
            owes =
                subst (λ s. Owes session s d (u ++ future) recs tail) (sym a.at)
                  (a.same, a.calls, a.plain);
          };
          lacks =
              subst (λ s. Lacks s d.bytes_needed u) (sym a.at)
                (next_record-short u short', ground (arith, head_or_zero-unread u future bounded));
        };
        same_end = refl;
        same_answer = refl;
        same_input = refl;
      }

  -- The loop where the buffer holds less than a record.
  records_loop-short :
      (fuel : ℕ) (callback : RecordCallback) (d : BufferDecoder Stream) (future : Bytes)
      (recs : List Bytes) (tail : Bytes)
      → AreRecords recs tail
      → AtRecords d future recs tail
      → IsShort d.dbn_buffer
      → Continued session callback d.seen recs tail future d.zstd_stream
          (records_loop (suc fuel) callback d)
  unfolding records_loop
  records_loop-short fuel callback d future recs tail are a short =
      let b = d.dbn_buffer in
      let needed = record_size (at_read_pos b) in
      let size = record_size-unread b in
      let d1 : BufferDecoder Stream = record d { bytes_needed = needed } in
      let a1 : AtRecords d1 future recs tail = record {
        valid = a.valid;
        large = a.large;
        policy = a.policy;
        callback = a.callback;
        at = a.at;
        same = a.same;
        calls = a.calls;
        plain = a.plain;
      } in
      elim (Bool-cases (read_capacity b == 0)) [
        | inl empty ↦ rw empty (waits callback d future recs tail are a (inl (ground arith)))
        | inr full ↦
            let some_short : read_capacity b < needed = ground arith in
            let test : ltb (read_capacity b) needed ≡ true = ground arith in
            let shorter : read_capacity b < record_size (unread b) =
              omega (arith, size (ground arith)) in
            rw (full, test) (waits callback d1 future recs tail are a1 (inr shorter))
      ]

  -- Behind a record that the buffer held.
  behind-AtRecords :
      (d : BufferDecoder Stream) (future rec : Bytes) (recs : List Bytes) (tail : Bytes)
      → AtRecords d future (rec ∷ recs) tail
      → record_size (at_read_pos d.dbn_buffer) ≤ read_capacity d.dbn_buffer
      → FirstIn d.dbn_buffer future rec (concat_records recs tail)
      → AtRecords (behind_it d rec) future recs tail
  unfolding Buffer.consume
  behind-AtRecords d future rec recs tail a fits first = record {
    valid = consume-IsValid (record_size (at_read_pos d.dbn_buffer)) a.valid fits;
    large = a.large;
    policy = a.policy;
    callback = a.callback;
    at = a.at;
    same = first.behind;
    calls = a.calls;
    plain = a.plain;
  }

  behind_shorter :
      {fuel : ℕ} {future rest : Bytes} (d : BufferDecoder Stream) (rec : Bytes)
      → IsRecord rec
      → FirstIn d.dbn_buffer future rec rest
      → 0 < read_capacity d.dbn_buffer
      → read_capacity d.dbn_buffer < suc fuel
      → read_capacity (behind_it d rec).dbn_buffer < fuel
  unfolding Buffer.consume
  behind_shorter d rec h first pos enough = omega (arith, first.size, h.some_words, h.sized)

  -- Whether the callback stops or not.
  unless_stop-Handled :
      (k : KeepGoing) (callback : RecordCallback) (rec : Bytes) (seen recs : List Bytes)
      (tail future : Bytes) (input : Stream) (last : BufferDecoder Stream) (more : Processed Stream)
      → callback (rec ∷ seen) ≡ k
      → last.seen ≡ rec ∷ seen
      → last.metadata_calls ≡ told session
      → Handled session callback (rec ∷ seen) recs tail future input more
      → Handled session callback seen
          (rec ∷ recs)
          tail
          future
          input
          (unless_stop k (some (ok (stop, last))) more)
  unless_stop-Handled stop callback rec seen recs tail future input last more e now calls h =
      inl (record {
        after = last;
        returned = refl;
        told_records = rw e now;
        told_stop = rw e refl;
        told_metadata = calls;
      })
  unless_stop-Handled continue callback rec seen recs tail future input last more e now calls
        (inl h) =
      inl (record {
        after = h.after;
        returned = h.returned;
        told_records = rw e (h.told_records);
        told_stop = rw e (h.told_stop);
        told_metadata = h.told_metadata;
      })
  unless_stop-Handled continue callback rec seen recs tail future input last more e now calls
        (inr h) =
      inr (record {
        after = h.after;
        left = h.left;
        returned = h.returned;
        are_records = h.are_records;
        waiting = h.waiting;
        same_end = rw e (h.same_end);
        same_answer = rw e (h.same_answer);
        same_input = h.same_input;
      })

  -- The loop, on enough fuel: the callback gets the whole records of the buffer, up to the one at which
  -- it stops.
  pub records_loop-Handled :
      (fuel : ℕ) (callback : RecordCallback) (d : BufferDecoder Stream) (future : Bytes)
      (recs : List Bytes) (tail : Bytes)
      → AreRecords recs tail
      → AtRecords d future recs tail
      → read_capacity d.dbn_buffer < fuel
      → Handled session callback d.seen recs tail future d.zstd_stream
          (records_loop fuel callback d)
  records_loop-Handled zero callback d future recs tail are a enough = absurd (omega arith)
  records_loop-Handled (suc fuel) callback d future [] tail are a enough =
      elim (IsShort-cases d.dbn_buffer) [
        | inl short ↦ inr (records_loop-short fuel callback d future [] tail are a short)
        | inr (pos, fits) ↦
            absurd (tail_not_whole d.dbn_buffer future tail a.valid a.same are.last pos fits)
      ]
  records_loop-Handled (suc fuel) callback d future (rec ∷ recs) tail are a enough =
      let (is_rec, all) = are.whole in
      let are' : AreRecords recs tail = record { whole = all; byte = are.byte; last = are.last } in
      elim (IsShort-cases d.dbn_buffer) [
        | inl short ↦ inr (records_loop-short fuel callback d future (rec ∷ recs) tail are a short)
        | inr (pos, fits) ↦
            let first =
              first_in d.dbn_buffer future rec (concat_records recs tail) a.valid is_rec a.same pos
                fits in
            let later =
              records_loop-Handled fuel callback (behind_it d rec) future recs tail are'
                (behind-AtRecords d future rec recs tail a fits first)
                (behind_shorter d rec is_rec first pos enough) in
            let step = records_loop-whole fuel callback d rec a.plain pos fits first.front in
            rw step (
              unless_stop-Handled (callback (rec ∷ d.seen)) callback rec d.seen recs tail future
                d.zstd_stream (taken d rec) (records_loop fuel callback (behind_it d rec)) refl refl
                a.calls later)
      ]
