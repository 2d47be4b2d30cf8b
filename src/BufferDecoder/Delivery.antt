-- ===== src/BufferDecoder/Delivery.antt =====
-- What the callbacks of `Historical::TimeseriesGetRange` are called with.
use databento_cpp.Base.{
  ℕ, ◌<◌, ◌≡◌, refl, sym, ap, ◌∙◌, arith, ◌⊎◌, Bool-cases, ◌==◌, inl, inr, none, some, List, [],
  ◌∷◌, ◌++◌, length, length-append, append-nil, length-replicate,
}
use databento_cpp.Base.Results.{ok}
use databento_cpp.Buffer
use databento_cpp.Buffer.{unread, default_buf_size}
use databento_cpp.Buffer.Bounds.{new-IsValid}
use databento_cpp.Buffer.Contents.{length-unread}
use databento_cpp.Upgrade.{Bytes}
use databento_cpp.Store.{continue, RecordCallback}
use databento_cpp.Store.Replay.{concat_records, visited, next_record-IsRecord, none≢some}
use databento_cpp.Decoder.Records.{next_record}
use databento_cpp.BufferDecoder.{
  new_decoder, ZstdStream, BufferDecoder, Processed, DecoderState, init, metadata, records,
  process_all, warning, unread_bytes,
}
use databento_cpp.BufferDecoder.Session.{
  Session, AreRecords, Owes, Lacks, Waiting, told, last_answer,
}
use databento_cpp.BufferDecoder.Chunks.{concat, process_all-Done}
use databento_cpp.BufferDecoder.Reads.{Stuck}
use databento_cpp.BufferDecoder.Loop.{Drained}
use databento_cpp.Decoder.Fill.{nil_of_length}
use mathlib.Core.Path.{subst}

-- A record that has not been called back with is still in the buffer as a whole.
no_records_left :
    (left : List Bytes) (tail u : Bytes)
    → AreRecords left tail
    → u ≡ concat_records left tail
    → next_record u ≡ none
    → left ≡ []
no_records_left [] tail u are same last = refl
no_records_left (rec ∷ left) tail u are same last = absurd (
    none≢some (
      sym last
      ∙ ap next_record same
      ∙ next_record-IsRecord rec (concat_records left tail) are.whole.0))

module _ {Stream : Type 0} (session : Session) where
  -- Where all bytes have been read, only the tail is unread.
  settled :
      (state : DecoderState) (d : BufferDecoder Stream) (left : List Bytes) (tail u : Bytes)
      → AreRecords left tail
      → Owes session state d (u ++ []) left tail
      → Lacks state d.bytes_needed u
      → (left ≡ []) × (u ≡ tail) × (d.metadata_calls ≡ told session)
  settled init d left tail u are (same, calls) lacks =
      let behind = session.frame ++ concat_records left tail in
      absurd (
        omega (
          arith,
          ap length same,
          length-append session.prelude behind,
          length-append u [],
          session.announces.eight,
        ))
  settled metadata d left tail u are (same, calls, version, needed, plain, room) lacks = absurd (
      omega (
        arith,
        ap length same,
        length-append u [],
        length-append session.frame (concat_records left tail),
      ))
  settled records d left tail u are (same, calls, plain) (last, short) =
      let same' = sym (append-nil u) ∙ same in
      let none_left = no_records_left left tail u are same' last in
      (none_left, same' ∙ ap (λ l. concat_records l tail) none_left, calls)

module _ (z : ZstdStream) (session : Session) where
  open z use {Stream, rest}

  new-Waiting :
      (input : Stream) (recs : List Bytes) (tail future : Bytes)
      → future ≡ session.prelude ++ (session.frame ++ concat_records recs tail)
      → Waiting session (new_decoder session.policy session.has_callback input) future recs tail
  unfolding new_decoder Buffer.new
  new-Waiting input recs tail future same = record {
    good = record {
      valid = new-IsValid default_buf_size;
      large = omega (arith, length-replicate default_buf_size (let z : ℕ = 0 in z));
      policy = refl;
      callback = refl;
      owes = (same, refl);
    };
    lacks = omega arith;
  }

  -- All was delivered: the metadata callback, if there is one, has been called once with the metadata,
  -- upgraded by the policy; the record callback has been called with exactly the records, in order and up
  -- to the first at which it stops; and unless it stops, the warning counts the bytes of the tail.
  pub record Complete (callback : RecordCallback) (recs : List Bytes) (tail : Bytes)
      (result : Processed Stream) : Type 0 where
    pub after : BufferDecoder Stream
    pub returned : result ≡ some (ok (last_answer callback [] recs, after))
    pub told_metadata : after.metadata_calls ≡ told session
    pub told_records : after.seen ≡ visited callback [] recs
    pub warned :
        warning (last_answer callback [] recs) (unread_bytes after)
        ≡ warning (last_answer callback [] recs) (length tail)

  -- The stream holds bytes back: it delivered nothing when it was last asked, with room for a byte. What
  -- is unread and what it holds are the rest of the session, and the record callback has been called
  -- with the records before the ones that are `left`.
  pub record HeldBack (callback : RecordCallback) (recs : List Bytes) (tail : Bytes)
      (result : Processed Stream) : Type 0 where
    pub after : BufferDecoder Stream
    pub left : List Bytes
    pub returned : result ≡ some (ok (continue, after))
    pub stuck : Stuck z after.zstd_stream
    pub held : 0 < length (rest after.zstd_stream [])
    pub waiting : Waiting session after (rest after.zstd_stream []) left tail
    pub told_records : visited callback after.seen left ≡ visited callback [] recs

  -- The last read found the end of the stream.
  Drained-Complete :
      (callback : RecordCallback) (recs : List Bytes) (tail : Bytes) (bound : ℕ)
      (result : Processed Stream)
      → (s : Drained z session callback [] recs tail [] bound result)
      → rest s.after.zstd_stream [] ≡ []
      → Complete callback recs tail result
  Drained-Complete callback recs tail bound result s at_end =
      let d = s.after in
      let u = unread d.dbn_buffer in
      let w = subst (λ x. Waiting session d x s.left tail) at_end s.waiting in
      let (none_left, left, calls) =
        settled session d.state d s.left tail u s.are_records w.good.owes w.lacks in
      let ends = sym (ap (last_answer callback d.seen) none_left) ∙ s.same_answer in
      record {
        after = d;
        returned = rw (sym ends) (s.returned);
        told_metadata = calls;
        told_records = sym (ap (visited callback d.seen) none_left) ∙ s.same_end;
        warned =
            ap (warning (last_answer callback [] recs))
              (sym (length-unread s.waiting.good.valid) ∙ ap length left);
      }

  Drained-Delivery :
      (callback : RecordCallback) (recs : List Bytes) (tail : Bytes) (bound : ℕ)
      (result : Processed Stream)
      → Drained z session callback [] recs tail [] bound result
      → Complete callback recs tail result ⊎ HeldBack callback recs tail result
  Drained-Delivery callback recs tail bound result s = elim s.idle [
    | inl at_end ↦ inl (Drained-Complete callback recs tail bound result s at_end)
    | inr stuck ↦
        let held = rest s.after.zstd_stream [] in
        elim (Bool-cases (length held == 0)) [
          | inl empty ↦ inl (
              Drained-Complete callback recs tail bound result s
                (nil_of_length held (ground arith)))
          | inr more ↦ inr (record {
            after = s.after;
            left = s.left;
            returned = s.returned;
            stuck = stuck;
            held = ground arith;
            waiting = s.waiting;
            told_records = s.same_end;
          })
        ]
  ]

  -- `TimeseriesGetRange`, where the chunks of the response decompress to metadata that need no upgrade,
  -- whole records and a tail that holds none, however the bytes are cut into chunks and however the
  -- stream cuts them into reads: with more fuel than there are bytes it ends. Either all was delivered:
  -- the metadata callback, if there is one, has been called once with the metadata, upgraded by the
  -- policy; the record callback has been called with exactly these records, in order and up to the first
  -- at which it stops; and unless it stops, the warning counts the bytes of the tail. Or it does not stop
  -- and the stream holds bytes back: it delivered nothing when it was last asked, with room for a byte;
  -- what is unread and what it holds are the rest of the session; and the record callback has been called
  -- with the records before that rest.
  pub process_all_lem :
      (fuel : ℕ) (callback : RecordCallback) (chunks : List (List ℕ)) (input : Stream)
      (recs : List Bytes) (tail : Bytes)
      → rest input [] ≡ []
      → rest input (concat chunks) ≡ session.prelude ++ (session.frame ++ concat_records recs tail)
      → AreRecords recs tail
      → length (rest input (concat chunks)) < fuel
      → let result =
          process_all z fuel callback chunks
            (new_decoder session.policy session.has_callback input) in
        Complete callback recs tail result ⊎ HeldBack callback recs tail result
  unfolding new_decoder
  process_all_lem fuel callback chunks input recs tail empty same are enough =
      let d0 = new_decoder session.policy session.has_callback input in
      let result = process_all z fuel callback chunks d0 in
      let bytes = rest input (concat chunks) in
      let waiting = new-Waiting input recs tail bytes same in
      let done =
        process_all-Done z session fuel callback chunks d0 recs tail are (inl empty) waiting
          enough in
      elim done [
        | inl s ↦ inl (record {
          after = s.after;
          returned = rw (s.told_stop) (s.returned);
          told_metadata = s.told_metadata;
          told_records = s.told_records;
          warned = rw (s.told_stop) refl;
        })
        | inr s ↦ Drained-Delivery callback recs tail (length bytes) result s
      ]
