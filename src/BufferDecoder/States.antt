-- ===== src/BufferDecoder/States.antt =====
-- The `switch` of `DbnBufferDecoder::Process`: what the states `Init` and `Metadata` do before they fall
-- through.
use databento_cpp.Base.{
  ◌≤◌, ◌≡◌, refl, sym, ap, ◌∙◌, arith, inl, inr, some, List, ◌++◌, length, drop, ltb, Bool-cases,
}
use mathlib.Core.Path.{subst}
use databento_cpp.Base.Results.{ok}
use databento_cpp.Buffer.{read_capacity, unread}
use databento_cpp.Buffer.Contents.{length-unread}
use databento_cpp.Upgrade.{Bytes}
use databento_cpp.Metadata.Decode.{decode_metadata_version_and_size, decode_metadata_fields}
use databento_cpp.Store.{continue, RecordCallback}
use databento_cpp.Store.Replay.{concat_records}
use databento_cpp.BufferDecoder.{
  BufferDecoder, DecoderState, init, metadata, records, on_records, on_metadata, on_init, on_state,
  with_metadata, with_prelude,
}
use databento_cpp.BufferDecoder.Session.{Session, AreRecords, Owes, Lacks, Good, Handled}
use databento_cpp.BufferDecoder.Steps.{AtRecords, records_loop-Handled}
use databento_cpp.BufferDecoder.Behind.{
  split, version_and_size-append, with_metadata-AtRecords, with_prelude-Good, Good-AtRecords,
}

module _ {Stream : Type 0} (session : Session) where
  -- Nothing has changed where a state still waits.
  still_waits :
      (callback : RecordCallback) (d : BufferDecoder Stream) (future : Bytes) (recs : List Bytes)
      (tail : Bytes)
      → AreRecords recs tail
      → Good session d future recs tail
      → Lacks d.state d.bytes_needed (unread d.dbn_buffer)
      → Handled session callback d.seen recs tail future d.zstd_stream (some (ok (continue, d)))
  still_waits callback d future recs tail are g lacks = inr (record {
    after = d;
    left = recs;
    returned = refl;
    are_records = are;
    waiting = record { good = g; lacks = lacks };
    same_end = refl;
    same_answer = refl;
    same_input = refl;
  })

  on_records-Handled :
      (callback : RecordCallback) (d : BufferDecoder Stream) (future : Bytes) (recs : List Bytes)
      (tail : Bytes)
      → AreRecords recs tail
      → AtRecords session d future recs tail
      → Handled session callback d.seen recs tail future d.zstd_stream (on_records callback d)
  unfolding on_records
  on_records-Handled callback d future recs tail are a =
      records_loop-Handled session _ callback d future recs tail are a (omega arith)

  -- `case DecoderState::Metadata`
  on_metadata-Handled :
      (callback : RecordCallback) (d : BufferDecoder Stream) (future : Bytes) (recs : List Bytes)
      (tail : Bytes)
      → AreRecords recs tail
      → Good session d future recs tail
      → d.state ≡ metadata
      → Handled session callback d.seen recs tail future d.zstd_stream (on_metadata callback d)
  unfolding on_metadata with_metadata
  on_metadata-Handled callback d future recs tail are g at =
      let u = unread d.dbn_buffer in
      let len = length-unread g.valid in
      let owes = subst (λ s. Owes session s d (u ++ future) recs tail) at g.owes in
      let (same, calls, version, needed, plain, room) = owes in
      elim (Bool-cases (ltb (read_capacity d.dbn_buffer) d.bytes_needed)) [
        | inl short ↦ rw short (
            still_waits callback d future recs tail are g
              (subst (λ s. Lacks s d.bytes_needed u) (sym at) (ground arith)))
        | inr whole ↦
            let fits : length session.frame ≤ length u = ground (arith, needed) in
            let s = split u future session.frame (concat_records recs tail) same fits in
            let decoded =
              ap (decode_metadata_fields d.input_version) s.split
              ∙ ap (λ v. decode_metadata_fields v (session.frame ++ drop (length session.frame) u))
                  version
              ∙ session.announces.fields (drop (length session.frame) u) in
            rw (whole, decoded)
              (on_records-Handled callback (with_metadata session.decoded d) future recs tail are
                (with_metadata-AtRecords session d future recs tail g owes fits))
      ]

  -- `case DecoderState::Init`
  on_init-Handled :
      (callback : RecordCallback) (d : BufferDecoder Stream) (future : Bytes) (recs : List Bytes)
      (tail : Bytes)
      → AreRecords recs tail
      → Good session d future recs tail
      → d.state ≡ init
      → Handled session callback d.seen recs tail future d.zstd_stream (on_init callback d)
  unfolding on_init with_prelude
  on_init-Handled callback d future recs tail are g at =
      let u = unread d.dbn_buffer in
      let len = length-unread g.valid in
      let owes = subst (λ s. Owes session s d (u ++ future) recs tail) at g.owes in
      elim (Bool-cases (ltb (read_capacity d.dbn_buffer) 8)) [
        | inl short ↦ rw short (
            still_waits callback d future recs tail are g
              (subst (λ s. Lacks s d.bytes_needed u) (sym at) (ground arith)))
        | inr whole ↦
            let eight = session.announces.eight in
            let s =
              split u future session.prelude (session.frame ++ concat_records recs tail) owes.0
                (ground arith) in
            let announced =
              ap decode_metadata_version_and_size s.split
              ∙ version_and_size-append session.prelude (drop (length session.prelude) u) eight
              ∙ session.announces.announced in
            rw (whole, announced)
              (on_metadata-Handled callback (with_prelude (session.version, length session.frame) d)
                future recs tail are
                (with_prelude-Good session d future recs tail g owes (ground arith)) refl)
      ]

  -- The `switch`.
  pub on_state-Handled :
      (state : DecoderState) (callback : RecordCallback) (d : BufferDecoder Stream) (future : Bytes)
      (recs : List Bytes) (tail : Bytes)
      → AreRecords recs tail
      → Good session d future recs tail
      → d.state ≡ state
      → Handled session callback d.seen recs tail future d.zstd_stream (on_state state callback d)
  on_state-Handled init callback d future recs tail are g at =
      on_init-Handled callback d future recs tail are g at
  on_state-Handled metadata callback d future recs tail are g at =
      on_metadata-Handled callback d future recs tail are g at
  on_state-Handled records callback d future recs tail are g at =
      on_records-Handled callback d future recs tail are
        (Good-AtRecords session d future recs tail g at)
